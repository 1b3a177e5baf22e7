-- ===== src/Conversation/Lines.antt =====
-- Text by lines, and Python's `startswith` and `strip`, for the stream reader of
-- apps/backend/app/services/dify_conversation_adapter.py.
use eap.Prelude.{
  ℕ, String, Bool, true, false, ◌&&◌, ◌||◌, ◌≡◌, refl, Option, none, some, List, [], ◌∷◌, ◌++◌, leb,
  ◌==◌, if◌then◌else◌, Bool-cases, inl, inr,
}
use Prim.Native.Char.{Char, code}
use Prim.Native.String
use text.Mathlib.TextLemmas.{cons-append}

-- `str.isspace` of one character
abbrev pub is_space : ℕ → Bool
is_space c =
    leb 9 c && leb c 13
    || (leb 28 c && leb c 32
        || (c == 133
            || c == 160
            || c == 5760
            || (leb 8192 c && leb c 8202
                || (c == 8232 || c == 8233 || c == 8239 || c == 8287 || c == 12288))))

abbrev pub is_empty : String → Bool
is_empty String.[] = true
is_empty (String.◌∷◌ c s) = false

unfoldable pub strip_left : String → String
strip_left String.[] = ""
strip_left (String.◌∷◌ c s) =
    let rest = strip_left s in if is_space (code c) then rest else String.◌∷◌ c s

unfoldable pub strip_right : String → String
strip_right String.[] = ""
strip_right (String.◌∷◌ c s) =
    let rest = strip_right s in if is_space (code c) && is_empty rest then "" else String.◌∷◌ c rest

unfoldable pub strip : String → String
unfolding strip_left strip_right
strip s = strip_right (strip_left s)

-- what follows a prefix, if the text starts with it
unfoldable pub after_prefix : (prefix s : String) → Option String
after_prefix String.[] s = some s
after_prefix (String.◌∷◌ p ps) String.[] = none
after_prefix (String.◌∷◌ p ps) (String.◌∷◌ c s) =
    let rest = after_prefix ps s in if code p == code c then rest else none

-- a character before the first of some lines and what follows them
abbrev pub prepend : Char → List String × String → List String × String
prepend c ([], last) = ([], String.◌∷◌ c last)
prepend c (line ∷ lines, last) = (String.◌∷◌ c line ∷ lines, last)

-- `split("\n")`: the lines that are ended, and the text after the last line feed
unfoldable pub split_lines : String → List String × String
split_lines String.[] = ([], "")
split_lines (String.◌∷◌ c s) =
    let rest = split_lines s in if code c == 10 then ("" ∷ rest.0, rest.1) else prepend c rest

prepend-join :
    (c : Char) (ls : List String) (r t : String)
    → (code c == 10) ≡ false
    → prepend c (ls ++ (split_lines (String.◌++◌ r t)).0, (split_lines (String.◌++◌ r t)).1) ≡ (
      (prepend c (ls, r)).0 ++ (split_lines (String.◌++◌ (prepend c (ls, r)).1 t)).0,
      (split_lines (String.◌++◌ (prepend c (ls, r)).1 t)).1,
    )
unfolding split_lines
prepend-join c [] r t e = rw (cons-append c r t, e) refl
prepend-join c (l ∷ ls) r t e = refl

-- the lines of two texts in a row: what the first leaves is continued by the second
pub split_lines-append :
    (s t : String)
    → split_lines (String.◌++◌ s t) ≡ (
      (split_lines s).0 ++ (split_lines (String.◌++◌ (split_lines s).1 t)).0,
      (split_lines (String.◌++◌ (split_lines s).1 t)).1,
    )
unfolding split_lines
split_lines-append String.[] t = refl
split_lines-append (String.◌∷◌ c s) t =
    rw (cons-append c s t, split_lines-append s t)
      (elim (Bool-cases (code c == 10)) [
        | inl e ↦ rw e refl
        | inr e ↦ rw e (prepend-join c (split_lines s).0 (split_lines s).1 t e)
      ])

test_split : split_lines "ab\nc" ≡ ("ab" ∷ [], "c")
unfolding split_lines
test_split = refl

test_strip : strip "  a b " ≡ "a b"
unfolding strip strip_left strip_right
test_strip = refl
