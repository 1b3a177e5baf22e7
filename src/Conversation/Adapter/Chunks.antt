-- ===== src/Conversation/Adapter/Chunks.antt =====
-- How the body is cut into chunks makes no difference.
use eap.Prelude.{
  String, true, false, ◌||◌, ◌≡◌, refl, sym, ap, ◌∙◌, List, [], ◌∷◌, ◌++◌, Bool-cases, if_true,
  if_false, inl, inr, ◌==◌, arith,
}
use Prim.Native.Char.{Char, code}
use Prim.Native.String
use text.Mathlib.TextLemmas.{append_assoc, append-nil, nil-append}
use eap.Conversation.Lines.{is_empty, prepend, split_lines, split_lines-append}
use eap.Conversation.Adapter.{
  Turn, Stream, opened, handle_sse_line, handle_lines, flush, read_chunks, stream_events,
}

abbrev pub concat : List String → String
concat [] = ""
concat (s ∷ ss) = String.◌++◌ s (concat ss)

-- The reference: the whole text is cut into lines, the lines are handled one after the other, and
-- then what no line feed ends.
unfoldable pub read_text : Turn → String → Stream → Stream
unfolding handle_lines flush
read_text t text s = let (lines, rest) = split_lines text in flush t rest (handle_lines t lines s)

pub handle_lines-over :
    (t : Turn) (ls : List String) (s : Stream) → s.is_over ≡ true → handle_lines t ls s ≡ s
unfolding handle_lines
handle_lines-over t [] s h = refl
handle_lines-over t (l ∷ ls) s h = if_true s.is_over s (handle_lines t ls (handle_sse_line t l s)) h

handle_lines-append :
    (t : Turn) (ls ms : List String) (s : Stream)
    → handle_lines t (ls ++ ms) s ≡ handle_lines t ms (handle_lines t ls s)
unfolding handle_lines
handle_lines-append t [] ms s = refl
handle_lines-append t (l ∷ ls) ms s = elim (Bool-cases s.is_over) [
  | inl e ↦
      handle_lines-over t (l ∷ ls ++ ms) s e
      ∙ sym (handle_lines-over t ms s e)
      ∙ ap (handle_lines t ms) (sym (handle_lines-over t (l ∷ ls) s e))
  | inr e ↦
      if_false s.is_over s (handle_lines t (ls ++ ms) (handle_sse_line t l s)) e
      ∙ handle_lines-append t ls ms (handle_sse_line t l s)
      ∙ ap (handle_lines t ms)
          (sym (if_false s.is_over s (handle_lines t ls (handle_sse_line t l s)) e))
]

rest_join :
    (c : Char) (ls : List String) (r : String)
    → (code c == 10) ≡ false
    → split_lines r ≡ ([], r)
    → split_lines (prepend c (ls, r)).1 ≡ ([], (prepend c (ls, r)).1)
unfolding split_lines
rest_join c [] r e h = rw (e, h) refl
rest_join c (l ∷ ls) r e h = h

-- the text after the last line feed holds none
split_rest : (s : String) → split_lines (split_lines s).1 ≡ ([], (split_lines s).1)
unfolding split_lines
split_rest String.[] = refl
split_rest (String.◌∷◌ c s) = elim (Bool-cases (code c == 10)) [
  | inl e ↦ rw e (split_rest s)
  | inr e ↦ rw e (rest_join c (split_lines s).0 (split_lines s).1 e (split_rest s))
]

read_over : (t : Turn) (text : String) (s : Stream) → s.is_over ≡ true → read_text t text s ≡ s
unfolding read_text flush
read_over t text s h =
    ap (flush t (split_lines text).1) (handle_lines-over t (split_lines text).0 s h)
    ∙ if_true (s.is_over || is_empty (split_lines text).1) s
        (handle_sse_line t (split_lines text).1 s) (ground arith)

read_text-append :
    (t : Turn) (a b : String) (s : Stream)
    → read_text t (String.◌++◌ a b) s
      ≡ read_text t (String.◌++◌ (split_lines a).1 b) (handle_lines t (split_lines a).0 s)
unfolding read_text
read_text-append t a b s = rw (split_lines-append a b) (
    ap (flush t (split_lines (String.◌++◌ (split_lines a).1 b)).1)
      (handle_lines-append t (split_lines a).0 (split_lines (String.◌++◌ (split_lines a).1 b)).0 s))

chunks_exact :
    (t : Turn) (chunks : List String) (buffer : String) (s : Stream)
    → split_lines buffer ≡ ([], buffer)
    → read_chunks t chunks buffer s ≡ read_text t (String.◌++◌ buffer (concat chunks)) s
unfolding read_chunks read_text handle_lines
chunks_exact t [] buffer s h = rw (append-nil buffer, h) refl
chunks_exact t (c ∷ cs) buffer s h = elim (Bool-cases s.is_over) [
  | inl e ↦
      if_true s.is_over s
        (read_chunks t cs (split_lines (String.◌++◌ buffer c)).1
          (handle_lines t (split_lines (String.◌++◌ buffer c)).0 s))
        e
      ∙ sym (read_over t (String.◌++◌ buffer (concat (c ∷ cs))) s e)
  | inr e ↦
      if_false s.is_over s
        (read_chunks t cs (split_lines (String.◌++◌ buffer c)).1
          (handle_lines t (split_lines (String.◌++◌ buffer c)).0 s))
        e
      ∙ chunks_exact t cs (split_lines (String.◌++◌ buffer c)).1
          (handle_lines t (split_lines (String.◌++◌ buffer c)).0 s)
          (split_rest (String.◌++◌ buffer c))
      ∙ sym (
          ap (λ text. read_text t text s) (sym (append_assoc buffer c (concat cs)))
          ∙ read_text-append t (String.◌++◌ buffer c) (concat cs) s)
]

-- The stream is over with the same events, publications and outcome, however the decoded body is
-- cut into chunks: it is read as the lines of the whole text, up to the one that ends the stream.
pub stream_events-exact :
    (t : Turn) (chunks : List String) → stream_events t chunks ≡ read_text t (concat chunks) opened
unfolding stream_events split_lines
stream_events-exact t chunks =
    chunks_exact t chunks "" opened refl
    ∙ ap (λ text. read_text t text opened) (nil-append (concat chunks))
