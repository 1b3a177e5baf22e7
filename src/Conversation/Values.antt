-- ===== src/Conversation/Values.antt =====
-- What Python does with the JSON values of a frame: `d.get(key)`, `x or y`, slices, and keys of a
-- dictionary. `none` is an exception (`AttributeError`, `TypeError`) that ends the stream.
use eap.Prelude.{
  ℕ, zero, suc, String, Bool, true, false, not, Option, none, some, ◌==◌, if◌then◌else◌, str_eq,
}
use eap.Json.{
  ℤ, pos, negsuc, Json, null, bool, num, text, arr, obj, Items, nil, cons, Fields, end, field, get,
}

infixl 5 ◌>>=◌
abbrev pub ◌>>=◌ {ℓ κ} : {A : Type ℓ} {B : Type κ} → Option A → (A → Option B) → Option B
none >>= next = none
some value >>= next = next value

-- `bool(value)`
abbrev pub truthy : Json → Bool
truthy null = false
truthy (bool b) = b
truthy (num (pos n)) = not (n == 0)
truthy (num (negsuc n)) = true
truthy (text String.[]) = false
truthy (text (String.◌∷◌ c s)) = true
truthy (arr nil) = false
truthy (arr (cons x xs)) = true
truthy (obj end) = false
truthy (obj (field k v rest)) = true

abbrev or_null : Option Json → Json
or_null none = null
or_null (some value) = value

-- `d.get(key)`
unfoldable pub at : Fields → String → Json
unfolding get
at d key = or_null (get d key)

-- `value or {}`, of which the keys are asked
abbrev pub or_empty : Json → Option Fields
or_empty (obj fields) = some fields
or_empty value = if truthy value then none else some end

abbrev pub take_text : ℕ → String → String
take_text zero s = ""
take_text (suc n) String.[] = ""
take_text (suc n) (String.◌∷◌ c s) = String.◌∷◌ c (take_text n s)

abbrev pub take_items : ℕ → Items → Items
take_items zero xs = nil
take_items (suc n) nil = nil
take_items (suc n) (cons x xs) = cons x (take_items n xs)

-- `value[:n]`
abbrev pub sliced : ℕ → Json → Option Json
sliced n (text s) = some (text (take_text n s))
sliced n (arr xs) = some (arr (take_items n xs))
sliced n value = none

-- `value[:n] if value else default`
abbrev pub sliced_or : ℕ → (default value : Json) → Option Json
sliced_or n default value = if truthy value then sliced n value else some default

-- `value or default`
abbrev pub or_else : (value default : Json) → Json
or_else value default = if truthy value then value else default

-- `str(value or default)`: only texts are compared with the names of events, and the text of any
-- other value is the name of none
abbrev pub as_name : (value : Json) (default : String) → String
as_name (text s) default = if truthy (text s) then s else default
as_name value default = if truthy value then "" else default

-- The whole number that a number or a Boolean is as a key.
abbrev number_key : Json → Option ℤ
number_key (num n) = some n
number_key (bool true) = some (pos 1)
number_key (bool false) = some (pos 0)
number_key value = none

abbrev same_number : Option ℤ → Option ℤ → Bool
same_number (some (pos m)) (some (pos n)) = m == n
same_number (some (negsuc m)) (some (negsuc n)) = m == n
same_number _ _ = false

-- whether two keys of a dictionary are one
abbrev pub same_key : Json → Json → Bool
same_key (text s) (text t) = str_eq s t
same_key null null = true
same_key a b = same_number (number_key a) (number_key b)

abbrev pub is_hashable : Json → Bool
is_hashable (arr xs) = false
is_hashable (obj fields) = false
is_hashable value = true
