-- ===== src/Task/Listing.antt =====
-- `TaskService.list` of apps/backend/app/services/task_service.py: one page of the tasks of a tenant,
-- the newest first, and the cursor to the next one. The text of a cursor is made and read by the
-- arguments `encode` and `decode`, which stand for base64 and the ISO format; `none` is a `ValueError`.
pub mod Order
pub mod Walk
use eap.Prelude.{
  ℕ, zero, suc, ◌+◌, String, Bool, true, false, ◌&&◌, ◌||◌, ltb, ◌==◌, str_eq, if◌then◌else◌,
  Option, none, some, List, [], ◌∷◌, ◌++◌,
}
use eap.Prelude.Table.{length, take, select}
use eap.Errors.{Result, ok, err, app_error, ◌>>=◌, invalid_cursor, internal_error}
use eap.Task.Model.{Status, status_eq, Task}

-- the keyset `(created_at, id)`
pub record Cursor : Type 0 where
  pub at : ℕ
  pub id : ℕ

abbrev pub cursor_of : Task → Cursor
cursor_of t = record { at = t.created_at; id = t.id }

-- the rows after a cursor
abbrev pub older : Cursor → Task → Bool
older c t = ltb t.created_at c.at || (t.created_at == c.at && ltb t.id c.id)

unfoldable pub insert : Task → List Task → List Task
insert t [] = t ∷ []
insert t (u ∷ us) = let rest = insert t us in if older (cursor_of u) t then u ∷ rest else t ∷ u ∷ us

-- `ORDER BY created_at DESC, id DESC`
unfoldable pub order : List Task → List Task
unfolding insert
order [] = []
order (t ∷ ts) = insert t (order ts)

pub record Filters : Type 0 where
  pub tenant_id : ℕ
  pub status : Option Status
  pub type : Option String
  pub priority : Option String

abbrev pub admits {ℓ} : {A : Type ℓ} → (A → A → Bool) → Option A → A → Bool
admits same none value = true
admits same (some wanted) value = same value wanted

abbrev pub matches : Filters → Task → Bool
matches f t =
    t.tenant_id == f.tenant_id
    && admits status_eq f.status t.status
    && admits str_eq f.type t.type
    && admits str_eq f.priority t.priority

-- the condition of a cursor
abbrev pub is_after : Option Cursor → Task → Bool
is_after none t = true
is_after (some c) t = older c t

abbrev pub last : List Task → Option Task
last [] = none
last (t ∷ []) = some t
last (t ∷ u ∷ us) = last (u ∷ us)

-- the cursor to the next page; without an item there is none to take it from
abbrev pub next_cursor : (Cursor → String) → Option Task → Result (Option String)
next_cursor encode none = err (app_error 500 internal_error)
next_cursor encode (some t) = ok (some (encode (cursor_of t)))

-- a page of the rows that one statement for a row more than `limit` gave
abbrev pub page :
    (Cursor → String) → (limit : ℕ) → (rows : List Task) → Result (List Task × Option String)
page encode limit rows =
    let items = take limit rows in
    (if ltb limit (length rows) then next_cursor encode (last items) else ok none)
    >>= (λ next. ok (items, next))

abbrev pub read_cursor : (String → Option Cursor) → Option String → Result (Option Cursor)
read_cursor decode none = ok none
read_cursor decode (some text) = elim (decode text) [
  | none ↦ err (app_error 400 invalid_cursor)
  | some c ↦ ok (some c)
]

-- what the statement answers, before its limit
abbrev pub selected : Filters → Option Cursor → List Task → List Task
selected f cursor tasks = select (is_after cursor) (select (matches f) (order tasks))

-- `list`
unfoldable pub list_tasks :
    (encode : Cursor → String) (decode : String → Option Cursor)
    → Filters
    → (limit : ℕ) (cursor : Option String) → List Task
    → Result (List Task × Option String)
unfolding order
list_tasks encode decode f limit cursor tasks =
    read_cursor decode cursor >>= (λ c. page encode limit (take (suc limit) (selected f c tasks)))
