-- ===== src/Task/Examples/Pages.antt =====
-- Pages of a listing at concrete inputs; a cursor is written in unary.
use eap.Prelude.{
  ℕ, zero, suc, String, ◌≡◌, refl, Option, none, some, List, [], ◌∷◌, ◌==◌, if◌then◌else◌,
}
use Prim.Native.Char.{code}
use eap.Prelude.Table.{select, length}
use eap.Task.Model.{pending, failed, Task}
use eap.Task.Listing.{Cursor, Filters, matches, order, list_tasks, insert}
use eap.Task.Listing.Order.{Distinct}
use eap.Task.Listing.Walk.{walk, walk_complete}
use eap.Task.Examples.{row}

abbrev ones : ℕ → String → String
ones zero s = s
ones (suc n) s = String.◌∷◌ "1" (ones n s)

abbrev count_one : ℕ × String → ℕ × String
count_one (n, s) = (suc n, s)

read_ones : String → ℕ × String
read_ones String.[] = (0, "")
read_ones (String.◌∷◌ c s) =
    let rest = read_ones s in if code c == 49 then count_one rest else (0, s)

abbrev encode : Cursor → String
encode c = ones c.at (String.◌∷◌ "|" (ones c.id ""))

decode : String → Option Cursor
unfolding read_ones
decode s = some (record { at = (read_ones s).0; id = (read_ones (read_ones s).1).0 })

read_ones-ones : (n : ℕ) (s : String) → read_ones (ones n (String.◌∷◌ "|" s)) ≡ (n, s)
unfolding read_ones
read_ones-ones zero s = refl
read_ones-ones (suc n) s = rw (read_ones-ones n s) refl

read_last : (n : ℕ) → (read_ones (ones n "")).0 ≡ n
unfolding read_ones
read_last zero = refl
read_last (suc n) = rw (read_last n) refl

decodes : (c : Cursor) → decode (encode c) ≡ some c
unfolding decode
decodes c = rw (read_ones-ones c.at (ones c.id ""), read_last c.id) refl

abbrev aged : ℕ → Task → Task
aged at t = record t { created_at = at }

abbrev tasks : List Task
tasks =
    aged 3 (row 1 pending)
    ∷ aged 5 (row 2 failed)
    ∷ aged 3 (row 4 pending)
    ∷ aged 9 (row 3 pending)
    ∷ []

abbrev of_tenant : Filters
of_tenant = record { tenant_id = 1; status = some pending; type = none; priority = none }

distinct : Distinct tasks
distinct = ((refl, (refl, (refl, tt))), ((refl, (refl, tt)), ((refl, tt), (tt, tt))))

test_pages :
    walk encode decode of_tenant 2 tasks 2 none
    ≡ some (aged 9 (row 3 pending) ∷ aged 3 (row 4 pending) ∷ aged 3 (row 1 pending) ∷ [])
unfolding walk list_tasks order insert select decode read_ones
test_pages = refl

walk_complete_example :
    walk encode decode of_tenant 2 tasks
      (suc (length (select (matches of_tenant) (order tasks))))
      none
    ≡ some (select (matches of_tenant) (order tasks))
walk_complete_example = walk_complete encode decode decodes of_tenant 1 tasks distinct
