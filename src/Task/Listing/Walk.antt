-- ===== src/Task/Listing/Walk.antt =====
-- A client that follows the cursors of a listing.
use eap.Prelude.{
  ℕ, zero, suc, ◌<◌, ◌≡◌, refl, sym, ap, ◌∙◌, subst, String, true, false, ltb, Option, none, some,
  List, [], ◌∷◌, ◌++◌, arith, Bool-cases, inl, inr,
}
use eap.Prelude.Table.{length, take, select, All}
use eap.Prelude.Query.{take_all}
use eap.Errors.{ok, err, ◌>>=◌}
use eap.Task.Model.{Task}
use eap.Task.Listing.{
  Cursor, Filters, cursor_of, older, order, matches, last, page, read_cursor, selected, list_tasks,
}
use eap.Task.Listing.Order.{
  Distinct, Descending, order-Descending, select-Descending, select_whole, select-older,
}

abbrev joined : List Task → Option (List Task) → Option (List Task)
joined items none = none
joined items (some others) = some (items ++ others)

-- the items of all pages from a cursor on, in at most `fuel` requests
unfoldable pub walk :
    (encode : Cursor → String) (decode : String → Option Cursor) (f : Filters) (limit : ℕ)
    (tasks : List Task)
    → (fuel : ℕ) → Option String
    → Option (List Task)
unfolding list_tasks
walk encode decode f limit tasks zero cursor = none
walk encode decode f limit tasks (suc fuel) cursor =
    elim (list_tasks encode decode f limit cursor tasks) [
      | err e ↦ none
      | ok (items, none) ↦ some items
      | ok (items, some next) ↦ joined items (walk encode decode f limit tasks fuel (some next))
    ]

-- a full page with more behind it: the rows up to its last one, and the rest
record Cut (n : ℕ) (zs : List Task) : Type 0 where
  front : List Task
  end : Task
  rest : List Task
  whole : zs ≡ front ++ end ∷ rest
  items : take n zs ≡ front ++ end ∷ []
  its_last : last (take n zs) ≡ some end
  shorter : length rest < length zs

last-cons : (t : Task) (us : List Task) (u : Task) → last us ≡ some u → last (t ∷ us) ≡ some u
last-cons t [] u h = cc
last-cons t (v ∷ vs) u h = h

cut : (m : ℕ) (zs : List Task) → suc m < length zs → Cut (suc m) zs
cut m [] h = absurd (omega arith)
cut zero (z ∷ zs) h = record {
  front = [];
  end = z;
  rest = zs;
  whole = refl;
  items = refl;
  its_last = refl;
  shorter = omega arith;
}
cut (suc m) (z ∷ zs) h =
    let c = cut m zs (omega arith) in
    record {
      front = z ∷ c.front;
      end = c.end;
      rest = c.rest;
      whole = ap (◌∷◌ z) c.whole;
      items = ap (◌∷◌ z) c.items;
      its_last = last-cons z (take (suc m) zs) c.end c.its_last;
      shorter = let s = c.shorter in omega arith;
    }

take-take : (n : ℕ) (zs : List Task) → take n (take (suc n) zs) ≡ take n zs
take-take zero zs = refl
take-take (suc n) [] = refl
take-take (suc n) (z ∷ zs) = ap (◌∷◌ z) (take-take n zs)

length-take : (n : ℕ) (zs : List Task) → ltb n (length (take (suc n) zs)) ≡ ltb n (length zs)
length-take zero [] = refl
length-take zero (z ∷ zs) = ground arith
length-take (suc n) [] = refl
length-take (suc n) (z ∷ zs) = let rest = length-take n zs in ground arith

append_assoc : (xs ys zs : List Task) → (xs ++ ys) ++ zs ≡ xs ++ (ys ++ zs)
append_assoc [] ys zs = refl
append_assoc (x ∷ xs) ys zs = ap (◌∷◌ x) (append_assoc xs ys zs)

trivially : (ts : List Task) → All (λ t. true ≡ true) ts
trivially [] = tt
trivially (t ∷ ts) = (refl, trivially ts)

-- The client over the rows that are left, whatever cursor says so.
module _ (encode : Cursor → String) (decode : String → Option Cursor)
    (decodes : (c : Cursor) → decode (encode c) ≡ some c) (f : Filters) (m : ℕ)
    (tasks : List Task) where
  abbrev limit : ℕ
  limit = suc m

  abbrev base : List Task
  base = select (matches f) (order tasks)

  page_done :
      (zs : List Task)
      → ltb limit (length zs) ≡ false
      → page encode limit (take (suc limit) zs) ≡ ok (zs, none)
  page_done zs e =
      let all = take_all limit zs (ground arith) in
      rw (length-take limit zs, e, take-take limit zs, all) refl

  page_more :
      (zs : List Task) (c : Cut limit zs)
      → ltb limit (length zs) ≡ true
      → page encode limit (take (suc limit) zs)
        ≡ ok (take limit zs, some (encode (cursor_of c.end)))
  page_more zs c e = rw (length-take limit zs, e, take-take limit zs, c.its_last) refl

  -- a page of the rows that are left, and what the client does with it
  walk-page :
      (n : ℕ) (cursor : Option String) (zs : List Task)
      → list_tasks encode decode f limit cursor tasks ≡ page encode limit (take (suc limit) zs)
      → ((c : Cut limit zs)
          → walk encode decode f limit tasks n (some (encode (cursor_of c.end))) ≡ some c.rest)
      → walk encode decode f limit tasks (suc n) cursor ≡ some zs
  unfolding walk
  walk-page n cursor zs h next = elim (Bool-cases (ltb limit (length zs))) [
    | inl e ↦
        let c = cut m zs (ground arith) in
        rw (walk, h, page_more zs c e, next c)
          (ap some (
            ap (λ items. items ++ c.rest) c.items
            ∙ append_assoc c.front (c.end ∷ []) c.rest
            ∙ sym c.whole))
    | inr e ↦ rw (walk, h, page_done zs e) refl
  ]

  read_encoded : (c : Cursor) → read_cursor decode (some (encode c)) ≡ ok (some c)
  read_encoded c = rw (read_cursor, decodes c) refl

  page_after :
      (ys : List Task) (c : Task) (zs : List Task)
      → Descending base
      → base ≡ ys ++ c ∷ zs
      → list_tasks encode decode f limit (some (encode (cursor_of c))) tasks
        ≡ page encode limit (take (suc limit) zs)
  unfolding list_tasks
  page_after ys c zs d e =
      ap (λ r. r >>= (λ k. page encode limit (take (suc limit) (selected f k tasks))))
        (read_encoded (cursor_of c))
      ∙ (ap (λ rows. page encode limit (take (suc limit) rows))
          (ap (select (older (cursor_of c))) e ∙ select-older ys c zs (subst Descending e d)))

  walk_after :
      (n : ℕ) (ys : List Task) (c : Task) (zs : List Task)
      → Descending base
      → base ≡ ys ++ c ∷ zs
      → length zs < n
      → walk encode decode f limit tasks n (some (encode (cursor_of c))) ≡ some zs
  walk_after zero ys c zs d e h = absurd (omega arith)
  walk_after (suc n) ys c zs d e h =
      walk-page n (some (encode (cursor_of c))) zs (page_after ys c zs d e) (λ k.
        walk_after n (ys ++ c ∷ k.front) k.end k.rest d
          (e
            ∙ ap (λ zs. ys ++ c ∷ zs) k.whole
            ∙ sym (append_assoc ys (c ∷ k.front) (k.end ∷ k.rest)))
          (let s = k.shorter in omega arith))

  first_page :
      list_tasks encode decode f limit none tasks ≡ page encode limit (take (suc limit) base)
  unfolding list_tasks
  first_page =
      ap (λ rows. page encode limit (take (suc limit) rows))
        (select_whole (λ t. true) base (trivially base))

-- A client that starts without a cursor and follows each page's cursor to the next page gets every
-- task that matches the filters exactly once, the newest first, and is told after at most one request
-- more than there are such tasks that no page is left. The tasks have distinct ids, a page holds at
-- least one task, and a cursor's text is decoded to the cursor that it was made from.
pub walk_complete :
    (encode : Cursor → String) (decode : String → Option Cursor)
    → ((c : Cursor) → decode (encode c) ≡ some c)
    → (f : Filters) (m : ℕ) (tasks : List Task) → Distinct tasks
    → walk encode decode f (suc m) tasks (suc (length (select (matches f) (order tasks)))) none
      ≡ some (select (matches f) (order tasks))
walk_complete encode decode decodes f m tasks d =
    let base = select (matches f) (order tasks) in
    walk-page encode decode decodes f m tasks (length base) none base
      (first_page encode decode decodes f m tasks)
      (λ c.
        walk_after encode decode decodes f m tasks (length base) c.front c.end c.rest
          (select-Descending (matches f) (order tasks) (order-Descending tasks d)) c.whole
          c.shorter)
