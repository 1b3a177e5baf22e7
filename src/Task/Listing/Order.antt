-- ===== src/Task/Listing/Order.antt =====
-- The order of a listing, and the rows that follow a row in it.
use eap.Prelude.{
  ◌≡◌, refl, ap, Bool, true, false, ◌==◌, List, [], ◌∷◌, ◌++◌, arith, Bool-cases, inl, inr,
}
use eap.Prelude.Table.{select, All, All-map}
use eap.Task.Model.{Task}
use eap.Task.Listing.{cursor_of, older, insert, order}

-- no two rows have one id
abbrev pub Distinct : List Task → Type 0
Distinct [] = Unit
Distinct (t ∷ ts) = All (λ u. (t.id == u.id) ≡ false) ts × Distinct ts

-- each row stands before all that are older
abbrev pub Descending : List Task → Type 0
Descending [] = Unit
Descending (t ∷ ts) = All (λ u. older (cursor_of t) u ≡ true) ts × Descending ts

module _ (P : Task → Type 0) where
  All-insert : (t : Task) (us : List Task) → P t → All P us → All P (insert t us)
  unfolding insert
  All-insert t [] p a = (p, tt)
  All-insert t (u ∷ us) p a = elim (Bool-cases (older (cursor_of u) t)) [
    | inl e ↦ rw e (a.0, All-insert t us p a.1)
    | inr e ↦ rw e (p, a)
  ]

  All-order : (ts : List Task) → All P ts → All P (order ts)
  unfolding order
  All-order [] a = tt
  All-order (t ∷ ts) a = All-insert t (order ts) a.0 (All-order ts a.1)

  All-select : (keep : Task → Bool) (ts : List Task) → All P ts → All P (select keep ts)
  unfolding select
  All-select keep [] a = tt
  All-select keep (t ∷ ts) a = elim (Bool-cases (keep t)) [
    | inl b ↦ rw b (a.0, All-select keep ts a.1)
    | inr b ↦ rw b (All-select keep ts a.1)
  ]

All_at :
    (P : Task → Type 0) (ys : List Task) (c : Task) (zs : List Task) → All P (ys ++ c ∷ zs) → P c
All_at P [] c zs a = a.0
All_at P (y ∷ ys) c zs a = All_at P ys c zs a.1

older_trans :
    (t u v : Task)
    → older (cursor_of t) u ≡ true
    → older (cursor_of u) v ≡ true
    → older (cursor_of t) v ≡ true
older_trans t u v h k = ground arith

older_total :
    (t u : Task)
    → (t.id == u.id) ≡ false
    → older (cursor_of u) t ≡ false
    → older (cursor_of t) u ≡ true
older_total t u h k = ground arith

older_asym : (t u : Task) → older (cursor_of t) u ≡ true → older (cursor_of u) t ≡ false
older_asym t u h = ground arith

older_irrefl : (t : Task) → older (cursor_of t) t ≡ false
older_irrefl t = ground arith

insert-Descending :
    (t : Task) (us : List Task)
    → All (λ u. (t.id == u.id) ≡ false) us
    → Descending us
    → Descending (insert t us)
unfolding insert
insert-Descending t [] a d = (tt, tt)
insert-Descending t (u ∷ us) a d = elim (Bool-cases (older (cursor_of u) t)) [
  | inl e ↦
      rw e
        (All-insert (λ v. older (cursor_of u) v ≡ true) t us e d.0, insert-Descending t us a.1 d.1)
  | inr e ↦
      let before = older_total t u a.0 e in
      rw e (
        (
          before,
          All-map (λ v. older (cursor_of u) v ≡ true) (λ v. older (cursor_of t) v ≡ true) us
              (λ v h. older_trans t u v before h) d.0,
        ),
        d,
      )
]

pub order-Descending : (ts : List Task) → Distinct ts → Descending (order ts)
unfolding order
order-Descending [] d = tt
order-Descending (t ∷ ts) d =
    insert-Descending t (order ts) (All-order (λ u. (t.id == u.id) ≡ false) ts d.0)
      (order-Descending ts d.1)

pub select-Descending :
    (keep : Task → Bool) (ts : List Task) → Descending ts → Descending (select keep ts)
unfolding select
select-Descending keep [] d = tt
select-Descending keep (t ∷ ts) d = elim (Bool-cases (keep t)) [
  | inl b ↦
      rw b
        (All-select (λ u. older (cursor_of t) u ≡ true) keep ts d.0, select-Descending keep ts d.1)
  | inr b ↦ rw b (select-Descending keep ts d.1)
]

pub select_whole :
    (keep : Task → Bool) (ts : List Task) → All (λ t. keep t ≡ true) ts → select keep ts ≡ ts
unfolding select
select_whole keep [] a = refl
select_whole keep (t ∷ ts) a = rw a.0 (ap (◌∷◌ t) (select_whole keep ts a.1))

-- the rows after one of a list in order are those that stand behind it
pub select-older :
    (ys : List Task) (c : Task) (zs : List Task)
    → Descending (ys ++ c ∷ zs)
    → select (older (cursor_of c)) (ys ++ c ∷ zs) ≡ zs
unfolding select
select-older [] c zs d = rw (older_irrefl c) (select_whole (older (cursor_of c)) zs d.0)
select-older (y ∷ ys) c zs d =
    rw (older_asym y c (All_at (λ u. older (cursor_of y) u ≡ true) ys c zs d.0))
      (select-older ys c zs d.1)
