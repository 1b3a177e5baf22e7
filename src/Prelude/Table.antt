-- ===== src/Prelude/Table.antt =====
-- Database tables as lists of rows: the queries that the services issue, and their laws.
-- `update keep set rows` is `UPDATE … SET set WHERE keep`, `count` its row count.
use Prim.Native.Nat.{ℕ, zero, suc, ◌+◌}
use mathlib.Core.Path.{◌≡◌, refl, ap, subst, ◌∙◌}
use mathlib.Core.Logic.{inl, inr}
use mathlib.Core.Bool.{Bool, true, false, ◌&&◌}
use mathlib.Core.Option
use mathlib.Core.Option.{Option, none, some}
use mathlib.Core.List.{List, [], ◌∷◌, ◌++◌}
use native.Mathlib.Omega.{arith}
use eap.Prelude.Tests.{◌==◌, Bool-cases, some_inv, if◌then◌else◌}

module _ {ℓ} {A : Type ℓ} where
  abbrev pub length : List A → ℕ
  length [] = 0
  length (x ∷ xs) = suc (length xs)

  abbrev pub take : ℕ → List A → List A
  take zero xs = []
  take (suc n) [] = []
  take (suc n) (x ∷ xs) = x ∷ take n xs

  -- `SELECT … WHERE keep`
  unfoldable pub select : (A → Bool) → List A → List A
  select keep [] = []
  select keep (x ∷ xs) = let rest = select keep xs in if keep x then x ∷ rest else rest

  -- the first row that `keep` accepts; with a unique key it is the only one
  unfoldable pub find : (A → Bool) → List A → Option A
  find keep [] = none
  find keep (x ∷ xs) = if keep x then some x else find keep xs

  unfoldable pub update : (A → Bool) → (A → A) → List A → List A
  update keep set [] = []
  update keep set (x ∷ xs) = (if keep x then set x else x) ∷ update keep set xs

  unfoldable pub count : (A → Bool) → List A → ℕ
  count keep [] = 0
  count keep (x ∷ xs) = (if keep x then 1 else 0) + count keep xs

  abbrev pub All {κ} : (A → Type κ) → List A → Type κ
  All P [] = Unit
  All P (x ∷ xs) = P x × All P xs

  -- the rows of two tables, one by one, related by `R`; the second may have more at its end
  abbrev pub Rows : (A → A → Type 0) → List A → List A → Type 0
  Rows R [] ys = Unit
  Rows R (x ∷ xs) [] = ⊥
  Rows R (x ∷ xs) (y ∷ ys) = R x y × Rows R xs ys

module _ {ℓ} {A : Type ℓ} (P : A → Type 0) where
  pub All-update :
      (keep : A → Bool) (set : A → A) (xs : List A)
      → ((x : A) → keep x ≡ true → P x → P (set x))
      → All P xs
      → All P (update keep set xs)
  unfolding update
  All-update keep set [] h a = a
  All-update keep set (x ∷ xs) h a =
      let rest = All-update keep set xs h a.1 in
      elim (Bool-cases (keep x)) [ inl e ↦ rw e (h x e a.0, rest) | inr e ↦ rw e (a.0, rest) ]

  pub All-append : (xs ys : List A) → All P xs → All P ys → All P (xs ++ ys)
  All-append [] ys a b = b
  All-append (x ∷ xs) ys a b = (a.0, All-append xs ys a.1 b)

  pub All-map : (Q : A → Type 0) (xs : List A) → ((x : A) → P x → Q x) → All P xs → All Q xs
  All-map Q [] f a = a
  All-map Q (x ∷ xs) f a = (f x a.0, All-map Q xs f a.1)

  pub All-find : (keep : A → Bool) (xs : List A) (x : A) → All P xs → find keep xs ≡ some x → P x
  unfolding find
  All-find keep [] x a h = cc
  All-find keep (y ∷ ys) x a h = elim (Bool-cases (keep y)) [
    | inl e ↦ subst P (some_inv (rw e at h)) a.0
    | inr e ↦ All-find keep ys x a.1 (rw e at h)
  ]

module _ {ℓ} {A : Type ℓ} where
  -- the row that a query finds meets its test
  pub find-keep : (keep : A → Bool) (xs : List A) (x : A) → find keep xs ≡ some x → keep x ≡ true
  unfolding find
  find-keep keep [] x h = cc
  find-keep keep (y ∷ ys) x h = elim (Bool-cases (keep y)) [
    | inl e ↦ subst (λ z. keep z ≡ true) (some_inv (rw e at h)) e
    | inr e ↦ find-keep keep ys x (rw e at h)
  ]

  -- no row meets the test of an update that matches none
  pub update-count_zero :
      (keep : A → Bool) (set : A → A) (xs : List A) → count keep xs ≡ 0 → update keep set xs ≡ xs
  unfolding update count
  update-count_zero keep set [] h = refl
  update-count_zero keep set (x ∷ xs) h = elim (Bool-cases (keep x)) [
    | inl e ↦ absurd (ground arith)
    | inr e ↦ rw e (ap (◌∷◌ x) (update-count_zero keep set xs (ground arith)))
  ]

  -- a query by a key that the update leaves alone finds the updated row
  pub find-update :
      (key keep : A → Bool) (set : A → A) (xs : List A)
      → ((x : A) → key (set x) ≡ key x)
      → find key (update keep set xs) ≡ Option.map (λ x. if keep x then set x else x) (find key xs)
  unfolding find update
  find-update key keep set [] h = refl
  find-update key keep set (x ∷ xs) h = elim (Bool-cases (keep x)) [
    | inl e ↦ rw (e, h x) (ground (arith, find-update key keep set xs h))
    | inr e ↦ rw e (ground (arith, find-update key keep set xs h))
  ]

  pub find-append :
      (key : A → Bool) (xs ys : List A) (x : A)
      → find key xs ≡ some x
      → find key (xs ++ ys) ≡ some x
  unfolding find
  find-append key [] ys x h = cc
  find-append key (y ∷ xs) ys x h = ground (arith, find-append key xs ys x)

module _ {ℓ} {A : Type ℓ} (R : A → A → Type 0) (R_refl : (x : A) → R x x) where
  pub Rows-refl : (xs : List A) → Rows R xs xs
  Rows-refl [] = tt
  Rows-refl (x ∷ xs) = (R_refl x, Rows-refl xs)

  pub Rows-append : (xs ys : List A) → Rows R xs (xs ++ ys)
  Rows-append [] ys = tt
  Rows-append (x ∷ xs) ys = (R_refl x, Rows-append xs ys)

  pub Rows-update :
      (keep : A → Bool) (set : A → A) (xs : List A)
      → ((x : A) → keep x ≡ true → R x (set x))
      → Rows R xs (update keep set xs)
  unfolding update
  Rows-update keep set [] h = tt
  Rows-update keep set (x ∷ xs) h =
      let rest = Rows-update keep set xs h in
      elim (Bool-cases (keep x)) [ inl e ↦ rw e (h x e, rest) | inr e ↦ rw e (R_refl x, rest) ]

module _ {ℓ} {A : Type ℓ} (R : A → A → Type 0) (R_trans : (x y z : A) → R x y → R y z → R x z) where
  pub Rows-trans : (xs ys zs : List A) → Rows R xs ys → Rows R ys zs → Rows R xs zs
  Rows-trans [] ys zs p q = tt
  Rows-trans (x ∷ xs) [] zs p q = absurd p
  Rows-trans (x ∷ xs) (y ∷ ys) [] p q = q
  Rows-trans (x ∷ xs) (y ∷ ys) (z ∷ zs) p q = (R_trans x y z p.0 q.0, Rows-trans xs ys zs p.1 q.1)

module _ {ℓ} {A : Type ℓ} (R : A → A → Type 0) where
  -- a row found by a key that `R` keeps is found again, and is related to the first
  pub Rows-find :
      (key : A → Bool) (keys : (x y : A) → R x y → key y ≡ key x) (xs ys : List A) (x : A)
      → Rows R xs ys
      → find key xs ≡ some x
      → (y : A) × (find key ys ≡ some y) × R x y
  unfolding find
  Rows-find key keys [] ys x r h = cc
  Rows-find key keys (a ∷ xs) [] x r h = absurd r
  Rows-find key keys (a ∷ xs) (b ∷ ys) x r h = elim (Bool-cases (key a)) [
    | inl e ↦ (b, rw (keys a b r.0 ∙ e) refl, subst (λ z. R z b) (some_inv (rw e at h)) r.0)
    | inr e ↦ rw (keys a b r.0 ∙ e) (Rows-find key keys xs ys x r.1 (rw e at h))
  ]

module _ {ℓ} {A : Type ℓ} where
  -- an update that matches a row leaves a row under the key of the match
  pub find_of_count :
      (key keep : A → Bool) (xs : List A)
      → ((x : A) → keep x ≡ true → key x ≡ true)
      → (count keep xs == 0) ≡ false
      → (x : A) × (find key xs ≡ some x)
  unfolding find count
  find_of_count key keep [] h c = absurd (ground arith)
  find_of_count key keep (x ∷ xs) h c = elim (Bool-cases (key x)) [
    | inl e ↦ (x, rw e refl)
    | inr e ↦ rw e (
        find_of_count key keep xs h
          (elim (Bool-cases (keep x)) [ inl k ↦ cc (h x k) | inr k ↦ ground arith ]))
  ]

  -- an update that leaves a key alone leaves the number of rows under it
  pub count-update :
      (key keep : A → Bool) (set : A → A) (xs : List A)
      → ((x : A) → key (set x) ≡ key x)
      → count key (update keep set xs) ≡ count key xs
  unfolding count update
  count-update key keep set [] h = refl
  count-update key keep set (x ∷ xs) h = elim (Bool-cases (keep x)) [
    | inl e ↦ rw (e, h x, count-update key keep set xs h) refl
    | inr e ↦ rw (e, count-update key keep set xs h) refl
  ]

  count_and_of_none :
      (key keep : A → Bool) (xs : List A) → count key xs ≡ 0 → count (λ x. key x && keep x) xs ≡ 0
  unfolding count
  count_and_of_none key keep [] h = refl
  count_and_of_none key keep (x ∷ xs) h = elim (Bool-cases (key x)) [
    | inl e ↦ absurd (ground arith)
    | inr e ↦ ground (arith, count_and_of_none key keep xs)
  ]

  -- where one row stands under a key, a narrower test matches it or nothing
  pub count_and_of_unique :
      (key keep : A → Bool) (xs : List A) (x : A)
      → count key xs ≡ 1
      → find key xs ≡ some x
      → count (λ y. key y && keep y) xs ≡ (if keep x then 1 else 0)
  unfolding count find
  count_and_of_unique key keep [] x c h = cc
  count_and_of_unique key keep (y ∷ xs) x c h = elim (Bool-cases (key y)) [
    | inl e ↦
        subst (λ z. count (λ y. key y && keep y) (y ∷ xs) ≡ (if keep z then 1 else 0))
          (some_inv (rw e at h)) (ground (arith, count_and_of_none key keep xs))
    | inr e ↦ ground (arith, count_and_of_unique key keep xs x)
  ]
