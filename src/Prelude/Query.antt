-- ===== src/Prelude/Query.antt =====
-- Ordered and limited queries: `ORDER BY key LIMIT n`, and which keys a batch holds.
use Prim.Native.Nat.{ℕ, zero, suc, ◌+◌, ◌≤◌}
use mathlib.Core.Path.{◌≡◌, refl, ap, ◌∙◌, subst}
use mathlib.Core.Bool.{Bool, true, false, ◌&&◌, ◌||◌, not}
use mathlib.Core.List.{List, [], ◌∷◌, ◌++◌, map}
use mathlib.Core.Option.{some}
use native.Mathlib.Omega.{arith}
use mathlib.Core.Logic.{inl, inr}
use eap.Prelude.Tests.{leb, ◌==◌, Bool-cases, some_inv, if◌then◌else◌}
use eap.Prelude.Table.{length, take, select, count, update, find}

abbrev pub mem : ℕ → List ℕ → Bool
mem i [] = false
mem i (j ∷ js) = j == i || mem i js

module _ {ℓ} {A : Type ℓ} (key : A → ℕ) where
  unfoldable pub insert_by : A → List A → List A
  insert_by x [] = x ∷ []
  insert_by x (y ∷ ys) =
      let rest = insert_by x ys in if leb (key x) (key y) then x ∷ y ∷ ys else y ∷ rest

  -- ascending by `key`; rows with equal keys stay in their order
  unfoldable pub sort_by : List A → List A
  unfolding insert_by
  sort_by [] = []
  sort_by (x ∷ xs) = insert_by x (sort_by xs)

  count-insert_by :
      (p : A → Bool) (x : A) (xs : List A)
      → count p (insert_by x xs) ≡ (if p x then 1 else 0) + count p xs
  unfolding count insert_by
  count-insert_by p x [] = refl
  count-insert_by p x (y ∷ ys) = ground (arith, count-insert_by p x ys)

  pub count-sort_by : (p : A → Bool) (xs : List A) → count p (sort_by xs) ≡ count p xs
  unfolding count sort_by
  count-sort_by p [] = refl
  count-sort_by p (x ∷ xs) =
      count-insert_by p x (sort_by xs) ∙ ap (λ n. (if p x then 1 else 0) + n) (count-sort_by p xs)

  length-insert_by : (x : A) (xs : List A) → length (insert_by x xs) ≡ suc (length xs)
  unfolding insert_by
  length-insert_by x [] = refl
  length-insert_by x (y ∷ ys) = ground (arith, length-insert_by x ys)

  pub length-sort_by : (xs : List A) → length (sort_by xs) ≡ length xs
  unfolding sort_by
  length-sort_by [] = refl
  length-sort_by (x ∷ xs) = length-insert_by x (sort_by xs) ∙ ap suc (length-sort_by xs)

module _ {ℓ} {A : Type ℓ} where
  pub take_all : (n : ℕ) (xs : List A) → length xs ≤ n → take n xs ≡ xs
  take_all zero [] h = refl
  take_all zero (x ∷ xs) h = absurd (omega arith)
  take_all (suc n) [] h = refl
  take_all (suc n) (x ∷ xs) h = ap (◌∷◌ x) (take_all n xs (omega arith))

  pub count-select :
      (p q : A → Bool) (xs : List A) → count p (select q xs) ≡ count (λ x. p x && q x) xs
  unfolding count select
  count-select p q [] = refl
  count-select p q (x ∷ xs) = ground (arith, count-select p q xs)

  -- the keys of a list hold `i` exactly if some row has it
  pub mem-map :
      (key : A → ℕ) (i : ℕ) (xs : List A)
      → mem i (map key xs) ≡ not (count (λ x. key x == i) xs == 0)
  unfolding count
  mem-map key i [] = refl
  mem-map key i (x ∷ xs) = ground (arith, mem-map key i xs)

  pub count-congr : (p q : A → Bool) (xs : List A) → ((x : A) → p x ≡ q x) → count p xs ≡ count q xs
  unfolding count
  count-congr p q [] h = refl
  count-congr p q (x ∷ xs) h = rw (h x, count-congr p q xs h) refl

  pub count-append : (p : A → Bool) (xs ys : List A) → count p (xs ++ ys) ≡ count p xs + count p ys
  unfolding count
  count-append p [] ys = omega arith
  count-append p (x ∷ xs) ys = omega (arith, count-append p xs ys)

  -- an update whose rows fail a test afterwards takes the rows that it matched out of the count
  pub count-update_drop :
      (p keep : A → Bool) (set : A → A) (xs : List A)
      → ((x : A) → p (set x) ≡ false)
      → count p (update keep set xs) + count (λ x. p x && keep x) xs ≡ count p xs
  unfolding count update
  count-update_drop p keep set [] h = refl
  count-update_drop p keep set (x ∷ xs) h = ground (arith, h x, count-update_drop p keep set xs h)

  -- a row that was found counts
  pub one-le-count :
      (p key : A → Bool) (xs : List A) (x : A)
      → find key xs ≡ some x
      → p x ≡ true
      → 1 ≤ count (λ y. p y && key y) xs
  unfolding count find
  one-le-count p key [] x h k = cc
  one-le-count p key (y ∷ ys) x h k = elim (Bool-cases (key y)) [
    | inl e ↦
        subst (λ z. p z ≡ true → 1 ≤ count (λ y. p y && key y) (y ∷ ys)) (some_inv (rw e at h))
          (λ q. ground arith) k
    | inr e ↦ ground (arith, one-le-count p key ys x (rw e at h) k)
  ]
