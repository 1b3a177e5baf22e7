-- ===== src/Task/Rescue/Pages.antt =====
-- Lists cut into pages: appending, taking and dropping.
use eap.Prelude.{
  ℕ, zero, suc, ◌+◌, ◌-◌, ◌≤◌, ◌<◌, ◌≡◌, refl, Bool, List, [], ◌∷◌, ◌++◌, arith, Bool-cases, inl,
  inr, ap,
}
use eap.Prelude.Table.{take, select, length}
use eap.Task.Model.{OutboxEvent}
use eap.Task.Rescue.{drop}

abbrev pub nothing : List OutboxEvent
nothing = []

pub append_nil : (es : List OutboxEvent) → es ++ [] ≡ es
append_nil [] = refl
append_nil (e ∷ es) = ap (◌∷◌ e) (append_nil es)

pub length-append : (xs ys : List OutboxEvent) → length (xs ++ ys) ≡ length xs + length ys
length-append [] ys = omega arith
length-append (x ∷ xs) ys = omega (arith, length-append xs ys)

pub select-append :
    (p : OutboxEvent → Bool) (xs ys : List OutboxEvent)
    → select p (xs ++ ys) ≡ select p xs ++ select p ys
unfolding select
select-append p [] ys = refl
select-append p (x ∷ xs) ys = elim (Bool-cases (p x)) [
  | inl e ↦ rw e (ap (◌∷◌ x) (select-append p xs ys))
  | inr e ↦ rw e (select-append p xs ys)
]

pub take-append :
    (n : ℕ) (xs ys : List OutboxEvent)
    → take n (xs ++ ys) ≡ take n xs ++ take (n - length (take n xs)) ys
take-append zero xs ys = refl
take-append (suc n) [] ys = let same : suc n - 0 ≡ suc n = omega arith in rw same refl
take-append (suc n) (x ∷ xs) ys =
    let same : suc n - suc (length (take n xs)) ≡ n - length (take n xs) = omega arith in
    rw same (ap (◌∷◌ x) (take-append n xs ys))

pub length-take_le : (n : ℕ) (xs : List OutboxEvent) → length (take n xs) ≤ n
length-take_le zero xs = omega arith
length-take_le (suc n) [] = omega arith
length-take_le (suc n) (x ∷ xs) = omega (arith, length-take_le n xs)

pub take_nil : (k : ℕ) → [] ≡ take k nothing
take_nil zero = refl
take_nil (suc k) = refl

pub take-plus :
    (n m : ℕ) (xs : List OutboxEvent) → take (n + m) xs ≡ take n xs ++ take m (drop n xs)
take-plus zero m xs = let same : 0 + m ≡ m = omega arith in rw same refl
take-plus (suc n) m [] = let same : suc n + m ≡ suc (n + m) = omega arith in rw same (take_nil m)
take-plus (suc n) m (x ∷ xs) =
    let same : suc n + m ≡ suc (n + m) = omega arith in rw same (ap (◌∷◌ x) (take-plus n m xs))

pub drop_nil : (k : ℕ) → [] ≡ drop k nothing
drop_nil zero = refl
drop_nil (suc k) = refl

pub drop-plus : (n m : ℕ) (xs : List OutboxEvent) → drop (n + m) xs ≡ drop m (drop n xs)
drop-plus zero m xs = let same : 0 + m ≡ m = omega arith in rw same refl
drop-plus (suc n) m [] = let same : suc n + m ≡ suc (n + m) = omega arith in rw same (drop_nil m)
drop-plus (suc n) m (x ∷ xs) =
    let same : suc n + m ≡ suc (n + m) = omega arith in rw same (drop-plus n m xs)

pub drop_short : (n : ℕ) (xs : List OutboxEvent) → length (take n xs) < n → drop n xs ≡ []
drop_short zero xs h = absurd (omega arith)
drop_short (suc n) [] h = refl
drop_short (suc n) (x ∷ xs) h = drop_short n xs (omega arith)
