-- ===== src/Agent/Lifecycle/Passed.antt =====
-- After a versioned update that wrote, every row of the agent is past the version.
use eap.Prelude.{
  ℕ, ◌≤◌, ◌<◌, ◌≡◌, refl, String, Bool, true, false, some, List, [], ◌∷◌, arith, ◌==◌, Bool-cases,
  inl, inr,
}
use eap.Prelude.Table.{update, count, All, count-update}
use eap.Agent.Model.{Agent, Registry}
use eap.Agent.Lifecycle.{has_key, claims, Fields, bumped, update_with_version}
use eap.Agent.Lifecycle.Versions.{Later}

-- every row of the agent is past the version
abbrev pub Passed : ℕ → String → ℕ → List Agent → Type 0
Passed t i v xs = All (λ a. has_key t i a ≡ true → v < a.version) xs

pub no_claims :
    (t : ℕ) (i : String) (v : ℕ) (xs : List Agent) → Passed t i v xs → count (claims t i v) xs ≡ 0
unfolding count
no_claims t i v [] p = refl
no_claims t i v (x ∷ xs) p = ground (arith, no_claims t i v xs p.1, p.0)

-- the agent has a row, and every row of it is past the version
pub record Written (t : ℕ) (i : String) (v : ℕ) (xs : List Agent) : Type 0 where
  pub passed : Passed t i v xs
  pub present : 1 ≤ count (has_key t i) xs

absent-Passed :
    (t : ℕ) (i : String) (v : ℕ) (xs : List Agent) → count (has_key t i) xs ≡ 0 → Passed t i v xs
unfolding count
absent-Passed t i v [] h = tt
absent-Passed t i v (x ∷ xs) h = (λ k. absurd (ground arith), absent-Passed t i v xs (ground arith))

Passed-Later :
    (t : ℕ) (i : String) (v : ℕ) (xs ys : List Agent)
    → Later xs ys
    → 1 ≤ count (has_key t i) xs
    → count (has_key t i) ys ≤ 1
    → Passed t i v xs
    → Passed t i v ys
unfolding count
Passed-Later t i v [] ys l k u p = absurd (omega (arith, k))
Passed-Later t i v (x ∷ xs) [] l k u p = elim l [ ]
Passed-Later t i v (x ∷ xs) (y ∷ ys) l k u p = elim (Bool-cases (has_key t i x)) [
  | inl e ↦
      let own : has_key t i y ≡ true = kept e in
      (
        λ h. let n = l.0.version_le in let below = p.0 e in omega (arith, below, n),
        absent-Passed t i v ys (ground (arith, own, u)),
      )
  | inr e ↦
      let other : has_key t i y ≡ false = kept e in
      (
        λ h. absurd (ground (arith, other, h)),
        Passed-Later t i v xs ys l.1 (ground (arith, e, k)) (ground (arith, other, u)) p.1,
      )
]
  where
    kept : {b : Bool} → has_key t i x ≡ b → has_key t i y ≡ b
    kept e = rw (l.0.same_tenant, l.0.same_agent) e

update_absent :
    (t : ℕ) (i : String) (v w : ℕ) (f : Fields) (xs : List Agent)
    → count (has_key t i) xs ≡ 0
    → Passed t i v (update (claims t i w) (bumped f) xs)
unfolding update count
update_absent t i v w f [] h = tt
update_absent t i v w f (x ∷ xs) h = elim (Bool-cases (claims t i w x)) [
  | inl e ↦ absurd (ground arith)
  | inr e ↦ rw e (λ k. absurd (ground arith), update_absent t i v w f xs (ground arith))
]

pub claims-le :
    (t : ℕ) (i : String) (v : ℕ) (xs : List Agent)
    → count (claims t i v) xs ≤ count (has_key t i) xs
unfolding count
claims-le t i v [] = omega arith
claims-le t i v (x ∷ xs) = ground (arith, claims-le t i v xs)

update-Passed :
    (t : ℕ) (i : String) (v : ℕ) (f : Fields) (xs : List Agent)
    → count (has_key t i) xs ≤ 1
    → (count (claims t i v) xs == 0) ≡ false
    → Passed t i v (update (claims t i v) (bumped f) xs)
unfolding update count
update-Passed t i v f [] u h = tt
update-Passed t i v f (x ∷ xs) u h = elim (Bool-cases (claims t i v x)) [
  | inl e ↦ rw e (λ k. ground arith, update_absent t i v v f xs (ground arith))
  | inr e ↦ rw e (
    λ k. absurd (ground (arith, claims-le t i v xs)),
    update-Passed t i v f xs (ground arith) (ground arith),
  )
]

Later-count :
    (t : ℕ) (i : String) (xs ys : List Agent)
    → Later xs ys
    → count (has_key t i) xs ≤ count (has_key t i) ys
unfolding count
Later-count t i [] ys l = omega arith
Later-count t i (x ∷ xs) [] l = elim l [ ]
Later-count t i (x ∷ xs) (y ∷ ys) l =
    rw (l.0.same_tenant, l.0.same_agent) (omega (arith, Later-count t i xs ys l.1))

pub Written-Later :
    (t : ℕ) (i : String) (v : ℕ) (xs ys : List Agent)
    → Later xs ys
    → count (has_key t i) ys ≤ 1
    → Written t i v xs
    → Written t i v ys
Written-Later t i v xs ys l u s = record {
  passed = Passed-Later t i v xs ys l s.present u s.passed;
  present = omega (arith, s.present, Later-count t i xs ys l);
}

update_with_version-Passed :
    (t : ℕ) (i : String) (v : ℕ) (f : Fields) (r : Registry) (a : Agent)
    → count (has_key t i) r.agents ≤ 1
    → (update_with_version t i v f r).0 ≡ some a
    → Passed t i v (update_with_version t i v f r).1.agents
unfolding update_with_version
update_with_version-Passed t i v f r a unique h =
    elim (Bool-cases (count (claims t i v) r.agents == 0)) [
      | inl e ↦ cc (rw (e, update_with_version) at h)
      | inr e ↦ rw (e, update_with_version) (update-Passed t i v f r.agents unique e)
    ]

-- an update that wrote had a row to write
update_with_version-found :
    (t : ℕ) (i : String) (v : ℕ) (f : Fields) (r : Registry) (a : Agent)
    → (update_with_version t i v f r).0 ≡ some a
    → 1 ≤ count (has_key t i) (update_with_version t i v f r).1.agents
unfolding update_with_version
update_with_version-found t i v f r a h = elim (Bool-cases (count (claims t i v) r.agents == 0)) [
  | inl e ↦ cc (rw (e, update_with_version) at h)
  | inr e ↦
      rw (e, update_with_version)
        (rw (count-update (has_key t i) (claims t i v) (bumped f) r.agents (λ _. refl))
          (ground (arith, e, claims-le t i v r.agents)))
]

pub update_with_version-Written :
    (t : ℕ) (i : String) (v : ℕ) (f : Fields) (r : Registry) (a : Agent)
    → count (has_key t i) r.agents ≤ 1
    → (update_with_version t i v f r).0 ≡ some a
    → Written t i v (update_with_version t i v f r).1.agents
update_with_version-Written t i v f r a u h = record {
  passed = update_with_version-Passed t i v f r a u h;
  present = update_with_version-found t i v f r a h;
}
