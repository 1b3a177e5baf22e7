-- ===== src/Member/Counts.antt =====
-- Counts of the active administrators, with and without one account.
use eap.Prelude.{
  ℕ, ◌+◌, ◌≤◌, ◌≡◌, refl, Bool, true, false, not, ◌&&◌, some, List, [], ◌∷◌, arith, ◌==◌,
  Bool-cases, inl, inr, some_inv, subst, sym,
}
use eap.Prelude.Table.{find, update, count}
use eap.Member.{User, is_active_admin, is_member, admins_left}

-- the active administrators besides one account
abbrev pub others : ℕ → ℕ → List User → ℕ
others t m users = count (λ u. (u.tenant_id == t && is_active_admin u) && not (u.id == m)) users

abbrev pub has_id : ℕ → User → Bool
has_id m u = u.id == m

-- an update of one account leaves the others
pub others-update :
    (t m : ℕ) (set : User → User) (users : List User)
    → ((u : User) → (set u).id ≡ u.id)
    → others t m (update (has_id m) set users) ≡ others t m users
unfolding count update
others-update t m set [] h = refl
others-update t m set (u ∷ us) h = elim (Bool-cases (u.id == m)) [
  | inl e ↦ rw (e, others-update t m set us h, h u, e) (ground arith)
  | inr e ↦ rw (e, others-update t m set us h) (ground (arith, e))
]

pub others-le : (t m : ℕ) (users : List User) → others t m users ≤ admins_left t users
unfolding count admins_left
others-le t m [] = omega arith
others-le t m (u ∷ us) = ground (arith, others-le t m us)

-- the rows of one account are all that can be missing
pub admins-le :
    (t m : ℕ) (users : List User) → admins_left t users ≤ others t m users + count (has_id m) users
unfolding count admins_left
admins-le t m [] = omega arith
admins-le t m (u ∷ us) = ground (arith, admins-le t m us)

-- an account that was read, and is no active administrator, is not among them
pub admins-le_others :
    (t m : ℕ) (users : List User) (member : User)
    → find (is_member t m) users ≡ some member
    → is_active_admin member ≡ false
    → count (has_id m) users ≤ 1
    → admins_left t users ≤ others t m users
unfolding count admins_left find
admins-le_others t m [] member h a u = omega arith
admins-le_others t m (x ∷ xs) member h a u = elim (Bool-cases (x.id == m)) [
  | inl e ↦ elim (Bool-cases (x.tenant_id == t)) [
    | inl k ↦
        let same : x ≡ member = some_inv (rw (e, k) at h) in
        let plain : is_active_admin x ≡ false =
          subst (λ z. is_active_admin z ≡ false) (sym same) a in
        ground (arith, plain, e, u, admins-le t m xs)
    | inr k ↦ ground (arith, k, e, u, admins-le t m xs)
  ]
  | inr e ↦ ground (arith, e, u, admins-le_others t m xs member (rw e at h) a)
]

-- a write that leaves active administrators what they are takes none away
pub admins-update :
    (t : ℕ) (keep : User → Bool) (set : User → User) (users : List User)
    → ((u : User) → (set u).tenant_id ≡ u.tenant_id)
    → ((u : User) → is_active_admin u ≡ true → is_active_admin (set u) ≡ true)
    → admins_left t users ≤ admins_left t (update keep set users)
unfolding count update admins_left
admins-update t keep set [] same h = omega arith
admins-update t keep set (u ∷ us) same h =
    let rest = admins-update t keep set us same h in
    elim (Bool-cases (keep u)) [
      | inl e ↦
          rw (e, same u)
            (elim (Bool-cases (is_active_admin u)) [
              | inl a ↦ rw (a, h u a) (omega (arith, rest))
              | inr a ↦ rw a (ground (arith, rest))
            ])
      | inr e ↦ rw e (omega (arith, rest))
    ]
