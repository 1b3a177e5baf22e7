-- ===== src/Member/Admins.antt =====
-- A tenant that has an active platform administrator keeps one.
use eap.Prelude.{
  ℕ, ◌≤◌, ◌≡◌, refl, String, Bool, true, false, ◌&&◌, Option, none, some, List, arith, str_eq, ==→≡,
  Bool-cases, Option-cases, inl, inr,
}
use text.Mathlib.TextPositions.{eq_refl}
use eap.Prelude.Table.{find, update, count, find-keep}
use eap.Errors.{ok, Result-cases}
use eap.Member.{
  User, is_active_admin, is_member, admins_left, or_else, is_serialised, check_update, Status,
  active, disabled, is_active, new_role, new_status, written, adjust, update_member,
}
use eap.Member.Counts.{
  others, has_id, others-update, admins-le, others-le, admins-le_others, admins-update,
}

-- What other sessions may commit while a request runs. Under the tenant's lock only requests that
-- re-enable accounts, which take no administrator away; besides a request without the lock, any that
-- leave an administrator.
abbrev pub Harmless : Bool → ℕ → (List User → List User) → Type 0
Harmless true t between =
    (users : List User)
    → (admins_left t users ≤ admins_left t (between users))
      × ((m : ℕ) → others t m users ≤ others t m (between users))
Harmless false t between =
    (users : List User) → 1 ≤ admins_left t users → 1 ≤ admins_left t (between users)

new_role_same : (r stored : String) → new_role r r stored ≡ stored
new_role_same r stored = rw (eq_refl r) refl

new_status_same : (s stored : Status) → new_status s s stored ≡ stored
new_status_same active stored = refl
new_status_same disabled stored = refl

stays_active :
    (read stored : Status)
    → is_active stored ≡ true
    → is_active (new_status read active stored) ≡ true
stays_active active stored h = h
stays_active disabled stored h = refl

kept_admin :
    (member : User) (role : String) (status : Status)
    → str_eq role "platform_admin" ≡ true
    → is_active status ≡ true
    → (u : User) → is_active_admin u ≡ true
    → is_active_admin (written member role status u) ≡ true
kept_admin member role active r a u h = elim (Bool-cases (str_eq member.role role)) [
  | inl e ↦ rw e (ground (arith, stays_active member.status u.status, h))
  | inr e ↦ rw e (ground (arith, r, stays_active member.status u.status, h))
]
kept_admin member role disabled r a u h = cc

reenabled_admin :
    (member : User) (role : Option String) (status : Option Status)
    → is_serialised role status ≡ false
    → (u : User) → is_active_admin u ≡ true
    → is_active_admin (written member (or_else role member.role) (or_else status member.status) u)
      ≡ true
unfolding is_serialised
reenabled_admin member (some r) status h u a = cc
reenabled_admin member none none h u a =
    rw (new_role_same member.role u.role, new_status_same member.status u.status) a
reenabled_admin member none (some active) h u a =
    rw (new_role_same member.role u.role) (ground (arith, stays_active member.status u.status, a))
reenabled_admin member none (some disabled) h u a = cc

-- the refusal of a request that would leave no administrator
enough_admins :
    (actor admins : ℕ) (role : String) (status : Status) (member : User)
    → check_update actor admins role status member ≡ ok tt
    → is_active_admin member ≡ true
    → (str_eq role "platform_admin" && is_active status) ≡ false
    → 2 ≤ admins
unfolding check_update
enough_admins actor admins role status member h a k = ground (arith, h, a, k)

-- the account that was read, and what the tenant had besides it
others_left :
    (t actor m : ℕ) (role : String) (status : Status) (member : User) (users : List User)
    → find (is_member t m) users ≡ some member
    → count (has_id m) users ≤ 1
    → 1 ≤ admins_left t users
    → check_update actor (admins_left t users) role status member ≡ ok tt
    → (str_eq role "platform_admin" && is_active status) ≡ false
    → 1 ≤ others t m users
others_left t actor m role status member users h u one k x =
    elim (Bool-cases (is_active_admin member)) [
      | inl a ↦ omega (
        arith,
        enough_admins actor (admins_left t users) role status member k a x,
        admins-le t m users,
      )
      | inr a ↦ omega (arith, admins-le_others t m users member h a u)
    ]

adjusted :
    (t actor m : ℕ) (role : Option String) (status : Option Status)
    (between : List User → List User) (member : User) (users : List User)
    → Harmless (is_serialised role status) t between
    → find (is_member t m) users ≡ some member
    → count (has_id m) users ≤ 1
    → 1 ≤ admins_left t users
    → check_update actor
        (admins_left t users)
        (or_else role member.role)
        (or_else status member.status)
        member
      ≡ ok tt
    → 1
      ≤ admins_left t (
          update
            (has_id m)
            (written member (or_else role member.role) (or_else status member.status))
            (between users))
adjusted t actor m role status between member users harmless h u one k =
    elim (Bool-cases (is_serialised role status)) [
      | inl e ↦
          let kept = rw e at harmless in
          elim (Bool-cases (str_eq next_role "platform_admin" && is_active next_status)) [
            | inl x ↦ omega (
              arith,
              (kept users).0,
              admins-update t (has_id m) set (between users) (λ z. refl)
                  (kept_admin member next_role next_status (ground arith) (ground arith)),
            )
            | inr x ↦ omega (
              arith,
              (kept users).1 m,
              others_left t actor m next_role next_status member users h u one k x,
              others-update t m set (between users) (λ z. refl),
              others-le t m (update (has_id m) set (between users)),
            )
          ]
      | inr e ↦ omega (
        arith,
        (rw e at harmless) users one,
        admins-update t (has_id m) set (between users) (λ z. refl)
            (reenabled_admin member role status e),
      )
    ]
  where
    next_role : String
    next_role = or_else role member.role

    next_status : Status
    next_status = or_else status member.status

    set : User → User
    set z = written member next_role next_status z

-- A request to adjust a member, whatever it answers, leaves an active platform administrator to a
-- tenant that has one, provided that the account has one row and that what other sessions commit
-- meanwhile is harmless.
pub update_member-keeps_admin :
    (t actor m : ℕ) (role : Option String) (status : Option Status)
    (between : List User → List User) (users : List User)
    → Harmless (is_serialised role status) t between
    → count (has_id m) users ≤ 1
    → 1 ≤ admins_left t users
    → 1 ≤ admins_left t (update_member t actor m role status between users).1
unfolding update_member adjust
update_member-keeps_admin t actor m role status between users harmless u one =
    elim (Option-cases (find (is_member t m) users)) [
      | inl e ↦ rw (e, update_member) one
      | inr (member, e) ↦
          rw (e, update_member)
            (elim (Result-cases (
              check_update actor (admins_left t users) (or_else role member.role)
                (or_else status member.status) member)) [
                  | inl (x, k) ↦ rw (k, adjust) (spared (is_serialised role status) harmless)
                  | inr k ↦
                      let same : member.id ≡ m =
                        ==→≡ member.id m
                          (ground (arith, find-keep (is_member t m) users member e)) in
                      rw (k, adjust)
                        (rw same
                          (adjusted t actor m role status between member users harmless e u one k))
                ])
    ]
  where
    spared : (b : Bool) → Harmless b t between → 1 ≤ admins_left t (between users)
    spared true h = omega (arith, (h users).0, one)
    spared false h = h users one
