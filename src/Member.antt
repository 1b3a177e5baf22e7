-- ===== src/Member.antt =====
-- `update_member` of `MemberService` in apps/backend/app/services/member_service.py, over the columns
-- of apps/backend/app/models/user.py that it reads and writes. A request that may take an
-- administrator away runs under the tenant's lock from before its reads to its commit. What other
-- sessions commit between a request's reads and its write is an argument. The id of the
-- member is the one that `uuid.UUID` read; a text that is no UUID has the answer of a missing member.
pub mod Counts
pub mod Admins
mod Examples
use eap.Prelude.{
  ℕ, String, Bool, true, false, not, ◌&&◌, ◌||◌, Option, none, some, List, leb, ◌==◌, if◌then◌else◌,
  str_eq,
}
use eap.Prelude.Table.{find, update, count}
use eap.Errors.{Result, ok, err, app_error, ◌>>◌, raise_if, not_found, last_admin, self_disable}

-- `STATUS_ACTIVE` and `STATUS_DISABLED`, the two values that the column and a request may have
pub data Status : Type 0 where
  active disabled : Status

abbrev pub is_active : Status → Bool
is_active active = true
is_active disabled = false

abbrev pub is_disabled : Status → Bool
is_disabled active = false
is_disabled disabled = true

pub record User : Type 0 where
  pub id : ℕ
  pub tenant_id : ℕ
  pub role : String
  pub status : Status

abbrev pub is_active_admin : User → Bool
is_active_admin u = str_eq u.role "platform_admin" && is_active u.status

abbrev pub is_member : ℕ → ℕ → User → Bool
is_member tenant_id member_id u = u.id == member_id && u.tenant_id == tenant_id

-- `_admins_left`
unfoldable pub admins_left : ℕ → List User → ℕ
admins_left tenant_id users = count (λ u. u.tenant_id == tenant_id && is_active_admin u) users

abbrev pub or_else {ℓ} : {A : Type ℓ} → Option A → A → A
or_else none old = old
or_else (some new) old = new

-- whether the request takes the tenant's lock
unfoldable pub is_serialised : (role : Option String) (status : Option Status) → Bool
is_serialised (some _) status = true
is_serialised none (some s) = is_disabled s
is_serialised none none = false

-- the guards, on the member that was read and the administrators that were counted
unfoldable pub check_update :
    (actor_id admins : ℕ) (next_role : String) (next_status : Status) → User → Result (Unit {0})
check_update actor_id admins next_role next_status member = do
  raise_if
      (is_active_admin member
        && (not (str_eq next_role "platform_admin") || not (is_active next_status))
        && leb admins 1)
      409 last_admin
  raise_if (is_disabled next_status && not (is_disabled member.status) && member.id == actor_id) 409
      self_disable

-- the flush writes the columns whose value differs from the one that was read
abbrev pub new_role : (read next stored : String) → String
new_role read next stored = if str_eq read next then stored else next

abbrev pub new_status : (read next stored : Status) → Status
new_status active active stored = stored
new_status disabled disabled stored = stored
new_status _ next stored = next

abbrev pub written : User → (next_role : String) (next_status : Status) → User → User
written member next_role next_status u = record u {
  role = new_role member.role next_role u.role;
  status = new_status member.status next_status u.status;
}

-- the request for a member that was read
unfoldable pub adjust :
    (actor_id : ℕ) (role : Option String) (status : Option Status)
    → (between : List User → List User) → ℕ
    → User
    → List User
    → Result (Unit {0}) × List User
unfolding check_update
adjust actor_id role status between admins member users =
    let next_role = or_else role member.role in
    let next_status = or_else status member.status in
    let users' = between users in
    elim (check_update actor_id admins next_role next_status member) [
      | err e ↦ (err e, users')
      | ok _ ↦
          (ok tt, update (λ u. u.id == member.id) (written member next_role next_status) users')
    ]

unfoldable pub update_member :
    (tenant_id actor_id member_id : ℕ) (role : Option String) (status : Option Status)
    → (between : List User → List User) → List User
    → Result (Unit {0}) × List User
unfolding adjust admins_left
update_member tenant_id actor_id member_id role status between users =
    elim (find (is_member tenant_id member_id) users) [
      | none ↦ (err (app_error 404 not_found), users)
      | some member ↦ adjust actor_id role status between (admins_left tenant_id users) member users
    ]
