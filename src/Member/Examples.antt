-- ===== src/Member/Examples.antt =====
-- The theorem about members at a concrete input, and tests of the guards.
use eap.Prelude.{◌≤◌, ◌≡◌, refl, none, some, List, [], ◌∷◌, arith}
use eap.Prelude.Table.{find, update, count}
use eap.Errors.{err, app_error, last_admin, self_disable}
use eap.Member.{
  User, active, disabled, admins_left, check_update, adjust, update_member, is_serialised,
}
use eap.Member.Counts.{has_id}
use eap.Member.Admins.{update_member-keeps_admin}

abbrev root : User
root = record { id = 1; tenant_id = 9; role = "platform_admin"; status = active }

abbrev ann : User
ann = record { id = 2; tenant_id = 9; role = "employee"; status = active }

abbrev staff : List User
staff = root ∷ ann ∷ []

abbrev undisturbed : List User → List User
undisturbed users = users

demote_last :
    (update_member 9 1 1 (some "employee") none undisturbed staff).0
    ≡ err (app_error 409 last_admin)
unfolding update_member adjust check_update admins_left find count
demote_last = refl

disable_self :
    (update_member 9 2 2 none (some disabled) undisturbed staff).0
    ≡ err (app_error 409 self_disable)
unfolding update_member adjust check_update admins_left find count
disable_self = refl

promote :
    (update_member 9 1 2 (some "platform_admin") none undisturbed staff).1
    ≡ root ∷ record ann { role = "platform_admin" } ∷ []
unfolding update_member adjust check_update admins_left find count update
promote = refl

one_row : count (has_id 1) staff ≤ 1
unfolding count
one_row = omega arith

one_admin : 1 ≤ admins_left 9 staff
unfolding admins_left count
one_admin = omega arith

update_member-keeps_admin_example :
    1 ≤ admins_left 9 (update_member 9 1 1 (some "employee") none undisturbed staff).1
unfolding is_serialised
update_member-keeps_admin_example =
    update_member-keeps_admin 9 1 1 (some "employee") none undisturbed staff
      (λ users. (omega arith, λ m. omega arith)) one_row one_admin
