-- ===== src/Auth/Examples.antt =====
-- The theorems about sessions and logins at concrete inputs.
use eap.Prelude.{ℕ, ◌+◌, Bool, false, str_eq, ◌≤◌, ◌≡◌, refl, true, none, some, [], ◌∷◌, arith}
use eap.Prelude.Table.{find, update, count, select}
use eap.Errors.{ok, err, AppError, app_error, token_reuse_detected}
use eap.Auth.Refresh.{
  rotated, RefreshToken, Identity, Vault, TokenPair, Minting, has_hash, pair, claim, claim_for,
  rotate_token, rotate, revoke, logout,
}
use eap.Auth.Refresh.Single.{usable_count, rotate-single}
use eap.Auth.Refresh.Once.{Exchanged, rotate-Exchanged, replay_ends_family}
use eap.Auth.Refresh.Spent.{done, next, rotates, revokes, rotate_never_again}
use eap.Conversation.Lines.{strip, strip_left, strip_right}
use eap.Auth.LocalLogin.{
  Tenant, Account, Service, State, Request, Clock, domain_of, resolve_tenant, find_account,
  require_credentials, would_open, authenticate,
}
use eap.Auth.LocalLogin.Alike.{authenticate-alike}
use eap.Auth.Lockout.{fresh, is_locked, record_failure}
use eap.Auth.Lockout.Locks.{five_failures_lock}

abbrev mint : Minting
mint = record {
  hash_token = λ raw. raw;
  issue_access_token = λ user family_id now. user.role;
  refresh_ttl = 1000;
}

abbrev token : RefreshToken
token = record {
  user_id = 7;
  family_id = 4;
  token_hash = "first";
  expires_at = 500;
  revoked_at = none;
  revoked_reason = none;
}

abbrev user : Identity
user = record { id = 7; tenant_id = 1; role = "employee" }

abbrev vault : Vault
vault = record { tokens = token ∷ []; users = user ∷ [] }

abbrev answer : TokenPair
answer = pair mint 100 user 4 "second"

exchanged : (rotate mint 100 "first" "second" vault).0 ≡ ok answer
unfolding rotate rotate_token claim_for claim find update
exchanged = refl

single : usable_count 4 vault ≤ 1
unfolding count
single = omega arith

rotate-single_example : usable_count 4 (rotate mint 100 "first" "second" vault).1 ≤ 1
rotate-single_example = rotate-single 4 mint 100 "first" "second" vault single

rotate-Exchanged_example : Exchanged mint 100 "first" "second" vault answer
rotate-Exchanged_example = rotate-Exchanged mint 100 "first" "second" vault answer exchanged

-- the successor is exchanged in its turn, and the user logs out
abbrev exchanged_twice : Vault
exchanged_twice = (rotate mint 105 "second" "third" (rotate mint 100 "first" "second" vault).1).1

rotate_never_again_example :
    (e : AppError) × ((rotate mint 110 "first" "fourth"
        (revoke mint 108 logout "third" exchanged_twice)).0
      ≡ err e)
rotate_never_again_example =
    rotate_never_again mint 100 110 "first" "second" "fourth" vault
      (revoke mint 108 logout "third" exchanged_twice) answer exchanged
      (next (rotates 105 "second" "third" (rotate mint 100 "first" "second" vault).1)
        (next (revokes 108 logout "third" exchanged_twice) done))

abbrev stolen : RefreshToken
stolen = record token { revoked_at = some 100; revoked_reason = some rotated }

abbrev heir : RefreshToken
heir = record token { token_hash = "second" }

abbrev used : Vault
used = record { tokens = stolen ∷ heir ∷ []; users = user ∷ [] }

found : find (has_hash "first") used.tokens ≡ some stolen
unfolding find
found = refl

replay_ends_family_example :
    ((rotate mint 131 "first" "third" used).0 ≡ err (app_error 401 token_reuse_detected))
    × (usable_count 4 (rotate mint 131 "first" "third" used).1 ≡ 0)
replay_ends_family_example =
    replay_ends_family mint 131 "first" "third" used stolen 100 found refl refl

five_failures_lock_example :
    (is_locked 909 "ann" (
      record_failure 14 "ann" (
        record_failure 13 "ann"
          (record_failure 12 "ann" (record_failure 11 "ann" (record_failure 10 "ann" fresh)))))).0
    ≡ true
five_failures_lock_example =
    five_failures_lock "ann" fresh 10 11 12 13 14 909 refl (omega arith) (omega arith) (omega arith)
      (omega arith) (omega arith)

abbrev acme : Tenant
acme = record { id = 1; sso_domain_folded = "acme.org" }

abbrev account : Bool → Account
account is_active = record {
  id = 7;
  tenant_id = 1;
  email_folded = "ann@acme.org";
  password_hash = some "secret";
  is_active = is_active;
  must_change_password = false;
}

-- a password is stored as it is, and the limiter has tokens to give
abbrev service : Service ℕ
service = record {
  local_login_enabled = true;
  acquire = λ client_ip n. (true, n + 1);
  lower = λ s. s;
  verify_password = str_eq;
  dummy_hash = "dummy";
  identifier_of = λ tenant_id folded. folded;
}

abbrev guess : Request
guess = record { email = some "ann@acme.org"; password = some "guess"; client_ip = "10.0.0.1" }

abbrev clock : Clock
clock = record { asked = 10; recorded = 11 }

abbrev quiet : State ℕ
quiet = record { limiter = 0; attempts = fresh }

wrong_password : would_open service guess (acme ∷ []) (account true ∷ []) ≡ none
unfolding would_open require_credentials resolve_tenant domain_of find_account select strip
    strip_left strip_right
wrong_password = refl

no_account : would_open service guess (acme ∷ []) [] ≡ none
unfolding would_open require_credentials resolve_tenant domain_of find_account select strip
    strip_left strip_right
no_account = refl

authenticate-alike_example :
    authenticate service clock guess (acme ∷ []) (account true ∷ []) quiet
    ≡ authenticate service clock guess (acme ∷ []) [] quiet
authenticate-alike_example =
    authenticate-alike service clock (account true ∷ []) [] guess (acme ∷ []) quiet wrong_password
      no_account

test_login :
    (authenticate service clock
      (record guess { password = some "secret" })
      (acme ∷ [])
      (account true ∷ [])
      quiet).0
    ≡ ok (record { user = account true; must_change_password = false })
unfolding authenticate require_credentials resolve_tenant domain_of find_account select strip
    strip_left strip_right is_locked
test_login = refl
