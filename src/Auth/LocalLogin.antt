-- ===== src/Auth/LocalLogin.antt =====
-- `LocalLoginService` of apps/backend/app/auth/local_login.py, with the tenant's resolution of
-- auth/tenants.py and core/folding.py. The limiter, `str.lower`, the check of a password and the key
-- of the failure counter are arguments; the failed attempts are those of Auth/Lockout.
pub mod Alike
use eap.Prelude.{
  ℕ, String, Bool, true, false, not, ◌&&◌, ◌||◌, ◌==◌, str_eq, if◌then◌else◌, Option, none, some,
  List, [], ◌∷◌,
}
use Prim.Native.Char.{code}
use Prim.Native.String
use eap.Prelude.Table.{select, take}
use eap.Errors.{
  Result, ok, err, AppError, app_error, not_found, rate_limited, validation_error, tenant_not_found,
  tenant_ambiguous, login_locked, invalid_credentials,
}
use eap.Conversation.Lines.{strip, is_empty}
use eap.Auth.Lockout.{Attempts, is_locked, record_failure, clear}

pub record Tenant : Type 0 where
  pub id : ℕ
  pub sso_domain_folded : String

-- the columns of a user that a login reads
pub record Account : Type 0 where
  pub id : ℕ
  pub tenant_id : ℕ
  pub email_folded : String
  pub password_hash : Option String
  pub is_active : Bool
  pub must_change_password : Bool

-- what the service is given
pub record Service {ℓ} (L : Type ℓ) : Type ℓ where
  pub local_login_enabled : Bool
  pub acquire : (client_ip : String) → L → Bool × L
  pub lower : String → String
  pub verify_password : (secret stored : String) → Bool
  pub dummy_hash : String
  pub identifier_of : (tenant_id : ℕ) (folded : String) → String

-- what it changes: the login bucket and the failed attempts
pub record State {ℓ} (L : Type ℓ) : Type ℓ where
  pub limiter : L
  pub attempts : Attempts

-- a request; a value that is no text is `none`
pub record Request : Type 0 where
  pub email : Option String
  pub password : Option String
  pub client_ip : String

-- the instants at which the attempts are read and written
pub record Clock : Type 0 where
  pub asked : ℕ
  pub recorded : ℕ

pub record LoginResult : Type 0 where
  pub user : Account
  pub must_change_password : Bool

abbrev has_at : String → Bool
has_at String.[] = false
has_at (String.◌∷◌ c s) = code c == 64 || has_at s

-- `rsplit("@", 1)[-1]`
unfoldable pub domain_of : String → String
domain_of String.[] = ""
domain_of (String.◌∷◌ c s) =
    let rest = domain_of s in if has_at s then rest else if code c == 64 then s else String.◌∷◌ c s

-- `resolve_tenant_by_email_domain`
abbrev only_tenant : List Tenant → Result Tenant
only_tenant [] = err (app_error 403 tenant_not_found)
only_tenant (t ∷ []) = ok t
only_tenant (t ∷ u ∷ us) = err (app_error 403 tenant_ambiguous)

unfoldable pub resolve_tenant :
    (lower : String → String) (email : String) → List Tenant → Result Tenant
unfolding domain_of
resolve_tenant lower email tenants =
    only_tenant (select (λ t. str_eq t.sso_domain_folded (lower (domain_of email))) tenants)

abbrev exactly_one : List Account → Option Account
exactly_one (a ∷ []) = some a
exactly_one _ = none

-- `_find_account`
unfoldable pub find_account : (tenant_id : ℕ) (folded : String) → List Account → Option Account
find_account tenant_id folded accounts =
    exactly_one
      (take 2 (select (λ a. a.tenant_id == tenant_id && str_eq a.email_folded folded) accounts))

abbrev text_of : Option String → String
text_of none = ""
text_of (some s) = s

-- `_require_credentials`
unfoldable pub require_credentials : Request → Result (String × String)
unfolding strip
require_credentials r =
    let address = strip (text_of r.email) in
    let secret = text_of r.password in
    if is_empty address || is_empty secret
    then err (app_error 422 validation_error)
    else ok (address, secret)

-- the hash that the password is checked against
abbrev pub stored_hash : (dummy : String) → Option String → String
stored_hash dummy none = dummy
stored_hash dummy (some hash) = if is_empty hash then dummy else hash

-- the account that the credentials open
abbrev pub opened :
    (verify : String → String → Bool) (dummy secret : String) → Option Account → Option Account
opened verify dummy secret none = none
opened verify dummy secret (some a) =
    if a.is_active && verify secret (stored_hash dummy a.password_hash) then some a else none

module _ {ℓ} {L : Type ℓ} (s : Service L) where
  -- the judgement of the credentials
  unfoldable pub judge :
      (c : Clock) (identifier : String) → Option Account → State L → Result LoginResult × State L
  judge c identifier none st = (
    err (app_error 401 invalid_credentials),
    record st { attempts = record_failure c.recorded identifier st.attempts },
  )
  judge c identifier (some a) st = (
    ok (record { user = a; must_change_password = a.must_change_password }),
    record st { attempts = clear identifier st.attempts },
  )

  -- the lockout, and then the credentials
  unfoldable pub admit :
      (c : Clock) (tenant_id : ℕ) (folded secret : String)
      → List Account
      → State L
      → Result LoginResult × State L
  unfolding judge find_account
  admit c tenant_id folded secret accounts st =
      let identifier = s.identifier_of tenant_id folded in
      let (locked, attempts) = is_locked c.asked identifier st.attempts in
      let next : State L = record st { attempts = attempts } in
      if locked
      then (err (app_error 429 login_locked), next)
      else judge c identifier
          (opened s.verify_password s.dummy_hash secret (find_account tenant_id folded accounts))
          next

  abbrev pub resolved :
      (c : Clock) (address secret : String)
      → List Account
      → Result Tenant
      → State L
      → Result LoginResult × State L
  resolved c address secret accounts (err e) st = (err e, st)
  resolved c address secret accounts (ok t) st = admit c t.id (s.lower address) secret accounts st

  abbrev pub credited :
      (c : Clock)
      → Result (String × String)
      → List Tenant
      → List Account
      → State L
      → Result LoginResult × State L
  credited c (err e) tenants accounts st = (err e, st)
  credited c (ok (address, secret)) tenants accounts st =
      resolved c address secret accounts (resolve_tenant s.lower address tenants) st

  abbrev opened_in : (address secret : String) → List Account → Result Tenant → Option Account
  opened_in address secret accounts (err e) = none
  opened_in address secret accounts (ok t) =
      opened s.verify_password s.dummy_hash secret (find_account t.id (s.lower address) accounts)

  abbrev opened_with : Result (String × String) → List Tenant → List Account → Option Account
  opened_with (err e) tenants accounts = none
  opened_with (ok (address, secret)) tenants accounts =
      opened_in address secret accounts (resolve_tenant s.lower address tenants)

  -- the active account whose password the request gives, if there is one
  unfoldable pub would_open : Request → List Tenant → List Account → Option Account
  would_open r tenants accounts = opened_with (require_credentials r) tenants accounts

  -- `authenticate`
  unfoldable pub authenticate :
      (c : Clock) → Request → List Tenant → List Account → State L → Result LoginResult × State L
  unfolding admit resolve_tenant require_credentials
  authenticate c r tenants accounts st =
      if not s.local_login_enabled
      then (err (app_error 404 not_found), st)
      else (let (granted, limiter) = s.acquire r.client_ip st.limiter in
          let charged : State L = record st { limiter = limiter } in
          if granted
          then credited c (require_credentials r) tenants accounts charged
          else (err (app_error 429 rate_limited), charged))
