-- ===== src/Auth/LocalLogin/Alike.antt =====
-- What a refused login tells about the accounts.
use eap.Prelude.{ℕ, String, not, ◌≡◌, refl, ap, none, List, if◌then◌else◌}
use eap.Errors.{Result, ok, err, app_error, not_found, rate_limited}
use eap.Auth.LocalLogin.{
  Tenant, Account, Service, State, Request, Clock, resolve_tenant, find_account,
  require_credentials, opened, admit, resolved, credited, opened_in, opened_with, would_open,
  authenticate,
}

module _ {ℓ} {L : Type ℓ} (s : Service L) (c : Clock) (ours others : List Account) where
  admit-alike :
      (tenant_id : ℕ) (folded secret : String) (st : State L)
      → opened s.verify_password s.dummy_hash secret (find_account tenant_id folded ours) ≡ none
      → opened s.verify_password s.dummy_hash secret (find_account tenant_id folded others) ≡ none
      → admit s c tenant_id folded secret ours st ≡ admit s c tenant_id folded secret others st
  unfolding admit
  admit-alike tenant_id folded secret st a b = rw (a, b) refl

  resolved-alike :
      (address secret : String) (t : Result Tenant) (st : State L)
      → opened_in s address secret ours t ≡ none
      → opened_in s address secret others t ≡ none
      → resolved s c address secret ours t st ≡ resolved s c address secret others t st
  resolved-alike address secret (err e) st a b = refl
  resolved-alike address secret (ok t) st a b = admit-alike t.id (s.lower address) secret st a b

  credited-alike :
      (r : Result (String × String)) (tenants : List Tenant) (st : State L)
      → opened_with s r tenants ours ≡ none
      → opened_with s r tenants others ≡ none
      → credited s c r tenants ours st ≡ credited s c r tenants others st
  credited-alike (err e) tenants st a b = refl
  credited-alike (ok (address, secret)) tenants st a b =
      resolved-alike address secret (resolve_tenant s.lower address tenants) st a b

-- A login that gives the password of no active account is answered alike whatever accounts there are,
-- and leaves the same login bucket and the same failed attempts: an unknown address, a wrong password
-- and a disabled account cannot be told apart.
pub authenticate-alike {ℓ} :
    {L : Type ℓ} (s : Service L) (c : Clock) (ours others : List Account) (r : Request)
    (tenants : List Tenant) (st : State L)
    → would_open s r tenants ours ≡ none
    → would_open s r tenants others ≡ none
    → authenticate s c r tenants ours st ≡ authenticate s c r tenants others st
unfolding authenticate would_open
authenticate-alike {L = L} s c ours others r tenants st a b =
    let charged : State L = record st { limiter = (s.acquire r.client_ip st.limiter).1 } in
    ap
      (λ x.
        if not s.local_login_enabled
        then (err (app_error 404 not_found), st)
        else (if (s.acquire r.client_ip st.limiter).0
            then x
            else (err (app_error 429 rate_limited), charged)))
      (credited-alike s c ours others (require_credentials r) tenants charged a b)
