-- ===== src/Errors.antt =====
-- Errors as values: `AppError` of apps/backend/app/errors.py and `AuthError` of
-- apps/backend/app/core/exceptions.py, both an HTTP status with a code. The message text of an
-- error is not modelled.
use eap.Prelude.{ℕ, ◌≡◌, refl, ap, Bool, true, false, ◌⊎◌, inl, inr}

pub data Code : Type 0 where
  task_not_found invalid_transition task_expired forbidden task_already_processed : Code
  max_retries_exceeded tool_disabled tool_not_configured tool_upstream_error : Code
  tool_circuit_open tool_not_found duplicate_tool_id : Code
  token_expired token_refresh_in_progress token_reuse_detected : Code
  not_found invalid_state conflict rate_limited login_locked invalid_credentials : Code
  validation_error last_admin self_disable account_exists dify_error invalid_binding : Code
  internal_error kb_not_found kb_name_exists kb_in_use kb_indexing kb_api_key_missing : Code
  document_not_found document_retry_failed document_delete_failed dify_upload_failed : Code
  tenant_not_found tenant_ambiguous dify_rate_limited invalid_cursor empty_file file_too_large
        unsupported_format :
      Code

pub data AppError : Type 0 where
  app_error : ℕ → Code → AppError

pub data Result {ℓ} (A : Type ℓ) : Type ℓ where
  err : AppError → Result A
  ok : A → Result A

-- what follows a guard runs only if the guard raised nothing
infixl 5 ◌>>◌
abbrev pub ◌>>◌ {ℓ} : {B : Type ℓ} → Result (Unit {0}) → Result B → Result B
ok passed >> next = next
err raised >> next = err raised

infixl 5 ◌>>=◌
abbrev pub ◌>>=◌ {ℓ κ} : {A : Type ℓ} {B : Type κ} → Result A → (A → Result B) → Result B
ok value >>= next = next value
err raised >>= next = err raised

-- `if test: raise AppError(status, code, …)`
abbrev pub raise_if : Bool → ℕ → Code → Result (Unit {0})
raise_if true status code = err (app_error status code)
raise_if false status code = ok tt

pub raise_if-ok :
    (b : Bool) (status : ℕ) (code : Code) {u : Unit {0}} → raise_if b status code ≡ ok u → b ≡ false
raise_if-ok true status code h = cc
raise_if-ok false status code h = refl

pub Result-cases : (r : Result (Unit {0})) → ((e : AppError) × (r ≡ err e)) ⊎ (r ≡ ok tt)
Result-cases (ok tt) = inr refl
Result-cases (err e) = inl (e, refl)

abbrev value_or {ℓ} : {A : Type ℓ} → A → Result A → A
value_or default (ok a) = a
value_or default (err e) = default

pub Result-split {ℓ} :
    {A : Type ℓ} (r : Result A) → ((e : AppError) × (r ≡ err e)) ⊎ ((a : A) × (r ≡ ok a))
Result-split (ok a) = inr (a, refl)
Result-split (err e) = inl (e, refl)

pub ok_inv {ℓ} : {A : Type ℓ} {a b : A} → ok a ≡ ok b → a ≡ b
ok_inv {a = a} h = ap (value_or a) h

-- the value that a successful chain went through
pub bind_inv {ℓ κ} :
    {A : Type ℓ} {B : Type κ} (r : Result A) (next : A → Result B) (b : B)
    → (r >>= next) ≡ ok b
    → (a : A) × (r ≡ ok a) × (next a ≡ ok b)
bind_inv (ok a) next b h = (a, refl, h)
bind_inv (err e) next b h = cc

pub then_inv {κ} :
    {B : Type κ} (r : Result (Unit {0})) (next : Result B) (b : B)
    → (r >> next) ≡ ok b
    → next ≡ ok b
then_inv (ok a) next b h = h
then_inv (err e) next b h = cc
