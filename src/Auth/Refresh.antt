-- ===== src/Auth/Refresh.antt =====
-- `RefreshService` of apps/backend/app/auth/refresh.py over the rows of
-- apps/backend/app/models/refresh_token.py. A rotation holds the lock of the row that it claims
-- until it commits, so each operation is one step. The hash, the random tokens and the signing of
-- access tokens are arguments.
pub mod Single
pub mod Once
pub mod Spent
use eap.Prelude.{
  ℕ, ◌+◌, String, Bool, true, false, ◌&&◌, Option, none, some, List, [], ◌∷◌, ◌++◌, leb, ◌==◌,
  if◌then◌else◌, str_eq,
}
use eap.Prelude.Table.{find, update}
use eap.Errors.{
  Result, ok, err, app_error, token_expired, token_refresh_in_progress, token_reuse_detected,
}

-- why a token stopped being usable
pub data Reason : Type 0 where
  rotated logout reuse password_change password_reset : Reason

pub record RefreshToken : Type 0 where
  pub user_id : ℕ
  pub family_id : ℕ
  pub token_hash : String
  pub expires_at : ℕ
  pub revoked_at : Option ℕ
  pub revoked_reason : Option Reason

-- the claims of a `User` row that a rotation reads
pub record Identity : Type 0 where
  pub id : ℕ
  pub tenant_id : ℕ
  pub role : String

pub record Vault : Type 0 where
  pub tokens : List RefreshToken
  pub users : List Identity

-- `TokenPair`: the signed access token, and the refresh token as it leaves the platform
pub record TokenPair : Type 0 where
  pub access_token : String
  pub refresh_token : String
  pub refresh_expires_in : ℕ

-- `generate_refresh_token` is the argument `raw` of the operations; the rest is given here.
pub record Minting : Type 0 where
  pub hash_token : String → String
  pub issue_access_token : Identity → (family_id now : ℕ) → String
  pub refresh_ttl : ℕ

-- `GRACE_PERIOD_SECONDS`
abbrev pub grace_period_seconds : ℕ
grace_period_seconds = 30

abbrev pub is_active : RefreshToken → Bool
is_active t = elim t.revoked_at [ none ↦ true | some _ ↦ false ]

abbrev pub in_family : ℕ → RefreshToken → Bool
in_family f t = t.family_id == f

abbrev pub has_hash : String → RefreshToken → Bool
has_hash h t = str_eq t.token_hash h

abbrev pub revoked : ℕ → Reason → RefreshToken → RefreshToken
revoked now reason t = record t { revoked_at = some now; revoked_reason = some reason }

abbrev pub minted : Minting → ℕ → ℕ → ℕ → String → RefreshToken
minted m now user_id family_id raw = record {
  user_id = user_id;
  family_id = family_id;
  token_hash = m.hash_token raw;
  expires_at = now + m.refresh_ttl;
  revoked_at = none;
  revoked_reason = none;
}

abbrev pub pair : Minting → ℕ → Identity → ℕ → String → TokenPair
pair m now user family_id raw = record {
  access_token = m.issue_access_token user family_id now;
  refresh_token = raw;
  refresh_expires_in = m.refresh_ttl;
}

-- a new family for the user
unfoldable pub issue :
    Minting → ℕ → Identity → (family_id : ℕ) → (raw : String) → Vault → TokenPair × Vault
issue m now user family_id raw v = (
  pair m now user family_id raw,
  record v { tokens = v.tokens ++ minted m now user.id family_id raw ∷ [] },
)

-- `_revoke_family`
unfoldable pub revoke_family : ℕ → Reason → ℕ → Vault → Vault
revoke_family now reason family_id v = record v {
  tokens = update (λ t. in_family family_id t && is_active t) (revoked now reason) v.tokens;
}

unfoldable pub revoke_all_for_user : ℕ → Reason → ℕ → Vault → Vault
revoke_all_for_user now reason user_id v = record v {
  tokens = update (λ t. t.user_id == user_id && is_active t) (revoked now reason) v.tokens;
}

abbrev is_rotated : Option Reason → Bool
is_rotated (some rotated) = true
is_rotated _ = false

-- the claim of an active, unexpired token and its successor in the same family
unfoldable pub claim :
    Minting
    → ℕ
    → (raw successor : String) → RefreshToken
    → Identity
    → Vault
    → Result TokenPair × Vault
claim m now raw successor token user v = (
  ok (pair m now user token.family_id successor),
  record v {
    tokens =
        update (has_hash (m.hash_token raw)) (revoked now rotated) v.tokens
        ++ minted m now token.user_id token.family_id successor ∷ [];
  },
)

-- a token that was revoked at `at` is presented again
unfoldable pub replay : ℕ → ℕ → RefreshToken → Vault → Result TokenPair × Vault
unfolding revoke_family
replay now at token v =
    if is_rotated token.revoked_reason && leb now (at + grace_period_seconds)
    then (err (app_error 409 token_refresh_in_progress), v)
    else (err (app_error 401 token_reuse_detected), revoke_family now reuse token.family_id v)

abbrev expired_answer : Vault → Result TokenPair × Vault
expired_answer v = (err (app_error 401 token_expired), v)

-- the rest of a rotation, once the user of an active and unexpired token was looked up
unfoldable pub claim_for :
    Option Identity
    → Minting
    → ℕ
    → (raw successor : String) → RefreshToken
    → Vault
    → Result TokenPair × Vault
claim_for none m now raw successor token v = expired_answer v
claim_for (some user) m now raw successor token v = claim m now raw successor token user v

-- the judgements of `rotate` on the row that it locked, by its `revoked_at`
unfoldable pub rotate_token :
    Option ℕ
    → Minting
    → ℕ
    → (raw successor : String) → RefreshToken
    → Vault
    → Result TokenPair × Vault
unfolding claim_for
rotate_token (some at) m now raw successor token v = replay now at token v
rotate_token none m now raw successor token v =
    if leb token.expires_at now
    then expired_answer v
    else claim_for (find (λ u. u.id == token.user_id) v.users) m now raw successor token v

unfoldable pub rotate : Minting → ℕ → (raw successor : String) → Vault → Result TokenPair × Vault
rotate m now raw successor v = elim (find (has_hash (m.hash_token raw)) v.tokens) [
  | none ↦ expired_answer v
  | some token ↦ rotate_token token.revoked_at m now raw successor token v
]

-- `revoke`: the family of a raw token, if it is known
unfoldable pub revoke : Minting → ℕ → Reason → String → Vault → Vault
revoke m now reason raw v = elim (find (has_hash (m.hash_token raw)) v.tokens) [
  | none ↦ v
  | some token ↦ revoke_family now reason token.family_id v
]
