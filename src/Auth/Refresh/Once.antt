-- ===== src/Auth/Refresh/Once.antt =====
-- What a rotation that answers a pair had found, and how a replay after the grace period ends.
use eap.Prelude.{
  ℕ, ◌+◌, ◌<◌, ◌≡◌, refl, String, Bool, false, ◌&&◌, Option, none, some, List, [], ◌∷◌, arith, leb,
  ◌==◌, Bool-cases, Option-cases, inl, inr, ap, ◌∙◌, subst, sym, some_inv,
}
use eap.Prelude.Table.{find, count, update, find-update, find-append, find-keep}
use eap.Errors.{
  Result, AppError, app_error, ok, err, token_refresh_in_progress, token_reuse_detected,
}
use eap.Auth.Refresh.{
  Reason, rotated, reuse, RefreshToken, Identity, Vault, TokenPair, Minting, is_active, in_family,
  has_hash, revoked, minted, pair, revoke_family, is_rotated, claim, claim_for, replay,
  rotate_token, rotate, grace_period_seconds,
}
use eap.Auth.Refresh.Single.{usable, usable_count}

-- What a rotation that answered a pair had found, and what it did.
pub record Exchanged (m : Minting) (now : ℕ) (raw successor : String) (v : Vault) (p : TokenPair)
    : Type 0 where
  pub token : RefreshToken
  pub user : Identity
  pub found : find (has_hash (m.hash_token raw)) v.tokens ≡ some token
  pub active : token.revoked_at ≡ none
  pub in_time : now < token.expires_at
  pub known : find (λ (u : Identity). u.id == token.user_id) v.users ≡ some user
  pub answer : p ≡ pair m now user token.family_id successor
  pub claimed : (rotate m now raw successor v).1 ≡ (claim m now raw successor token user v).1

module _ (m : Minting) (now : ℕ) (raw successor : String) (v : Vault) (p : TokenPair) where
  pub replay-ne-ok :
      (n at : ℕ) (token : RefreshToken) (w : Vault)
      → (e : AppError) × ((replay n at token w).0 ≡ err e)
  unfolding replay
  replay-ne-ok n at token w =
      elim (Bool-cases (is_rotated token.revoked_reason && leb n (at + grace_period_seconds))) [
        | inl e ↦ (app_error 409 token_refresh_in_progress, rw (e, replay) refl)
        | inr e ↦ (app_error 401 token_reuse_detected, rw (e, replay) refl)
      ]

  token-Exchanged :
      (o : Option ℕ) (token : RefreshToken)
      → find (has_hash (m.hash_token raw)) v.tokens ≡ some token
      → token.revoked_at ≡ o
      → rotate m now raw successor v ≡ rotate_token o m now raw successor token v
      → (rotate_token o m now raw successor token v).0 ≡ ok p
      → Exchanged m now raw successor v p
  unfolding rotate_token claim_for claim
  token-Exchanged (some at) token h e same k = let (x, q) = replay-ne-ok now at token v in cc
  token-Exchanged none token h e same k = elim (Bool-cases (leb token.expires_at now)) [
    | inl x ↦ cc (rw (x, rotate_token) at k)
    | inr x ↦ elim (Option-cases (find (λ (u : Identity). u.id == token.user_id) v.users)) [
      | inl n ↦ ground (arith, x, n, k)
      | inr (user, n) ↦ record {
        token = token;
        user = user;
        found = h;
        active = e;
        in_time = ground arith;
        known = n;
        answer = ground (arith, x, n, k);
        claimed =
            ap (λ (r : Result TokenPair × Vault). r.1) same
            ∙ rw (x, rotate_token) (rw (n, claim_for) refl);
      }
    ]
  ]

  -- A rotation answers a pair only for an active and unexpired token of a known user; the pair is
  -- signed for that user and the token's family.
  pub rotate-Exchanged : (rotate m now raw successor v).0 ≡ ok p → Exchanged m now raw successor v p
  unfolding rotate
  rotate-Exchanged h = elim (Option-cases (find (has_hash (m.hash_token raw)) v.tokens)) [
    | inl n ↦ cc (rw (n, rotate) at h)
    | inr (token, n) ↦
        token-Exchanged token.revoked_at token n refl (rw (n, rotate) refl) (rw (n, rotate) at h)
  ]

  pub claimed-found :
      (token : RefreshToken) (user : Identity)
      → find (has_hash (m.hash_token raw)) v.tokens ≡ some token
      → find (has_hash (m.hash_token raw)) (claim m now raw successor token user v).1.tokens
        ≡ some (revoked now rotated token)
  unfolding claim
  claimed-found token user h =
      find-append key (update key (revoked now rotated) v.tokens)
        (minted m now token.user_id token.family_id successor ∷ []) (revoked now rotated token)
        (find-update key key (revoked now rotated) v.tokens (λ _. refl)
          ∙ rw h (rw (find-keep key v.tokens token h) refl))
    where
      key : RefreshToken → Bool
      key t = has_hash (m.hash_token raw) t

revoked-unusable :
    (now : ℕ) (reason : Reason) (f : ℕ) (ts : List RefreshToken)
    → count (usable f) (update (λ t. in_family f t && is_active t) (revoked now reason) ts) ≡ 0
unfolding count update
revoked-unusable now reason f [] = refl
revoked-unusable now reason f (t ∷ ts) = elim (Bool-cases (in_family f t && is_active t)) [
  | inl e ↦ rw (e, revoked-unusable now reason f ts) (ground arith)
  | inr e ↦ rw (e, e, revoked-unusable now reason f ts) refl
]

replay_breach :
    (now at : ℕ) (token : RefreshToken) (v : Vault)
    → (is_rotated token.revoked_reason && leb now (at + grace_period_seconds)) ≡ false
    → ((replay now at token v).0 ≡ err (app_error 401 token_reuse_detected))
      × (usable_count token.family_id (replay now at token v).1 ≡ 0)
unfolding replay revoke_family
replay_breach now at token v late =
    rw (late, replay) (refl, revoked-unusable now reuse token.family_id v.tokens)

-- A revoked token that is presented again, unless it was rotated at most 30 seconds ago, is answered
-- by 401 TOKEN_REUSE_DETECTED, and no token of its family is usable afterwards.
pub replay_ends_family :
    (m : Minting) (now : ℕ) (raw successor : String) (v : Vault) (token : RefreshToken) (at : ℕ)
    → find (has_hash (m.hash_token raw)) v.tokens ≡ some token
    → token.revoked_at ≡ some at
    → (is_rotated token.revoked_reason && leb now (at + grace_period_seconds)) ≡ false
    → ((rotate m now raw successor v).0 ≡ err (app_error 401 token_reuse_detected))
      × (usable_count token.family_id (rotate m now raw successor v).1 ≡ 0)
unfolding rotate
replay_ends_family m now raw successor v token at h e late =
    rw (h, rotate) (by_state token.revoked_at e)
  where
    by_state :
        (o : Option ℕ)
        → o ≡ some at
        → ((rotate_token o m now raw successor token v).0
            ≡ err (app_error 401 token_reuse_detected))
          × (usable_count token.family_id (rotate_token o m now raw successor token v).1 ≡ 0)
    by_state none k = cc
    by_state (some n) k =
        unfold rotate_token in
        subst
          (λ z.
            ((replay now z token v).0 ≡ err (app_error 401 token_reuse_detected))
            × (usable_count token.family_id (replay now z token v).1 ≡ 0))
          (some_inv (sym k)) (replay_breach now at token v late)
