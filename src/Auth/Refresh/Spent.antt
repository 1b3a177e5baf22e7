-- ===== src/Auth/Refresh/Spent.antt =====
-- A refresh token that was exchanged stays spent, whatever `RefreshService` of
-- apps/backend/app/auth/refresh.py does afterwards.
use eap.Prelude.{
  ℕ, ◌+◌, ◌≡◌, refl, String, Bool, ◌&&◌, ◌==◌, Option, none, some, [], ◌∷◌, ◌++◌, leb, Bool-cases,
  Option-cases, inl, inr, ◌∙◌,
}
use eap.Prelude.Table.{find, update, find-update, find-append}
use eap.Errors.{ok, err, AppError}
use eap.Auth.Refresh.{
  Reason, rotated, reuse, RefreshToken, Identity, Vault, TokenPair, Minting, is_active, in_family,
  has_hash, revoked, minted, issue, revoke_family, revoke_all_for_user, claim, claim_for, replay,
  rotate_token, rotate, revoke, is_rotated, grace_period_seconds,
}
use eap.Auth.Refresh.Once.{rotate-Exchanged, claimed-found, replay-ne-ok}

-- the row that a token of this hash finds is revoked
pub record IsSpent (h : String) (v : Vault) : Type 0 where
  pub row : RefreshToken
  pub instant : ℕ
  pub found : find (has_hash h) v.tokens ≡ some row
  pub spent : row.revoked_at ≡ some instant

-- One operation of the service, with whatever arguments and answer.
pub data Step (m : Minting) : Vault → Vault → Type 0 where
  issues :
      (now : ℕ) (user : Identity) (family_id : ℕ) (raw : String) (v : Vault)
      → Step m v (issue m now user family_id raw v).1
  rotates :
      (now : ℕ) (raw successor : String) (v : Vault) → Step m v (rotate m now raw successor v).1
  revokes :
      (now : ℕ) (reason : Reason) (raw : String) (v : Vault) → Step m v (revoke m now reason raw v)
  revokes_all :
      (now : ℕ) (reason : Reason) (user_id : ℕ) (v : Vault)
      → Step m v (revoke_all_for_user now reason user_id v)

-- the operations of several requests, one after another
pub data Steps (m : Minting) : Vault → Vault → Type 0 where
  done : {v : Vault} → Steps m v v
  next : {u v w : Vault} → Step m u v → Steps m v w → Steps m u w

module _ (h : String) where
  update-IsSpent :
      (keep : RefreshToken → Bool) (now : ℕ) (reason : Reason) (v : Vault)
      → IsSpent h v
      → IsSpent h (record v { tokens = update keep (revoked now reason) v.tokens })
  update-IsSpent keep now reason v s = elim (Bool-cases (keep s.row)) [
    | inl e ↦ record {
      row = revoked now reason s.row;
      instant = now;
      found =
          find-update (has_hash h) keep (revoked now reason) v.tokens (λ _. refl)
          ∙ rw s.found (rw e refl);
      spent = refl;
    }
    | inr e ↦ record {
      row = s.row;
      instant = s.instant;
      found =
          find-update (has_hash h) keep (revoked now reason) v.tokens (λ _. refl)
          ∙ rw s.found (rw e refl);
      spent = s.spent;
    }
  ]

  append-IsSpent :
      (t : RefreshToken) (v : Vault)
      → IsSpent h v
      → IsSpent h (record v { tokens = v.tokens ++ t ∷ [] })
  append-IsSpent t v s = record {
    row = s.row;
    instant = s.instant;
    found = find-append (has_hash h) v.tokens (t ∷ []) s.row s.found;
    spent = s.spent;
  }

  replay-IsSpent :
      (now at : ℕ) (t : RefreshToken) (v : Vault) → IsSpent h v → IsSpent h (replay now at t v).1
  unfolding replay revoke_family
  replay-IsSpent now at t v s =
      elim (Bool-cases (is_rotated t.revoked_reason && leb now (at + grace_period_seconds))) [
        | inl e ↦ rw (e, replay) s
        | inr e ↦
            rw (e, replay)
              (update-IsSpent (λ x. in_family t.family_id x && is_active x) now reuse v s)
      ]

  module _ (m : Minting) (now : ℕ) (raw successor : String) where
    claim_for-IsSpent :
        (o : Option Identity) (t : RefreshToken) (v : Vault)
        → IsSpent h v
        → IsSpent h (claim_for o m now raw successor t v).1
    unfolding claim_for claim
    claim_for-IsSpent none t v s = s
    claim_for-IsSpent (some user) t v s =
        append-IsSpent (minted m now t.user_id t.family_id successor)
          (record v {
            tokens = update (has_hash (m.hash_token raw)) (revoked now rotated) v.tokens;
          })
          (update-IsSpent (has_hash (m.hash_token raw)) now rotated v s)

    rotate_token-IsSpent :
        (o : Option ℕ) (t : RefreshToken) (v : Vault)
        → IsSpent h v
        → IsSpent h (rotate_token o m now raw successor t v).1
    unfolding rotate_token
    rotate_token-IsSpent (some at) t v s = replay-IsSpent now at t v s
    rotate_token-IsSpent none t v s = elim (Bool-cases (leb t.expires_at now)) [
      | inl e ↦ rw (e, rotate_token) s
      | inr e ↦
          rw (e, rotate_token)
            (claim_for-IsSpent (find (λ (u : Identity). u.id == t.user_id) v.users) t v s)
    ]

    rotate-IsSpent : (v : Vault) → IsSpent h v → IsSpent h (rotate m now raw successor v).1
    unfolding rotate
    rotate-IsSpent v s = elim (Option-cases (find (has_hash (m.hash_token raw)) v.tokens)) [
      | inl e ↦ rw (e, rotate) s
      | inr (t, e) ↦ rw (e, rotate) (rotate_token-IsSpent t.revoked_at t v s)
    ]

  revoke-IsSpent :
      (m : Minting) (now : ℕ) (reason : Reason) (raw : String) (v : Vault)
      → IsSpent h v
      → IsSpent h (revoke m now reason raw v)
  unfolding revoke revoke_family
  revoke-IsSpent m now reason raw v s =
      elim (Option-cases (find (has_hash (m.hash_token raw)) v.tokens)) [
        | inl e ↦ rw (e, revoke) s
        | inr (t, e) ↦
            rw (e, revoke)
              (update-IsSpent (λ x. in_family t.family_id x && is_active x) now reason v s)
      ]

  Step-IsSpent : {m : Minting} {v w : Vault} → Step m v w → IsSpent h v → IsSpent h w
  unfolding issue revoke_all_for_user
  Step-IsSpent {m} (issues now user family_id raw v) s =
      append-IsSpent (minted m now user.id family_id raw) v s
  Step-IsSpent {m} (rotates now raw successor v) s = rotate-IsSpent m now raw successor v s
  Step-IsSpent {m} (revokes now reason raw v) s = revoke-IsSpent m now reason raw v s
  Step-IsSpent (revokes_all now reason user_id v) s =
      update-IsSpent (λ t. t.user_id == user_id && is_active t) now reason v s

  Steps-IsSpent : {m : Minting} {v w : Vault} → Steps m v w → IsSpent h v → IsSpent h w
  Steps-IsSpent done s = s
  Steps-IsSpent (next p q) s = Steps-IsSpent q (Step-IsSpent p s)

-- A token that was exchanged once is never exchanged again: after any further operations of the
-- service (logins, rotations, logouts and revocations of all tokens of a user, in any order, with any
-- arguments), a rotation that presents it answers an error, at any instant.
pub rotate_never_again :
    (m : Minting) (now now' : ℕ) (raw successor successor' : String) (v w : Vault) (p : TokenPair)
    → (rotate m now raw successor v).0 ≡ ok p
    → Steps m (rotate m now raw successor v).1 w
    → (e : AppError) × ((rotate m now' raw successor' w).0 ≡ err e)
unfolding rotate rotate_token
rotate_never_again m now now' raw successor successor' v w p k steps =
    let x = rotate-Exchanged m now raw successor v p k in
    let first : IsSpent (m.hash_token raw) (rotate m now raw successor v).1 = record {
      row = revoked now rotated x.token;
      instant = now;
      found = rw x.claimed (claimed-found m now raw successor v p x.token x.user x.found);
      spent = refl;
    } in
    let s = Steps-IsSpent (m.hash_token raw) steps first in
    rw (s.found, rotate)
      (rw (s.spent, rotate_token) (replay-ne-ok m now' raw successor' w p now' s.instant s.row w))
