-- ===== src/Auth/Refresh/Single.antt =====
-- A family never has two usable refresh tokens, and a token is exchanged at most once.
use eap.Prelude.{
  ℕ, ◌+◌, ◌≤◌, ◌≡◌, refl, String, Bool, ◌&&◌, Option, none, some, List, [], ◌∷◌, ◌++◌, arith, leb,
  ◌==◌, Bool-cases, Option-cases, inl, inr,
}
use eap.Prelude.Table.{find, count, update}
use eap.Prelude.Query.{count-append, count-update_drop, one-le-count}
use eap.Auth.Refresh.{
  Reason, rotated, reuse, RefreshToken, Identity, Vault, Minting, is_active, in_family, has_hash,
  revoked, minted, revoke_family, is_rotated, claim, claim_for, replay, rotate_token, rotate,
  grace_period_seconds,
}

-- a token of the family that can still be exchanged
abbrev pub usable : ℕ → RefreshToken → Bool
usable f t = in_family f t && is_active t

abbrev pub usable_count : ℕ → Vault → ℕ
usable_count f v = count (usable f) v.tokens

revoke_family-le :
    (f now : ℕ) (reason : Reason) (family_id : ℕ) (v : Vault)
    → usable_count f (revoke_family now reason family_id v) ≤ usable_count f v
unfolding revoke_family
revoke_family-le f now reason family_id v = omega (
  arith,
  count-update_drop (usable f) (λ t. in_family family_id t && is_active t) (revoked now reason)
      v.tokens (λ t. ground arith),
)

claim-single :
    (f : ℕ) (m : Minting) (now : ℕ) (raw successor : String) (token : RefreshToken)
    (user : Identity) (v : Vault)
    → find (has_hash (m.hash_token raw)) v.tokens ≡ some token
    → token.revoked_at ≡ none
    → usable_count f v ≤ 1
    → usable_count f (claim m now raw successor token user v).1 ≤ 1
unfolding claim count
claim-single f m now raw successor token user v h a k = elim (Bool-cases (token.family_id == f)) [
  | inl e ↦
      ground (arith, appended, dropped, one-le-count (usable f) key v.tokens token h (ground arith))
  | inr e ↦ ground (arith, appended, dropped)
]
  where
    key : RefreshToken → Bool
    key t = has_hash (m.hash_token raw) t

    kept : List RefreshToken
    kept = update key (revoked now rotated) v.tokens

    fresh : RefreshToken
    fresh = minted m now token.user_id token.family_id successor

    appended :
        count (usable f) (kept ++ fresh ∷ [])
        ≡ count (usable f) kept + count (usable f) (fresh ∷ [])
    appended = count-append (usable f) kept (fresh ∷ [])

    dropped :
        count (usable f) kept + count (λ t. usable f t && key t) v.tokens
        ≡ count (usable f) v.tokens
    dropped = count-update_drop (usable f) key (revoked now rotated) v.tokens (λ t. ground arith)

replay-le :
    (f now at : ℕ) (token : RefreshToken) (v : Vault)
    → usable_count f (replay now at token v).1 ≤ usable_count f v
unfolding replay
replay-le f now at token v =
    elim (Bool-cases (is_rotated token.revoked_reason && leb now (at + grace_period_seconds))) [
      | inl e ↦ rw (e, replay) (omega arith)
      | inr e ↦ rw (e, replay) (revoke_family-le f now reuse token.family_id v)
    ]

claim_for-single :
    (o : Option Identity) (f : ℕ) (m : Minting) (now : ℕ) (raw successor : String)
    (token : RefreshToken) (v : Vault)
    → find (has_hash (m.hash_token raw)) v.tokens ≡ some token
    → token.revoked_at ≡ none
    → usable_count f v ≤ 1
    → usable_count f (claim_for o m now raw successor token v).1 ≤ 1
unfolding claim_for
claim_for-single none f m now raw successor token v h e k = k
claim_for-single (some user) f m now raw successor token v h e k =
    claim-single f m now raw successor token user v h e k

rotate_token-single :
    (o : Option ℕ) (f : ℕ) (m : Minting) (now : ℕ) (raw successor : String) (token : RefreshToken)
    (v : Vault)
    → find (has_hash (m.hash_token raw)) v.tokens ≡ some token
    → token.revoked_at ≡ o
    → usable_count f v ≤ 1
    → usable_count f (rotate_token o m now raw successor token v).1 ≤ 1
unfolding rotate_token
rotate_token-single (some at) f m now raw successor token v h e k =
    omega (arith, replay-le f now at token v, k)
rotate_token-single none f m now raw successor token v h e k =
    elim (Bool-cases (leb token.expires_at now)) [
      | inl x ↦ rw (x, rotate_token) k
      | inr x ↦
          rw (x, rotate_token)
            (claim_for-single (find (λ (u : Identity). u.id == token.user_id) v.users) f m now raw
              successor token v h e k)
    ]

-- A rotation, whatever it answers, leaves a family that had at most one usable token with at most
-- one: the successor takes the place of the token that was presented.
pub rotate-single :
    (f : ℕ) (m : Minting) (now : ℕ) (raw successor : String) (v : Vault)
    → usable_count f v ≤ 1
    → usable_count f (rotate m now raw successor v).1 ≤ 1
unfolding rotate
rotate-single f m now raw successor v k =
    elim (Option-cases (find (has_hash (m.hash_token raw)) v.tokens)) [
      | inl n ↦ rw (n, rotate) k
      | inr (token, n) ↦
          rw (n, rotate)
            (rotate_token-single token.revoked_at f m now raw successor token v n refl k)
    ]
