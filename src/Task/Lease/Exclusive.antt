-- ===== src/Task/Lease/Exclusive.antt =====
-- One worker has the lease at a time.
use eap.Prelude.{
  ℕ, ◌+◌, ◌<◌, ◌≡◌, refl, ap, true, false, ◌==◌, ltb, Option, none, some, List, [], ◌∷◌, map, arith,
  ==_refl, Bool-cases, inl, inr,
}
use eap.Prelude.Table.{All}
use eap.Task.Lease.{
  Held, extend, set_if_free, alive, acquire, renew, release, Call, acquiring, renewing, releasing,
  Request, perform, perform_all,
}

-- the calls of other workers, made before an instant
abbrev pub IsOther : (token expiry : ℕ) → Request → Type 0
IsOther token expiry r = ((token == r.token) ≡ false) × (r.now < expiry)

alive_held : (now : ℕ) (h : Held) → now < h.expiry → alive now (some h) ≡ some h
alive_held now h k = let e : ltb now h.expiry ≡ true = ground arith in rw e refl

perform-other :
    (ttl : ℕ) (h : Held) (c : Call) (token now : ℕ)
    → (h.token == token) ≡ false
    → now < h.expiry
    → perform ttl c token now (some h) ≡ (false, some h)
unfolding perform acquire renew release
perform-other ttl h acquiring token now other k = rw (alive_held now h k) refl
perform-other ttl h renewing token now other k = rw (alive_held now h k, other) refl
perform-other ttl h releasing token now other k = rw (alive_held now h k, other) refl

others_refused :
    (ttl : ℕ) (h : Held) (rs : List Request)
    → All (IsOther h.token h.expiry) rs
    → perform_all ttl rs (some h) ≡ (map (λ r. false) rs, some h)
unfolding perform_all
others_refused ttl h [] a = refl
others_refused ttl h (r ∷ rs) a =
    rw (perform-other ttl h r.call r.token r.now a.0.0 a.0.1, others_refused ttl h rs a.1) refl

extended-held :
    (token expiry : ℕ) (o : Option Held)
    → (extend token expiry o).0 ≡ true
    → (extend token expiry o).1 ≡ some (record { token = token; expiry = expiry })
extended-held token expiry none e = cc
extended-held token expiry (some h) e = elim (Bool-cases (h.token == token)) [
  | inl b ↦
      let same : h.token ≡ token = ground arith in
      rw b (ap (λ t. some (record { token = t; expiry = expiry })) same)
  | inr b ↦ cc (rw b at e)
]

free-held :
    (token expiry : ℕ) (o : Option Held)
    → (set_if_free token expiry o).0 ≡ true
    → (set_if_free token expiry o).1 ≡ some (record { token = token; expiry = expiry })
free-held token expiry none e = refl
free-held token expiry (some h) e = cc

won-held :
    (ttl : ℕ) (c : Call) (token now : ℕ) (key : Option Held)
    → (perform ttl c token now key).0 ≡ true
    → (perform ttl c token now key).1 ≡ some (record { token = token; expiry = now + ttl })
unfolding perform acquire renew
won-held ttl acquiring token now key e = free-held token (now + ttl) (alive now key) e
won-held ttl renewing token now key e = extended-held token (now + ttl) (alive now key) e
won-held ttl releasing token now key e = cc

renewed-held :
    (ttl later : ℕ) (h : Held) → later < h.expiry → (renew h.token ttl later (some h)).0 ≡ true
unfolding renew
renewed-held ttl later h k = rw (alive_held later h k, ==_refl h.token) refl

-- A worker that has acquired or renewed the lease keeps it for its whole time to live against the other
-- workers: whatever they call before it expires, none of them acquires or renews the lease, none of
-- their releases takes it away, and the holder can renew it again.
pub lease_exclusive :
    (ttl : ℕ) (c : Call) (token now : ℕ) (key : Option Held) (rs : List Request) (later : ℕ)
    → (perform ttl c token now key).0 ≡ true
    → All (IsOther token (now + ttl)) rs
    → later < now + ttl
    → ((perform_all ttl rs (perform ttl c token now key).1).0 ≡ map (λ r. false) rs)
      × ((renew token ttl later (perform_all ttl rs (perform ttl c token now key).1).1).0 ≡ true)
lease_exclusive ttl c token now key rs later won others k =
    let h : Held = record { token = token; expiry = now + ttl } in
    rw (won-held ttl c token now key won, others_refused ttl h rs others)
      (refl, renewed-held ttl later h k)
