-- ===== src/RateLimit/Agrees.antt =====
-- The entry of a key in `InMemoryTokenBucket` of apps/backend/app/rate_limit.py and its level.
use eap.Prelude.{
  ℕ, ◌+◌, ◌-◌, ◌*◌, ◌≤◌, ◌≡◌, refl, sym, ap, ◌∙◌, subst, String, Bool, true, false, not, Option,
  none, some, ltb, if◌then◌else◌, arith, Bool-cases, inl, inr,
}
use native.Mathlib.Nat.{add-mul, mul-le-mul_left, mul_comm}
use eap.Prelude.Map.{keep_if, put}
use eap.RateLimit.Bucket.{
  Limit, full, Entry, Buckets, refilled, is_idle, sweep_interval, sweep, serve,
}
use eap.RateLimit.Levels.{Levels}

abbrev pub level : Limit → Option Entry → ℕ → ℕ
level l none t = full l
level l (some e) t = refilled l e.tokens (t - e.last)

abbrev pub IsSound : ℕ → Limit → Option Entry → Type 0
IsSound now l none = Unit
IsSound now l (some e) = (e.last ≤ now) × (e.limit ≡ l)

pub elapsed_add : (a b c r : ℕ) → a ≤ b → b ≤ c → (c - a) * r ≡ (b - a) * r + (c - b) * r
elapsed_add a b c r h k =
    let split : c - a ≡ (b - a) + (c - b) = omega arith in
    ap (λ d. d * r) split ∙ add-mul (b - a) (c - b) r

-- refilling in two steps
refilled_twice :
    (l : Limit) (tokens a b c : ℕ)
    → a ≤ b
    → b ≤ c
    → refilled l (refilled l tokens (b - a)) (c - b) ≡ refilled l tokens (c - a)
refilled_twice l tokens a b c h k = rw (elapsed_add a b c l.refill h k) (ground arith)

kept-level :
    (now t : ℕ) (l : Limit) (o : Option Entry)
    → now ≤ t
    → IsSound now l o
    → level l (keep_if (λ e. not (is_idle now e)) o) t ≡ level l o t
kept-level now t l none h s = refl
kept-level now t l (some e) h s = elim (Bool-cases (is_idle now e)) [
  | inr b ↦ rw b refl
  | inl b ↦
      let idle = subst (λ m. ltb (full m) ((now - e.last) * m.refill) ≡ true) s.1 b in
      let more = elapsed_add e.last now t l.refill s.0 h in rw b (ground arith)
]

kept-IsSound :
    (now : ℕ) (l : Limit) (o : Option Entry)
    → IsSound now l o
    → IsSound now l (keep_if (λ e. not (is_idle now e)) o)
kept-IsSound now l none s = tt
kept-IsSound now l (some e) s = elim (Bool-cases (is_idle now e)) [
  | inl b ↦ rw b tt
  | inr b ↦ rw b s
]

pub later-IsSound :
    (now after : ℕ) (l : Limit) (o : Option Entry)
    → now ≤ after
    → IsSound now l o
    → IsSound after l o
later-IsSound now t l none h s = tt
later-IsSound now t l (some e) h s = (omega arith, s.1)

-- what the buckets and the promise have of one key
pub record Agrees (now : ℕ) (l : Limit) (o : Option Entry) (v : ℕ → ℕ) : Type 0 where
  pub sound : IsSound now l o
  pub equal : (t : ℕ) → now ≤ t → level l o t ≡ v t

-- from one instant to a later one, at which the buckets are swept
swept-Agrees :
    (now after : ℕ) (l : Limit) (o : Option Entry) (v : ℕ → ℕ)
    → now ≤ after
    → Agrees now l o v
    → Agrees after l (keep_if (λ e. not (is_idle after e)) o) v
swept-Agrees now after l o v h a =
    let sound = later-IsSound now after l o h a.sound in
    record {
      sound = kept-IsSound after l o sound;
      equal = λ t k. kept-level after t l o k sound ∙ a.equal t (omega arith);
    }

later-Agrees :
    (now after : ℕ) (l : Limit) (o : Option Entry) (v : ℕ → ℕ)
    → now ≤ after
    → Agrees now l o v
    → Agrees after l o v
later-Agrees now after l o v h a = record {
  sound = later-IsSound now after l o h a.sound;
  equal = λ t k. a.equal t (omega arith);
}

pub sweep-Agrees :
    (now after : ℕ) (l : Limit) (j : String) (b : Buckets) (v : ℕ → ℕ)
    → now ≤ after
    → Agrees now l (b.entries j) v
    → Agrees after l ((sweep after b).entries j) v
unfolding sweep
sweep-Agrees now after l j b v h a = elim (Bool-cases (ltb (after - b.last_sweep) sweep_interval)) [
  | inl e ↦ rw e (later-Agrees now after l (b.entries j) v h a)
  | inr e ↦ rw e (swept-Agrees now after l (b.entries j) v h a)
]

-- the entry that a request leaves, and its answer, by the entry that it found
module _ (l : Limit) (now : ℕ) where
  pub left : Option Entry → Bool × Entry
  left none = (true, record { tokens = full l - l.period; last = now; limit = l })
  left (some e) =
      let has = refilled l e.tokens (now - e.last) in
      if ltb has l.period
      then (false, record { tokens = has; last = now; limit = l })
      else (true, record { tokens = has - l.period; last = now; limit = l })

full_enough : (l : Limit) → 1 ≤ l.capacity → ltb (full l) l.period ≡ false
full_enough l h =
    let room = mul-le-mul_left l.period h in
    let turned = mul_comm l.period l.capacity in ground arith

pub serve-left :
    (l : Limit) (key : String) (now : ℕ) (o : Option Entry) (b : Buckets)
    → serve l key now o b
      ≡ ((left l now o).0, record b { entries = put key (left l now o).1 b.entries })
unfolding left
serve-left l key now none b = refl
serve-left l key now (some e) b =
    elim (Bool-cases (ltb (refilled l e.tokens (now - e.last)) l.period)) [
      | inl k ↦ rw k refl
      | inr k ↦ rw k refl
    ]

-- what the promise says of the key that is asked for
abbrev pub own : (l : Limit) (now : ℕ) → (ℕ → ℕ) → Bool × (ℕ → ℕ)
own l now v =
    if ltb (v now) l.period
    then (false, v)
    else (true, λ t. refilled l (v now - l.period) (t - now))

pub left-own :
    (l : Limit) (now : ℕ) (o : Option Entry) (v : ℕ → ℕ)
    → 1 ≤ l.capacity
    → Agrees now l o v
    → ((left l now o).0 ≡ (own l now v).0) × Agrees now l (some (left l now o).1) (own l now v).1
unfolding left
left-own l now none v h a =
    let full_now : full l ≡ v now = a.equal now (omega arith) in
    rw (sym full_now, full_enough l h)
      (refl, record { sound = (omega arith, refl); equal = λ t k. refl })
left-own l now (some e) v h a =
    let same : refilled l e.tokens (now - e.last) ≡ v now = a.equal now (omega arith) in
    elim (Bool-cases (ltb (refilled l e.tokens (now - e.last)) l.period)) [
      | inl k ↦
          rw (sym same, k)
            (
              refl,
              record {
                sound = (omega arith, refl);
                equal = λ t m. refilled_twice l e.tokens e.last now t a.sound.0 m ∙ a.equal t m;
              },
            )
      | inr k ↦ rw (sym same, k) (refl, record { sound = (omega arith, refl); equal = λ t m. refl })
    ]

abbrev pub Agree : (String → Limit) → ℕ → Buckets → Levels → Type 0
Agree limit_of now b v = (j : String) → Agrees now (limit_of j) (b.entries j) (v j)
