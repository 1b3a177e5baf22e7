-- ===== src/RateLimit/Refines.antt =====
-- `InMemoryTokenBucket` of apps/backend/app/rate_limit.py keeps the promise of a token bucket.
use eap.Prelude.{
  ℕ, ◌-◌, ◌≤◌, ◌≡◌, refl, sym, ap, ◌∙◌, subst, String, true, false, some, List, [], ◌∷◌, ltb,
  if◌then◌else◌, str_eq, eq_iff, Bool-cases, inl, inr,
}
use eap.RateLimit.Bucket.{Limit, Buckets, opened, refilled, sweep, acquire}
use eap.RateLimit.Levels.{Levels, all_full, grant, Request, answers, promised, InOrder}
use eap.RateLimit.Agrees.{Agrees, sweep-Agrees, left, serve-left, own, left-own, Agree}

pub grant_answer :
    (l : Limit) (key : String) (now : ℕ) (v : Levels)
    → (grant l key now v).0 ≡ (own l now (v key)).0
unfolding grant
grant_answer l key now v = elim (Bool-cases (ltb (v key now) l.period)) [
  | inl e ↦ rw e refl
  | inr e ↦ rw e refl
]

pub grant-own :
    (l : Limit) (key j : String) (now : ℕ) (v : Levels)
    → str_eq key j ≡ true
    → (grant l key now v).1 j ≡ (own l now (v key)).1
unfolding grant
grant-own l key j now v h = elim (Bool-cases (ltb (v key now) l.period)) [
  | inl e ↦ rw e (ap v (sym ((eq_iff key j).0 h)))
  | inr e ↦ rw e (ap (λ b t. if b then refilled l (v key now - l.period) (t - now) else v j t) h)
]

pub grant_other :
    (l : Limit) (key j : String) (now : ℕ) (v : Levels)
    → str_eq key j ≡ false
    → (grant l key now v).1 j ≡ v j
unfolding grant
grant_other l key j now v h = elim (Bool-cases (ltb (v key now) l.period)) [
  | inl e ↦ rw e refl
  | inr e ↦ rw e (ap (λ b t. if b then refilled l (v key now - l.period) (t - now) else v j t) h)
]

pub acquire-grant :
    (limit_of : String → Limit) (key : String) (now after : ℕ) (b : Buckets) (v : Levels)
    → 1 ≤ (limit_of key).capacity
    → now ≤ after
    → Agree limit_of now b v
    → ((acquire (limit_of key) key after b).0 ≡ (grant (limit_of key) key after v).0)
      × Agree limit_of after
          (acquire (limit_of key) key after b).1
          (grant (limit_of key) key after v).1
unfolding acquire
acquire-grant limit_of key now after b v h k a =
    let l = limit_of key in
    let swept = sweep after b in
    let found = sweep-Agrees now after l key b (v key) k (a key) in
    let (answer, mine) = left-own l after (swept.entries key) (v key) h found in
    rw (serve-left l key after (swept.entries key) swept) (
      answer ∙ sym (grant_answer l key after v),
      λ j. elim (Bool-cases (str_eq key j)) [
        | inl e ↦
            rw (e, grant-own l key j after v e)
              (subst
                (λ i.
                  Agrees after (limit_of i) (some (left l after (swept.entries key)).1)
                    (own l after (v key)).1)
                ((eq_iff key j).0 e) mine)
        | inr e ↦
            rw (e, grant_other l key j after v e)
              (sweep-Agrees now after (limit_of j) j b (v j) k (a j))
      ],
    )

pub answers-promised :
    (limit_of : String → Limit) (rs : List Request) (now : ℕ) (b : Buckets) (v : Levels)
    → ((j : String) → 1 ≤ (limit_of j).capacity)
    → InOrder now rs
    → Agree limit_of now b v
    → answers limit_of rs b ≡ promised limit_of rs v
unfolding answers promised
answers-promised limit_of [] now b v h o a = refl
answers-promised limit_of (r ∷ rs) now b v h o a =
    let (answer, still) = acquire-grant limit_of r.key now r.now b v (h r.key) o.0 a in
    ap (λ x. x ∷ answers limit_of rs (acquire (limit_of r.key) r.key r.now b).1) answer
    ∙ ap (λ xs. (grant (limit_of r.key) r.key r.now v).0 ∷ xs)
        (answers-promised limit_of rs r.now (acquire (limit_of r.key) r.key r.now b).1
          (grant (limit_of r.key) r.key r.now v).1 h o.1 still)

-- With exact numbers, which the source's floating-point ones are not, the in-memory limiter grants and
-- refuses as buckets that are refilled at every instant and never forgotten would, all of them full at
-- first. The requests come in the order of the clock, each key has one limit, and every limit holds at
-- least one token.
pub answers_refine :
    (limit_of : String → Limit) (rs : List Request)
    → ((j : String) → 1 ≤ (limit_of j).capacity)
    → InOrder 0 rs
    → answers limit_of rs opened ≡ promised limit_of rs (all_full limit_of)
answers_refine limit_of rs h o =
    answers-promised limit_of rs 0 opened (all_full limit_of) h o
      (λ j. record { sound = tt; equal = λ t k. refl })
