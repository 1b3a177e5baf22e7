-- ===== src/RateLimit/Bounds.antt =====
-- How many requests a bucket lets through in a stretch of time.
use eap.Prelude.{
  ℕ, ◌+◌, ◌-◌, ◌*◌, ◌≤◌, ◌≡◌, refl, sym, subst, String, Bool, true, false, ◌&&◌, Option, none, some,
  List, [], ◌∷◌, ltb, if◌then◌else◌, arith, str_eq, eq_iff, Bool-cases, inl, inr,
}
use eap.Prelude.Table.{All}
use text.Mathlib.TextPositions.{eq_refl}
use eap.RateLimit.Bucket.{Limit, full, Entry, Buckets, opened, refilled, acquire}
use eap.RateLimit.Levels.{Levels, Request, InOrder, answers, promised, grant, all_full}
use eap.RateLimit.Agrees.{level, IsSound, Agree, elapsed_add, own, later-IsSound}
use eap.RateLimit.Refines.{acquire-grant, answers-promised, grant_answer, grant-own, grant_other}

-- the buckets after some requests
unfoldable pub run : (String → Limit) → List Request → Buckets → Buckets
unfolding acquire
run limit_of [] b = b
run limit_of (r ∷ rs) b = run limit_of rs (acquire (limit_of r.key) r.key r.now b).1

-- how many of the requests for a key were granted
abbrev pub granted_to : String → List Request → List Bool → ℕ
granted_to key [] answers = 0
granted_to key (r ∷ rs) [] = 0
granted_to key (r ∷ rs) (granted ∷ others) =
    (if str_eq r.key key && granted then 1 else 0) + granted_to key rs others

-- a level that grows no faster than the refill
abbrev Slow : Limit → ℕ → (ℕ → ℕ) → Type 0
Slow l now f = (s t : ℕ) → now ≤ s → s ≤ t → f t ≤ f s + (t - s) * l.refill

refilled-Slow :
    (l : Limit) (tokens last now : ℕ) → last ≤ now → Slow l now (λ t. refilled l tokens (t - last))
refilled-Slow l tokens last now h s t k m =
    let split = elapsed_add last s t l.refill (omega arith) m in ground arith

level-Slow : (l : Limit) (o : Option Entry) (now : ℕ) → IsSound now l o → Slow l now (level l o)
level-Slow l none now h s t k m = omega arith
level-Slow l (some e) now h s t k m = refilled-Slow l e.tokens e.last now h.0 s t k m

level_le_full : (l : Limit) (o : Option Entry) (t : ℕ) → level l o t ≤ full l
level_le_full l none t = omega arith
level_le_full l (some e) t = ground arith

-- taking a token keeps a level slow, and pays for it
own-Slow :
    (l : Limit) (now after : ℕ) (f : ℕ → ℕ)
    → now ≤ after
    → Slow l now f
    → Slow l after (own l after f).1
own-Slow l now after f h slow = elim (Bool-cases (ltb (f after) l.period)) [
  | inl e ↦ rw e (λ s t k m. slow s t (omega arith) m)
  | inr e ↦ rw e (refilled-Slow l (f after - l.period) after after (omega arith))
]

own_pays :
    (l : Limit) (now : ℕ) (f : ℕ → ℕ)
    → (own l now f).1 now + (if (own l now f).0 then l.period else 0) ≤ f now
own_pays l now f = elim (Bool-cases (ltb (f now) l.period)) [
  | inl e ↦ rw e (omega arith)
  | inr e ↦ rw e let still : now - now ≡ 0 = omega arith in rw still (ground arith)
]

-- what one request costs its key
abbrev cost : (l : Limit) (key : String) → Request → Bool → ℕ
cost l key r granted = if str_eq r.key key && granted then l.period else 0

asked-Slow :
    (l : Limit) (r : Request) (now : ℕ) (v : Levels)
    → now ≤ r.now
    → Slow l now (v r.key)
    → Slow l r.now ((grant l r.key r.now v).1 r.key)
      × ((grant l r.key r.now v).1 r.key r.now + cost l r.key r (grant l r.key r.now v).0
          ≤ v r.key r.now)
asked-Slow l r now v h slow =
    rw
      (grant-own l r.key r.key r.now v (eq_refl r.key), grant_answer l r.key r.now v, eq_refl r.key)
      (own-Slow l now r.now (v r.key) h slow, own_pays l r.now (v r.key))

-- a request keeps the level of a key slow, and pays for what it grants
grant-Slow :
    (limit_of : String → Limit) (key : String) (r : Request) (now : ℕ) (v : Levels)
    → now ≤ r.now
    → Slow (limit_of key) now (v key)
    → Slow (limit_of key) r.now ((grant (limit_of r.key) r.key r.now v).1 key)
      × ((grant (limit_of r.key) r.key r.now v).1 key r.now
            + cost (limit_of key) key r (grant (limit_of r.key) r.key r.now v).0
          ≤ v key r.now)
grant-Slow limit_of key r now v h slow = elim (Bool-cases (str_eq r.key key)) [
  | inl e ↦
      let same : r.key ≡ key = (eq_iff r.key key).0 e in
      subst
        (λ k.
          Slow (limit_of k) r.now ((grant (limit_of r.key) r.key r.now v).1 k)
          × ((grant (limit_of r.key) r.key r.now v).1 k r.now
                + cost (limit_of k) k r (grant (limit_of r.key) r.key r.now v).0
              ≤ v k r.now))
        same
        (asked-Slow (limit_of r.key) r now v h
          (subst (λ k. Slow (limit_of k) now (v k)) (sym same) slow))
  | inr e ↦
      rw (e, grant_other (limit_of r.key) r.key key r.now v e)
        ((λ s t k m. slow s t (omega arith) m), omega arith)
]

one_cost : (b : Bool) (n p : ℕ) → ((if b then 1 else 0) + n) * p ≡ (if b then p else 0) + n * p
one_cost true n p = omega arith
one_cost false n p = omega arith

promised_bound :
    (limit_of : String → Limit) (key : String) (rs : List Request) (now end : ℕ) (v : Levels)
    → InOrder now rs
    → All (λ r. r.now ≤ end) rs
    → now ≤ end
    → Slow (limit_of key) now (v key)
    → granted_to key rs (promised limit_of rs v) * (limit_of key).period
      ≤ v key now + (end - now) * (limit_of key).refill
unfolding promised
promised_bound limit_of key [] now end v o a h slow = omega arith
promised_bound limit_of key (r ∷ rs) now end v o a h slow =
    let l = limit_of key in
    let (slower, paid) = grant-Slow limit_of key r now v o.0 slow in
    let rest =
      promised_bound limit_of key rs r.now end (grant (limit_of r.key) r.key r.now v).1 o.1 a.1 a.0
        slower in
    let so_far = slow now r.now (omega arith) o.0 in
    let split = elapsed_add now r.now end l.refill o.0 a.0 in
    let total =
      one_cost (str_eq r.key key && (grant (limit_of r.key) r.key r.now v).0)
        (granted_to key rs (promised limit_of rs (grant (limit_of r.key) r.key r.now v).1))
        l.period in
    omega arith

-- the buckets after requests are those of some levels
run-IsSound :
    (limit_of : String → Limit) (rs : List Request) (now after : ℕ) (b : Buckets) (v : Levels)
    → ((j : String) → 1 ≤ (limit_of j).capacity)
    → InOrder now rs
    → All (λ r. r.now ≤ after) rs
    → now ≤ after
    → Agree limit_of now b v
    → (j : String) → IsSound after (limit_of j) ((run limit_of rs b).entries j)
unfolding run
run-IsSound limit_of [] now after b v caps o a h agree j =
    later-IsSound now after (limit_of j) (b.entries j) h (agree j).sound
run-IsSound limit_of (r ∷ rs) now after b v caps o a h agree j =
    run-IsSound limit_of rs r.now after (acquire (limit_of r.key) r.key r.now b).1
      (grant (limit_of r.key) r.key r.now v).1 caps o.1 a.1 a.0
      (acquire-grant limit_of r.key now r.now b v (caps r.key) o.0 agree).1 j

-- Whatever was asked before, the requests for one key that are granted from instant `start` to
-- instant `end` are no more than a full bucket and what is refilled in between allow, counted in
-- parts of a token. The requests come in the order of the clock, each key has one limit, and every
-- limit holds at least one token.
pub answers_bound :
    (limit_of : String → Limit) (before rs : List Request) (key : String) (start end : ℕ)
    → ((j : String) → 1 ≤ (limit_of j).capacity)
    → InOrder 0 before
    → All (λ r. r.now ≤ start) before
    → InOrder start rs
    → All (λ r. r.now ≤ end) rs
    → start ≤ end
    → granted_to key rs (answers limit_of rs (run limit_of before opened)) * (limit_of key).period
      ≤ full (limit_of key) + (end - start) * (limit_of key).refill
answers_bound limit_of before rs key start end caps o past p within h =
    let b = run limit_of before opened in
    let v : Levels = λ j t. level (limit_of j) (b.entries j) t in
    let sound =
      run-IsSound limit_of before 0 start opened (all_full limit_of) caps o past (omega arith)
        (λ j. record { sound = tt; equal = λ t k. refl }) in
    let alike : Agree limit_of start b v = λ j. record { sound = sound j; equal = λ t k. refl } in
    let bound =
      promised_bound limit_of key rs start end v p within h
        (level-Slow (limit_of key) (b.entries key) start (sound key)) in
    let most = level_le_full (limit_of key) (b.entries key) start in
    rw (answers-promised limit_of rs start b v caps p alike) (omega arith)
