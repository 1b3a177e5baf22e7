-- ===== src/Tool/Proxy/Tally.antt =====
-- What the circuit breakers of apps/backend/app/services/tool_proxy.py count, against a log of how the
-- calls of the process ended.
use eap.Prelude.{
  ℕ, suc, ◌+◌, ◌≡◌, String, Bool, true, false, Option, none, some, List, [], ◌∷◌, leb, str_eq,
  if◌then◌else◌, not, ◌&&◌, ◌||◌, ltb,
}
use eap.Errors.{Result, err}
use eap.Json.{Json}
use eap.Tool.Proxy.{
  circuit_open, Breaker, Breakers, Verdict, succeeded, gave_up, raised, ExecutionResult,
}

-- how a call of a tool that was let through ended, with its upstream
pub data Ending : Type 0 where
  good bad : (tool_id : String) → Ending

-- how many calls of the tool ended badly since one last ended well, the newest ending first
unfoldable pub bad_since_good : String → List Ending → ℕ
bad_since_good i [] = 0
bad_since_good i (good j ∷ log) = if str_eq j i then 0 else bad_since_good i log
bad_since_good i (bad j ∷ log) =
    if str_eq j i then suc (bad_since_good i log) else bad_since_good i log

-- a breaker of a tool that ended badly `n` times since it last ended well
pub record Counts (n : ℕ) (b : Breaker) : Type 0 where
  pub failures : b.failures ≡ n
  pub open_iff : b.is_open ≡ leb 5 n
  pub half_open_only : b.half_open ≡ true → leb 5 n ≡ true

-- no breaker is kept for a tool without a bad ending since its last good one
abbrev pub CountsEntry : ℕ → Option Breaker → Type 0
CountsEntry n none = n ≡ 0
CountsEntry n (some b) = Counts n b

-- the breakers after the calls of a log
abbrev pub Tallies : List Ending → Breakers → Type 0
Tallies log bs = (i : String) → CountsEntry (bad_since_good i log) (bs i)

-- the log after a call that was let through
unfoldable pub logged : Verdict → String → List Ending → List Ending
logged (succeeded code body) i log = good i ∷ log
logged gave_up i log = bad i ∷ log
logged (raised e) i log = log

-- whether an open breaker lets a call through as its trial
abbrev pub admits_trial : ℕ → Option Breaker → Bool
admits_trial now none = false
admits_trial now (some b) = leb (b.opened_at + 60) now && not b.half_open

-- whether a call of the tool is let through, by the log
unfoldable pub let_through : ℕ → String → List Ending → Breakers → Bool
let_through now i log bs = ltb (bad_since_good i log) 5 || admits_trial now (bs i)

-- what an execution left, by whether it was let through
abbrev pub Executed : Bool → (log longer : List Ending) → Result ExecutionResult × Breakers → Type 0
Executed true log longer (answer, bs) = Tallies longer bs
Executed false log longer (answer, bs) = (answer ≡ err circuit_open) × Tallies log bs
