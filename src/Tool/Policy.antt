-- ===== src/Tool/Policy.antt =====
-- The retry policy of a tool, as `_max_retries` and `_backoff_ms` of
-- apps/backend/app/services/tool_proxy.py read it, and the budget and the grace that
-- apps/backend/app/services/task_reconcile.py derives from it. Python's `int` of a text is an
-- argument.
use eap.Prelude.{
  ℕ, zero, suc, ◌+◌, ◌*◌, ◌/◌, ◌^◌, String, true, false, Option, none, some, ◌==◌, if◌then◌else◌,
}
use eap.Json.{ℤ, pos, negsuc, Json, null, bool, num, text, arr, obj, Fields, end, get}

-- `max(0, n)`
abbrev pub at_least_zero : ℤ → ℕ
at_least_zero (pos n) = n
at_least_zero (negsuc n) = 0

abbrev parsed : ℕ → Option ℤ → ℕ
parsed default none = default
parsed default (some n) = at_least_zero n

-- `max(0, int(value))`, and the default where `int` raises
unfoldable pub whole : (String → Option ℤ) → (default : ℕ) → Json → ℕ
whole parse_int default (num n) = at_least_zero n
whole parse_int default (bool true) = 1
whole parse_int default (bool false) = 0
whole parse_int default (text t) = parsed default (parse_int t)
whole parse_int default null = default
whole parse_int default (arr items) = default
whole parse_int default (obj fields) = default

abbrev entry : (String → Option ℤ) → ℕ → Option Json → ℕ
entry parse_int default none = default
entry parse_int default (some value) = whole parse_int default value

abbrev fields_of : Option Fields → Fields
fields_of none = end
fields_of (some fields) = fields

unfoldable pub max_retries : (String → Option ℤ) → Option Fields → ℕ
unfolding whole get
max_retries parse_int policy = entry parse_int 2 (get (fields_of policy) "max_retries")

unfoldable pub base_delay_ms : (String → Option ℤ) → Option Fields → ℕ
unfolding whole get
base_delay_ms parse_int policy = entry parse_int 1000 (get (fields_of policy) "base_delay_ms")

-- `base << attempt`
abbrev pub backoff_ms : (base attempt : ℕ) → ℕ
backoff_ms base attempt = base * 2 ^ attempt

-- the sum of the delays before the attempts 1 … `retries`
unfoldable pub total_backoff_ms : (base retries : ℕ) → ℕ
total_backoff_ms base zero = 0
total_backoff_ms base (suc n) = total_backoff_ms base n + backoff_ms base n

-- `math.ceil(ms / 1000)`
abbrev pub ceil_seconds : ℕ → ℕ
ceil_seconds ms = (ms + 999) / 1000

abbrev pub budget : (timeout_ms retries base : ℕ) → ℕ
budget timeout_ms retries base =
    ceil_seconds timeout_ms * (retries + 1) + ceil_seconds (total_backoff_ms base retries)

-- `timeout_ms` is `none` where the outer join found no tool
unfoldable pub execution_budget_seconds : (String → Option ℤ) → Option ℕ → Option Fields → ℕ
execution_budget_seconds parse_int none policy = 0
execution_budget_seconds parse_int (some timeout_ms) policy =
    if timeout_ms == 0
    then 0
    else budget timeout_ms (max_retries parse_int policy) (base_delay_ms parse_int policy)

-- `LEASE_TTL_SECONDS` of apps/backend/app/services/task_lease.py
abbrev pub lease_ttl_seconds : ℕ
lease_ttl_seconds = 60

unfoldable pub rescue_grace_seconds : (String → Option ℤ) → Option ℕ → Option Fields → ℕ
unfolding execution_budget_seconds
rescue_grace_seconds parse_int timeout_ms policy =
    execution_budget_seconds parse_int timeout_ms policy + lease_ttl_seconds
