-- ===== src/RateLimit/Rules.antt =====
-- The rules of apps/backend/app/rate_limit.py, which requests they apply to, and
-- `RateLimitMiddleware` of apps/backend/app/middleware/security.py that asks the limiter.
use eap.Prelude.{
  ◌≡◌, refl, ℕ, zero, suc, ◌-◌, ◌*◌, String, Bool, true, false, not, ◌&&◌, ◌||◌, Option, none, some,
  List, [], ◌∷◌, map, ltb, leb, ◌==◌, if◌then◌else◌, str_eq,
}
use eap.Prelude.Table.{length, select}
use Prim.Native.Char.{Char, code}
use Prim.Native.String
use eap.Conversation.Lines.{strip, strip_left, strip_right, after_prefix, is_empty}
use eap.RateLimit.Bucket.{Limit}

-- `RateLimitRule`
pub record Rule : Type 0 where
  pub name : String
  pub limit : Limit
  pub path_prefixes : List String
  pub path_patterns : List String
  pub methods : List String
  pub per_user : Bool
  pub self_limited_paths : List String

-- the settings that the rules are built from
pub record Settings : Type 0 where
  pub rate_limit_window_seconds : ℕ
  pub rate_limit_requests : ℕ
  pub rate_limit_login_per_minute : ℕ
  pub rate_limit_conversation_per_minute : ℕ
  pub rate_limit_upload_per_minute : ℕ

abbrev second : ℕ
second = 1000000

abbrev a_minute : ℕ → Limit
a_minute n = record { capacity = n; refill = n; period = 60 * second }

abbrev is_enabled : Rule → Bool
is_enabled r = ltb 0 r.limit.capacity && ltb 0 r.limit.refill

-- `build_rules`
unfoldable pub build_rules : Settings → List Rule
build_rules s = select is_enabled (
    record {
      name = "global";
      limit = record {
        capacity = s.rate_limit_requests;
        refill = s.rate_limit_requests;
        period =
            (if leb s.rate_limit_window_seconds 1 then 1 else s.rate_limit_window_seconds) * second;
      };
      path_prefixes = [];
      path_patterns = [];
      methods = [];
      per_user = false;
      self_limited_paths = [];
    }
    ∷ record {
      name = "login";
      limit = a_minute s.rate_limit_login_per_minute;
      path_prefixes = "/api/auth/login" ∷ [];
      path_patterns = [];
      methods = [];
      per_user = false;
      self_limited_paths = "/api/auth/login/local" ∷ [];
    }
    ∷ record {
      name = "conversation";
      limit = a_minute s.rate_limit_conversation_per_minute;
      path_prefixes = "/api/conversations" ∷ "/api/chat-messages" ∷ [];
      path_patterns = [];
      methods = [];
      per_user = true;
      self_limited_paths = [];
    }
    ∷ record {
      name = "upload";
      limit = a_minute s.rate_limit_upload_per_minute;
      path_prefixes = "/api/uploads" ∷ "/api/files" ∷ [];
      path_patterns = "/api/knowledge-bases/*/documents" ∷ [];
      methods = "POST" ∷ [];
      per_user = true;
      self_limited_paths = [];
    }
    ∷ [])

abbrev any_of : (String → Bool) → List String → Bool
any_of p [] = false
any_of p (x ∷ xs) = p x || any_of p xs

abbrev is_some {ℓ} : {A : Type ℓ} → Option A → Bool
is_some none = false
is_some (some a) = true

-- `matches_path`
unfoldable pub matches_path : String → (prefixes : List String) → Bool
matches_path path prefixes =
    any_of (λ prefix. str_eq path prefix || is_some (after_prefix (String.◌++◌ prefix "/") path))
      prefixes

-- a character at the front of the first of some parts
abbrev into_first : Char → List String → List String
into_first c [] = String.◌∷◌ c "" ∷ []
into_first c (part ∷ parts) = String.◌∷◌ c part ∷ parts

-- `split(separator)`, by the code of the separator
unfoldable pub split : ℕ → String → List String
split separator String.[] = "" ∷ []
split separator (String.◌∷◌ c s) =
    let parts = split separator s in if code c == separator then "" ∷ parts else into_first c parts

-- `_segment_matches`
abbrev segment_matches : (expected actual : String) → Bool
segment_matches expected actual =
    if str_eq expected "*" then not (is_empty actual) else str_eq expected actual

abbrev all_match : (expected parts : List String) → Bool
all_match [] [] = true
all_match (want ∷ wants) (got ∷ gots) = segment_matches want got && all_match wants gots
all_match _ _ = false

-- `matches_pattern`: parts of another number match nothing
unfoldable pub matches_pattern : String → (patterns : List String) → Bool
unfolding split
matches_pattern path patterns =
    any_of (λ pattern. all_match (split 47 pattern) (split 47 path)) patterns

abbrev or_text : Option String → String → String
or_text none default = default
or_text (some s) default = if is_empty s then default else s

-- `bucket_key`
unfoldable pub bucket_key : Rule → (client_ip : String) (user_id : Option String) → String
bucket_key r client_ip user_id = String.◌++◌ "ratelimit:" (
    String.◌++◌ r.name
      (String.◌++◌ ":" (if r.per_user then or_text user_id client_ip else client_ip)))

abbrev nth : ℕ → List String → String → String
nth n [] default = default
nth zero (x ∷ xs) default = x
nth (suc n) (x ∷ xs) default = nth n xs default

abbrev peer_of : Option String → String
peer_of none = "unknown"
peer_of (some host) = host

-- the hops of a forwarded header that name something
abbrev hops_of : String → List String
hops_of forwarded = select (λ hop. not (is_empty hop)) (map strip (split 44 forwarded))

-- `client_ip`: `forwarded` is the header `x-forwarded-for`, `peer` the host that connected
unfoldable pub client_ip : (trusted_proxy_count : ℕ) (forwarded peer : Option String) → String
unfolding split strip
client_ip trusted_proxy_count none peer = peer_of peer
client_ip trusted_proxy_count (some forwarded) peer =
    let hops = hops_of forwarded in
    if trusted_proxy_count == 0
    then peer_of peer
    else nth (length hops - trusted_proxy_count) hops (peer_of peer)

-- whether a rule applies to a request
unfoldable pub applies : (method path : String) → Rule → Bool
unfolding matches_path matches_pattern
applies method path r =
    (any_of (str_eq method) r.methods || length r.methods == 0)
    && ((length r.path_prefixes == 0 && length r.path_patterns == 0)
        || (matches_path path r.path_prefixes || matches_pattern path r.path_patterns))
    && not (matches_path path r.self_limited_paths)

-- The loop of `RateLimitMiddleware`: whether the request passes, and the limiter after the tokens it
-- took. The rules after one that refuses are not asked.
unfoldable pub limit_request {ℓ} :
    {L : Type ℓ} (acquire : Limit → String → L → Bool × L)
    → (method path client_ip : String) (user_id : Option String) (rules : List Rule) → L
    → Bool × L
unfolding applies bucket_key
limit_request acquire method path client_ip user_id [] limiter = (true, limiter)
limit_request acquire method path client_ip user_id (r ∷ rules) limiter =
    let asked =
      if applies method path r
      then acquire r.limit (bucket_key r client_ip user_id) limiter
      else (true, limiter) in
    let rest = limit_request acquire method path client_ip user_id rules asked.1 in
    if asked.0 then rest else (false, asked.1)

test_pattern :
    matches_pattern "/api/knowledge-bases/7/documents" ("/api/knowledge-bases/*/documents" ∷ [])
    ≡ true
unfolding matches_pattern split
test_pattern = refl

test_pattern_empty :
    matches_pattern "/api/knowledge-bases//documents" ("/api/knowledge-bases/*/documents" ∷ [])
    ≡ false
unfolding matches_pattern split
test_pattern_empty = refl

test_client_ip : client_ip 1 (some "10.0.0.1, 10.0.0.2") (some "10.0.0.9") ≡ "10.0.0.2"
unfolding client_ip split strip select strip_left strip_right
test_client_ip = refl
