-- ===== src/Agent/Lifecycle/Outcome.antt =====
-- What each lifecycle request answers when nothing is committed while it runs.
use eap.Prelude.{
  some_inv, ℕ, ◌+◌, ◌≤◌, ◌≡◌, refl, String, not, Option, none, some, List, [], ◌∷◌, arith, ◌==◌,
  if◌then◌else◌, Bool-cases, inl, inr, ◌∙◌, subst,
}
use eap.Prelude.Table.{find, count, find-keep, find-update}
use eap.Errors.{Result, ok, err, app_error, conflict, invalid_state}
use eap.Agent.Model.{
  Status, draft, testing, published, offline, agent_published, agent_offline, Agent, Registry,
}
use eap.Agent.Lifecycle.{
  Setting, has_key, live, claims, Fields, or_else, bumped, find_by_id, update_with_version,
  commit_update, is_testable, is_publishable, test_agent, start_testing, publish_agent, publish,
  take_offline, to_testing, to_published, to_offline, same, emit,
}
use eap.Agent.Lifecycle.Passed.{claims-le}
use eap.Agent.Lifecycle.Versions.{Action, to_test, to_publish, to_take_down, act}

-- the status that an action leads to, and `none` where it is forbidden
pub target : Action → Status → Option Status
target to_test draft = some testing
target to_test testing = some testing
target to_test _ = none
target to_publish offline = none
target to_publish _ = some published
target to_take_down _ = some offline

-- how far an action raises the version
pub raised : Action → Status → ℕ
raised to_test testing = 0
raised _ _ = 1

-- the answer to a request that names the version `v`, by the agent's status and version
pub expected : Action → Status → (current v : ℕ) → Result (Status × ℕ)
unfolding target raised
expected x status current v = elim (target x status) [
  | none ↦ err (app_error 409 invalid_state)
  | some s ↦ if current == v then ok (s, v + raised x status) else err (app_error 409 conflict)
]

abbrev pub summary : Result Agent → Result (Status × ℕ)
summary (err e) = err e
summary (ok b) = ok (b.status, b.version)

claims_found :
    (t : ℕ) (i : String) (v : ℕ) (xs : List Agent) (a : Agent)
    → find (live t i) xs ≡ some a
    → count (has_key t i) xs ≤ 1
    → (count (claims t i v) xs == 0) ≡ not (a.version == v)
unfolding find count
claims_found t i v [] a h u = cc
claims_found t i v (x ∷ xs) a h u = elim (Bool-cases (live t i x)) [
  | inl e ↦
      let same_row : x ≡ a = some_inv (rw e at h) in
      subst (λ z. (count (claims t i v) (x ∷ xs) == 0) ≡ not (z.version == v)) same_row
        (ground (arith, e, u, claims-le t i v xs))
  | inr e ↦ ground (arith, e, claims_found t i v xs a (rw e at h))
]

update_outcome :
    (t : ℕ) (i : String) (v : ℕ) (f : Fields) (r : Registry) (a : Agent)
    → find (live t i) r.agents ≡ some a
    → count (has_key t i) r.agents ≤ 1
    → (update_with_version t i v f r).0 ≡ (if a.version == v then some (bumped f a) else none)
unfolding update_with_version find_by_id
update_outcome t i v f r a h u = elim (Bool-cases (a.version == v)) [
  | inl e ↦
      rw (claims_found t i v r.agents a h u, e)
        (find-update (live t i) (claims t i v) (bumped f) r.agents (λ x. refl)
          ∙ rw h (ground (arith, e, find-keep (live t i) r.agents a h)))
  | inr e ↦ rw (claims_found t i v r.agents a h u, e) refl
]

commit_outcome :
    (c : Setting) (i : String) (v : ℕ) (f : Fields) (after : Registry → Registry) (r : Registry)
    (a : Agent)
    → c.before_update r ≡ r
    → find (live c.tenant_id i) r.agents ≡ some a
    → count (has_key c.tenant_id i) r.agents ≤ 1
    → summary (commit_update c i v f after r).0 ≡ (
        if a.version == v
        then ok (or_else f.set_status a.status, v + 1)
        else err (app_error 409 conflict))
unfolding commit_update
commit_outcome c i v f after r a quiet h u =
    let written : (update_with_version c.tenant_id i v f (c.before_update r)).0
        ≡ (if a.version == v then some (bumped f a) else none) =
      rw quiet (update_outcome c.tenant_id i v f r a h u) in
    elim (Bool-cases (a.version == v)) [
      | inl e ↦ rw (written, commit_update) (rw e (ground (arith, e)))
      | inr e ↦ rw (written, commit_update) (rw e refl)
    ]

test_outcome :
    (s : Status) (c : Setting) (i : String) (v : ℕ) (r : Registry) (a : Agent)
    → a.status ≡ s
    → c.before_update r ≡ r
    → find (live c.tenant_id i) r.agents ≡ some a
    → count (has_key c.tenant_id i) r.agents ≤ 1
    → summary (test_agent s c i v a r).0 ≡ expected to_test s a.version v
unfolding test_agent is_testable expected target raised
test_outcome draft c i v r a e quiet h u = commit_outcome c i v to_testing same r a quiet h u
test_outcome testing c i v r a e quiet h u = elim (Bool-cases (a.version == v)) [
  | inl k ↦ rw k (ground (arith, k, e))
  | inr k ↦ rw k refl
]
test_outcome published c i v r a e quiet h u = refl
test_outcome offline c i v r a e quiet h u = refl

publish_outcome :
    (s : Status) (c : Setting) (i : String) (v : ℕ) (r : Registry) (a : Agent)
    → c.before_update r ≡ r
    → find (live c.tenant_id i) r.agents ≡ some a
    → count (has_key c.tenant_id i) r.agents ≤ 1
    → summary (publish_agent s c i v r).0 ≡ expected to_publish s a.version v
unfolding publish_agent is_publishable expected target raised
publish_outcome s c i v r a quiet h u = by_status s
  where
    committed :
        summary
          (commit_update c i v (to_published c) (emit c agent_published i (some published)) r).0
        ≡ (if a.version == v then ok (published, v + 1) else err (app_error 409 conflict))
    committed =
        commit_outcome c i v (to_published c) (emit c agent_published i (some published)) r a quiet
          h u

    by_status :
        (z : Status) → summary (publish_agent z c i v r).0 ≡ expected to_publish z a.version v
    by_status draft = committed
    by_status testing = committed
    by_status published = committed
    by_status offline = refl

-- When nothing is committed while it runs, a lifecycle request on a live agent, which has one row, is
-- refused with 409 INVALID_STATE if the table `target` forbids it, else with 409 CONFLICT if its
-- version is stale, and else it answers the agent in the target status, with the version raised as
-- `raised` says.
pub act_outcome :
    (x : Action) (c : Setting) (i : String) (v : ℕ) (r : Registry) (a : Agent)
    → c.before_update r ≡ r
    → find (live c.tenant_id i) r.agents ≡ some a
    → count (has_key c.tenant_id i) r.agents ≤ 1
    → summary (act x c i v r).0 ≡ expected x a.status a.version v
unfolding start_testing publish take_offline find_by_id expected target raised
act_outcome to_test c i v r a quiet h u =
    rw (h, start_testing) (test_outcome a.status c i v r a refl quiet h u)
act_outcome to_publish c i v r a quiet h u =
    rw (h, publish) (publish_outcome a.status c i v r a quiet h u)
act_outcome to_take_down c i v r a quiet h u =
    rw (h, take_offline)
      (commit_outcome c i v to_offline (emit c agent_offline i (some offline)) r a quiet h u)
