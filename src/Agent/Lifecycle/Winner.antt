-- ===== src/Agent/Lifecycle/Winner.antt =====
-- Of the requests that name one version of an agent, at most one writes it.
use eap.Prelude.{
  ℕ, ◌≤◌, ◌<◌, ◌≡◌, refl, String, true, some, arith, ◌==◌, Bool-cases, Option-cases, inl, inr,
  subst, sym,
}
use eap.Prelude.Table.{find, count, All-find, find-keep}
use eap.Errors.{Result, ok, err, AppError, app_error, invalid_state}
use eap.Agent.Model.{
  Status, draft, testing, published, offline, agent_published, agent_offline, Agent, Registry,
}
use eap.Agent.Lifecycle.{
  Setting, has_key, live, Fields, find_by_id, update_with_version, commit_update, is_testable,
  is_publishable, test_agent, start_testing, publish_agent, publish, take_offline, to_testing,
  to_published, to_offline, same, emit, version_conflict, agent_not_found,
}
use eap.Agent.Lifecycle.Versions.{Later, OnlyNewer, Action, to_test, to_publish, to_take_down, act}
use eap.Agent.Lifecycle.Passed.{Written, Written-Later, no_claims, update_with_version-Written}

-- a versioned update that answers a row
commit_won :
    (c : Setting) (i : String) (v : ℕ) (f : Fields) (after : Registry → Registry) (r : Registry)
    (b : Agent)
    → OnlyNewer c
    → ((s : Registry) → (after s).agents ≡ s.agents)
    → count (has_key c.tenant_id i) r.agents ≤ 1
    → (commit_update c i v f after r).0 ≡ ok b
    → Written c.tenant_id i v (commit_update c i v f after r).1.agents
unfolding commit_update
commit_won c i v f after r b only keeps unique h =
    let r' = c.before_update r in
    let written = update_with_version c.tenant_id i v f r' in
    elim (Option-cases written.0) [
      | inl e ↦ cc (rw (e, commit_update) at h)
      | inr (a, e) ↦
          rw (e, commit_update, keeps written.1)
            (update_with_version-Written c.tenant_id i v f r' a (only.unique c.tenant_id i r unique)
              e)
    ]

-- a versioned update of an agent whose rows are all past the version
commit_lost :
    (c : Setting) (i : String) (v : ℕ) (f : Fields) (after : Registry → Registry) (r : Registry)
    → OnlyNewer c
    → count (has_key c.tenant_id i) r.agents ≤ 1
    → Written c.tenant_id i v r.agents
    → (commit_update c i v f after r).0 ≡ err version_conflict
unfolding commit_update update_with_version
commit_lost c i v f after r only unique p =
    rw
      (
        no_claims c.tenant_id i v (c.before_update r).agents
            (Written-Later c.tenant_id i v r.agents (c.before_update r).agents (only.later r)
              (only.unique c.tenant_id i r unique) p).passed,
        commit_update,
      )
      refl

test_agent_won :
    (s : Status) (c : Setting) (i : String) (v : ℕ) (a : Agent) (r : Registry) (b : Agent)
    → OnlyNewer c
    → count (has_key c.tenant_id i) r.agents ≤ 1
    → (test_agent s c i v a r).0 ≡ ok b
    → v < b.version
    → Written c.tenant_id i v (test_agent s c i v a r).1.agents
unfolding test_agent is_testable
test_agent_won draft c i v a r b only unique h k =
    commit_won c i v to_testing same r b only (λ s. refl) unique h
test_agent_won testing c i v a r b only unique h k = elim (Bool-cases (a.version == v)) [
  | inl e ↦ absurd (ground (arith, e, h, k))
  | inr e ↦ cc (rw (e, test_agent) at h)
]
test_agent_won published c i v a r b only unique h k = cc
test_agent_won offline c i v a r b only unique h k = cc

publish_agent_won :
    (s : Status) (c : Setting) (i : String) (v : ℕ) (r : Registry) (b : Agent)
    → OnlyNewer c
    → count (has_key c.tenant_id i) r.agents ≤ 1
    → (publish_agent s c i v r).0 ≡ ok b
    → Written c.tenant_id i v (publish_agent s c i v r).1.agents
unfolding publish_agent
publish_agent_won s c i v r b only unique h = elim (Bool-cases (is_publishable s)) [
  | inl k ↦
      rw (k, publish_agent)
        (commit_won c i v (to_published c) (emit c agent_published i (some published)) r b only
          (λ s. refl) unique (rw (k, publish_agent) at h))
  | inr k ↦ absurd (ground (arith, k, h))
]

-- the rows after a request that raised the version
act_won :
    (x : Action) (c : Setting) (i : String) (v : ℕ) (r : Registry) (b : Agent)
    → OnlyNewer c
    → count (has_key c.tenant_id i) r.agents ≤ 1
    → (act x c i v r).0 ≡ ok b
    → v < b.version
    → Written c.tenant_id i v (act x c i v r).1.agents
unfolding start_testing publish take_offline
act_won to_test c i v r b only unique h k = elim (Option-cases (find_by_id c.tenant_id i r)) [
  | inl e ↦ cc (rw (e, start_testing) at h)
  | inr (a, e) ↦
      rw (e, start_testing)
        (test_agent_won a.status c i v a r b only unique (rw (e, start_testing) at h) k)
]
act_won to_publish c i v r b only unique h k = elim (Option-cases (find_by_id c.tenant_id i r)) [
  | inl e ↦ cc (rw (e, publish) at h)
  | inr (a, e) ↦
      rw (e, publish) (publish_agent_won a.status c i v r b only unique (rw (e, publish) at h))
]
act_won to_take_down c i v r b only unique h k = elim (Option-cases (find_by_id c.tenant_id i r)) [
  | inl e ↦ cc (rw (e, take_offline) at h)
  | inr (a, e) ↦
      rw (e, take_offline)
        (commit_won c i v to_offline (emit c agent_offline i (some offline)) r b only (λ s. refl)
          unique (rw (e, take_offline) at h))
]

-- what a request refuses by
abbrev pub Refused : Result Agent → Type 0
Refused answer = (e : AppError) × (answer ≡ err e)

test_agent_lost :
    (s : Status) (c : Setting) (i : String) (v : ℕ) (a : Agent) (r : Registry)
    → OnlyNewer c
    → count (has_key c.tenant_id i) r.agents ≤ 1
    → Written c.tenant_id i v r.agents
    → v < a.version
    → Refused (test_agent s c i v a r).0
unfolding test_agent is_testable
test_agent_lost draft c i v a r only unique p k =
    (version_conflict, commit_lost c i v to_testing same r only unique p)
test_agent_lost testing c i v a r only unique p k = (version_conflict, ground arith)
test_agent_lost published c i v a r only unique p k = (app_error 409 invalid_state, refl)
test_agent_lost offline c i v a r only unique p k = (app_error 409 invalid_state, refl)

act_lost :
    (x : Action) (c : Setting) (i : String) (v : ℕ) (r : Registry)
    → OnlyNewer c
    → count (has_key c.tenant_id i) r.agents ≤ 1
    → Written c.tenant_id i v r.agents
    → Refused (act x c i v r).0
unfolding start_testing publish publish_agent take_offline find_by_id
act_lost to_test c i v r only unique p = elim (Option-cases (find (live c.tenant_id i) r.agents)) [
  | inl e ↦ rw (e, start_testing) (agent_not_found, refl)
  | inr (a, e) ↦
      rw (e, start_testing)
        (test_agent_lost a.status c i v a r only unique p (
          All-find (λ z. has_key c.tenant_id i z ≡ true → v < z.version) (live c.tenant_id i)
            r.agents a p.passed e (ground (arith, find-keep (live c.tenant_id i) r.agents a e))))
]
act_lost to_publish c i v r only unique p =
    elim (Option-cases (find (live c.tenant_id i) r.agents)) [
      | inl e ↦ rw (e, publish) (agent_not_found, refl)
      | inr (a, e) ↦
          rw (e, publish)
            (elim (Bool-cases (is_publishable a.status)) [
              | inl k ↦
                  rw (k, publish_agent)
                    (
                      version_conflict,
                      commit_lost c i v (to_published c) (emit c agent_published i (some published))
                          r only unique p,
                    )
              | inr k ↦ rw (k, publish_agent) (app_error 409 invalid_state, refl)
            ])
    ]
act_lost to_take_down c i v r only unique p =
    elim (Option-cases (find (live c.tenant_id i) r.agents)) [
      | inl e ↦ rw (e, take_offline) (agent_not_found, refl)
      | inr (a, e) ↦
          rw (e, take_offline)
            (
              version_conflict,
              commit_lost c i v to_offline (emit c agent_offline i (some offline)) r only unique p,
            )
    ]

-- Of the lifecycle requests of a tenant that name one version of an agent, at most one writes it: once
-- a request answered with a raised version, every later one that names the old version is refused,
-- whatever is committed in between and meanwhile, if it only makes rows newer or adds rows, and leaves
-- one row at most to a tenant and an id, as the primary key does.
pub at_most_one_wins :
    (x y : Action) (c d : Setting) (i : String) (v : ℕ) (r s : Registry) (b : Agent)
    → OnlyNewer c
    → OnlyNewer d
    → d.tenant_id ≡ c.tenant_id
    → count (has_key c.tenant_id i) r.agents ≤ 1
    → count (has_key c.tenant_id i) s.agents ≤ 1
    → (act x c i v r).0 ≡ ok b
    → v < b.version
    → Later (act x c i v r).1.agents s.agents
    → Refused (act y d i v s).0
at_most_one_wins x y c d i v r s b only only' tenant unique unique' h k l =
    act_lost y d i v s only' (subst (λ t. count (has_key t i) s.agents ≤ 1) (sym tenant) unique') (
      subst (λ t. Written t i v s.agents) (sym tenant)
        (Written-Later c.tenant_id i v (act x c i v r).1.agents s.agents l unique'
          (act_won x c i v r b only unique h k)))
