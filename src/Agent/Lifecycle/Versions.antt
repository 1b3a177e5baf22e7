-- ===== src/Agent/Lifecycle/Versions.antt =====
-- The version of a row only rises, and of the requests that name a version at most one writes it.
use eap.Prelude.{
  ℕ, ◌≤◌, ◌≡◌, refl, String, Bool, true, false, some, List, [], ◌∷◌, arith, ◌==◌, Bool-cases,
  Option-cases, inl, inr, ◌∙◌, subst, sym,
}
use eap.Prelude.Table.{update, count}
use eap.Errors.{Result}
use eap.Agent.Model.{
  Status, draft, testing, published, offline, agent_published, agent_offline, Agent, Registry,
}
use eap.Agent.Lifecycle.{
  Setting, absent, has_key, claims, Fields, bumped, find_by_id, update_with_version, commit_update,
  is_testable, is_publishable, test_agent, start_testing, publish_agent, publish, take_offline,
  to_published, to_offline, emit,
}

-- What one row may become: the same agent, its version not lower, an archived row as it was, and
-- the status unchanged as long as the version is.
pub record Newer (a b : Agent) : Type 0 where
  pub same_tenant : b.tenant_id ≡ a.tenant_id
  pub same_agent : b.agent_id ≡ a.agent_id
  pub version_le : a.version ≤ b.version
  pub stays_archived : absent a.archived_at ≡ false → b ≡ a
  pub same_version : a.version ≡ b.version → b.status ≡ a.status

-- the rows of one table at two instants, one by one, and then the rows that were added
abbrev pub Later : List Agent → List Agent → Type 0
Later [] ys = Unit
Later (a ∷ xs) [] = ⊥
Later (a ∷ xs) (b ∷ ys) = Newer a b × Later xs ys

pub Newer-refl : (a : Agent) → Newer a a
Newer-refl a = record {
  same_tenant = refl;
  same_agent = refl;
  version_le = omega arith;
  stays_archived = λ _. refl;
  same_version = λ _. refl;
}

pub Later-refl : (xs : List Agent) → Later xs xs
Later-refl [] = tt
Later-refl (a ∷ xs) = (Newer-refl a, Later-refl xs)

Newer-trans : (a b d : Agent) → Newer a b → Newer b d → Newer a d
Newer-trans a b d p q = record {
  same_tenant = q.same_tenant ∙ p.same_tenant;
  same_agent = q.same_agent ∙ p.same_agent;
  version_le = omega (arith, p.version_le, q.version_le);
  stays_archived = λ h.
      let e = p.stays_archived h in
      q.stays_archived (subst (λ (z : Agent). absent z.archived_at ≡ false) (sym e) h) ∙ e;
  same_version = λ h.
      let x = p.version_le in
      let y = q.version_le in q.same_version (omega arith) ∙ p.same_version (omega arith);
}

pub Later-trans : (xs ys zs : List Agent) → Later xs ys → Later ys zs → Later xs zs
Later-trans [] ys zs p q = tt
Later-trans (a ∷ xs) [] zs p q = elim p [ ]
Later-trans (a ∷ xs) (b ∷ ys) [] p q = elim q [ ]
Later-trans (a ∷ xs) (b ∷ ys) (d ∷ zs) p q =
    (Newer-trans a b d p.0 q.0, Later-trans xs ys zs p.1 q.1)

pub Later-update :
    (keep : Agent → Bool) (set : Agent → Agent)
    → ((a : Agent) → keep a ≡ true → Newer a (set a))
    → (xs : List Agent) → Later xs (update keep set xs)
unfolding update
Later-update keep set h [] = tt
Later-update keep set h (a ∷ xs) =
    let rest = Later-update keep set h xs in
    elim (Bool-cases (keep a)) [ inl e ↦ rw e (h a e, rest) | inr e ↦ rw e (Newer-refl a, rest) ]

bumped-Newer :
    (t : ℕ) (i : String) (v : ℕ) (f : Fields) (a : Agent)
    → claims t i v a ≡ true
    → Newer a (bumped f a)
bumped-Newer t i v f a h = record {
  same_tenant = refl;
  same_agent = refl;
  version_le = omega arith;
  stays_archived = λ e. absurd (ground arith);
  same_version = λ e. absurd (omega arith);
}

-- What other sessions commit in between makes rows newer and adds rows, and leaves one row at most
-- to a key of an agent, as the table's primary key does.
pub record OnlyNewer (c : Setting) : Type 0 where
  pub later : (r : Registry) → Later r.agents (c.before_update r).agents
  pub unique :
      (t : ℕ) (i : String) (r : Registry)
      → count (has_key t i) r.agents ≤ 1
      → count (has_key t i) (c.before_update r).agents ≤ 1

update_with_version-Later :
    (t : ℕ) (i : String) (v : ℕ) (f : Fields) (r : Registry)
    → Later r.agents (update_with_version t i v f r).1.agents
unfolding update_with_version
update_with_version-Later t i v f r = elim (Bool-cases (count (claims t i v) r.agents == 0)) [
  | inl e ↦ rw (e, update_with_version) (Later-refl r.agents)
  | inr e ↦
      rw (e, update_with_version)
        (Later-update (claims t i v) (bumped f) (bumped-Newer t i v f) r.agents)
]

commit_update-Later :
    (c : Setting) (i : String) (v : ℕ) (f : Fields) (after : Registry → Registry) (r : Registry)
    → OnlyNewer c
    → ((s : Registry) → (after s).agents ≡ s.agents)
    → Later r.agents (commit_update c i v f after r).1.agents
unfolding commit_update
commit_update-Later c i v f after r only keeps =
    let r' = c.before_update r in
    let written = update_with_version c.tenant_id i v f r' in
    elim (Option-cases written.0) [
      | inl e ↦ rw (e, commit_update) (only.later r)
      | inr (a, e) ↦
          rw (e, commit_update, keeps written.1)
            (Later-trans r.agents r'.agents written.1.agents (only.later r)
              (update_with_version-Later c.tenant_id i v f r'))
    ]

test_agent-Later :
    (s : Status) (c : Setting) (i : String) (v : ℕ) (a : Agent) (r : Registry)
    → OnlyNewer c
    → Later r.agents (test_agent s c i v a r).1.agents
unfolding test_agent is_testable
test_agent-Later draft c i v a r only = commit_update-Later c i v _ (λ s. s) r only (λ s. refl)
test_agent-Later testing c i v a r only = elim (Bool-cases (a.version == v)) [
  | inl e ↦ rw (e, test_agent) (Later-refl r.agents)
  | inr e ↦ rw (e, test_agent) (Later-refl r.agents)
]
test_agent-Later published c i v a r only = Later-refl r.agents
test_agent-Later offline c i v a r only = Later-refl r.agents

publish_agent-Later :
    (s : Status) (c : Setting) (i : String) (v : ℕ) (r : Registry)
    → OnlyNewer c
    → Later r.agents (publish_agent s c i v r).1.agents
unfolding publish_agent
publish_agent-Later s c i v r only = elim (Bool-cases (is_publishable s)) [
  | inl k ↦
      rw (k, publish_agent)
        (commit_update-Later c i v (to_published c) (emit c agent_published i (some published)) r
          only (λ s. refl))
  | inr k ↦ rw (k, publish_agent) (Later-refl r.agents)
]

-- the three requests that name a version and set a status
pub data Action : Type 0 where
  to_test to_publish to_take_down : Action

abbrev pub act : Action → Setting → String → ℕ → Registry → Result Agent × Registry
act to_test = start_testing
act to_publish = publish
act to_take_down = take_offline

-- A lifecycle request, whatever it answers, only makes rows newer, if what other sessions commit
-- meanwhile does and else only adds rows: no version falls, no archived row changes, and no status
-- changes without a new version.
pub act-Later :
    (x : Action) (c : Setting) (i : String) (v : ℕ) (r : Registry)
    → OnlyNewer c
    → Later r.agents (act x c i v r).1.agents
unfolding start_testing publish take_offline
act-Later to_test c i v r only = elim (Option-cases (find_by_id c.tenant_id i r)) [
  | inl e ↦ rw (e, start_testing) (Later-refl r.agents)
  | inr (a, e) ↦ rw (e, start_testing) (test_agent-Later a.status c i v a r only)
]
act-Later to_publish c i v r only = elim (Option-cases (find_by_id c.tenant_id i r)) [
  | inl e ↦ rw (e, publish) (Later-refl r.agents)
  | inr (a, e) ↦ rw (e, publish) (publish_agent-Later a.status c i v r only)
]
act-Later to_take_down c i v r only = elim (Option-cases (find_by_id c.tenant_id i r)) [
  | inl e ↦ rw (e, take_offline) (Later-refl r.agents)
  | inr (a, e) ↦
      rw (e, take_offline)
        (commit_update-Later c i v to_offline (emit c agent_offline i (some offline)) r only
          (λ s. refl))
]
