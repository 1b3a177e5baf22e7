-- ===== src/Agent/Lifecycle.antt =====
-- The lifecycle of `AgentService` in apps/backend/app/services/agent_service.py, over `find_by_id`,
-- `update_with_version` and `soft_delete` of apps/backend/app/repositories/agent_repository.py.
-- What other sessions commit between a service's read and its update is an argument.
pub mod Versions
pub mod Passed
pub mod Winner
pub mod Outcome
use eap.Prelude.{
  ℕ, ◌+◌, String, Bool, true, false, not, ◌&&◌, ◌||◌, Option, none, some, List, [], ◌∷◌, ◌++◌, map,
  ◌==◌, if◌then◌else◌, str_eq,
}
use eap.Prelude.Table.{find, update, count, select}
use eap.Errors.{
  Result, ok, err, AppError, app_error, ◌>>◌, raise_if, not_found, invalid_state, conflict,
  invalid_binding,
}
use eap.Agent.Model.{
  Status, draft, testing, published, offline, Agent, Binding, Asset, EventName, agent_published,
  agent_offline, agent_deleted, AgentEvent, Registry,
}

-- One request's surroundings: the caller, the clock, whether the event bus and Dify answer, and what
-- other sessions commit before the update.
pub record Setting : Type 0 where
  pub tenant_id : ℕ
  pub actor_id : ℕ
  pub now : ℕ
  pub bus_works : Bool
  pub dify_works : Bool
  pub before_update : Registry → Registry

-- `_PUBLISHABLE_STATUSES` and `_TESTABLE_STATUSES`
unfoldable pub is_publishable : Status → Bool
is_publishable offline = false
is_publishable _ = true

unfoldable pub is_testable : Status → Bool
is_testable draft = true
is_testable testing = true
is_testable _ = false

abbrev pub is_testing : Status → Bool
is_testing testing = true
is_testing _ = false

abbrev pub absent : Option ℕ → Bool
absent none = true
absent (some _) = false

abbrev pub has_key : ℕ → String → Agent → Bool
has_key tenant_id agent_id a = a.tenant_id == tenant_id && str_eq a.agent_id agent_id

-- the rows that `find_by_id` sees
abbrev pub live : ℕ → String → Agent → Bool
live tenant_id agent_id a = has_key tenant_id agent_id a && absent a.archived_at

-- the rows that `update_with_version` writes
abbrev pub claims : ℕ → String → ℕ → Agent → Bool
claims tenant_id agent_id version a = live tenant_id agent_id a && a.version == version

-- What an update sets. The columns `tenant_id`, `agent_id`, `version` and `archived_at` are never
-- among them.
pub record Fields : Type 0 where
  pub set_status : Option Status
  pub set_publication : Option (ℕ × ℕ)
  pub set_name : Option String
  pub set_description : Option (Option String)
  pub set_category : Option (Option String)
  pub set_icon : Option (Option String)
  pub set_tags : Option (List String)
  pub set_model_id : Option (Option String)
  pub set_model_name : Option (Option String)
  pub set_model_provider : Option (Option String)
  pub set_prompt : Option (Option String)

abbrev pub no_fields : Fields
no_fields = record {
  set_status = none;
  set_publication = none;
  set_name = none;
  set_description = none;
  set_category = none;
  set_icon = none;
  set_tags = none;
  set_model_id = none;
  set_model_name = none;
  set_model_provider = none;
  set_prompt = none;
}

abbrev pub or_else {ℓ} : {A : Type ℓ} → Option A → A → A
or_else none old = old
or_else (some new) old = new

abbrev publication_date : Option (ℕ × ℕ) → Option ℕ → Option ℕ
publication_date none old = old
publication_date (some p) old = some p.0

abbrev publication_actor : Option (ℕ × ℕ) → Option ℕ → Option ℕ
publication_actor none old = old
publication_actor (some p) old = some p.1

-- the row that the update leaves, its version raised by one
abbrev pub bumped : Fields → Agent → Agent
bumped f a = record a {
  status = or_else f.set_status a.status;
  published_at = publication_date f.set_publication a.published_at;
  published_by = publication_actor f.set_publication a.published_by;
  name = or_else f.set_name a.name;
  description = or_else f.set_description a.description;
  category = or_else f.set_category a.category;
  icon = or_else f.set_icon a.icon;
  tags = or_else f.set_tags a.tags;
  model_id = or_else f.set_model_id a.model_id;
  model_name = or_else f.set_model_name a.model_name;
  model_provider = or_else f.set_model_provider a.model_provider;
  prompt = or_else f.set_prompt a.prompt;
  version = a.version + 1;
}

unfoldable pub find_by_id : ℕ → String → Registry → Option Agent
find_by_id tenant_id agent_id r = find (live tenant_id agent_id) r.agents

-- the updated row, or `none` when no live row has the version
unfoldable pub update_with_version :
    ℕ → String → (version : ℕ) → Fields → Registry → Option Agent × Registry
unfolding find_by_id
update_with_version tenant_id agent_id version fields r =
    let written = record r {
      agents = update (claims tenant_id agent_id version) (bumped fields) r.agents;
    } in
    if count (claims tenant_id agent_id version) r.agents == 0
    then (none, r)
    else (find_by_id tenant_id agent_id written, written)

abbrev pub emit : Setting → EventName → String → Option Status → Registry → Registry
emit c name agent_id status r = record r {
  events =
      if c.bus_works
      then r.events
        ++ record {
          name = name;
          agent_id = agent_id;
          tenant_id = c.tenant_id;
          actor_id = c.actor_id;
          status = status;
        }
          ∷ []
      else r.events;
}

abbrev pub version_conflict : AppError
version_conflict = app_error 409 conflict

abbrev pub agent_not_found : AppError
agent_not_found = app_error 404 not_found

-- a versioned update and, if it wrote, what the service does after the commit
unfoldable pub commit_update :
    Setting
    → String
    → (version : ℕ) → Fields
    → (Registry → Registry)
    → Registry
    → Result Agent × Registry
commit_update c agent_id version fields after r =
    let r' = c.before_update r in
    let (answer, written) = update_with_version c.tenant_id agent_id version fields r' in
    elim answer [ none ↦ (err version_conflict, r') | some a ↦ (ok a, after written) ]

abbrev pub same : Registry → Registry
same r = r

abbrev pub to_testing : Fields
to_testing = record no_fields { set_status = some testing }

-- a testing agent is answered as it was read, if the caller's version is its version
unfoldable pub test_agent :
    Status → Setting → String → ℕ → Agent → Registry → Result Agent × Registry
unfolding is_testable commit_update
test_agent status c agent_id version a r =
    if not (is_testable status)
    then (err (app_error 409 invalid_state), r)
    else if is_testing status
    then (if a.version == version then (ok a, r) else (err version_conflict, r))
    else commit_update c agent_id version to_testing same r

unfoldable pub start_testing : Setting → String → (version : ℕ) → Registry → Result Agent × Registry
start_testing c agent_id version r = elim (find_by_id c.tenant_id agent_id r) [
  | none ↦ (err agent_not_found, r)
  | some a ↦ test_agent a.status c agent_id version a r
]

abbrev pub to_published : Setting → Fields
to_published c = record no_fields {
  set_status = some published;
  set_publication = some (c.now, c.actor_id);
}

unfoldable pub publish_agent : Status → Setting → String → ℕ → Registry → Result Agent × Registry
unfolding is_publishable commit_update
publish_agent status c agent_id version r =
    if not (is_publishable status)
    then (err (app_error 409 invalid_state), r)
    else commit_update c agent_id version (to_published c)
        (emit c agent_published agent_id (some published)) r

unfoldable pub publish : Setting → String → (version : ℕ) → Registry → Result Agent × Registry
publish c agent_id version r = elim (find_by_id c.tenant_id agent_id r) [
  | none ↦ (err agent_not_found, r)
  | some a ↦ publish_agent a.status c agent_id version r
]

abbrev pub to_offline : Fields
to_offline = record no_fields { set_status = some offline }

unfoldable pub take_offline : Setting → String → (version : ℕ) → Registry → Result Agent × Registry
unfolding commit_update
take_offline c agent_id version r = elim (find_by_id c.tenant_id agent_id r) [
  | none ↦ (err agent_not_found, r)
  | some a ↦
      commit_update c agent_id version to_offline (emit c agent_offline agent_id (some offline)) r
]
