-- ===== src/Agent/Examples.antt =====
-- The theorems about the agent registry at concrete inputs.
use eap.Prelude.{◌≤◌, ◌≡◌, refl, true, none, some, [], ◌∷◌, arith}
use eap.Prelude.Table.{find, update, count}
use eap.Errors.{ok}
use eap.Agent.Model.{testing, published, Agent, Registry}
use eap.Agent.Lifecycle.{
  Setting, has_key, live, same, no_fields, find_by_id, update_with_version, commit_update,
  is_publishable, publish_agent, publish,
}
use eap.Agent.Lifecycle.Versions.{
  Later, Newer-refl, Later-refl, OnlyNewer, to_test, to_publish, to_take_down, act, act-Later,
}
use eap.Agent.Lifecycle.Winner.{Refused, at_most_one_wins}
use eap.Agent.Lifecycle.Outcome.{summary, expected, act_outcome}
use eap.Agent.Editing.{UpdateAgent, update_agent}
use eap.Agent.Editing.Owned.{Owned, update_agent-Owned}

abbrev helper : Agent
helper = record {
  tenant_id = 1;
  agent_id = "helper";
  dify_app_id = "app";
  name = "Helper";
  description = none;
  category = none;
  icon = none;
  tags = [];
  status = testing;
  model_id = none;
  model_name = none;
  model_provider = none;
  prompt = none;
  version = 3;
  published_at = none;
  published_by = none;
  archived_at = none;
}

abbrev registry : Registry
registry = record {
  agents = helper ∷ [];
  knowledge_bindings = [];
  tool_bindings = [];
  knowledge_bases = record { id = "faq"; tenant_id = some 1 } ∷ [];
  tools = record { id = "mail"; tenant_id = none } ∷ [];
  events = [];
  deleted_apps = [];
}

abbrev caller : Setting
caller = record {
  tenant_id = 1;
  actor_id = 7;
  now = 50;
  bus_works = true;
  dify_works = true;
  before_update = same;
}

quiet : OnlyNewer caller
quiet = record { later = λ r. Later-refl r.agents; unique = λ t i r u. u }

abbrev in_production : Agent
in_production = record helper {
  status = published;
  published_at = some 50;
  published_by = some 7;
  version = 4;
}

published_now : (act to_publish caller "helper" 3 registry).0 ≡ ok in_production
unfolding publish publish_agent is_publishable commit_update update_with_version find_by_id find
    update count
published_now = refl

one_row : count (has_key 1 "helper") (helper ∷ []) ≤ 1
unfolding count
one_row = omega arith

-- another agent is registered in between
abbrev crowded : Registry
crowded = record registry { agents = in_production ∷ record helper { agent_id = "clerk" } ∷ [] }

one_row_still : count (has_key 1 "helper") crowded.agents ≤ 1
unfolding count
one_row_still = omega arith

grew : Later (act to_publish caller "helper" 3 registry).1.agents crowded.agents
unfolding publish publish_agent is_publishable commit_update update_with_version find_by_id find
    update count
grew = (Newer-refl in_production, tt)

act-Later_example : Later (helper ∷ []) (act to_publish caller "helper" 3 registry).1.agents
act-Later_example = act-Later to_publish caller "helper" 3 registry quiet

at_most_one_wins_example : Refused (act to_take_down caller "helper" 3 crowded).0
at_most_one_wins_example =
    at_most_one_wins to_publish to_take_down caller caller "helper" 3 registry crowded in_production
      quiet quiet refl one_row one_row_still published_now (omega arith) grew

found : find (live 1 "helper") (helper ∷ []) ≡ some helper
unfolding find
found = refl

act_outcome_example :
    summary (act to_test caller "helper" 3 registry).0 ≡ expected to_test testing 3 3
act_outcome_example = act_outcome to_test caller "helper" 3 registry helper refl found one_row

abbrev bind_faq : UpdateAgent
bind_faq = record {
  version = 3;
  fields = no_fields;
  kb_ids = some ("faq" ∷ []);
  tool_ids = some ("mail" ∷ []);
}

update_agent-Owned_example : Owned (update_agent caller "helper" bind_faq (ok tt) registry).1
update_agent-Owned_example =
    update_agent-Owned caller "helper" bind_faq (ok tt) registry (λ s p. p)
      (record { knowledge = tt; tools = tt })
