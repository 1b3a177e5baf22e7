-- ===== src/Agent/Editing.antt =====
-- `update`, `delete`, `_ensure_bindings_in_tenant` and `_replace_bindings` of `AgentService` in
-- apps/backend/app/services/agent_service.py.
pub mod Owned
use eap.Prelude.{
  ℕ, String, Bool, true, false, not, ◌&&◌, ◌||◌, Option, none, some, List, [], ◌∷◌, ◌++◌, map, ◌==◌,
  if◌then◌else◌, str_eq,
}
use eap.Prelude.Table.{update, count, select}
use eap.Errors.{Result, ok, err, AppError, app_error, ◌>>◌, raise_if, invalid_binding}
use eap.Agent.Model.{Agent, Binding, Asset, agent_deleted, Registry}
use eap.Agent.Lifecycle.{
  Setting, live, Fields, find_by_id, update_with_version, agent_not_found, version_conflict, emit,
}

-- Body of an update: the fields that were sent. `none` leaves a set of bindings as it is.
pub record UpdateAgent : Type 0 where
  pub version : ℕ
  pub fields : Fields
  pub kb_ids : Option (List String)
  pub tool_ids : Option (List String)

-- a knowledge base has an owner; a tool without one belongs to every tenant
abbrev pub is_owned : ℕ → Asset → Bool
is_owned tenant_id a = elim a.tenant_id [ none ↦ false | some t ↦ t == tenant_id ]

abbrev pub is_usable : ℕ → Asset → Bool
is_usable tenant_id a = elim a.tenant_id [ none ↦ true | some t ↦ t == tenant_id ]

abbrev pub is_listed : (Asset → Bool) → List Asset → String → Bool
is_listed allowed assets i = not (count (λ a. str_eq a.id i && allowed a) assets == 0)

abbrev pub all_listed : (String → Bool) → List String → Bool
all_listed p [] = true
all_listed p (i ∷ is) = p i && all_listed p is

abbrev ids_listed : (String → Bool) → Option (List String) → Bool
ids_listed p none = true
ids_listed p (some is) = all_listed p is

unfoldable pub ensure_bindings_in_tenant :
    ℕ → Option (List String) → Option (List String) → Registry → Result (Unit {0})
ensure_bindings_in_tenant tenant_id kb_ids tool_ids r =
    raise_if (not (ids_listed (is_listed (is_owned tenant_id) r.knowledge_bases) kb_ids)) 400
      invalid_binding
    >> raise_if (not (ids_listed (is_listed (is_usable tenant_id) r.tools) tool_ids)) 400
        invalid_binding

abbrev bound_to : ℕ → String → Binding → Bool
bound_to tenant_id agent_id b = b.tenant_id == tenant_id && str_eq b.agent_id agent_id

abbrev rebind : ℕ → String → Option (List String) → List Binding → List Binding
rebind tenant_id agent_id none bindings = bindings
rebind tenant_id agent_id (some is) bindings =
    select (λ b. not (bound_to tenant_id agent_id b)) bindings
    ++ map (λ i. record { tenant_id = tenant_id; agent_id = agent_id; bound_id = i }) is

unfoldable pub replace_bindings :
    Agent → Option (List String) → Option (List String) → Registry → Registry
replace_bindings a kb_ids tool_ids r = record r {
  knowledge_bindings = rebind a.tenant_id a.agent_id kb_ids r.knowledge_bindings;
  tool_bindings = rebind a.tenant_id a.agent_id tool_ids r.tool_bindings;
}

-- the end of an update: any refusal discards what the transaction wrote; `flush` is what the
-- database answers to the bindings
unfoldable pub finish_update :
    Setting
    → UpdateAgent
    → (flush : Result (Unit {0})) → Agent
    → (before written : Registry) → Result Agent × Registry
unfolding ensure_bindings_in_tenant replace_bindings
finish_update c dto flush a before written =
    elim (ensure_bindings_in_tenant c.tenant_id dto.kb_ids dto.tool_ids written >> flush) [
      | err e ↦ (err e, before)
      | ok _ ↦ (ok a, replace_bindings a dto.kb_ids dto.tool_ids written)
    ]

-- the update of an agent that exists
unfoldable pub write_update :
    Setting → String → UpdateAgent → Result (Unit {0}) → Registry → Result Agent × Registry
unfolding finish_update
write_update c agent_id dto flush r =
    let r' = c.before_update r in
    let (answer, written) = update_with_version c.tenant_id agent_id dto.version dto.fields r' in
    elim answer [
      | none ↦ (err version_conflict, r')
      | some a ↦ finish_update c dto flush a r' written
    ]

unfoldable pub update_agent :
    Setting
    → String
    → UpdateAgent
    → (flush : Result (Unit {0})) → Registry
    → Result Agent × Registry
update_agent c agent_id dto flush r = elim (find_by_id c.tenant_id agent_id r) [
  | none ↦ (err agent_not_found, r)
  | some _ ↦ write_update c agent_id dto flush r
]

abbrev pub archived : ℕ → Agent → Agent
archived now a = record a { archived_at = some now }

unfoldable pub soft_delete : ℕ → String → ℕ → Registry → Bool × Registry
soft_delete tenant_id agent_id now r = (
  count (live tenant_id agent_id) r.agents == 1,
  record r { agents = update (live tenant_id agent_id) (archived now) r.agents },
)

abbrev delete_app_best_effort : Setting → String → Registry → Registry
delete_app_best_effort c app_id r =
    if c.dify_works then record r { deleted_apps = r.deleted_apps ++ app_id ∷ [] } else r

-- the removal of an agent that was read; a miss ends the request before its commit
unfoldable pub remove_agent : Setting → String → Agent → Registry → Result (Unit {0}) × Registry
unfolding soft_delete
remove_agent c agent_id a r =
    let r' = c.before_update r in
    let (matched, written) = soft_delete c.tenant_id agent_id c.now r' in
    if matched
    then (
      ok tt,
      delete_app_best_effort c a.dify_app_id (emit c agent_deleted agent_id none written),
    )
    else (err agent_not_found, r')

unfoldable pub delete : Setting → String → Registry → Result (Unit {0}) × Registry
delete c agent_id r = elim (find_by_id c.tenant_id agent_id r) [
  | none ↦ (err agent_not_found, r)
  | some a ↦ remove_agent c agent_id a r
]
