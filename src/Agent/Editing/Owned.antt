-- ===== src/Agent/Editing/Owned.antt =====
-- No agent is ever bound to another tenant's knowledge base or tool.
use eap.Prelude.{
  ℕ, ◌≡◌, String, Bool, true, Option, none, some, List, [], ◌∷◌, map, arith, ◌==◌, Bool-cases,
  Option-cases, inl, inr,
}
use eap.Prelude.Table.{update, count, select, All, All-append, find-keep}
use eap.Errors.{Result, ok, ◌>>◌, Result-cases}
use eap.Agent.Model.{Agent, Binding, Registry}
use eap.Agent.Lifecycle.{Setting, Fields, live, claims, bumped, find_by_id, update_with_version}
use eap.Agent.Editing.{
  UpdateAgent, is_owned, is_usable, is_listed, all_listed, ids_listed, ensure_bindings_in_tenant,
  rebind, replace_bindings, finish_update, write_update, update_agent,
}

-- each bound knowledge base is the tenant's own, and each bound tool is the tenant's or global
pub record Owned (r : Registry) : Type 0 where
  pub knowledge :
      All
        (λ b. is_listed (is_owned b.tenant_id) r.knowledge_bases b.bound_id ≡ true)
        r.knowledge_bindings
  pub tools : All (λ b. is_listed (is_usable b.tenant_id) r.tools b.bound_id ≡ true) r.tool_bindings

module _ (P : Binding → Type 0) where
  All-select : (keep : Binding → Bool) (bs : List Binding) → All P bs → All P (select keep bs)
  unfolding select
  All-select keep [] p = p
  All-select keep (b ∷ bs) p =
      let rest = All-select keep bs p.1 in
      elim (Bool-cases (keep b)) [ inl e ↦ rw e (p.0, rest) | inr e ↦ rw e rest ]

  All-rebind :
      (t : ℕ) (i : String) (listed : String → Bool) (ids : Option (List String)) (bs : List Binding)
      → ((s : String) → listed s ≡ true → P (record { tenant_id = t; agent_id = i; bound_id = s }))
      → ids_listed listed ids ≡ true
      → All P bs
      → All P (rebind t i ids bs)
  All-rebind t i listed none bs f h p = p
  All-rebind t i listed (some xs) bs f h p = All-append P _ _ (All-select _ bs p) (bound xs h)
    where
      bound :
          (ys : List String)
          → all_listed listed ys ≡ true
          → All P (map (λ s. record { tenant_id = t; agent_id = i; bound_id = s }) ys)
      bound [] k = tt
      bound (y ∷ ys) k = (f y (ground arith), bound ys (ground arith))

ensured :
    (t : ℕ) (kbs tls : Option (List String)) (flush : Result (Unit {0})) (r : Registry)
    → (ensure_bindings_in_tenant t kbs tls r >> flush) ≡ ok tt
    → (ids_listed (is_listed (is_owned t) r.knowledge_bases) kbs ≡ true)
      × (ids_listed (is_listed (is_usable t) r.tools) tls ≡ true)
unfolding ensure_bindings_in_tenant
ensured t kbs tls flush r h =
    elim (Bool-cases (ids_listed (is_listed (is_owned t) r.knowledge_bases) kbs)) [
      | inl k ↦ elim (Bool-cases (ids_listed (is_listed (is_usable t) r.tools) tls)) [
        | inl l ↦ (k, l)
        | inr l ↦ cc (rw (k, ensure_bindings_in_tenant, l) at h)
      ]
      | inr k ↦ cc (rw (k, ensure_bindings_in_tenant) at h)
    ]

finish-Owned :
    (c : Setting) (dto : UpdateAgent) (flush : Result (Unit {0})) (a : Agent)
    (before written : Registry)
    → a.tenant_id ≡ c.tenant_id
    → Owned before
    → Owned written
    → Owned (finish_update c dto flush a before written).1
unfolding finish_update ensure_bindings_in_tenant replace_bindings
finish-Owned c dto flush a before written same p q =
    elim (Result-cases
      (ensure_bindings_in_tenant c.tenant_id dto.kb_ids dto.tool_ids written >> flush)) [
        | inl (x, e) ↦ rw (e, finish_update) p
        | inr e ↦
            rw (e, finish_update)
              record {
                knowledge =
                    All-rebind
                      (λ b.
                        is_listed (is_owned b.tenant_id) written.knowledge_bases b.bound_id ≡ true)
                      a.tenant_id a.agent_id
                      (is_listed (is_owned c.tenant_id) written.knowledge_bases) dto.kb_ids
                      written.knowledge_bindings (λ s h. rw same h)
                      (ensured c.tenant_id dto.kb_ids dto.tool_ids flush written e).0 q.knowledge;
                tools =
                    All-rebind
                      (λ b. is_listed (is_usable b.tenant_id) written.tools b.bound_id ≡ true)
                      a.tenant_id a.agent_id (is_listed (is_usable c.tenant_id) written.tools)
                      dto.tool_ids written.tool_bindings (λ s h. rw same h)
                      (ensured c.tenant_id dto.kb_ids dto.tool_ids flush written e).1 q.tools;
              }
      ]

write-Owned :
    (t : ℕ) (i : String) (v : ℕ) (f : Fields) (r : Registry)
    → Owned r
    → Owned (update_with_version t i v f r).1
unfolding update_with_version
write-Owned t i v f r p = elim (Bool-cases (count (claims t i v) r.agents == 0)) [
  | inl e ↦ rw (e, update_with_version) p
  | inr e ↦ rw (e, update_with_version) record { knowledge = p.knowledge; tools = p.tools }
]

write-tenant :
    (t : ℕ) (i : String) (v : ℕ) (f : Fields) (r : Registry) (a : Agent)
    → (update_with_version t i v f r).0 ≡ some a
    → a.tenant_id ≡ t
unfolding update_with_version find_by_id
write-tenant t i v f r a h = elim (Bool-cases (count (claims t i v) r.agents == 0)) [
  | inl e ↦ cc (rw (e, update_with_version) at h)
  | inr e ↦ ground (
    arith,
    find-keep (live t i) (update (claims t i v) (bumped f) r.agents) a
        (rw (e, update_with_version) at h),
  )
]

-- An update of an agent, whatever it answers, keeps every agent bound only to knowledge bases of its
-- own tenant and to tools that are its own tenant's or global, if what other sessions commit
-- meanwhile does.
pub update_agent-Owned :
    (c : Setting) (i : String) (dto : UpdateAgent) (flush : Result (Unit {0})) (r : Registry)
    → ((s : Registry) → Owned s → Owned (c.before_update s))
    → Owned r
    → Owned (update_agent c i dto flush r).1
unfolding update_agent write_update
update_agent-Owned c i dto flush r keeps p =
    let r' = c.before_update r in
    let written = update_with_version c.tenant_id i dto.version dto.fields r' in
    elim (Option-cases (find_by_id c.tenant_id i r)) [
      | inl e ↦ rw (e, update_agent) p
      | inr (_, e) ↦
          rw (e, update_agent)
            (elim (Option-cases written.0) [
              | inl n ↦ rw (n, write_update) (keeps r p)
              | inr (a, n) ↦
                  rw (n, write_update)
                    (finish-Owned c dto flush a r' written.1
                      (write-tenant c.tenant_id i dto.version dto.fields r' a n) (keeps r p)
                      (write-Owned c.tenant_id i dto.version dto.fields r' (keeps r p)))
            ])
    ]
