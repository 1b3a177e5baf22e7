-- ===== src/Agent/Model.antt =====
-- The rows of apps/backend/app/models/agent.py that the lifecycle reads and writes, with the events
-- of apps/backend/app/events/agent.py. The columns `type`, `dify_api_key` and
-- `created_by`, the timestamps of creation and update, statistics and relationships are not modelled.
-- A status is one of the four that the services write.
use eap.Prelude.{ℕ, String, Option, List}

pub data Status : Type 0 where
  draft testing published offline : Status

pub record Agent : Type 0 where
  pub tenant_id : ℕ
  pub agent_id : String
  pub dify_app_id : String
  pub name : String
  pub description : Option String
  pub category : Option String
  pub icon : Option String
  pub tags : List String
  pub status : Status
  pub model_id : Option String
  pub model_name : Option String
  pub model_provider : Option String
  pub prompt : Option String
  pub version : ℕ
  pub published_at : Option ℕ
  pub published_by : Option ℕ
  pub archived_at : Option ℕ

-- a row of `agent_knowledge_bindings` or of `agent_tool_bindings`
pub record Binding : Type 0 where
  pub tenant_id : ℕ
  pub agent_id : String
  pub bound_id : String

-- a knowledge base or a tool that can be bound; a global tool has no tenant
pub record Asset : Type 0 where
  pub id : String
  pub tenant_id : Option ℕ

pub data EventName : Type 0 where
  agent_published agent_offline agent_deleted : EventName

pub record AgentEvent : Type 0 where
  pub name : EventName
  pub agent_id : String
  pub tenant_id : ℕ
  pub actor_id : ℕ
  pub status : Option Status

pub record Registry : Type 0 where
  pub agents : List Agent
  pub knowledge_bindings : List Binding
  pub tool_bindings : List Binding
  pub knowledge_bases : List Asset
  pub tools : List Asset
  pub events : List AgentEvent
  -- the ids of the Dify apps that were deleted
  pub deleted_apps : List String
