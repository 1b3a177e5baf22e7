-- ===== src/Tool/Model.antt =====
-- `ToolRegistry` of apps/backend/app/models/tool.py: the columns that the code judges or calls by.
-- Descriptions, types, timestamps and relationships are not modelled.
use eap.Prelude.{ℕ, String, Option}
use eap.Json.{Fields}

pub record Tool : Type 0 where
  pub tool_id : String
  pub tenant_id : Option ℕ
  pub name : String
  pub endpoint : Option String
  pub method : Option String
  pub risk_level : String
  pub permission_mode : String
  pub auth_type : Option String
  pub auth_config : Option Fields
  pub timeout_ms : ℕ
  pub retry_policy : Option Fields
