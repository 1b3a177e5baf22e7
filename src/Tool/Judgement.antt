-- ===== src/Tool/Judgement.antt =====
-- `ToolService.requires_approval`, `ensure_invocable` and `_ensure_writable` of
-- apps/backend/app/services/tool_service.py.
use eap.Prelude.{Bool, ◌||◌, str_eq}
use eap.Errors.{Result, raise_if, tool_disabled}
use eap.Tool.Model.{Tool}

unfoldable pub is_disabled : Tool → Bool
is_disabled tool = str_eq tool.permission_mode "disabled"

unfoldable pub requires_approval : Tool → Bool
requires_approval tool = str_eq tool.risk_level "high" || str_eq tool.permission_mode "confirm"

unfoldable pub ensure_invocable : Tool → Result (Unit {0})
unfolding is_disabled
ensure_invocable tool = raise_if (is_disabled tool) 409 tool_disabled
