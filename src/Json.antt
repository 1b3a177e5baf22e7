-- ===== src/Json.antt =====
-- JSON values, as the JSONB columns and the tool calls carry them. Numbers are whole.
use eap.Prelude.{ℕ, String, Bool, Option, none, some, str_eq, if◌then◌else◌}

pub data ℤ : Type 0 where
  pos : ℕ → ℤ
  negsuc : ℕ → ℤ

mutual
  pub data Json : Type 0 where
    null : Json
    bool : Bool → Json
    num : ℤ → Json
    text : String → Json
    arr : Items → Json
    obj : Fields → Json

  pub data Items : Type 0 where
    nil : Items
    cons : Json → Items → Items

  pub data Fields : Type 0 where
    end : Fields
    field : String → Json → Fields → Fields

-- `d.get(key)` of the dictionary with these fields
unfoldable pub get : Fields → String → Option Json
get end key = none
get (field k v rest) key = if str_eq k key then some v else get rest key
