-- ===== src/Config.antt =====
-- What the reader of the configuration (apps/agent/src/service/service_registry.cpp) takes from
-- boost::property_tree and std::filesystem.
pub mod Fields
pub mod Parts
pub mod Service
pub mod Valid
use aegis_desk.Prelude.{ℕ, Bool, Option, List}
use aegis_desk.Prelude.Int.{ℤ}
use aegis_desk.Prelude.Text.{Str}

-- A `ptree` T: its own text, its children with their keys, and `get_optional` at a key of one part.
pub record PropertyTree (D T : Type 0) : Type 0 where
  pub data_of : T → Str
  pub children : T → List (Str × T)
  pub get_child : T → Str → Option T
  pub get_string : T → Str → Option Str
  pub get_bool : T → Str → Option Bool
  pub get_int : T → Str → Option ℤ
  -- The values of std::uint32_t.
  pub get_unsigned : T → Str → Option ℕ
  pub get_double : T → Str → Option D
  -- `get_value_optional<std::string>`.
  pub own_string : T → Option Str

pub record Paths : Type 0 where
  pub is_absolute : Str → Bool
  pub lexically_normal : Str → Str
  -- `operator/`.
  pub join : Str → Str → Str
