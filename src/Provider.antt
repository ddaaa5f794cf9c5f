-- ===== src/Provider.antt =====
-- The provider process: `ProviderService` of provider.py over the backends of linux.py.
pub mod Construct
pub mod Handle
pub mod Classes
use msys_hal.Prelude.{ℕ, String, List}
use msys_hal.Prelude.Dict.{Dict}
use msys_hal.Json.{Value, Fields}
use msys_hal.Action.{Action}

-- `Backend`: a domain and the actions that serve it, on a state `S`.
pub record Backend (S : Type 0) : Type 0 where
  pub domain : String
  pub inventory : Action S Fields
  pub get_state : String → Action S Value
  pub set_state : String → Fields → Action S Value

pub record Service (S : Type 0) : Type 0 where
  pub backends : Dict String (Backend S)
  pub provider_id : String
  pub name : String
  pub version : String
  pub capabilities : List String

abbrev pub max_provider_domains : ℕ
max_provider_domains = 8

abbrev pub max_provider_capabilities : ℕ
max_provider_capabilities = 32
