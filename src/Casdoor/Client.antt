-- ===== src/Casdoor/Client.antt =====
-- The calls of github.com/casdoor/casdoor-go-sdk that the adapter makes. The SDK and the server
-- are not part of the repository: a client is a parameter of the model.
use aisphere_kit.Base.Clock.{ℤ}
use aisphere_kit.Base.{Text, Any, Bool, List, Option, Io}

-- casdoorsdk.CasbinRule; `rest` is what follows V2, which the adapter neither sets nor reads.
pub record CasbinRule : Type 0 where
  pub ptype : Text
  pub v0 : Text
  pub v1 : Text
  pub v2 : Text
  pub rest : List Text

-- casdoorsdk.Enforcer, as far as the adapter sets it.
pub record Enforcer : Type 0 where
  pub owner : Text
  pub name : Text

-- The selectors of an enforce call, of which the server expects exactly one.
pub record Selectors : Type 0 where
  pub permission_id : Text
  pub model_id : Text
  pub resource_id : Text
  pub enforcer_id : Text
  pub owner : Text

-- The claims of a parsed token that the adapter reads.
pub record Claims : Type 0 where
  pub name : Text
  pub display_name : Text
  pub email : Text
  pub avatar : Text
  pub owner : Text
  pub issuer : Text
  pub subject : Text
  pub audience : Text

-- casdoorsdk.Record
pub record AuditRecord : Type 0 where
  pub owner : Text
  pub name : Text
  pub created_time : Text
  pub organization : Text
  pub client_ip : Text
  pub user : Text
  pub method : Text
  pub request_uri : Text
  pub action : Text
  pub status_code : ℤ
  pub response : Text
  pub object : Text
  pub is_triggered : Bool

pub record Client (W : Type 0) : Type 0 where
  pub get_policies : Text → Text → Io W (List (Option CasbinRule))
  pub add_policy : Enforcer → CasbinRule → Io W Bool
  pub remove_policy : Enforcer → CasbinRule → Io W Bool
  pub enforce : Selectors → List Any → Io W Bool
  pub add_record : AuditRecord → Io W Bool
  pub get_application : Text → Io W (Unit {0})
  pub parse_jwt_token : Text → Io W Claims
