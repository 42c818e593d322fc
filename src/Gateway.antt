-- ===== src/Gateway.antt =====
-- rust-libs/gateway/src/lib.rs: the gateways that are deployed, and `GatewayManagerImpl`.
pub mod Paths
pub mod Requests
pub mod Deployed
pub mod Tests
use Prim.Native.String
use Prim.Native.String.{[], ◌∷◌}
use mathlib.Core.Option
use mathlib.Core.List.{[], ◌∷◌, map}
use mu.Base.{ℕ, Option, none, some, List, String, if◌then◌else◌, nat_key, text_key, for_each}
use mu.Base.HashMap
use mu.Base.HashMap.{HashMap}
use mu.MuStack.{StackId, HttpMethod, AssemblyAndFunction, Gateway}
use mu.Gateway.Paths.{is_char}

abbrev pub Gateways : Type 0
Gateways = HashMap StackId (HashMap String Gateway)

pub data Notification : Type 0 where
  -- the stack, the traffic and the requests
  report_usage : StackId → ℕ → ℕ → Notification

unfoldable pub get_deployed_gateway_names : Gateways → StackId → Option (List String)
get_deployed_gateway_names gateways stack_id =
    Option.map (map (λ (name, gateway). name)) (HashMap.get gateways stack_id)

unfoldable pub strip_slash : String → String
strip_slash [] = ""
strip_slash (c ∷ k) = if is_char b'/' c then k else c ∷ k

-- The endpoints are collected into a new map, in the order of the old one.
abbrev pub Endpoints : Type 0
Endpoints = HashMap String (HashMap HttpMethod AssemblyAndFunction)

abbrev pub collect_endpoint :
    String × HashMap HttpMethod AssemblyAndFunction → Endpoints → Endpoints
collect_endpoint (k, v) endpoints = HashMap.insert endpoints (strip_slash k) v

unfoldable pub strip_endpoints : Gateway → Gateway
strip_endpoints incoming = record {
  name = incoming.name;
  endpoints = for_each collect_endpoint incoming.endpoints [];
}

abbrev pub deploy_gateway : Gateway → HashMap String Gateway → HashMap String Gateway
deploy_gateway incoming entry = HashMap.insert entry incoming.name (strip_endpoints incoming)

abbrev pub or_empty : Option (HashMap String Gateway) → HashMap String Gateway
or_empty none = []
or_empty (some gateways) = gateways

unfoldable pub deploy_gateways : Gateways → StackId → List Gateway → Gateways
deploy_gateways gateways stack_id incoming_gateways =
    HashMap.insert gateways stack_id
      (for_each deploy_gateway incoming_gateways (or_empty (HashMap.get gateways stack_id)))

unfoldable pub delete_gateways : Gateways → StackId → List String → Gateways
delete_gateways gateways stack_id gateway_names = elim (HashMap.get gateways stack_id) [
  | none ↦ gateways
  | some entry ↦
      HashMap.insert gateways stack_id
        (for_each (λ name entry. HashMap.remove entry name) gateway_names entry)
]

unfoldable pub delete_all_gateways : Gateways → StackId → Gateways
delete_all_gateways gateways stack_id = HashMap.remove gateways stack_id
