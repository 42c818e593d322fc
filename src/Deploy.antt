-- ===== src/Deploy.antt =====
-- executor/src/stack/deploy.rs: a stack and its gateways are deployed and undeployed. The gateway
-- manager is an interface; rust-libs/gateway/src/lib.rs implements it.
pub mod Unslashed
pub mod Exactly
pub mod Stacks
pub mod AsServices
pub mod Tests
use mu.Base.{
  ℕ, Bool, true, false, Option, none, some, List, [], ◌∷◌, map, String, ◌==◌, if◌then◌else◌,
  nat_key, text_key, for_each,
}
use mu.Base.HashMap
use mu.Base.HashMap.{HashMap}
use mu.Base.HashSet
use mu.MuStack.{StackId, HttpMethod, AssemblyAndFunction, Gateway, Stack, gateways}
use mu.Gateway.{Gateways, Endpoints, strip_slash}
use mu.Gateway

-- `none` is the failure of a query.
pub record GatewayManager (W : Type 0) : Type 0 where
  pub get_deployed_gateway_names : StackId → W → Option (Option (List String)) × W
  pub deploy_gateways : StackId → List Gateway → W → Bool × W
  pub delete_gateways : StackId → List String → W → Bool × W
  pub delete_all_gateways : StackId → W → Bool × W

-- `GatewayManagerImpl`, which never fails.
abbrev pub gateway_manager : GatewayManager Gateways
gateway_manager = record {
  get_deployed_gateway_names = λ id w. (some (mu.Gateway.get_deployed_gateway_names w id), w);
  deploy_gateways = λ id incoming w. (true, mu.Gateway.deploy_gateways w id incoming);
  delete_gateways = λ id names w. (true, mu.Gateway.delete_gateways w id names);
  delete_all_gateways = λ id w. (true, mu.Gateway.delete_all_gateways w id);
}

abbrev normalize_endpoint : String × HashMap HttpMethod AssemblyAndFunction → Endpoints → Endpoints
normalize_endpoint (url, endpoint) ep = HashMap.insert ep (strip_slash url) endpoint

unfoldable pub clone_normalized : Gateway → Gateway
clone_normalized gw = record {
  name = gw.name;
  endpoints = for_each normalize_endpoint gw.endpoints [];
}

-- What is there but no longer wanted.
unfoldable pub names_to_remove : List String → List String → List String
names_to_remove wanted [] = []
names_to_remove wanted (existing ∷ rest) =
    let more = names_to_remove wanted rest in
    if HashSet.contains wanted existing then more else existing ∷ more

abbrev pub names_or_none : Option (Option (List String)) → List String
names_or_none (some (some names)) = names
names_or_none _ = []

module _ {W : Type 0} (manager : GatewayManager W) where
  -- Whether or not the others can be deleted, the stack's own gateways are deployed.
  unfoldable pub delete_others :
      StackId → List String → Option (Option (List String)) × W → Bool × W
  delete_others id wanted (existing, w) =
      (true, (manager.delete_gateways id (names_to_remove wanted (names_or_none existing)) w).1)

  unfoldable pub after_deployed : StackId → List String → Bool × W → Bool × W
  after_deployed id wanted (false, w) = (false, w)
  after_deployed id wanted (true, w) =
      delete_others id wanted (manager.get_deployed_gateway_names id w)

  unfoldable pub deploy_gateways : StackId → Stack → W → Bool × W
  deploy_gateways id stack w =
      after_deployed id (map (λ (gw : Gateway). gw.name) (gateways stack))
        (manager.deploy_gateways id (map clone_normalized (gateways stack)) w)

  unfoldable pub undeploy_gateways : StackId → W → Bool × W
  undeploy_gateways id w = manager.delete_all_gateways id w
