-- ===== src/Deploy/AsServices.antt =====
-- What the scheduler calls, done by the code of deploy.rs. An error is only logged by the scheduler.
use mu.Base.{ℕ, Bool, true, false, Option, none, some}
use mu.Scheduler.State.{Services}
use mu.Gateway.{Gateways}
use mu.Deploy.{gateway_manager, deploy_gateways, undeploy_gateways}
use mu.Deploy.Stacks.{StackDeploymentError, Runtime, Database, Storage, deploy, undeploy_stack}

abbrev is_ok : Option StackDeploymentError → Bool
is_ok none = true
is_ok (some e) = false

module _ {R D S : Type 0} (runtime : Runtime R) (db : Database D) (storage : Storage S) where
  abbrev pub World : Type 0
  World = R × D × S × Gateways

  abbrev pub services : (ℕ → ℕ → ℕ) → Services World
  services xor = record {
    xor = xor;
    deploy = λ id stack (r, d, s, g).
        let (error, r, d, s) = deploy runtime db storage id stack r d s in
        (is_ok error, (r, d, s, g));
    undeploy_stack = λ id mode (r, d, s, g).
        let (done, r, d, s) = undeploy_stack runtime db storage id mode r d s in
        (done, (r, d, s, g));
    deploy_gateways = λ id stack (r, d, s, g).
        let (done, g) = deploy_gateways gateway_manager id stack g in (done, (r, d, s, g));
    undeploy_gateways = λ id (r, d, s, g).
        let (done, g) = undeploy_gateways gateway_manager id g in (done, (r, d, s, g));
  }
