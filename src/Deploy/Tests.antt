-- ===== src/Deploy/Tests.antt =====
-- A stack with a gateway and functions, deployed by the runtime and the gateway manager of a node.
use mu.Base.{ℕ, true, some, [], ◌∷◌, suc}
use mu.StackMetadata.{StackWithMetadata, solana}
use mu.Runtime.{AssemblyProvider}
use mu.Runtime.Provided.{provider}
use mu.Gateway.Tests.{shop}
use mu.Deploy.Exactly.{DeploysExactly, deploy_gateways_lem}
use mu.Deploy.Stacks.{Runtime, Database, Storage}

deploy_gateways_lem_example : DeploysExactly 5 shop []
deploy_gateways_lem_example = deploy_gateways_lem 5 shop []

-- A database and a storage that count the changes.
abbrev database : Database ℕ
database = record {
  make_client = λ d. (true, d);
  is_table_name = λ name. true;
  update_stack_tables = λ id tables d. (true, suc d);
  table_list = λ id d. (some [], d);
  clear_table = λ id name d. (true, suc d);
}

abbrev files : Storage ℕ
files = record {
  can_connect = λ s. true;
  get = λ user file s. (some (0 ∷ 97 ∷ 115 ∷ 109 ∷ []), s);
  update_stack_storages = λ id storages s. (true, suc s);
  storage_list = λ id s. (some [], s);
  remove_storage = λ id name s. (true, suc s);
}

abbrev runtime_of_node : Runtime AssemblyProvider
runtime_of_node = provider (λ d. true)

abbrev shop_stack : StackWithMetadata
shop_stack = record {
  stack = shop;
  name = "shop";
  revision = 3;
  metadata = solana (record { account_id = 5; owner = 9 });
}
