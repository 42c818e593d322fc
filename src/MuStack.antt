-- ===== src/MuStack.antt =====
-- rust-libs/mu_stack/src/lib.rs: the definition of a stack.
-- A public key, `[u8; 32]`, is the number that its bytes spell, the lowest byte first.
pub mod Validation
pub mod Protobuf
pub mod Ids
use mathlib.Core.List.{filter_map}
use mu.Base.{ℕ, String, Bool, Option, none, some, List}
use mu.Base.HashMap.{HashMap}

-- `StackID::SolanaPublicKey` and `StackOwner::Solana`, each the only variant of its type.
abbrev pub StackId : Type 0
StackId = ℕ

abbrev pub StackOwner : Type 0
StackOwner = ℕ

pub data HttpMethod : Type 0 where
  get head post put patch delete options : HttpMethod

pub record NameAndDelete : Type 0 where
  pub name : String
  pub delete : Option Bool

pub record AssemblyAndFunction : Type 0 where
  pub assembly : String
  pub function : String

pub record Gateway : Type 0 where
  pub name : String
  pub endpoints : HashMap String (HashMap HttpMethod AssemblyAndFunction)

pub data AssemblyRuntime : Type 0 where
  wasi1_0 : AssemblyRuntime

pub record Function : Type 0 where
  pub name : String
  pub binary : String
  pub runtime : AssemblyRuntime
  pub env : HashMap String String
  pub memory_limit : ℕ

pub data Service : Type 0 where
  key_value_table : NameAndDelete → Service
  storage : NameAndDelete → Service
  gateway : Gateway → Service
  function : Function → Service

pub record Stack : Type 0 where
  pub name : String
  pub version : String
  pub services : List Service

as_key_value_table : Service → Option NameAndDelete
as_key_value_table (key_value_table x) = some x
as_key_value_table s = none

as_storage : Service → Option NameAndDelete
as_storage (storage x) = some x
as_storage s = none

as_function : Service → Option Function
as_function (function x) = some x
as_function s = none

as_gateway : Service → Option Gateway
as_gateway (gateway x) = some x
as_gateway s = none

unfoldable pub key_value_tables : Stack → List NameAndDelete
unfolding as_key_value_table filter_map
key_value_tables s = filter_map as_key_value_table s.services

unfoldable pub storages : Stack → List NameAndDelete
unfolding as_storage filter_map
storages s = filter_map as_storage s.services

unfoldable pub functions : Stack → List Function
unfolding as_function filter_map
functions s = filter_map as_function s.services

unfoldable pub gateways : Stack → List Gateway
unfolding as_gateway filter_map
gateways s = filter_map as_gateway s.services
