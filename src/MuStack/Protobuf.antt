-- ===== src/MuStack/Protobuf.antt =====
-- rust-libs/mu_stack/src/protobuf.rs: a stack as the messages of protos/stack.proto, and back. The code
-- that protobuf generates writes and parses the messages; it is a parameter.
pub mod RoundTrip
pub mod Tests
use mathlib.Core.Option
use mu.Base.{
  ℕ, Bool, true, false, Option, none, some, List, [], ◌∷◌, map, String, if◌then◌else◌, ◌>>=◌, Key,
  text_key,
}
use mu.Base.HashMap
use mu.Base.HashMap.{HashMap}
use mu.MuStack.{
  HttpMethod, NameAndDelete, AssemblyAndFunction, Gateway, AssemblyRuntime, Function, Service,
  Stack,
}
use mu.MuStack.Validation.{method_key}

-- `EnumOrUnknown`
pub data EnumOrUnknown (E : Type 0) : Type 0 where
  known : E → EnumOrUnknown E
  unknown : ℕ → EnumOrUnknown E

-- `HttpMethod` and `FunctionRuntime` of protos/stack.proto, with their cases in its order.
pub data ProtoHttpMethod : Type 0 where
  get head post put patch delete options : ProtoHttpMethod

pub data FunctionRuntime : Type 0 where
  wasi1_0 : FunctionRuntime

pub record GatewayEndpoint : Type 0 where
  pub method : EnumOrUnknown ProtoHttpMethod
  pub route_to_assembly : String
  pub route_to_function : String

pub record GatewayEndpoints : Type 0 where
  pub path : String
  pub endpoints : List GatewayEndpoint

pub record ProtoGateway : Type 0 where
  pub name : String
  pub endpoints : List GatewayEndpoints

-- `KeyValueTable` and `StorageName`
pub record ProtoName : Type 0 where
  pub name : String
  pub delete : Bool

pub record EnvVar : Type 0 where
  pub name : String
  pub value : String

pub record ProtoFunction : Type 0 where
  pub name : String
  pub binary : String
  pub env : List EnvVar
  pub runtime : EnumOrUnknown FunctionRuntime
  pub memory_limit : ℕ

pub data ProtoService : Type 0 where
  key_value_table : ProtoName → ProtoService
  storage_name : ProtoName → ProtoService
  gateway : ProtoGateway → ProtoService
  function : ProtoFunction → ProtoService

-- A service message may be blank.
pub record ProtoStack : Type 0 where
  pub name : String
  pub version : String
  pub services : List (Option ProtoService)

abbrev is_set : Option Bool → Bool
is_set none = false
is_set (some b) = b

abbrev pub proto_name : NameAndDelete → ProtoName
proto_name n = record { name = n.name; delete = is_set n.delete }

-- `convert_http_method` and `convert_function_runtime` of `From<super::Stack> for Stack`
unfoldable pub to_proto_method : HttpMethod → EnumOrUnknown ProtoHttpMethod
to_proto_method HttpMethod.get = known ProtoHttpMethod.get
to_proto_method HttpMethod.post = known ProtoHttpMethod.post
to_proto_method HttpMethod.patch = known ProtoHttpMethod.patch
to_proto_method HttpMethod.put = known ProtoHttpMethod.put
to_proto_method HttpMethod.delete = known ProtoHttpMethod.delete
to_proto_method HttpMethod.head = known ProtoHttpMethod.head
to_proto_method HttpMethod.options = known ProtoHttpMethod.options

unfoldable pub to_proto_runtime : AssemblyRuntime → EnumOrUnknown FunctionRuntime
to_proto_runtime AssemblyRuntime.wasi1_0 = known FunctionRuntime.wasi1_0

abbrev pub proto_endpoint : HttpMethod × AssemblyAndFunction → GatewayEndpoint
proto_endpoint ep = record {
  method = to_proto_method ep.0;
  route_to_assembly = ep.1.assembly;
  route_to_function = ep.1.function;
}

abbrev pub proto_endpoints : String × HashMap HttpMethod AssemblyAndFunction → GatewayEndpoints
proto_endpoints entry = record { path = entry.0; endpoints = map proto_endpoint entry.1 }

abbrev pub proto_env : String × String → EnvVar
proto_env entry = record { name = entry.0; value = entry.1 }

unfoldable pub proto_service : Service → ProtoService
proto_service (Service.key_value_table t) = ProtoService.key_value_table (proto_name t)
proto_service (Service.storage s) = ProtoService.storage_name (proto_name s)
proto_service (Service.gateway g) =
    ProtoService.gateway (record { name = g.name; endpoints = map proto_endpoints g.endpoints })
proto_service (Service.function f) = ProtoService.function (record {
  name = f.name;
  binary = f.binary;
  env = map proto_env f.env;
  runtime = to_proto_runtime f.runtime;
  memory_limit = f.memory_limit;
})

-- `From<super::Stack> for Stack`
unfoldable pub to_proto : Stack → ProtoStack
to_proto stack = record {
  name = stack.name;
  version = stack.version;
  services = map (λ s. some (proto_service s)) stack.services;
}

-- `collect` into a `HashMap`: of two entries with one key the later stays.
unfoldable pub collect {ℓ κ} : {K : Type ℓ} {V : Type κ} ⦃e : Key K⦄ → List (K × V) → HashMap K V
collect [] = []
collect ((k, v) ∷ rest) =
    let later = collect rest in if HashMap.contains_key later k then later else (k, v) ∷ later

-- `collect` into a `Result`: the first error, else all the values.
unfoldable pub collect_ok {ℓ κ} :
    {A : Type ℓ} {B : Type κ} → (A → Option B) → List A → Option (List B)
collect_ok f [] = some []
collect_ok f (a ∷ rest) = let more = collect_ok f rest in f a >>= λ b. more >>= λ bs. some (b ∷ bs)

abbrev pub enum_value : {E : Type 0} → EnumOrUnknown E → Option E
enum_value (known e) = some e
enum_value (unknown i) = none

-- `convert_http_method` and `convert_function_runtime` of `TryFrom<Stack> for super::Stack`
unfoldable pub stack_method : ProtoHttpMethod → HttpMethod
stack_method ProtoHttpMethod.get = HttpMethod.get
stack_method ProtoHttpMethod.post = HttpMethod.post
stack_method ProtoHttpMethod.patch = HttpMethod.patch
stack_method ProtoHttpMethod.put = HttpMethod.put
stack_method ProtoHttpMethod.delete = HttpMethod.delete
stack_method ProtoHttpMethod.head = HttpMethod.head
stack_method ProtoHttpMethod.options = HttpMethod.options

unfoldable pub from_proto_method : EnumOrUnknown ProtoHttpMethod → Option HttpMethod
from_proto_method method = Option.map stack_method (enum_value method)

unfoldable pub stack_runtime : FunctionRuntime → AssemblyRuntime
stack_runtime FunctionRuntime.wasi1_0 = AssemblyRuntime.wasi1_0

unfoldable pub from_proto_runtime : EnumOrUnknown FunctionRuntime → Option AssemblyRuntime
from_proto_runtime runtime = Option.map stack_runtime (enum_value runtime)

abbrev pub from_endpoint : GatewayEndpoint → Option (HttpMethod × AssemblyAndFunction)
from_endpoint ep = from_proto_method ep.method >>= λ method.
    some (method, record { assembly = ep.route_to_assembly; function = ep.route_to_function })

abbrev pub from_endpoints :
    GatewayEndpoints → Option (String × HashMap HttpMethod AssemblyAndFunction)
from_endpoints eps =
    collect_ok from_endpoint eps.endpoints >>= λ entries. some (eps.path, collect entries)

abbrev from_name : ProtoName → NameAndDelete
from_name n = record { name = n.name; delete = some n.delete }

unfoldable pub from_service : Option ProtoService → Option Service
from_service none = none
from_service (some (ProtoService.key_value_table t)) = some (Service.key_value_table (from_name t))
from_service (some (ProtoService.storage_name s)) = some (Service.storage (from_name s))
from_service (some (ProtoService.gateway g)) = collect_ok from_endpoints g.endpoints >>= λ entries.
    some (Service.gateway (record { name = g.name; endpoints = collect entries }))
from_service (some (ProtoService.function f)) = from_proto_runtime f.runtime >>= λ runtime. some (
    Service.function (record {
      name = f.name;
      binary = f.binary;
      runtime = runtime;
      env = collect (map (λ (env : EnvVar). (env.name, env.value)) f.env);
      memory_limit = f.memory_limit;
    }))

-- `TryFrom<Stack> for super::Stack`
unfoldable pub from_proto : ProtoStack → Option Stack
from_proto stack = collect_ok from_service stack.services >>= λ services.
    some (record { name = stack.name; version = stack.version; services = services })

module _ {B : Type 0} (write_to_bytes : ProtoStack → B)
    (parse_from_bytes : B → Option ProtoStack) where
  unfoldable pub serialize_to_proto : Stack → B
  serialize_to_proto stack = write_to_bytes (to_proto stack)

  unfoldable pub try_deserialize_proto : B → Option Stack
  try_deserialize_proto bytes = parse_from_bytes bytes >>= from_proto
