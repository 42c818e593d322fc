-- ===== src/MuStack/Protobuf/RoundTrip.antt =====
-- A stack that is written and read back.
use mu.Base.{◌≡◌, refl, false, Option, none, some, List, [], ◌∷◌, map, String, Key, text_key, All}
use mu.Base.HashMap
use mu.Base.HashMap.{HashMap}
use mu.MuStack.{
  HttpMethod, NameAndDelete, AssemblyAndFunction, Service, key_value_table, storage, gateway,
  function, AssemblyRuntime, Stack,
}
use mu.MuStack.Validation.{method_key}
use mu.MuStack.Protobuf.{
  EnvVar, ProtoStack, proto_service, proto_endpoint, proto_endpoints, proto_env, to_proto, collect,
  collect_ok, from_endpoint, from_endpoints, from_service, from_proto, serialize_to_proto,
  try_deserialize_proto, to_proto_method, from_proto_method, stack_method, to_proto_runtime,
  from_proto_runtime, stack_runtime,
}

-- A list that stands for a `HashMap` has each key once.
abbrev pub IsMap {ℓ κ} : {K : Type ℓ} {V : Type κ} ⦃e : Key K⦄ → HashMap K V → Type 0
IsMap [] = Unit
IsMap ((k, v) ∷ rest) = (HashMap.contains_key rest k ≡ false) × IsMap rest

collect-IsMap {ℓ κ} :
    {K : Type ℓ} {V : Type κ} ⦃e : Key K⦄ (m : HashMap K V) → IsMap m → collect m ≡ m
unfolding collect
collect-IsMap [] h = refl
collect-IsMap ((k, v) ∷ rest) (new, h) = rw (collect-IsMap rest h) (rw new refl)

-- If each element is read back from what is written, so is the list.
collect_ok-map {ℓ κ μ} :
    {A : Type ℓ} {B : Type κ} {C : Type μ} (write : A → B) (read : B → Option C) (norm : A → C)
    → (l : List A) → All (λ a. read (write a) ≡ some (norm a)) l
    → collect_ok read (map write l) ≡ some (map norm l)
unfolding collect_ok
collect_ok-map write read norm [] h = refl
collect_ok-map write read norm (a ∷ l) (h, hs) =
    rw h (rw (collect_ok-map write read norm l hs) refl)

-- Reading tells a missing `delete` as false.
abbrev pub told : NameAndDelete → NameAndDelete
told n = record n { delete = some (elim n.delete [ none ↦ false | some b ↦ b ]) }

abbrev pub told_service : Service → Service
told_service (key_value_table t) = key_value_table (told t)
told_service (storage s) = storage (told s)
told_service (gateway g) = gateway g
told_service (function f) = function f

abbrev pub told_stack : Stack → Stack
told_stack stack = record stack { services = map told_service stack.services }

-- The lists in a service stand for `HashMap`s.
abbrev pub HasMaps : Service → Type 0
HasMaps (key_value_table t) = Unit
HasMaps (storage s) = Unit
HasMaps (gateway g) =
    IsMap g.endpoints
    × All (λ (entry : String × HashMap HttpMethod AssemblyAndFunction). IsMap entry.1) g.endpoints
HasMaps (function f) = IsMap f.env

map_id {ℓ} : {A : Type ℓ} (f : A → A) → ((a : A) → f a ≡ a) → (l : List A) → map f l ≡ l
map_id f h [] = refl
map_id f h (a ∷ l) = rw (h a) (rw (map_id f h l) refl)

All-hold {ℓ κ} : {A : Type ℓ} {P : A → Type κ} → ((a : A) → P a) → (l : List A) → All P l
All-hold h [] = tt
All-hold h (a ∷ l) = (h a, All-hold h l)

method_read : (method : HttpMethod) → from_proto_method (to_proto_method method) ≡ some method
unfolding from_proto_method to_proto_method stack_method
method_read HttpMethod.get = refl
method_read HttpMethod.head = refl
method_read HttpMethod.post = refl
method_read HttpMethod.put = refl
method_read HttpMethod.patch = refl
method_read HttpMethod.delete = refl
method_read HttpMethod.options = refl

runtime_read :
    (runtime : AssemblyRuntime) → from_proto_runtime (to_proto_runtime runtime) ≡ some runtime
unfolding from_proto_runtime to_proto_runtime stack_runtime
runtime_read AssemblyRuntime.wasi1_0 = refl

endpoint_read :
    (ep : HttpMethod × AssemblyAndFunction) → from_endpoint (proto_endpoint ep) ≡ some ep
endpoint_read (method, target) = rw (method_read method) refl

endpoints_read :
    (entry : String × HashMap HttpMethod AssemblyAndFunction)
    → IsMap entry.1
    → from_endpoints (proto_endpoints entry) ≡ some entry
endpoints_read (path, eps) h =
    rw (collect_ok-map proto_endpoint from_endpoint (λ ep. ep) eps (All-hold endpoint_read eps))
      (rw (map_id (λ ep. ep) (λ ep. refl) eps) (rw (collect-IsMap eps h) refl))

All-endpoints_read :
    (l : List (String × HashMap HttpMethod AssemblyAndFunction))
    → All (λ entry. IsMap entry.1) l
    → All (λ entry. from_endpoints (proto_endpoints entry) ≡ some entry) l
All-endpoints_read [] h = tt
All-endpoints_read (entry ∷ l) (h, hs) = (endpoints_read entry h, All-endpoints_read l hs)

env_read :
    (env : List (String × String))
    → map (λ (e : EnvVar). (e.name, e.value)) (map proto_env env) ≡ env
env_read [] = refl
env_read ((name, value) ∷ env) = rw (env_read env) refl

service_read :
    (s : Service) → HasMaps s → from_service (some (proto_service s)) ≡ some (told_service s)
unfolding from_service proto_service
service_read (key_value_table t) h = refl
service_read (storage t) h = refl
service_read (gateway g) (h, hs) =
    rw
      (collect_ok-map proto_endpoints from_endpoints (λ entry. entry) g.endpoints
        (All-endpoints_read g.endpoints hs))
      (rw (map_id (λ entry. entry) (λ entry. refl) g.endpoints)
        (rw (collect-IsMap g.endpoints h) refl))
service_read (function f) h =
    rw (runtime_read f.runtime) (rw (env_read f.env) (rw (collect-IsMap f.env h) refl))

services_read :
    (l : List Service)
    → All HasMaps l
    → All (λ s. from_service (some (proto_service s)) ≡ some (told_service s)) l
services_read [] h = tt
services_read (s ∷ l) (h, hs) = (service_read s h, services_read l hs)

-- If parsing gives back what was written, a stack is read back as it was written, but that a table or
-- a storage that does not say whether it is deleted comes back as one that is not.
pub try_deserialize_proto-serialize_to_proto :
    {B : Type 0} (write : ProtoStack → B) (parse : B → Option ProtoStack)
    → ((m : ProtoStack) → parse (write m) ≡ some m)
    → (stack : Stack) → All HasMaps stack.services
    → try_deserialize_proto write parse (serialize_to_proto write parse stack)
      ≡ some (told_stack stack)
unfolding try_deserialize_proto serialize_to_proto to_proto from_proto
try_deserialize_proto-serialize_to_proto write parse codec stack h = rw (codec (to_proto stack)) (
    rw
      (collect_ok-map (λ s. some (proto_service s)) from_service told_service stack.services
        (services_read stack.services h))
      refl)
