-- ===== src/MuStack/Protobuf/Tests.antt =====
-- A stack of one service of each kind. The parser of the messages is the identity.
use mu.Base.{◌≡◌, refl, some, none, true, [], ◌∷◌}
use mu.Base.HashMap
use mu.MuStack.{HttpMethod, AssemblyRuntime, Service, Stack}
use mu.MuStack.Protobuf.{serialize_to_proto, try_deserialize_proto}
use mu.MuStack.Protobuf.RoundTrip.{told_stack, try_deserialize_proto-serialize_to_proto}

abbrev pub every_service : Stack
every_service = record {
  name = "s";
  version = "1";
  services =
      Service.key_value_table (record { name = "t"; delete = none })
      ∷ Service.storage (record { name = "files"; delete = some true })
      ∷ Service.gateway (record {
        name = "g";
        endpoints =
            ("/users/{id}", (HttpMethod.get, record { assembly = "f"; function = "show" }) ∷ [])
            ∷ [];
      })
      ∷ Service.function (record {
        name = "f";
        binary = "f.wasm";
        runtime = AssemblyRuntime.wasi1_0;
        env = ("key", "value") ∷ [];
        memory_limit = 1000;
      })
      ∷ [];
}

try_deserialize_proto-serialize_to_proto_example :
    try_deserialize_proto (λ m. m) some (serialize_to_proto (λ m. m) some every_service)
    ≡ some (told_stack every_service)
unfolding HashMap.contains_key HashMap.get
try_deserialize_proto-serialize_to_proto_example =
    try_deserialize_proto-serialize_to_proto (λ m. m) some (λ m. refl) every_service
      (tt, (tt, (((refl, tt), ((refl, tt), tt)), ((refl, tt), tt))))
