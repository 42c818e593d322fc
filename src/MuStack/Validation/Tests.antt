-- ===== src/MuStack/Validation/Tests.antt =====
-- The stack with one service of each kind is valid.
use mu.Base.{◌≡◌, ◌↔◌}
use mu.MuStack.Validation.{validate, ok}
use mu.MuStack.Validation.Exact.{IsValid, validate_iff}
use mu.MuStack.Protobuf.Tests.{every_service}

validate_iff_example : (validate every_service ≡ ok every_service) ↔ IsValid every_service
validate_iff_example = validate_iff every_service
