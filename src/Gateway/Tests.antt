-- ===== src/Gateway/Tests.antt =====
-- A gateway with three endpoints, and requests for it.
use mu.Base.{◌≡◌, refl, true, none, some, [], ◌∷◌, String, text_key, nat_key, for_each}
use mu.Base.HashMap
use mu.Base.HashMap.{HashMap}
use mu.Base.HashSet
use mu.Base.Sort.{sort_by_key, last, insert_sorted}
use mu.MuStack.{
  StackId, get, post, AssemblyAndFunction, wasi1_0, Function, function, gateway, Gateway, Stack,
  gateways, functions, storages, key_value_tables,
}
use mu.MuStack.Ids
use mathlib.Core.List.{flat_map, filter_map}
use mathlib.Core.Option.{Option-elim}
use mu.Base.Distinct.{first_repeated}
use mu.MuStack.Validation.{
  ensure_all_unique, ensure_gateway_functions_correct, check_gateways, check_paths, check_endpoints,
  duplicate_endpoints, method_key, function_names, validate, ok,
}
use mu.Gateway.{Gateways, deploy_gateways, strip_endpoints, strip_slash, report_usage}
use mu.Gateway.Paths.{
  split, starts_with, ends_with, is_param, match_segments, match_path_and_extract_path_params,
  param_name,
}
use mu.Gateway.Requests.{
  HttpRequest, actix_http_method_to_stack, collect_headers, find_route, match_endpoint,
  calculate_request_size, calculate_response_size, find_method, run_function, parse_stack_id, chars,
  number_of, Request, SdkHttpMethod, stack_http_method_to_sdk, FunctionId, Handled, Services,
  handle_request, is_guarded,
}
use mu.Gateway.Requests.Routes.{RouteOf, find_route_lem}
use mu.Gateway.Requests.Answers.{handle_request_lem, IsAnswered}
use mu.Gateway.Deployed.{deployed_calls}

split_example : split "/get/{id}" ≡ "" ∷ "get" ∷ "{id}" ∷ []
unfolding split
split_example = refl

match_example :
    match_path_and_extract_path_params "/get/user/12" "/get/user/{id}" ≡ some (7, ("id", "12") ∷ [])
unfolding match_path_and_extract_path_params match_segments split is_param starts_with ends_with
    param_name HashMap.insert HashMap.remove
match_example = refl

-- An empty segment stands for a parameter.
match_empty_segment :
    match_path_and_extract_path_params "get//12" "get/{type}/{id}"
    ≡ some (3, ("id", "12") ∷ ("type", "") ∷ [])
unfolding match_path_and_extract_path_params match_segments split is_param starts_with ends_with
    param_name HashMap.insert HashMap.remove
match_empty_segment = refl

-- The paths of the test `can_not_extract_path_params_from_empty_segments`.
match_empty_segment_slash : match_path_and_extract_path_params "/get//12" "get/{type}/{id}/" ≡ none
unfolding match_path_and_extract_path_params match_segments split is_param starts_with ends_with
    param_name HashMap.insert HashMap.remove
match_empty_segment_slash = refl

abbrev pub target : String → AssemblyAndFunction
target name = record { assembly = name; function = "run" }

abbrev pub shop_gateway : Gateway
shop_gateway = record {
  name = "api";
  endpoints =
      ("/items/{id}", (get, target "show") ∷ (post, target "change") ∷ [])
      ∷ ("items/all", (get, target "list") ∷ [])
      ∷ [];
}

abbrev pub binary_function : String → Function
binary_function name = record {
  name = name;
  binary = "wasm";
  runtime = wasi1_0;
  env = [];
  memory_limit = 1;
}

abbrev pub shop : Stack
shop = record {
  name = "shop";
  version = "1";
  services =
      gateway shop_gateway
      ∷ function (binary_function "show")
      ∷ function (binary_function "change")
      ∷ function (binary_function "list")
      ∷ [];
}

find_route_lem_example : RouteOf shop_gateway "items/all" get
find_route_lem_example = find_route_lem shop_gateway "items/all" get

abbrev env : Services
env = record {
  to_base58 = λ key. key;
  from_base58 = λ code. some code;
  to_str = λ value. some "text";
  from_query = λ query. some [];
  handle_request = λ id request. some (record { status = 200; headers = []; body = 1 ∷ 2 ∷ [] });
}

abbrev request : HttpRequest
request = record {
  stack_id = "s_aaaaaaaaaaaaaaaaaaaaaaaaaaaaaaaa";
  gateway_name = "api";
  request_path = "items/all";
  path = "/s_aaaaaaaaaaaaaaaaaaaaaaaaaaaaaaaa/api/items/all";
  method = "GET";
  query_string = "";
  headers = ("host", 104 ∷ 105 ∷ []) ∷ [];
  payload = none;
}

abbrev shop_id : StackId
shop_id = 44046402572626160612103472728795008085361523578694645928734845681441465000289

parse_example : parse_stack_id env request.stack_id ≡ some shop_id
unfolding parse_stack_id chars number_of Ids.from_str Ids.parse_variant
parse_example = refl

abbrev deployed : Gateways
deployed = deploy_gateways [] shop_id (gateways shop)

guarded : is_guarded "GET" ≡ true
unfolding is_guarded
guarded = refl

handle_request_lem_example :
    (h : Handled) × (handle_request env deployed request ≡ some h)
    × IsAnswered env deployed request h
handle_request_lem_example = handle_request_lem env deployed request guarded

valid : validate shop ≡ ok shop
unfolding validate ensure_all_unique first_repeated functions HashSet.contains HashSet.insert
    key_value_tables gateways storages ensure_gateway_functions_correct check_gateways check_paths
    check_endpoints duplicate_endpoints flat_map
valid = refl

abbrev called_id : FunctionId
called_id = record { stack_id = shop_id; assembly_name = "list"; function_name = "run" }

abbrev called_request : Request
called_request = record {
  method = SdkHttpMethod.get;
  path_params = [];
  query_params = [];
  headers = ("host", "text") ∷ [];
  body = [];
}

abbrev answer : Handled
answer = record {
  response = record { status = 200; headers = []; body = 1 ∷ 2 ∷ [] };
  called = some (called_id, called_request);
  notifications = report_usage shop_id 57 1 ∷ [];
}

handled : handle_request env deployed request ≡ some answer
unfolding handle_request parse_stack_id Ids.from_str chars Ids.parse_variant
    actix_http_method_to_stack collect_headers HashMap.get deploy_gateways HashMap.insert number_of
    for_each gateways find_route last sort_by_key strip_endpoints match_endpoint filter_map
    Option-elim HashMap.remove insert_sorted ends_with is_param match_path_and_extract_path_params
    match_segments param_name split starts_with calculate_request_size calculate_response_size
    find_method run_function strip_slash stack_http_method_to_sdk
handled = refl

deployed_calls_example : HashSet.contains (function_names shop) "list" ≡ true
deployed_calls_example =
    deployed_calls env [] shop_id shop valid (HashMap.get-empty shop_id) request guarded answer
      handled called_id called_request refl refl
