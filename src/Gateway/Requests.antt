-- ===== src/Gateway/Requests.antt =====
-- rust-libs/gateway/src/lib.rs: `handle_request`. The user's function, the text of a header and the
-- parser of query strings are parameters, and so is the parser of the stack's id.
pub mod Routes
pub mod PassedOn
pub mod Answers
use Prim.Native.String
use Prim.Native.String.{[], ◌∷◌}
use Prim.Native.Char.{Char, code}
use mathlib.Core.List.{[], ◌∷◌, map, filter_map}
use mathlib.Core.Option
use mu.Base.{
  ℕ, ◌+◌, ◌*◌, ◌%◌, ◌^◌, Bool, true, false, Option, none, some, List, String, ◌==◌, ◌||◌, ◌>>=◌,
  if◌then◌else◌, nat_key, text_key, length, sum,
}
use mu.Base.HashMap
use mu.Base.HashMap.{HashMap}
use mu.Base.Sort.{sort_by_key, last}
use mu.MuStack.{StackId, HttpMethod, AssemblyAndFunction, Gateway}
use mu.MuStack.Validation.{method_key}
use mu.MuStack.Ids
use mu.Gateway.{Gateways, Notification, report_usage}
use mu.Gateway.Paths.{PathParams, match_path_and_extract_path_params}

-- What the server gives of a request: the texts that its route matched, its whole path and the rest.
pub record HttpRequest : Type 0 where
  pub stack_id : String
  pub gateway_name : String
  pub request_path : String
  pub path : String
  pub method : String
  pub query_string : String
  -- the names and the bytes of the values
  pub headers : List (String × List ℕ)
  pub payload : Option (List ℕ)

abbrev pub Header : Type 0
Header = String × String

-- `musdk_common::HttpMethod`.
pub data SdkHttpMethod : Type 0 where
  get head post put patch delete options : SdkHttpMethod

-- `musdk_common::Request`.
pub record Request : Type 0 where
  pub method : SdkHttpMethod
  pub path_params : PathParams
  pub query_params : HashMap String String
  pub headers : List Header
  pub body : List ℕ

pub record Response : Type 0 where
  pub status : ℕ
  pub headers : List Header
  pub body : List ℕ

pub record FunctionId : Type 0 where
  pub stack_id : StackId
  pub assembly_name : String
  pub function_name : String

abbrev pub u64 : ℕ → ℕ
u64 n = n % 2 ^ 64

abbrev payload_size : Option (List ℕ) → ℕ
payload_size none = 0
payload_size (some p) = length p

unfoldable pub calculate_request_size : HttpRequest → ℕ
calculate_request_size r = u64 (
    String.len r.path
    + String.len r.query_string
    + sum (map (λ (name, value). String.len name + length value) r.headers)
    + payload_size r.payload)

unfoldable pub calculate_response_size : Response → ℕ
calculate_response_size r =
    u64 (sum (map (λ (name, value). String.len name + String.len value) r.headers) + length r.body)

-- The code points of a text, which are its bytes where all are ASCII.
unfoldable pub chars : String → List ℕ
chars [] = []
chars (c ∷ s) = code c ∷ chars s

text_response : ℕ → String → Response
text_response status description = record {
  status = status;
  headers = ("content-type", "text/plain; charset=utf-8") ∷ [];
  body = chars description;
}

unfoldable pub bad_request : String → Response
unfolding text_response
bad_request description = text_response 400 description

unfoldable pub not_found : Response
unfolding text_response
not_found = text_response 404 "Not Found"

unfoldable pub internal_error : String → Response
unfolding text_response
internal_error description = text_response 500 description

-- The route's guard.
unfoldable pub is_guarded : String → Bool
is_guarded method =
    method == "GET"
    || method == "POST"
    || method == "PUT"
    || method == "DELETE"
    || method == "HEAD"
    || method == "OPTIONS"
    || method == "PATCH"

unfoldable pub stack_http_method_to_sdk : HttpMethod → SdkHttpMethod
stack_http_method_to_sdk HttpMethod.get = SdkHttpMethod.get
stack_http_method_to_sdk HttpMethod.put = SdkHttpMethod.put
stack_http_method_to_sdk HttpMethod.post = SdkHttpMethod.post
stack_http_method_to_sdk HttpMethod.delete = SdkHttpMethod.delete
stack_http_method_to_sdk HttpMethod.options = SdkHttpMethod.options
stack_http_method_to_sdk HttpMethod.patch = SdkHttpMethod.patch
stack_http_method_to_sdk HttpMethod.head = SdkHttpMethod.head

-- `none` is a panic.
unfoldable pub actix_http_method_to_stack : String → Option HttpMethod
actix_http_method_to_stack method =
    if method == "GET"
    then some HttpMethod.get
    else if method == "POST"
    then some HttpMethod.post
    else if method == "PUT"
    then some HttpMethod.put
    else if method == "DELETE"
    then some HttpMethod.delete
    else if method == "OPTIONS"
    then some HttpMethod.options
    else if method == "PATCH"
    then some HttpMethod.patch
    else if method == "HEAD"
    then some HttpMethod.head
    else none

-- The number that the bytes spell, the lowest first.
unfoldable pub number_of : List ℕ → ℕ
number_of [] = 0
number_of (byte ∷ bytes) = byte + 256 * number_of bytes

abbrev to_id : Ids.Parsed → Option StackId
to_id (Ids.ok (Ids.solana_public_key key)) = some (number_of key)
to_id (Ids.err e) = none

abbrev pub Matched : Type 0
Matched = (ℕ × PathParams) × HashMap HttpMethod AssemblyAndFunction

abbrev pub score_of : Matched → ℕ
score_of ((score, params), eps) = score

unfoldable pub match_endpoint :
    String → String × HashMap HttpMethod AssemblyAndFunction → Option Matched
match_endpoint request_path (path, eps) =
    Option.map (λ path_params. (path_params, eps))
      (match_path_and_extract_path_params request_path path)

unfoldable pub find_method : HttpMethod → Matched → Option (AssemblyAndFunction × PathParams)
find_method method ((score, path_params), eps) =
    Option.map (λ ep. (ep, path_params)) (HashMap.get eps method)

-- `path_match_result`.
unfoldable pub find_route :
    Gateway → String → HttpMethod → Option (AssemblyAndFunction × PathParams)
find_route gateway request_path method =
    last (sort_by_key score_of (filter_map (match_endpoint request_path) gateway.endpoints))
    >>= find_method method

-- The response, the call of a user's function if there is one, and what is sent on the channel.
pub record Handled : Type 0 where
  pub response : Response
  pub called : Option (FunctionId × Request)
  pub notifications : List Notification

abbrev pub reply : Response → Option Handled
reply response = some (record { response = response; called = none; notifications = [] })

-- What the gateway is given: the crate base58, the text of a header's value, the parser of query
-- strings, and the caller of the users' functions.
pub record Services : Type 0 where
  pub to_base58 : List ℕ → List ℕ
  pub from_base58 : List ℕ → Option (List ℕ)
  pub to_str : List ℕ → Option String
  pub from_query : String → Option (HashMap String String)
  pub handle_request : FunctionId → Request → Option Response

module _ (env : Services) where
  unfoldable pub parse_stack_id : String → Option StackId
  parse_stack_id s = to_id (Ids.from_str env.to_base58 env.from_base58 (chars s))

  unfoldable pub collect_headers : List (String × List ℕ) → Option (List Header)
  collect_headers [] = some []
  collect_headers ((k, v) ∷ rest) =
      env.to_str v >>= λ value. Option.map (λ headers. (k, value) ∷ headers) (collect_headers rest)

  -- From the call of the user's function on.
  unfoldable pub run_function : ℕ → FunctionId → Request → Handled
  run_function traffic id request =
      let reported : ℕ → Response → Handled = λ traffic response. record {
        response = response;
        called = some (id, request);
        notifications = report_usage id.stack_id traffic 1 ∷ [];
      } in
      elim (env.handle_request id request) [
        | some r ↦ reported (u64 (traffic + calculate_response_size r)) r
        | none ↦ reported traffic (internal_error "User function failure")
      ]

  -- `none` is a panic.
  unfoldable pub handle_request : Gateways → HttpRequest → Option Handled
  handle_request gateways r = elim (parse_stack_id r.stack_id) [
    | none ↦ reply not_found
    | some stack_id ↦ elim (actix_http_method_to_stack r.method) [
      | none ↦ none
      | some method ↦ elim (collect_headers r.headers) [
        | none ↦ reply (bad_request "Invalid header values in request")
        | some headers ↦ elim (env.from_query r.query_string) [
          | none ↦ reply (bad_request "Invalid query string")
          | some query_params ↦
              elim (HashMap.get gateways stack_id >>= λ s. HashMap.get s r.gateway_name) [
                | none ↦ reply not_found
                | some gateway ↦ elim (find_route gateway r.request_path method) [
                  | none ↦ reply not_found
                  | some (ep, path_params) ↦ some (
                      run_function (calculate_request_size r)
                        (record {
                          stack_id = stack_id;
                          assembly_name = ep.assembly;
                          function_name = ep.function;
                        })
                        (record {
                          method = stack_http_method_to_sdk method;
                          path_params = path_params;
                          query_params = query_params;
                          headers = headers;
                          body = Option.get_or r.payload [];
                        }))
                ]
              ]
        ]
      ]
    ]
  ]
