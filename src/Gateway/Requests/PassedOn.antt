-- ===== src/Gateway/Requests/PassedOn.antt =====
-- What of a request is handed on to the user's function, and the bytes of the traffic, each by a
-- description of its own.
use Prim.Native.String
use mathlib.Core.Option
use mu.Base.{
  ◌≡◌, refl, ◌⊎◌, inl, inr, ℕ, ◌+◌, ◌%◌, ◌^◌, true, Option, none, some, List, [], ◌∷◌, map, sum,
  arith, Option-cases, text_key, String, length, In,
}
use mu.MuStack.{HttpMethod}
use mu.Gateway.Requests.{
  HttpRequest, Request, SdkHttpMethod, Response, Header, Services, collect_headers,
  calculate_request_size, calculate_response_size, is_guarded, actix_http_method_to_stack,
  stack_http_method_to_sdk,
}

-- The name of a method in a request.
abbrev pub name_of : HttpMethod → String
name_of HttpMethod.get = "GET"
name_of HttpMethod.head = "HEAD"
name_of HttpMethod.post = "POST"
name_of HttpMethod.put = "PUT"
name_of HttpMethod.patch = "PATCH"
name_of HttpMethod.delete = "DELETE"
name_of HttpMethod.options = "OPTIONS"

abbrev pub sdk_name_of : SdkHttpMethod → String
sdk_name_of SdkHttpMethod.get = "GET"
sdk_name_of SdkHttpMethod.head = "HEAD"
sdk_name_of SdkHttpMethod.post = "POST"
sdk_name_of SdkHttpMethod.put = "PUT"
sdk_name_of SdkHttpMethod.patch = "PATCH"
sdk_name_of SdkHttpMethod.delete = "DELETE"
sdk_name_of SdkHttpMethod.options = "OPTIONS"

pub method_known :
    (method : String)
    → is_guarded method ≡ true
    → (m : HttpMethod) × (actix_http_method_to_stack method ≡ some m)
unfolding is_guarded actix_http_method_to_stack
method_known method h = elim (Option-cases (actix_http_method_to_stack method)) [
  | inl unknown ↦ ground arith
  | inr known ↦ known
]

pub actix_http_method_to_stack-name_of :
    (method : String) (m : HttpMethod)
    → actix_http_method_to_stack method ≡ some m
    → name_of m ≡ method
unfolding actix_http_method_to_stack
actix_http_method_to_stack-name_of method HttpMethod.get h =
    ground (arith, text_key.same_iff method "GET")
actix_http_method_to_stack-name_of method HttpMethod.head h =
    ground (arith, text_key.same_iff method "HEAD")
actix_http_method_to_stack-name_of method HttpMethod.post h =
    ground (arith, text_key.same_iff method "POST")
actix_http_method_to_stack-name_of method HttpMethod.put h =
    ground (arith, text_key.same_iff method "PUT")
actix_http_method_to_stack-name_of method HttpMethod.patch h =
    ground (arith, text_key.same_iff method "PATCH")
actix_http_method_to_stack-name_of method HttpMethod.delete h =
    ground (arith, text_key.same_iff method "DELETE")
actix_http_method_to_stack-name_of method HttpMethod.options h =
    ground (arith, text_key.same_iff method "OPTIONS")

pub sdk-name_of : (m : HttpMethod) → sdk_name_of (stack_http_method_to_sdk m) ≡ name_of m
unfolding stack_http_method_to_sdk
sdk-name_of HttpMethod.get = refl
sdk-name_of HttpMethod.head = refl
sdk-name_of HttpMethod.post = refl
sdk-name_of HttpMethod.put = refl
sdk-name_of HttpMethod.patch = refl
sdk-name_of HttpMethod.delete = refl
sdk-name_of HttpMethod.options = refl

-- Of a text the length stands for the bytes, which it is for ASCII.
-- The bytes of a request: its path, its query, the names and values of its headers, its payload.
abbrev pub header_bytes : List (String × List ℕ) → ℕ
header_bytes [] = 0
header_bytes ((name, value) ∷ rest) = String.len name + length value + header_bytes rest

abbrev pub payload_bytes : Option (List ℕ) → ℕ
payload_bytes none = 0
payload_bytes (some payload) = length payload

abbrev pub request_bytes : HttpRequest → ℕ
request_bytes r =
    String.len r.path + String.len r.query_string + header_bytes r.headers + payload_bytes r.payload

abbrev pub text_bytes : List Header → ℕ
text_bytes [] = 0
text_bytes ((name, value) ∷ rest) = String.len name + String.len value + text_bytes rest

-- A user's function that fails gives none.
abbrev pub response_bytes : Option Response → ℕ
response_bytes none = 0
response_bytes (some response) = text_bytes response.headers + length response.body

sum-header_bytes :
    (headers : List (String × List ℕ))
    → sum (map (λ (name, value). String.len name + length value) headers) ≡ header_bytes headers
sum-header_bytes [] = refl
sum-header_bytes ((name, value) ∷ rest) = rw (sum-header_bytes rest) refl

sum-text_bytes :
    (headers : List Header)
    → sum (map (λ (name, value). String.len name + String.len value) headers) ≡ text_bytes headers
sum-text_bytes [] = refl
sum-text_bytes ((name, value) ∷ rest) = rw (sum-text_bytes rest) refl

pub request-bytes : (r : HttpRequest) → calculate_request_size r ≡ request_bytes r % 2 ^ 64
unfolding calculate_request_size
request-bytes r = elim (Option-cases r.payload) [
  | inl bare ↦ rw (calculate_request_size, bare, sum-header_bytes r.headers) refl
  | inr (payload, sent) ↦ rw (calculate_request_size, sent, sum-header_bytes r.headers) refl
]

pub response-bytes :
    (response : Response)
    → calculate_response_size response ≡ response_bytes (some response) % 2 ^ 64
unfolding calculate_response_size
response-bytes response = rw (sum-text_bytes response.headers) refl

module _ (env : Services) where
  -- Each header is handed on with its name and the text of its value.
  abbrev pub AreHeaders : List (String × List ℕ) → List Header → Type 0
  AreHeaders [] [] = Unit
  AreHeaders [] (h ∷ hs) = ⊥
  AreHeaders (x ∷ xs) [] = ⊥
  AreHeaders (x ∷ xs) (h ∷ hs) = (h.0 ≡ x.0) × (env.to_str x.1 ≡ some h.1) × AreHeaders xs hs

  -- The value of some header is no text.
  abbrev pub AreUnreadable : List (String × List ℕ) → Type 0
  AreUnreadable headers =
      (header : String × List ℕ) × In header headers × (env.to_str header.1 ≡ none)

  pub headers_cases :
      (headers : List (String × List ℕ))
      → ((collect_headers env headers ≡ none) × AreUnreadable headers)
        ⊎ ((read : List Header) × (collect_headers env headers ≡ some read)
            × AreHeaders headers read)
  unfolding collect_headers
  headers_cases [] = inr ([], refl, tt)
  headers_cases ((k, v) ∷ rest) = elim (Option-cases (env.to_str v)) [
    | inl bad ↦ inl (rw (collect_headers, bad) refl, ((k, v), inl refl, bad))
    | inr (value, good) ↦ elim (headers_cases rest) [
      | inl (failed, (header, there, bad)) ↦
          inl (rw (collect_headers, good, failed) refl, (header, inr there, bad))
      | inr (read, fine, are) ↦
          inr ((k, value) ∷ read, rw (collect_headers, good, fine) refl, (refl, good, are))
    ]
  ]

  -- The function is called with the request's method, headers, query and payload.
  abbrev pub IsPassedOn : HttpRequest → Request → Type 0
  IsPassedOn r request =
      (sdk_name_of request.method ≡ r.method)
      × AreHeaders r.headers request.headers
      × (env.from_query r.query_string ≡ some request.query_params)
      × (request.body ≡ Option.get_or r.payload [])
