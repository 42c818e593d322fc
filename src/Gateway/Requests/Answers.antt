-- ===== src/Gateway/Requests/Answers.antt =====
-- What a request is answered with, and what is reported of it.
use native.Mathlib.Nat.{add-mod}
use mathlib.Core.Option
use mu.Base.{
  ◌≡◌, refl, ap, sym, ◌∙◌, ◌⊎◌, inl, inr, ℕ, ◌+◌, ◌%◌, ◌^◌, true, none, some, [], ◌∷◌, arith,
  Option-cases, ◌>>=◌, text_key, nat_key,
}
use mu.Base.HashMap
use mu.MuStack.{StackId, HttpMethod, Gateway}
use mu.Gateway.{Gateways, report_usage}
use mu.Gateway.Requests.{
  HttpRequest, Request, FunctionId, Response, Handled, Services, find_route, handle_request,
  run_function, parse_stack_id, calculate_request_size, calculate_response_size, is_guarded,
  stack_http_method_to_sdk, internal_error, not_found, bad_request, u64, reply,
}
use mu.Gateway.Requests.PassedOn.{
  name_of, method_known, actix_http_method_to_stack-name_of, sdk-name_of, request_bytes,
  response_bytes, request-bytes, response-bytes, AreUnreadable, IsPassedOn, headers_cases,
}

module _ (env : Services) where
  -- The bytes of the request and of what the function gave, as a `u64`.
  abbrev pub traffic_of : HttpRequest → FunctionId → Request → ℕ
  traffic_of r id request =
      (request_bytes r + response_bytes (env.handle_request id request)) % 2 ^ 64

  -- The call is of the function that the request's stack, gateway, path and method lead to.
  abbrev pub IsRouted : Gateways → HttpRequest → FunctionId → Request → Type 0
  IsRouted gateways r id request =
      (parse_stack_id env r.stack_id ≡ some id.stack_id)
      × ((gateway : Gateway) × (HashMap.get gateways id.stack_id
              >>= (λ s. HashMap.get s r.gateway_name)
            ≡ some gateway)
          × ((method : HttpMethod) × (name_of method ≡ r.method)
              × (find_route gateway r.request_path method
                  ≡ some (
                    record { assembly = id.assembly_name; function = id.function_name },
                    request.path_params,
                  ))))

  -- Why a request cannot be served, and how it is then answered.
  pub data Unserved (gateways : Gateways) (r : HttpRequest) : Response → Type 0 where
    no_stack_id : parse_stack_id env r.stack_id ≡ none → Unserved gateways r not_found
    unreadable_header :
        AreUnreadable env r.headers
        → Unserved gateways r (bad_request "Invalid header values in request")
    unreadable_query :
        env.from_query r.query_string ≡ none
        → Unserved gateways r (bad_request "Invalid query string")
    no_gateway :
        (id : StackId)
        → parse_stack_id env r.stack_id ≡ some id
        → (HashMap.get gateways id >>= λ s. HashMap.get s r.gateway_name) ≡ none
        → Unserved gateways r not_found
    no_route :
        (id : StackId) (gateway : Gateway) (method : HttpMethod)
        → parse_stack_id env r.stack_id ≡ some id
        → (HashMap.get gateways id >>= λ s. HashMap.get s r.gateway_name) ≡ some gateway
        → name_of method ≡ r.method
        → find_route gateway r.request_path method ≡ none
        → Unserved gateways r not_found

  -- Nothing is called or reported, or one call is made and one request is reported.
  abbrev pub IsAnswered : Gateways → HttpRequest → Handled → Type 0
  IsAnswered gateways r h =
      ((h.called ≡ none) × (h.notifications ≡ []) × Unserved gateways r h.response)
      ⊎ ((id : FunctionId) × (request : Request) × (h.called ≡ some (id, request))
          × (h.response
              ≡ Option.get_or (env.handle_request id request)
                  (internal_error "User function failure"))
          × (h.notifications ≡ report_usage id.stack_id (traffic_of r id request) 1 ∷ [])
          × IsRouted gateways r id request
          × IsPassedOn env r request)

  abbrev Answer : Gateways → HttpRequest → Type 0
  Answer gateways r =
      (h : Handled) × (handle_request env gateways r ≡ some h) × IsAnswered gateways r h

  quiet :
      (gateways : Gateways) (r : HttpRequest) (response : Response)
      → Unserved gateways r response
      → handle_request env gateways r ≡ reply response
      → Answer gateways r
  quiet gateways r response why e = (_, e, inl (refl, refl, why))

  both_bytes :
      (r : HttpRequest) (response : Response)
      → u64 (calculate_request_size r + calculate_response_size response)
        ≡ (request_bytes r + response_bytes (some response)) % 2 ^ 64
  both_bytes r response =
      rw (request-bytes r, response-bytes response)
        (sym (add-mod (request_bytes r) (response_bytes (some response)) (2 ^ 64)))

  run_function_lem :
      (r : HttpRequest) (id : FunctionId) (request : Request)
      → ((run_function env (calculate_request_size r) id request).called ≡ some (id, request))
        × ((run_function env (calculate_request_size r) id request).response
            ≡ Option.get_or
                (env.handle_request id request)
                (internal_error "User function failure"))
        × ((run_function env (calculate_request_size r) id request).notifications
            ≡ report_usage id.stack_id (traffic_of r id request) 1 ∷ [])
  unfolding run_function
  run_function_lem r id request = elim (Option-cases (env.handle_request id request)) [
    | inl failed ↦
        rw (run_function, traffic_of, failed)
          (
            refl,
            refl,
            ap (λ traffic. report_usage id.stack_id traffic 1 ∷ [])
                (request-bytes r ∙ ap (λ n. n % 2 ^ 64) (omega arith)),
          )
    | inr (response, ran) ↦
        rw (run_function, traffic_of, ran)
          (
            refl,
            refl,
            ap (λ traffic. report_usage id.stack_id traffic 1 ∷ []) (both_bytes r response),
          )
  ]

  -- A request whose method the route lets through never makes the handler panic. Either it calls no
  -- function and reports nothing, and then the stack's id, a header, the query, the gateway or the route is
  -- at fault and the answer says so; or it calls the function that its stack, gateway, path and method lead
  -- to, with its method, headers, query and payload, answers with what that gives, and reports one request
  -- with the bytes of both directions, modulo 2 ^ 64.
  pub handle_request_lem :
      (gateways : Gateways) (r : HttpRequest)
      → is_guarded r.method ≡ true
      → (h : Handled) × (handle_request env gateways r ≡ some h) × IsAnswered gateways r h
  unfolding handle_request
  handle_request_lem gateways r guarded = elim (Option-cases (parse_stack_id env r.stack_id)) [
    | inl no_id ↦ quiet gateways r not_found (no_stack_id no_id) (rw (handle_request, no_id) refl)
    | inr (id, parsed) ↦
        let (method, known) = method_known r.method guarded in
        let named = actix_http_method_to_stack-name_of r.method method known in
        elim (headers_cases env r.headers) [
          | inl (bad, which) ↦
              quiet gateways r (bad_request "Invalid header values in request")
                (unreadable_header which) (rw (handle_request, parsed, known, bad) refl)
          | inr (headers, read, are) ↦ elim (Option-cases (env.from_query r.query_string)) [
            | inl bad ↦
                quiet gateways r (bad_request "Invalid query string") (unreadable_query bad)
                  (rw (handle_request, parsed, known, read, bad) refl)
            | inr (params, query) ↦
                elim (Option-cases
                  (HashMap.get gateways id >>= λ s. HashMap.get s r.gateway_name)) [
                    | inl missing ↦
                        quiet gateways r not_found (no_gateway id parsed missing)
                          (rw (handle_request, parsed, known, read, query, missing) refl)
                    | inr (gateway, deployed) ↦
                        elim (Option-cases (find_route gateway r.request_path method)) [
                          | inl lost ↦
                              quiet gateways r not_found
                                (no_route id gateway method parsed deployed named lost)
                                (rw (handle_request, parsed, known, read, query, deployed, lost)
                                  refl)
                          | inr ((target, path_params), route) ↦
                              let fid : FunctionId = record {
                                stack_id = id;
                                assembly_name = target.assembly;
                                function_name = target.function;
                              } in
                              let request : Request = record {
                                method = stack_http_method_to_sdk method;
                                path_params = path_params;
                                query_params = params;
                                headers = headers;
                                body = Option.get_or r.payload [];
                              } in
                              let (called, response, reports) = run_function_lem r fid request in
                              (
                                run_function env (calculate_request_size r) fid request,
                                rw (handle_request, parsed, known, read, query, deployed, route)
                                    refl,
                                inr (
                                  fid,
                                  request,
                                  called,
                                  response,
                                  reports,
                                  (parsed, (gateway, deployed, (method, named, route))),
                                  (sdk-name_of method ∙ named, are, query, refl),
                                ),
                              )
                        ]
                  ]
          ]
        ]
  ]
