-- ===== src/Gateway/Deployed.antt =====
-- What the deployed gateways of a stack route to.
use mu.Base.{
  ◌≡◌, subst, inl, inr, true, none, some, List, [], ◌∷◌, String, All, for_each, arith, text_key,
  nat_key, Option-cases,
}
use mu.Base.HashMap
use mu.Base.HashMap.{HashMap}
use mu.Base.HashSet
use mu.Base.Values.{OnValues, insert-OnValues, get-OnValues, In-OnValues}
use mu.MuStack.{StackId, HttpMethod, AssemblyAndFunction, Gateway, Stack, gateways}
use mu.MuStack.Validation.{method_key, function_names, validate, ok}
use mu.MuStack.Validation.Exact.{validate_iff}
use mu.Gateway.{
  Gateways, Endpoints, strip_slash, strip_endpoints, collect_endpoint, deploy_gateway,
  deploy_gateways,
}
use mu.Gateway.Paths.{PathParams}
use mu.Gateway.Requests.{
  HttpRequest, FunctionId, Request, Handled, Services, find_route, handle_request, is_guarded,
}
use mu.Gateway.Requests.Routes.{find_route_lem}
use mu.Gateway.Requests.Answers.{handle_request_lem}

module _ (names : List String) where
  abbrev Known : AssemblyAndFunction → Type 0
  Known target = HashSet.contains names target.assembly ≡ true

  abbrev AllKnown : Endpoints → Type 0
  AllKnown endpoints = OnValues (λ eps. OnValues Known eps) endpoints

  collect-AllKnown :
      (endpoints collected : Endpoints)
      → AllKnown endpoints
      → AllKnown collected
      → AllKnown (for_each collect_endpoint endpoints collected)
  unfolding for_each
  collect-AllKnown [] collected h hs = hs
  collect-AllKnown ((k, v) ∷ rest) collected (h, more) hs =
      collect-AllKnown rest (HashMap.insert collected (strip_slash k) v) more
        (insert-OnValues (λ eps. OnValues Known eps) collected (strip_slash k) v h hs)

  deploy-AllKnown :
      (incoming : List Gateway) (entry : HashMap String Gateway)
      → All (λ (gw : Gateway). AllKnown gw.endpoints) incoming
      → OnValues (λ gw. AllKnown gw.endpoints) entry
      → OnValues (λ gw. AllKnown gw.endpoints) (for_each deploy_gateway incoming entry)
  unfolding for_each strip_endpoints
  deploy-AllKnown [] entry h hs = hs
  deploy-AllKnown (gw ∷ rest) entry (h, more) hs =
      deploy-AllKnown rest (deploy_gateway gw entry) more (
        insert-OnValues (λ gw. AllKnown gw.endpoints) entry gw.name (strip_endpoints gw)
          (collect-AllKnown gw.endpoints [] h tt) hs)

  find_route-Known :
      (gateway : Gateway) (path : String) (method : HttpMethod) (target : AssemblyAndFunction)
      (params : PathParams)
      → AllKnown gateway.endpoints
      → find_route gateway path method ≡ some (target, params)
      → Known target
  find_route-Known gateway path method target params h route =
      elim (find_route_lem gateway path method) [
        | inr (nowhere, found) ↦ absurd cc
        | inl (entry, bound, (there, fits, most), has, found) ↦
            let eps = In-OnValues (λ eps. OnValues Known eps) gateway.endpoints entry h there in
            elim (Option-cases (HashMap.get entry.1 method)) [
              | inl missing ↦ absurd (ground (arith, found, route, missing))
              | inr (other, present) ↦
                  get-OnValues Known entry.1 method target eps
                    (ground (arith, found, route, present))
            ]
      ]

-- Once the gateways of a stack that passes validation are deployed, and the stack had none before, a
-- request for the stack calls no function but one that the stack names.
pub deployed_calls :
    (env : Services) (before : Gateways) (id : StackId) (stack : Stack)
    → validate stack ≡ ok stack
    → HashMap.get before id ≡ none
    → (r : HttpRequest) → is_guarded r.method ≡ true
    → (h : Handled) → handle_request env (deploy_gateways before id (gateways stack)) r ≡ some h
    → (fid : FunctionId) (request : Request) → h.called ≡ some (fid, request)
    → fid.stack_id ≡ id
    → HashSet.contains (function_names stack) fid.assembly_name ≡ true
unfolding deploy_gateways
deployed_calls env before id stack valid fresh r guarded h handled fid request called same =
    let after = deploy_gateways before id (gateways stack) in
    let (h', handled', answered) = handle_request_lem env after r guarded in
    elim answered [
      | inl (silent, quiet, why) ↦ absurd (ground (arith, handled, handled', silent, called))
      | inr
            (
              fid',
              request',
              called',
              response,
              reports,
              (parsed, (gateway, deployed, (method, named, route))),
              passed_on,
            ) ↦
          let entry : HashMap String Gateway = for_each deploy_gateway (gateways stack) [] in
          let same_function : fid' ≡ fid = ground (arith, handled, handled', called, called') in
          let there : HashMap.get after id ≡ some entry =
            rw fresh (HashMap.get-insert_self before id entry) in
          let found : HashMap.get entry r.gateway_name ≡ some gateway =
            ground (arith, deployed, same_function, same, there) in
          let known =
            deploy-AllKnown (function_names stack) (gateways stack) []
              ((validate_iff stack).0 valid).1.1.1.1.0 tt in
          let routed =
            find_route-Known (function_names stack) gateway r.request_path method _ _
              (get-OnValues (λ (gw : Gateway). AllKnown (function_names stack) gw.endpoints) entry
                r.gateway_name gateway known found)
              route in
          subst (λ (f : FunctionId). HashSet.contains (function_names stack) f.assembly_name ≡ true)
            same_function routed
    ]
