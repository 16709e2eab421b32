-- ===== src/Web/Policy/Loads.antt =====
-- What the handlers of components/PolicyDrawer.jsx send and leave behind, whatever the network does.
use peer_wan.Prelude.{
  String, false, Option, none, some, List, [], ◌∷◌, ◌++◌, ◌⧺◌, ◌≡◌, ◌⊎◌, inl, inr, refl, ap, ◌∙◌,
  arith, All,
}
use peer_wan.Web.Js.{
  UiRule, Json, Toast, JsError, shown, Outcome, returned, thrown, Page, Act, Request,
}
use peer_wan.Web.Api.{Net, Reply, object, api, post_json, no_options, request_of}
use peer_wan.Web.Js.Laws.{bind-returned}
use peer_wan.Web.Api.Requests.{after_request, call_of, verdict, api_lem}
use peer_wan.Web.Policy.{PolicyReply, PolicyForm, Drawer}
use peer_wan.Web.Policy.Handlers.{
  Codec, or_list, or_text, or_undefined, or_false, form_of, payload, load, load_logs, load_tasks,
  order_diag, fetch_diag, load_diag, run_verify, submit,
}
use peer_wan.Web.Policy.Editing.{IsClean, entries, comma_list-entries, comma_list-join}

-- The policy that a reply describes, as the fields that the drawer sends.
abbrev pub same_policy : String → PolicyReply → List (String × Json)
same_policy id r =
    ("nodeId", Json.text id)
    ∷ ("egressPeerId", Json.text (or_text r.egress_peer_id))
    ∷ ("defaultRoute", Json.flag (or_false r.default_route))
    ∷ ("bypassCidrs", Json.texts (or_list r.bypass_cidrs))
    ∷ ("defaultRouteNextHop", Json.text (or_text r.default_route_next_hop))
    ∷ ("policyRules", Json.rules (or_list r.policy_rules))
    ∷ []

or_text-or_undefined : (o : Option String) → or_text (or_undefined o) ≡ or_text o
or_text-or_undefined none = refl
or_text-or_undefined (some String.[]) = refl
or_text-or_undefined (some (String.◌∷◌ c s)) = refl

payload-form_of :
    (id : String) (r : PolicyReply)
    → All IsClean (or_list r.bypass_cidrs)
    → payload id (form_of r) (or_list r.policy_rules) ≡ same_policy id r
unfolding payload form_of
payload-form_of id r clean =
    rw (
      comma_list-join (or_list r.bypass_cidrs) clean,
      or_text-or_undefined r.default_route_next_hop,
    )

abbrev text_given : Option String → String
text_given none = ""
text_given (some s) = s

-- The policy that the drawer shows, with its form and its list of rules.
abbrev pub shown_policy : String → PolicyForm → List UiRule → List (String × Json)
shown_policy id f rules =
    ("nodeId", Json.text id)
    ∷ ("egressPeerId", Json.text (text_given f.egress_peer_id))
    ∷ ("defaultRoute", Json.flag f.default_route)
    ∷ ("bypassCidrs", Json.texts (entries f.bypass_cidrs))
    ∷ ("defaultRouteNextHop", Json.text (text_given f.default_route_next_hop))
    ∷ ("policyRules", Json.rules rules)
    ∷ []

or_text-text_given : (o : Option String) → or_text o ≡ text_given o
or_text-text_given none = refl
or_text-text_given (some s) = refl

payload-shown_policy :
    (id : String) (f : PolicyForm) (rules : List UiRule)
    → payload id f rules ≡ shown_policy id f rules
unfolding payload
payload-shown_policy id f rules = rw (comma_list-entries f.bypass_cidrs) (
    rw (or_text-text_given f.egress_peer_id)
      (rw (or_text-text_given f.default_route_next_hop) refl))

module _ (net : Net) (encode : String → String) (codec : Codec) where
  -- When the policy of a node has been loaded and its bypass list is clean, submitting the untouched
  -- drawer sends exactly the policy that was loaded.
  pub payload-load :
      (id : String) (p q : Page Drawer) (r : PolicyReply)
      → api net codec.policy ("/api/v1/policy?nodeId=" ⧺ encode id) no_options p
        ≡ (returned (object r), q)
      → All IsClean (or_list r.bypass_cidrs)
      → let after = (load net encode codec id p).1.own in
        payload id after.form after.rules ≡ same_policy id r
  unfolding load
  payload-load id p q r answer clean = rw answer (payload-form_of id r clean)

  -- A refused or failed load says so and keeps the form and the rules.
  pub load_failed :
      (id : String) (p q : Page Drawer) (e : JsError)
      → api net codec.policy ("/api/v1/policy?nodeId=" ⧺ encode id) no_options p ≡ (thrown e, q)
      → load net encode codec id p ≡ (
        returned tt,
        record q { web = record q.web { toasts = q.web.toasts ++ Toast.failure "加载策略失败" ∷ [] } },
      )
  unfolding load
  load_failed id p q e answer = rw answer refl

  abbrev pub policy_request : String → Page Drawer → Request
  policy_request id p = call_of p.web "/api/v1/policy" (record {
    base = none;
    method = "POST";
    headers = ("Content-Type", "application/json") ∷ [];
    body = shown_policy id p.own.form p.own.rules;
  })

  abbrev pub with_toast : Toast → Page Drawer → Page Drawer
  with_toast t p = record p { web = record p.web { toasts = p.web.toasts ++ t ∷ [] } }

  -- Submitting sends one request, whose body is the policy that the form and the rules show: the node, the
  -- egress, the default route, the entries of the bypass list, the next hop and every rule. If it succeeds
  -- this is said and the nodes are reloaded; otherwise the error is said, the nodes are not reloaded
  -- and the drawer keeps its contents.
  pub submit_lem :
      (id : String) (reload : Act Drawer (Unit {0})) (p : Page Drawer)
      → let sent = after_request (policy_request id p) p in
        let answer =
          verdict codec.any "/api/v1/policy" (net (p.web.sent ++ policy_request id p ∷ [])) in
        ((reply : Reply (Unit {0})) × (answer ≡ returned reply)
          × (submit net encode codec id reload p
              ≡ (returned tt, (reload (with_toast (Toast.success "策略已提交") sent)).1)))
        ⊎ ((e : JsError) × (answer ≡ thrown e)
            × (submit net encode codec id reload p
                ≡ (returned tt, with_toast (Toast.failure ("提交失败: " ⧺ shown e)) sent)))
  unfolding submit
  submit_lem id reload p = go _ refl (
      rw (payload-shown_policy id p.own.form p.own.rules) (
        api_lem net codec.any "/api/v1/policy" (post_json (shown_policy id p.own.form p.own.rules))
          p))
    where
      sent : Page Drawer
      sent = after_request (policy_request id p) p

      answer : Outcome (Reply (Unit {0}))
      answer = verdict codec.any "/api/v1/policy" (net (p.web.sent ++ policy_request id p ∷ []))

      go :
          (o : Outcome (Reply (Unit {0})))
          → answer ≡ o
          → api net codec.any "/api/v1/policy" (post_json (payload id p.own.form p.own.rules)) p
            ≡ (answer, sent)
          → ((reply : Reply (Unit {0})) × (answer ≡ returned reply)
              × (submit net encode codec id reload p
                  ≡ (returned tt, (reload (with_toast (Toast.success "策略已提交") sent)).1)))
            ⊎ ((e : JsError) × (answer ≡ thrown e)
                × (submit net encode codec id reload p
                    ≡ (returned tt, with_toast (Toast.failure ("提交失败: " ⧺ shown e)) sent)))
      go (returned reply) e a = inl (reply, e, rw a (rw e refl))
      go (thrown err) e a = inr (err, e, rw a (rw e refl))

  -- Whatever the network does, loading the logs, diagnosing and verifying return, and each ends with
  -- its own loading mark cleared.
  pub loading_cleared :
      (id : String) (p : Page Drawer)
      → ((load_logs net encode codec (some id) p).0 ≡ returned tt)
        × ((load_logs net encode codec (some id) p).1.own.logs_loading ≡ false)
        × ((load_diag net encode codec (some id) p).0 ≡ returned tt)
        × ((load_diag net encode codec (some id) p).1.own.diag_loading ≡ false)
        × ((run_verify net encode codec (some id) p).0 ≡ returned tt)
        × ((run_verify net encode codec (some id) p).1.own.verify_loading ≡ false)
  unfolding load_logs load_diag run_verify
  loading_cleared id p =
      (ground arith, ground arith, ground arith, ground arith, ground arith, ground arith)

  abbrev pub diag_command : String → Page Drawer → Request
  diag_command id p =
      request_of p.web "/api/v1/policy/command"
        (post_json (("nodeId", Json.text id) ∷ ("action", Json.text "diag") ∷ []))

  abbrev pub diag_query : String → Page Drawer → Request
  diag_query id p =
      request_of p.web ("/api/v1/policy/diag?nodeId=" ⧺ encode id ⧺ "&limit=1") no_options

  load_diag_rest :
      (id : String) (p : Page Drawer)
      → (order_diag net encode codec id p).0 ≡ returned tt
      → (load_diag net encode codec (some id) p).1.web.sent
        ≡ (fetch_diag net encode codec id (order_diag net encode codec id p).1).1.web.sent
  unfolding load_diag
  load_diag_rest id p h =
      ap (λ x. x.1.web.sent)
        (bind-returned (order_diag net encode codec id) (λ _. fetch_diag net encode codec id) p tt
          h)

  order_diag_lem :
      (id : String) (p : Page Drawer)
      → ((order_diag net encode codec id p).0 ≡ returned tt)
        × ((order_diag net encode codec id p).1.web.sent ≡ p.web.sent ++ diag_command id p ∷ [])
        × ((order_diag net encode codec id p).1.web.local ≡ p.web.local)
        × ((order_diag net encode codec id p).1.web.origin ≡ p.web.origin)
  unfolding order_diag
  order_diag_lem id p = (ground arith, ground arith, ground arith, ground arith)

  fetch_diag_lem :
      (id : String) (p : Page Drawer)
      → ((fetch_diag net encode codec id p).0 ≡ returned tt)
        × ((fetch_diag net encode codec id p).1.web.sent ≡ p.web.sent ++ diag_query id p ∷ [])
        × ((fetch_diag net encode codec id p).1.own.diag_loading ≡ false)
  unfolding fetch_diag
  fetch_diag_lem id p = (ground arith, ground arith, ground arith)

  diag_query_same :
      (id : String) (p q : Page Drawer)
      → q.web.local ≡ p.web.local
      → q.web.origin ≡ p.web.origin
      → diag_query id q ≡ diag_query id p
  unfolding request_of
  diag_query_same id p q l o = cc

  -- Diagnosing sends the command to the agent and then asks for the latest report, also where the
  -- command fails.
  pub load_diag-sent :
      (id : String) (p : Page Drawer)
      → (load_diag net encode codec (some id) p).1.web.sent
        ≡ (p.web.sent ++ diag_command id p ∷ []) ++ diag_query id p ∷ []
  load_diag-sent id p =
      let (back, sent, local, origin) = order_diag_lem id p in
      let q = (order_diag net encode codec id p).1 in
      load_diag_rest id p back
      ∙ (fetch_diag_lem id q).1
      ∙ rw (sent, diag_query_same id p q local origin)

  -- Loading the logs or the tasks never shows a message, and a failure keeps what is shown.
  pub polling_silent :
      (id : String) (p : Page Drawer)
      → ((load_logs net encode codec (some id) p).1.web.toasts ≡ p.web.toasts)
        × ((load_tasks net encode codec (some id) p).1.web.toasts ≡ p.web.toasts)
        × ((e : JsError) (q : Page Drawer)
            → api net codec.tasks ("/api/v1/tasks?nodeId=" ⧺ encode id) no_options p ≡ (thrown e, q)
            → (load_tasks net encode codec (some id) p).1.own ≡ q.own)
  unfolding load_logs load_tasks
  polling_silent id p = (ground arith, ground arith, λ e q h. rw h refl)
