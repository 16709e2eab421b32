-- ===== src/Web/Nodes/Forms.antt =====
-- Submitting the forms of components/NodeFormModal.jsx and EndpointDrawer.jsx.
use peer_wan.Prelude.{String, Bool, false, [], ◌∷◌, ◌++◌, ◌⧺◌, ◌≡◌, ◌⊎◌, inl, inr, refl, arith}
use peer_wan.Web.Js.{Toast, JsError, shown, Request, Outcome, returned, thrown, Page}
use peer_wan.Web.Api.{Net, Answer, Reply, post_json, request_of}
use peer_wan.Web.Api.Requests.{outcome_of}
use peer_wan.Web.Nodes.{EndpointPage, endpoint_payload, save_endpoints}

module _ (net : Net) (any : String → Answer (Unit {0})) (id : String) (p : Page EndpointPage) where
  abbrev pub endpoint_request : Request
  endpoint_request =
      request_of p.web "/api/v1/nodes/register"
        (post_json (endpoint_payload id p.own.peer_endpoints))

  abbrev pub endpoint_answer : Outcome (Reply (Unit {0}))
  endpoint_answer =
      outcome_of any "/api/v1/nodes/register" (net (p.web.sent ++ endpoint_request ∷ [])) p

  abbrev pub finished : Toast → Bool → Page EndpointPage
  finished t drawer_open = record {
    web = record p.web {
      sent = p.web.sent ++ endpoint_request ∷ [];
      toasts = p.web.toasts ++ t ∷ [];
    };
    own = record p.own { loading = false; drawer_open = drawer_open };
  }

  save_endpoints-answer : save_endpoints net any id p ≡ (
    returned tt,
    elim endpoint_answer [
      | returned _ ↦ finished (Toast.success "Endpoint 已更新") false
      | thrown e ↦ finished (Toast.failure ("保存失败: " ⧺ shown e)) p.own.drawer_open
    ],
  )
  unfolding save_endpoints
  save_endpoints-answer = ground arith

  -- Saving the endpoints of a node sends one registration with the node's ID, the chosen endpoints
  -- and `force`, and nothing else of the node. The drawer closes exactly when that succeeds; otherwise
  -- it stays as it is and the error is said. Either way the form is not loading afterwards.
  pub save_endpoints_lem :
      ((reply : Reply (Unit {0})) × (endpoint_answer ≡ returned reply)
        × (save_endpoints net any id p
            ≡ (returned tt, finished (Toast.success "Endpoint 已更新") false)))
      ⊎ ((e : JsError) × (endpoint_answer ≡ thrown e)
          × (save_endpoints net any id p
              ≡ (returned tt, finished (Toast.failure ("保存失败: " ⧺ shown e)) p.own.drawer_open)))
  save_endpoints_lem = go endpoint_answer save_endpoints-answer
    where
      go :
          (o : Outcome (Reply (Unit {0})))
          → save_endpoints net any id p ≡ (
            returned tt,
            elim o [
              | returned _ ↦ finished (Toast.success "Endpoint 已更新") false
              | thrown e ↦ finished (Toast.failure ("保存失败: " ⧺ shown e)) p.own.drawer_open
            ],
          )
          → ((reply : Reply (Unit {0})) × (o ≡ returned reply)
              × (save_endpoints net any id p
                  ≡ (returned tt, finished (Toast.success "Endpoint 已更新") false)))
            ⊎ ((e : JsError) × (o ≡ thrown e)
                × (save_endpoints net any id p ≡ (
                  returned tt,
                  finished (Toast.failure ("保存失败: " ⧺ shown e)) p.own.drawer_open,
                )))
      go (returned reply) h = inl (reply, refl, h)
      go (thrown e) h = inr (e, refl, h)
