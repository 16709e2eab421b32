-- ===== src/Tests/Offices.antt =====
-- The controller's further handlers at concrete inputs: pkg/api/prepare.go, policy.go, controller.go and
-- diagnose.go.
use peer_wan.Accounts.{Claims, Crypto, handle_register, handle_login}
use peer_wan.Accounts.SignIn.{IsPass, IsRefused, handle_login-handle_register}
use peer_wan.Prelude.{
  ℕ, zero, suc, String, ltb, text_of, ap, ◌≡◌, refl, ◌⧺◌, ◌*◌, ◌+◌, ◌==◌, true, none, some, is_some,
  List, [], ◌∷◌, All, find_first, ◌≡◌, refl, arith,
}
use peer_wan.Store.{PolicyUpdate, new_memory_store, list_nodes, get_plan}
use peer_wan.Controller.{Controller, recompute_all_plans}
use peer_wan.Controller.Policies.{post_policy}
use peer_wan.Controller.PolicyUpdates.{settled_all, IsOutcome, accepts, post_policy-IsOutcome}
use peer_wan.Controller.Reports.{serve_plan, or_no_node}
use peer_wan.Controller.Served.{IsBehind, serve_plan-IsBehind}
use peer_wan.Controller.Waiting.{IsOver, wait_for_version, wait_for_version-IsOver}
use peer_wan.Prepare.{KeyPair, octets, assign_overlay, third_octet, ip_without_mask, number_dot}
use peer_wan.Prepare.Overlays.{IsFreshOverlay, assign_overlay-IsFreshOverlay}
use peer_wan.Prepare.Sequence.{Ask}
use peer_wan.Status.{diagnose_node}
use peer_wan.Status.Safety.{recompute_all_plans-Answers}
use peer_wan.Tests.Agents.{world}
use peer_wan.Tests.Stores.{host, no_settings, small_store, controller}

abbrev keys : KeyPair
keys = record { private_half = "s"; public_half = "p" }

abbrev asks : List Ask
asks =
    record { now = 1; keys = some keys; auth = true; id = "x" }
    ∷ record { now = 2; keys = some keys; auth = true; id = "y" }
    ∷ record { now = 3; keys = none; auth = true; id = "z" }
    ∷ []

abbrev nothing_yet : Controller
nothing_yet = record { store = new_memory_store no_settings; plan_version = 0; sent = [] }

assign_overlay-IsFreshOverlay_example :
    IsFreshOverlay (list_nodes small_store) (assign_overlay small_store)
unfolding octets list_nodes third_octet ip_without_mask number_dot
assign_overlay-IsFreshOverlay_example = assign_overlay-IsFreshOverlay small_store (omega arith)

abbrev update : PolicyUpdate
update = record {
  egress_peer = "b";
  rules =
      record { prefix = " 198.51.100.0/24 "; via_node = ""; path = "c" ∷ "b" ∷ []; domains = [] }
      ∷ record { prefix = ""; via_node = "b"; path = []; domains = [] }
      ∷ [];
  default_route = true;
  bypass = [];
  next_hop = "";
}

post_policy-IsOutcome_example :
    IsOutcome
      (accepts true "a" update controller)
      "u"
      "a"
      (settled_all update)
      controller
      (post_policy 9 "u" true "a" update controller)
post_policy-IsOutcome_example = post_policy-IsOutcome 9 "u" "a" update controller true

serve_plan-IsBehind_example : IsBehind 4 (serve_plan host 9 "now" "a" controller).0 (
    get_plan
      (or_no_node (find_first (λ n. n.id == "a") (list_nodes controller.store))).id
      (serve_plan host 9 "now" "a" controller).1.store)
serve_plan-IsBehind_example = serve_plan-IsBehind host 9 "now" "a" controller refl

recompute_all_plans-Answers_example :
    All
      (λ n.
        is_some (
          diagnose_node world host
            (λ s. "20")
            99
            n.id
            (recompute_all_plans host 9 controller).store)
        ≡ true)
      (list_nodes controller.store)
unfolding list_nodes
recompute_all_plans-Answers_example =
    recompute_all_plans-Answers world host (λ s. "20") 9 99 controller (refl, (refl, (refl, tt)))

wait_for_version-IsOver_example :
    IsOver
      (λ i. i * 500000000 + 7)
      (λ i. i)
      3
      20000000007
      (wait_for_version (λ i. i * 500000000 + 7) (λ i. i) 3 7)
wait_for_version-IsOver_example =
    wait_for_version-IsOver (λ i. i * 500000000 + 7) (λ i. i) 3 7 (λ i. omega arith) (omega arith)

-- A text with as many characters.
abbrev unary : ℕ → String
unary zero = ""
unary (suc n) = text_of "|" (unary n)

abbrev text_length : String → ℕ
text_length String.[] = 0
text_length (String.◌∷◌ c s) = suc (text_length s)

abbrev crypto : Crypto
crypto = record {
  hash = λ p. some ("#" ⧺ p);
  matches = λ h. λ p. h == ("#" ⧺ p);
  jwt_secret = "";
  sign = λ key. λ claims. unary claims.expires_at;
  verify = λ t. λ key. λ token. ltb t (text_length token);
}

text_length-unary : (n : ℕ) → text_length (unary n) ≡ n
text_length-unary zero = refl
text_length-unary (suc n) = ap suc (text_length-unary n)

crypto-expires :
    (t : ℕ) (key : String) (c : Claims)
    → crypto.verify t key (crypto.sign key c) ≡ ltb t c.expires_at
crypto-expires t key c = rw (text_length-unary c.expires_at) refl

handle_login-handle_register_example :
    IsPass crypto 5 77 (handle_register crypto 5 "admin" "secret" []).0
    × IsPass crypto 9 77
        (handle_login crypto 9 "admin" "secret" (handle_register crypto 5 "admin" "secret" []).1)
    × IsRefused
        (handle_login crypto 9 "admin" "guess" (handle_register crypto 5 "admin" "secret" []).1)
handle_login-handle_register_example =
    handle_login-handle_register crypto 5 9 77 "admin" "secret" "#secret" "guess" refl refl refl
      refl refl crypto-expires
