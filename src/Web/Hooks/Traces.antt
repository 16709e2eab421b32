-- ===== src/Web/Hooks/Traces.antt =====
-- What `useAsync` (frontend/src/api.js) shows after any interleaving of calls.
use peer_wan.Prelude.{Bool, true, false, Option, none, some, List, [], ◌∷◌, ◌≡◌, refl}
use peer_wan.Web.Js.{JsError}
use peer_wan.Web.Hooks.{Async, Event, begun, resolved, rejected, step, run}

module _ {ℓ} {A : Type ℓ} where
  -- The newest result, the error of the newest call to fail since the newest beginning, and whether
  -- the newest event is a beginning.
  abbrev pub newest_data : Option A → List (Event A) → Option A
  newest_data d [] = d
  newest_data d (resolved a ∷ es) = newest_data (some a) es
  newest_data d (begun ∷ es) = newest_data d es
  newest_data d (rejected e ∷ es) = newest_data d es

  abbrev pub newest_error : Option JsError → List (Event A) → Option JsError
  newest_error x [] = x
  newest_error x (begun ∷ es) = newest_error none es
  newest_error x (rejected e ∷ es) = newest_error (some e) es
  newest_error x (resolved a ∷ es) = newest_error x es

  abbrev pub ends_begun : Bool → List (Event A) → Bool
  ends_begun b [] = b
  ends_begun b (begun ∷ es) = ends_begun true es
  ends_begun b (resolved a ∷ es) = ends_begun false es
  ends_begun b (rejected e ∷ es) = ends_begun false es

  -- After any events the hook shows the newest result, which no failure and no new call takes away,
  -- the newest error since a call last began, and it counts as loading only if the newest event is a
  -- beginning, even where an earlier call is still under way.
  pub run_lem :
      (es : List (Event A)) (s : Async A)
      → run es s ≡ record {
        loading = ends_begun s.loading es;
        error = newest_error s.error es;
        content = newest_data s.content es;
      }
  unfolding run
  run_lem [] s = refl
  run_lem (begun ∷ es) s = run_lem es (step begun s)
  run_lem (resolved a ∷ es) s = run_lem es (step (resolved a) s)
  run_lem (rejected e ∷ es) s = run_lem es (step (rejected e) s)
