-- ===== src/Web/Settings/Saving.antt =====
-- Saving a form of components/GeoIPCard.jsx or DiagCard.jsx.
use peer_wan.Prelude.{String, false, Option, none, some, List, ◌≡◌, refl, arith}
use peer_wan.Web.Js.{Json, new_error, returned, thrown, Page, Act, when_valid}
use peer_wan.Web.Api.{Net, Answer}
use peer_wan.Web.Settings.{GeoipCard, geoip_values, save_geoip_values, save_geoip}

module _ (net : Net) (any : String → Answer (Unit {0})) where
  save_geoip_values-done :
      (on_changed : Act GeoipCard (Unit {0})) (values : List (String × Json)) (p : Page GeoipCard)
      → ((save_geoip_values net any on_changed values p).0 ≡ returned tt)
        × ((save_geoip_values net any on_changed values p).1.own.loading ≡ false)
  unfolding save_geoip_values
  save_geoip_values-done on_changed values p = (ground arith, ground arith)

  -- A form of the GeoIP card with a missing field is not sent: the handler throws and the page stays
  -- as it is. With a complete form the handler returns and the card is not loading afterwards,
  -- whatever the network and `onChanged` do.
  pub save_geoip_lem :
      (on_changed : Act GeoipCard (Unit {0})) (p : Page GeoipCard)
      → (geoip_values p.own.form ≡ none
          → save_geoip net any on_changed p ≡ (thrown (new_error "validation"), p))
        × ((values : List (String × Json))
            → geoip_values p.own.form ≡ some values
            → ((save_geoip net any on_changed p).0 ≡ returned tt)
              × ((save_geoip net any on_changed p).1.own.loading ≡ false))
  save_geoip_lem on_changed p = (
    λ h. opened none h,
    λ values h. rw (opened (some values) h) (save_geoip_values-done on_changed values p),
  )
    where
      opened :
          (o : Option (List (String × Json)))
          → geoip_values p.own.form ≡ o
          → save_geoip net any on_changed p ≡ when_valid o (save_geoip_values net any on_changed) p
      opened o h = unfold save_geoip in rw h refl
