-- ===== src/Web/Settings.antt =====
-- frontend/src/components/GeoIPCard.jsx and DiagCard.jsx: the two settings forms.
pub mod Saving
use peer_wan.Prelude.{String, Bool, true, false, Option, none, some, List, [], ◌∷◌, ◌⧺◌}
use peer_wan.Web.Js.{
  Json, Toast, JsError, new_error, shown, Act, pure, throw, try_catch, detached, when_valid,
  set_own, toast, ◌>>=◌, ◌>>◌,
}
use peer_wan.Web.Api.{Net, Answer, Reply, object, plain, api, post_json, no_options}

-- The fields of the two forms; a field that was never set is `none`.
pub record GeoipForm : Type 0 where
  pub source_v4 : Option String
  pub source_v6 : Option String
  pub cache_dir : Option String
  pub cache_ttl : Option String

pub record GeoipCard : Type 0 where
  pub form : GeoipForm
  pub loading : Bool

pub record DiagCard : Type 0 where
  pub ping_interval : Option String

-- `form.setFieldsValue`: a field that the object lacks is left alone, and a text has no fields.
abbrev pub overwrite : Option String → Option String → Option String
overwrite old none = old
overwrite old (some v) = some v

abbrev pub set_geoip : Reply GeoipForm → GeoipForm → GeoipForm
set_geoip (plain _) f = f
set_geoip (object r) f = record {
  source_v4 = overwrite f.source_v4 r.source_v4;
  source_v6 = overwrite f.source_v6 r.source_v6;
  cache_dir = overwrite f.cache_dir r.cache_dir;
  cache_ttl = overwrite f.cache_ttl r.cache_ttl;
}

abbrev pub set_diag : Reply (Option String) → DiagCard → DiagCard
set_diag (plain _) d = d
set_diag (object r) d = record { ping_interval = overwrite d.ping_interval r }

-- A required field is there and not empty.
abbrev pub required : Option String → Option String
required none = none
required (some String.[]) = none
required (some (String.◌∷◌ c s)) = some (String.◌∷◌ c s)

abbrev geoip_fields :
    Option String → Option String → Option String → Option String → Option (List (String × Json))
geoip_fields (some a) (some b) (some c) (some d) = some (
    ("sourceV4", Json.text a)
    ∷ ("sourceV6", Json.text b)
    ∷ ("cacheDir", Json.text c)
    ∷ ("cacheTtl", Json.text d)
    ∷ [])
geoip_fields _ _ _ _ = none

-- `form.validateFields()`, as the object that is sent; `none` where it rejects
unfoldable pub geoip_values : GeoipForm → Option (List (String × Json))
geoip_values f =
    geoip_fields (required f.source_v4) (required f.source_v6) (required f.cache_dir)
      (required f.cache_ttl)

unfoldable pub diag_values : DiagCard → Option (List (String × Json))
diag_values d = elim (required d.ping_interval) [
  | none ↦ none
  | some s ↦ some (("pingInterval", Json.text s) ∷ [])
]

module _ (net : Net) (any : String → Answer (Unit {0})) where
  unfoldable pub load_geoip : (String → Answer GeoipForm) → Act GeoipCard (Unit {0})
  unfolding api
  load_geoip parse =
      try_catch
        (do
          cfg ← api net parse "/api/v1/settings/geoip" no_options
          set_own (λ s. record s { form = set_geoip cfg s.form }))
        (λ e. toast (Toast.warning "加载 GeoIP 设置失败"))

  -- `save` of GeoIPCard, past the validation
  unfoldable pub save_geoip_values :
      Act GeoipCard (Unit {0}) → List (String × Json) → Act GeoipCard (Unit {0})
  unfolding api
  save_geoip_values on_changed values = do
    set_own (λ s. record s { loading = true })
    try_catch
        (do
          api net any "/api/v1/settings/geoip" (post_json values)
          toast (Toast.success "已保存 GeoIP 设置")
          detached on_changed)
        (λ e. toast (Toast.failure ("保存失败: " ⧺ shown e)))
    set_own (λ s. record s { loading = false })

  unfoldable pub save_geoip : Act GeoipCard (Unit {0}) → Act GeoipCard (Unit {0})
  unfolding save_geoip_values
  save_geoip on_changed p = when_valid (geoip_values p.own.form) (save_geoip_values on_changed) p

  unfoldable pub load_diag_settings : (String → Answer (Option String)) → Act DiagCard (Unit {0})
  unfolding api
  load_diag_settings parse =
      try_catch (do res ← api net parse "/api/v1/settings/diag" no_options; set_own (set_diag res))
        (λ e. toast (Toast.warning "加载诊断配置失败"))

  -- `save` of DiagCard, past the validation
  unfoldable pub save_diag_values :
      Act DiagCard (Unit {0}) → List (String × Json) → Act DiagCard (Unit {0})
  unfolding api
  save_diag_values on_changed values =
      try_catch
        (do
          api net any "/api/v1/settings/diag" (post_json values)
          toast (Toast.success "诊断配置已保存")
          detached on_changed)
        (λ e. toast (Toast.failure ("保存失败: " ⧺ shown e)))

  unfoldable pub save_diag : Act DiagCard (Unit {0}) → Act DiagCard (Unit {0})
  unfolding save_diag_values
  save_diag on_changed p = when_valid (diag_values p.own) (save_diag_values on_changed) p
