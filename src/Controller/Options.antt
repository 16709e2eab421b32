-- ===== src/Controller/Options.antt =====
-- pkg/api/controller.go: the handlers of the settings and of the list of nodes.
use peer_wan.Prelude.{
  String, Bool, true, not, ◌&&◌, List, [], ◌∷◌, ◌≡◌, refl, arith, is_blank, if◌then◌else◌,
}
use peer_wan.Model.{Node, Settings, GeoipConfig, DiagConfig}
use peer_wan.Store.{MemoryStore, list_nodes, update_settings}
use peer_wan.Controller.{Host, load_settings_or_default, non_blank}
use peer_wan.Controller.Handlers.{Reply}

-- `/api/v1/settings/geoip`, GET
unfoldable pub get_geoip : Host → Bool → MemoryStore → Reply GeoipConfig
unfolding load_settings_or_default
get_geoip host auth s =
    if not auth
    then Reply.http_error 401 "unauthorized"
    else Reply.replied (load_settings_or_default host s).geoip

abbrev pub with_geoip : GeoipConfig → GeoipConfig → GeoipConfig
with_geoip cfg old = record {
  source_v4 = non_blank cfg.source_v4 old.source_v4;
  source_v6 = non_blank cfg.source_v6 old.source_v6;
  cache_dir = non_blank cfg.cache_dir old.cache_dir;
  cache_ttl = non_blank cfg.cache_ttl old.cache_ttl;
}

-- `/api/v1/settings/geoip`, POST
unfoldable pub post_geoip :
    Host → Bool → GeoipConfig → MemoryStore → Reply GeoipConfig × MemoryStore
unfolding load_settings_or_default update_settings
post_geoip host auth cfg s =
    let old : Settings = load_settings_or_default host s in
    let new : GeoipConfig = with_geoip cfg old.geoip in
    if not auth
    then (Reply.http_error 401 "unauthorized", s)
    else (Reply.replied new, update_settings (record old { geoip = new }) s)

-- `/api/v1/settings/diag`, GET
unfoldable pub get_diag_settings : Host → Bool → MemoryStore → Reply DiagConfig
unfolding load_settings_or_default
get_diag_settings host auth s =
    if not auth
    then Reply.http_error 401 "unauthorized"
    else Reply.replied (load_settings_or_default host s).diag

-- `/api/v1/settings/diag`, POST
unfoldable pub post_diag_settings :
    Host → Bool → DiagConfig → MemoryStore → Reply DiagConfig × MemoryStore
unfolding load_settings_or_default update_settings
post_diag_settings host auth cfg s =
    let old : Settings = load_settings_or_default host s in
    let new : DiagConfig = record {
      ping_interval = non_blank cfg.ping_interval old.diag.ping_interval;
    } in
    if not auth
    then (Reply.http_error 401 "unauthorized", s)
    else (Reply.replied new, update_settings (record old { diag = new }) s)

abbrev pub shown_version : Node → Node
shown_version n =
    if is_blank n.version && not (is_blank n.config_version)
    then record n { version = n.config_version }
    else n

abbrev pub shown_nodes : List Node → List Node
shown_nodes [] = []
shown_nodes (n ∷ nodes) = shown_version n ∷ shown_nodes nodes

-- `/api/v1/nodes`
unfoldable pub get_nodes : Bool → MemoryStore → Reply (List Node)
unfolding list_nodes
get_nodes auth s =
    if not auth
    then Reply.http_error 401 "unauthorized"
    else Reply.replied (shown_nodes (list_nodes s))

non_blank_twice :
    (a b d : String) → non_blank (non_blank a (non_blank b d)) d ≡ non_blank a (non_blank b d)
non_blank_twice a b d = ground arith

non_blank_again : (b d : String) → non_blank (non_blank b d) d ≡ non_blank b d
non_blank_again b d = ground arith

-- Settings that are posted are answered from then on, with what was answered before for fields that were
-- left blank; the settings of the diagnosis stay.
pub get_geoip-post_geoip :
    (host : Host) (cfg : GeoipConfig) (s : MemoryStore)
    → (get_geoip host true (post_geoip host true cfg s).1
        ≡ Reply.replied (with_geoip cfg (load_settings_or_default host s).geoip))
      × (get_diag_settings host true (post_geoip host true cfg s).1 ≡ get_diag_settings host true s)
unfolding get_geoip post_geoip get_diag_settings load_settings_or_default update_settings
get_geoip-post_geoip host cfg s = (
  rw (non_blank_twice cfg.source_v4 s.settings.geoip.source_v4 host.defaults.geoip.source_v4) (
      rw (non_blank_twice cfg.source_v6 s.settings.geoip.source_v6 host.defaults.geoip.source_v6) (
        rw (non_blank_twice cfg.cache_dir s.settings.geoip.cache_dir host.defaults.geoip.cache_dir)
          (rw
            (non_blank_twice cfg.cache_ttl s.settings.geoip.cache_ttl host.defaults.geoip.cache_ttl)
            refl))),
  rw (non_blank_again s.settings.diag.ping_interval host.defaults.diag.ping_interval) refl,
)
