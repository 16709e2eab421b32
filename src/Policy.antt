-- ===== src/Policy.antt =====
-- pkg/policy/geoip.go: the prefixes that a policy rule stands for. What the libraries and the machine
-- do, `strings.ToLower` and `ToUpper`, the parsers of package `net`, name resolution, files and HTTP, is
-- in the record `World`, as it answers during one call; the file that a download leaves in the cache is
-- met in the next call's `World`. The package's variables are the record `Geoip`.
pub mod Lists
pub mod Expansion
use peer_wan.Prelude.{
  ℕ, Char, code, String, ◌==◌, ◌⧺◌, Bool, true, false, not, ◌&&◌, ◌||◌, Option, none, some, List,
  [], ◌∷◌, ◌++◌, eqb, leb, is_blank, contains, if◌then◌else◌, text_of,
}
use peer_wan.Prelude.Strings.{strip_end, strip_start, begins_with, includes, cons_head}
use peer_wan.Model.{PolicyRule, validate, GeoipConfig}

pub record World : Type 0 where
  pub lower : String → String
  pub upper : String → String
  -- `fmt.Sprintf(tmpl, code)`
  pub sprintf : String → String → String
  -- `filepath.Join(dir, name)`
  pub path_join : String → String → String
  pub parse_duration : String → Option ℕ
  -- whether `net.ParseCIDR` takes it
  pub parse_cidr : String → Bool
  -- `net.ParseIP(s).String()`
  pub parse_ip : String → Option String
  -- `net.LookupIP`, with what `To4` gives of each address
  pub lookup_ip : String → Option (List (Option String))
  -- whether `os.MkdirAll` succeeds
  pub mkdir_all : String → Bool
  -- the content of a file that is younger than the given time
  pub fresh : String → ℕ → Option String
  pub http_get : String → Option String

pub record Geoip : Type 0 where
  pub cache_dir : String
  pub source_v4 : String
  pub source_v6 : String
  pub cache_ttl : ℕ

abbrev set_text : String → String → String
set_text new old = if is_blank new then old else new

abbrev set_ttl : Option ℕ → ℕ → ℕ
set_ttl none old = old
set_ttl (some d) old = d

-- `SetConfig`
unfoldable pub set_config : World → GeoipConfig → Geoip → Geoip
set_config w cfg g = record {
  cache_dir = set_text cfg.cache_dir g.cache_dir;
  source_v4 = set_text cfg.source_v4 g.source_v4;
  source_v6 = set_text cfg.source_v6 g.source_v6;
  cache_ttl =
      if is_blank cfg.cache_ttl
      then g.cache_ttl
      else set_ttl (w.parse_duration cfg.cache_ttl) g.cache_ttl;
}

-- `unicode.IsSpace`
abbrev pub is_white : ℕ → Bool
is_white c =
    (leb 9 c && leb c 13)
    || eqb c 32
    || eqb c 0x85
    || eqb c 0xA0
    || eqb c 0x1680
    || (leb 0x2000 c && leb c 0x200A)
    || eqb c 0x2028
    || eqb c 0x2029
    || eqb c 0x202F
    || eqb c 0x205F
    || eqb c 0x3000

-- `strings.TrimSpace`
unfoldable pub trim_space : String → String
unfolding strip_end strip_start
trim_space s = strip_end is_white (strip_start is_white s)

-- The lines of a text: those of a `bufio.Scanner`, but for the carriage returns, which are white.
unfoldable pub lines : String → List String
lines String.[] = "" ∷ []
lines (String.◌∷◌ c s) =
    let rest = lines s in if eqb (code c) 10 then "" ∷ rest else cons_head c rest

-- `if _, ok := seen[p]; !ok { out = append(out, p) }`, where `seen` has what is in `out`
unfoldable pub add_new : String → List String → List String
add_new p out = if contains out p then out else out ++ p ∷ []

abbrev pub is_cidr_line : String → Bool
is_cidr_line line = not (is_blank line) && (not (begins_with line "#") && includes line "/")

unfoldable pub add_lines : List String → List String → List String
unfolding add_new trim_space begins_with includes
add_lines [] out = out
add_lines (l ∷ rest) out =
    add_lines rest (if is_cidr_line (trim_space l) then add_new (trim_space l) out else out)

-- `parseCIDRs`
unfoldable pub parse_cidrs : String → List String
unfolding add_lines lines
parse_cidrs content = add_lines (lines content) []

-- The two spellings of a country's code.
unfoldable pub codes : World → String → List String
codes w cc = if w.upper cc == w.lower cc then w.lower cc ∷ [] else w.lower cc ∷ w.upper cc ∷ []

abbrev pub kind_of : Bool → String
kind_of ipv6 = if ipv6 then "v6" else "v4"

abbrev pub source_of : Geoip → Bool → String
source_of g ipv6 = if ipv6 then g.source_v6 else g.source_v4

-- What one spelling leads to: the cached file, the download, or none.
abbrev first_some : Option String → Option String → Option String
first_some none o = o
first_some (some a) o = some a

unfoldable pub content_of : World → Geoip → Bool → String → Option String
content_of w g ipv6 cc =
    first_some
      (w.fresh (w.path_join g.cache_dir (kind_of ipv6 ⧺ ("-" ⧺ (cc ⧺ ".cidr")))) g.cache_ttl)
      (w.http_get (w.sprintf (source_of g ipv6) cc))

abbrev pub parse_or : Option String → List String → List String
unfolding parse_cidrs
parse_or none rest = rest
parse_or (some body) rest = parse_cidrs body

unfoldable pub first_code : World → Geoip → Bool → List String → List String
unfolding content_of parse_cidrs
first_code w g ipv6 [] = []
first_code w g ipv6 (c ∷ rest) =
    let later = first_code w g ipv6 rest in parse_or (content_of w g ipv6 c) later

-- `geoipPrefixes`
unfoldable pub geoip_prefixes : World → Geoip → String → Bool → List String
unfolding trim_space codes first_code
geoip_prefixes w g country ipv6 =
    let cc : String = trim_space country in
    if is_blank cc
    then []
    else if w.mkdir_all g.cache_dir
    then first_code w g ipv6 (codes w cc)
    else []

-- `add`
unfoldable pub add : String → List String → List String
unfolding add_new
add p out = if is_blank p then out else add_new p out

unfoldable pub add_each : List String → List String → List String
unfolding add
add_each [] out = out
add_each (p ∷ ps) out = add_each ps (add p out)

-- The rest of a text after a prefix that it begins with.
unfoldable pub cut_prefix : String → String → Option String
cut_prefix String.[] s = some s
cut_prefix (String.◌∷◌ c p) String.[] = none
cut_prefix (String.◌∷◌ c p) (String.◌∷◌ d s) =
    let rest = cut_prefix p s in if eqb (code c) (code d) then rest else none

abbrev pub host_prefix : Option String → List String
host_prefix none = []
host_prefix (some ip) = (ip ⧺ "/32") ∷ []

-- The default case: an address, with or without a mask.
unfoldable pub plain_prefixes : World → String → List String
unfolding includes
plain_prefixes w prefix =
    let pfx : String = if includes prefix "/" then prefix else prefix ⧺ "/32" in
    if w.parse_cidr pfx then pfx ∷ [] else host_prefix (w.parse_ip prefix)

abbrev pub by_kind : World → Geoip → String → Option String → Option String → List String
unfolding geoip_prefixes plain_prefixes
by_kind w g prefix (some cc) o = geoip_prefixes w g cc true
by_kind w g prefix none (some cc) = geoip_prefixes w g cc false
by_kind w g prefix none none = plain_prefixes w prefix

-- The prefixes of the field `Prefix`.
unfoldable pub prefixes_of : World → Geoip → String → List String
unfolding cut_prefix geoip_prefixes plain_prefixes
prefixes_of w g prefix =
    if is_blank prefix
    then []
    else by_kind w g prefix (cut_prefix "geoip6:" (w.lower prefix))
        (cut_prefix "geoip:" (w.lower prefix))

abbrev pub v4_hosts : List (Option String) → List String
v4_hosts [] = []
v4_hosts (none ∷ ips) = v4_hosts ips
v4_hosts (some ip ∷ ips) = ip ∷ v4_hosts ips

abbrev pub or_no_hosts : Option (List (Option String)) → List String
or_no_hosts none = []
or_no_hosts (some ips) = v4_hosts ips

-- `resolveDomain`
unfoldable pub resolve_domain : World → String → List String
resolve_domain w d = or_no_hosts (w.lookup_ip d)

abbrev pub slash_32 : List String → List String
slash_32 [] = []
slash_32 (ip ∷ ips) = (ip ⧺ "/32") ∷ slash_32 ips

unfoldable pub add_domains : World → List String → List String → List String
unfolding add_each resolve_domain
add_domains w [] out = out
add_domains w (d ∷ ds) out = add_domains w ds (add_each (slash_32 (resolve_domain w d)) out)

-- `Expand`
unfoldable pub expand : World → Geoip → PolicyRule → List String
unfolding validate prefixes_of add_each add_domains
expand w g pr =
    if validate pr then add_domains w pr.domains (add_each (prefixes_of w g pr.prefix) []) else []
