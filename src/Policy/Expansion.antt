-- ===== src/Policy/Expansion.antt =====
-- What `Expand` of pkg/policy/geoip.go gives.
use peer_wan.Prelude.{
  ℕ, zero, suc, Option, none, some, if◌then◌else◌, ◌⧺◌, is_empty, String, ◌==◌, Bool, true, false,
  not, ◌&&◌, ◌||◌, List, [], ◌∷◌, ◌≡◌, refl, ◌∙◌, arith, is_blank, contains, Bool-cases, inl, inr,
}
use peer_wan.Prelude.Strings.{begins_with, includes}
use peer_wan.Model.{PolicyRule, validate}
use peer_wan.Policy.{
  World, Geoip, prefixes_of, slash_32, prefixes_of, resolve_domain, expand, v4_hosts, or_no_hosts,
  cut_prefix, plain_prefixes, by_kind, host_prefix, geoip_prefixes,
}
use peer_wan.Policy.Lists.{IsPrefixList, resolves, expand-Members}

-- What follows the first `n` characters.
abbrev pub after : ℕ → String → String
after zero s = s
after (suc n) String.[] = ""
after (suc n) (String.◌∷◌ c s) = after n s

abbrev host_is : Option String → String → Bool
host_is none a = false
host_is (some ip) a = (ip ⧺ "/32") == a

-- The prefix itself, a mask of /32 added where it has none.
abbrev masked : String → String
masked prefix = if includes prefix "/" then prefix else prefix ⧺ "/32"

-- Whether the field `Prefix` stands for this prefix: of a country's list, the country named in small letters after
-- "geoip6:" or "geoip:", or the one prefix that is written, or the address that is.
abbrev pub in_field : World → Geoip → String → String → Bool
in_field w g prefix a =
    if is_blank prefix
    then false
    else if begins_with (w.lower prefix) "geoip6:"
    then contains (geoip_prefixes w g (after 7 (w.lower prefix)) true) a
    else if begins_with (w.lower prefix) "geoip:"
    then contains (geoip_prefixes w g (after 6 (w.lower prefix)) false) a
    else if w.parse_cidr (masked prefix)
    then masked prefix == a
    else host_is (w.parse_ip prefix) a

abbrev among : List (Option String) → String → Bool
among [] a = false
among (ip ∷ ips) a = host_is ip a || among ips a

abbrev answered : Option (List (Option String)) → String → Bool
answered none a = false
answered (some ips) a = among ips a

-- Whether one of the names has an IPv4 address that with the mask /32 is this prefix.
abbrev pub names_host : World → List String → String → Bool
names_host w [] a = false
names_host w (d ∷ ds) a = answered (w.lookup_ip d) a || names_host w ds a

-- Something to match, and somewhere to send it.
abbrev pub is_complete : PolicyRule → Bool
is_complete r =
    (not (is_blank r.prefix) || not (is_empty r.domains))
    && (not (is_blank r.via_node) || not (is_empty r.path))

contains-v4_hosts :
    (ips : List (Option String)) (a : String) → contains (slash_32 (v4_hosts ips)) a ≡ among ips a
contains-v4_hosts [] a = refl
contains-v4_hosts (none ∷ ips) a = contains-v4_hosts ips a
contains-v4_hosts (some ip ∷ ips) a = ground (arith, contains-v4_hosts ips a)

contains-or_no_hosts :
    (o : Option (List (Option String))) (a : String)
    → contains (slash_32 (or_no_hosts o)) a ≡ answered o a
contains-or_no_hosts none a = refl
contains-or_no_hosts (some ips) a = contains-v4_hosts ips a

resolves-names_host :
    (w : World) (ds : List String) (a : String) → resolves w ds a ≡ names_host w ds a
unfolding resolve_domain
resolves-names_host w [] a = refl
resolves-names_host w (d ∷ ds) a =
    rw (contains-or_no_hosts (w.lookup_ip d) a) (rw (resolves-names_host w ds a) refl)

text_length : String → ℕ
text_length String.[] = 0
text_length (String.◌∷◌ c s) = suc (text_length s)

cut_prefix-begins_with :
    (p s : String)
    → cut_prefix p s ≡ (if begins_with s p then some (after (text_length p) s) else none)
unfolding cut_prefix begins_with text_length
cut_prefix-begins_with String.[] String.[] = refl
cut_prefix-begins_with String.[] (String.◌∷◌ d s) = refl
cut_prefix-begins_with (String.◌∷◌ c p) String.[] = refl
cut_prefix-begins_with (String.◌∷◌ c p) (String.◌∷◌ d s) =
    ground (arith, cut_prefix-begins_with p s)

cut_geoip6 :
    (s : String)
    → cut_prefix "geoip6:" s ≡ (if begins_with s "geoip6:" then some (after 7 s) else none)
unfolding text_length
cut_geoip6 s = cut_prefix-begins_with "geoip6:" s

cut_geoip :
    (s : String)
    → cut_prefix "geoip:" s ≡ (if begins_with s "geoip:" then some (after 6 s) else none)
unfolding text_length
cut_geoip s = cut_prefix-begins_with "geoip:" s

contains-host_prefix : (o : Option String) (a : String) → contains (host_prefix o) a ≡ host_is o a
contains-host_prefix none a = refl
contains-host_prefix (some ip) a = ground arith

contains-plain_prefixes :
    (w : World) (prefix a : String)
    → contains (plain_prefixes w prefix) a
      ≡ (if w.parse_cidr (masked prefix) then masked prefix == a else host_is (w.parse_ip prefix) a)
unfolding plain_prefixes
contains-plain_prefixes w prefix a = elim (Bool-cases (w.parse_cidr (masked prefix))) [
  | inl t ↦
      (let r : contains (plain_prefixes w prefix) a ≡ (
            if w.parse_cidr (masked prefix)
            then masked prefix == a
            else host_is (w.parse_ip prefix) a) =
          rw t (ground arith) in
        r)
  | inr f ↦
      (let r : contains (plain_prefixes w prefix) a ≡ (
            if w.parse_cidr (masked prefix)
            then masked prefix == a
            else host_is (w.parse_ip prefix) a) =
          rw f (contains-host_prefix (w.parse_ip prefix) a) in
        r)
]

module _ (w : World) (g : Geoip) (prefix a : String) where
  contains-by_kind :
      (six four : Bool) (l : String)
      → contains
          (by_kind w g prefix
            (if six then some (after 7 l) else none)
            (if four then some (after 6 l) else none))
          a
        ≡ (if six
            then contains (geoip_prefixes w g (after 7 l) true) a
            else if four
            then contains (geoip_prefixes w g (after 6 l) false) a
            else if w.parse_cidr (masked prefix)
            then masked prefix == a
            else host_is (w.parse_ip prefix) a)
  unfolding by_kind
  contains-by_kind true four l = refl
  contains-by_kind false true l = refl
  contains-by_kind false false l = contains-plain_prefixes w prefix a

  contains-prefixes_of : contains (prefixes_of w g prefix) a ≡ in_field w g prefix a
  unfolding prefixes_of
  contains-prefixes_of = elim (Bool-cases (is_blank prefix)) [
    | inl t ↦ (let r : contains (prefixes_of w g prefix) a ≡ in_field w g prefix a = rw t refl in r)
    | inr f ↦
        (let r : contains (prefixes_of w g prefix) a ≡ in_field w g prefix a = rw f (
            rw (cut_geoip6 (w.lower prefix)) (
              rw (cut_geoip (w.lower prefix)) (
                contains-by_kind (begins_with (w.lower prefix) "geoip6:")
                  (begins_with (w.lower prefix) "geoip:") (w.lower prefix)))) in
          r)
  ]

-- The expansion of a rule repeats no prefix and has no blank one. Exactly these prefixes are in it: for a
-- rule that has something to match and somewhere to send it, what its field `Prefix` stands for, which is a
-- country's list after "geoip6:" or "geoip:", else the prefix as it is written, with the mask /32 where it
-- has none, if that parses, else the address that is written, with the mask /32; and with the mask /32, the
-- IPv4 addresses of its domains. For any other rule, there is none.
pub expand_lem :
    (w : World) (g : Geoip) (pr : PolicyRule)
    → IsPrefixList (expand w g pr)
      × ((a : String)
          → contains (expand w g pr) a ≡ (
              is_complete pr
              && (not (is_blank a) && (in_field w g pr.prefix a || names_host w pr.domains a))))
unfolding validate
expand_lem w g pr = (
  (expand-Members w g pr).0,
  (λ a.
      (expand-Members w g pr).1 a
      ∙ rw (contains-prefixes_of w g pr.prefix a) (rw (resolves-names_host w pr.domains a) refl)),
)
