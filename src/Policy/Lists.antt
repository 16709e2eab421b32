-- ===== src/Policy/Lists.antt =====
-- The lists that `add` of pkg/policy/geoip.go makes, and what is in them.
use peer_wan.Prelude.{
  String, ◌==◌, Bool, true, false, not, ◌&&◌, ◌||◌, List, [], ◌∷◌, ◌≡◌, refl, arith, is_blank,
  contains, contains-append, eq_iff, Distinct, Distinct-snoc, Bool-cases, inl, inr,
}
use peer_wan.Model.{PolicyRule, validate}
use peer_wan.Policy.{
  World, Geoip, add_new, add, add_each, add_domains, prefixes_of, slash_32, prefixes_of,
  resolve_domain, expand,
}

-- A list of prefixes without a blank or a repeated one.
abbrev pub IsPrefixList : List String → Type 0
IsPrefixList ps = Distinct ps × (contains ps "" ≡ false)

equal_blank : (p : String) → is_blank p ≡ false → (p == "") ≡ false
equal_blank p nb = elim (Bool-cases (p == "")) [
  | inl e ↦
      (let same : p ≡ "" = (eq_iff p "").0 e in
        let t : is_blank p ≡ true = rw same refl in absurd (ground (arith, t, nb)))
  | inr d ↦ d
]

contains-blank : (p : String) → is_blank p ≡ false → contains (p ∷ []) "" ≡ false
contains-blank p nb = rw (equal_blank p nb) refl

blank_of : (a : String) → is_blank a ≡ true → a ≡ ""
blank_of String.[] h = refl
blank_of (String.◌∷◌ c s) h = absurd (ground (arith, h))

add-IsPrefixList : (p : String) (out : List String) → IsPrefixList out → IsPrefixList (add p out)
unfolding add add_new
add-IsPrefixList p out h = elim (Bool-cases (is_blank p)) [
  | inl b ↦ (let r : IsPrefixList (add p out) = rw b h in r)
  | inr nb ↦ elim (Bool-cases (contains out p)) [
    | inl seen ↦ (let r : IsPrefixList (add p out) = rw nb (rw seen h) in r)
    | inr new ↦
        (let r : IsPrefixList (add p out) = rw nb (
            rw new (
              Distinct-snoc out p h.0 new,
              ground (arith, contains-append out (p ∷ []) "", h.1, contains-blank p nb),
            )) in
          r)
  ]
]

add_each-IsPrefixList : (ps out : List String) → IsPrefixList out → IsPrefixList (add_each ps out)
unfolding add_each
add_each-IsPrefixList [] out h = h
add_each-IsPrefixList (p ∷ ps) out h =
    add_each-IsPrefixList ps (add p out) (add-IsPrefixList p out h)

add_domains-IsPrefixList :
    (w : World) (ds out : List String) → IsPrefixList out → IsPrefixList (add_domains w ds out)
unfolding add_domains
add_domains-IsPrefixList w [] out h = h
add_domains-IsPrefixList w (d ∷ ds) out h =
    let more : List String = slash_32 (resolve_domain w d) in
    add_domains-IsPrefixList w ds (add_each more out) (add_each-IsPrefixList more out h)

contains-add :
    (p : String) (out : List String) (a : String)
    → contains (add p out) a ≡ (contains out a || (not (is_blank p) && (p == a)))
unfolding add add_new
contains-add p out a = ground (arith, contains-append out (p ∷ []) a, eq_iff p a)

-- Whether the text is one of them, and not blank.
abbrev pub listed : List String → String → Bool
listed ps a = not (is_blank a) && contains ps a

listed-cons :
    (p : String) (ps : List String) (a : String) (b : Bool)
    → ((b || (not (is_blank p) && (p == a))) || listed ps a) ≡ (b || listed (p ∷ ps) a)
listed-cons p ps a b = ground (arith, eq_iff p a, eq_iff p "", eq_iff a "")

contains-add_each :
    (ps out : List String) (a : String)
    → contains (add_each ps out) a ≡ (contains out a || listed ps a)
unfolding add_each
contains-add_each [] out a = ground arith
contains-add_each (p ∷ ps) out a =
    rw (contains-add_each ps (add p out) a)
      (rw (contains-add p out a) (listed-cons p ps a (contains out a)))

-- Whether one of the names resolves to the address of this host prefix.
abbrev pub resolves : World → List String → String → Bool
resolves w [] a = false
resolves w (d ∷ ds) a = contains (slash_32 (resolve_domain w d)) a || resolves w ds a

contains-add_domains :
    (w : World) (ds out : List String) (a : String)
    → contains (add_domains w ds out) a ≡ (contains out a || (not (is_blank a) && resolves w ds a))
unfolding add_domains
contains-add_domains w [] out a = ground arith
contains-add_domains w (d ∷ ds) out a =
    let more : List String = slash_32 (resolve_domain w d) in
    ground (arith, contains-add_domains w ds (add_each more out) a, contains-add_each more out a)

pub expand-Members :
    (w : World) (g : Geoip) (pr : PolicyRule)
    → IsPrefixList (expand w g pr)
      × ((a : String)
          → contains (expand w g pr) a ≡ (
              validate pr
              && (not (is_blank a)
                  && (contains (prefixes_of w g pr.prefix) a || resolves w pr.domains a))))
unfolding expand
expand-Members w g pr = elim (Bool-cases (validate pr)) [
  | inl v ↦
      (let first : List String = add_each (prefixes_of w g pr.prefix) [] in
        let prefixes : IsPrefixList (expand w g pr) = rw v (
          add_domains-IsPrefixList w pr.domains first
            (add_each-IsPrefixList (prefixes_of w g pr.prefix) [] ((tt, refl)))) in
        let members : (a : String)
            → contains (expand w g pr) a ≡ (
                validate pr
                && (not (is_blank a)
                    && (contains (prefixes_of w g pr.prefix) a || resolves w pr.domains a))) =
          λ a. ground (
            arith,
            v,
            contains-add_domains w pr.domains first a,
            contains-add_each (prefixes_of w g pr.prefix) [] a,
          ) in
        (prefixes, members))
  | inr f ↦
      (let prefixes : IsPrefixList (expand w g pr) = rw f (tt, refl) in
        let members : (a : String)
            → contains (expand w g pr) a ≡ (
                validate pr
                && (not (is_blank a)
                    && (contains (prefixes_of w g pr.prefix) a || resolves w pr.domains a))) =
          λ a. ground (arith, f) in
        (prefixes, members))
]
