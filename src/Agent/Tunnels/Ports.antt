-- ===== src/Agent/Tunnels/Ports.antt =====
-- The local ports that `allocateLocalPorts` of pkg/agent/wstunnel.go gives.
use mathlib.Core.List.{append_assoc, append-nil}
use peer_wan.Prelude.{
  ℕ, suc, ◌+◌, String, ◌==◌, Bool, true, false, ◌||◌, Option, none, some, is_some, List, [], ◌∷◌,
  ◌++◌, ◌≡◌, refl, sym, subst, length, contains, Distinct-snoc, ap, ◌∙◌, arith, All, is_blank,
  Distinct, ==_refl, Bool-cases, inl, inr, ◌⊎◌, if◌then◌else◌,
}
use peer_wan.Prelude.Dict.{Dict, lookup, insert, keys, lookup-insert}
use peer_wan.Prelude.Strings.{includes}
use peer_wan.Model.{Peer}
use peer_wan.Agent.Tunnels.{
  Net, bare_host, split_or, endpoint_host, next_ports, allocate_from, allocate_local_ports,
}

abbrev without_mask : Option String → String → Bool → String
without_mask (some host) ep number = host
without_mask none ep true = ""
without_mask none ep false = ep

-- The host in an endpoint: what stands before the port, where there is a colon and it splits, and
-- otherwise the whole, unless that is a number.
abbrev pub host_in : Net → String → String
host_in net ep =
    if is_blank ep
    then ""
    else without_mask (if includes ep ":" then net.split ep else none) ep (net.is_number ep)

bare : (net : Net) (ep : String) → bare_host net ep ≡ without_mask none ep (net.is_number ep)
bare net ep = elim (Bool-cases (net.is_number ep)) [ inl t ↦ rw t refl | inr f ↦ rw f refl ]

split_or-without_mask :
    (net : Net) (ep : String) (o : Option String)
    → split_or net ep o ≡ without_mask o ep (net.is_number ep)
split_or-without_mask net ep none = bare net ep
split_or-without_mask net ep (some host) = refl

endpoint_host-host_in : (net : Net) (ep : String) → endpoint_host net ep ≡ host_in net ep
unfolding endpoint_host
endpoint_host-host_in net ep = elim (Bool-cases (is_blank ep)) [
  | inl b ↦ (let r : endpoint_host net ep ≡ host_in net ep = rw b refl in r)
  | inr nb ↦ elim (Bool-cases (includes ep ":")) [
    | inl t ↦
        (let r : endpoint_host net ep ≡ host_in net ep =
            rw nb (rw t (split_or-without_mask net ep (net.split ep))) in
          r)
    | inr f ↦ (let r : endpoint_host net ep ≡ host_in net ep = rw nb (rw f (bare net ep)) in r)
  ]
]

-- The hosts that are neither blank nor among the ones before, in their order.
abbrev pub different : List String → List String → List String
different before [] = []
different before (host ∷ hosts) =
    if is_blank host || contains before host
    then different before hosts
    else host ∷ different (before ++ host ∷ []) hosts

-- Each with its number, counted from `base` on.
abbrev pub numbered : ℕ → List String → Dict ℕ
numbered base [] = []
numbered base (host ∷ hosts) = (host, base) ∷ numbered (suc base) hosts

lookup-numbered :
    (base : ℕ) (hosts : List String) (host : String)
    → is_some (lookup host (numbered base hosts)) ≡ contains hosts host
unfolding lookup
lookup-numbered base [] host = refl
lookup-numbered base (first ∷ hosts) host = ground (arith, lookup-numbered (suc base) hosts host)

insert-numbered :
    (base n : ℕ) (hosts : List String) (host : String)
    → n ≡ base + length hosts
    → contains hosts host ≡ false
    → insert host n (numbered base hosts) ≡ numbered base (hosts ++ host ∷ [])
unfolding insert
insert-numbered base n [] host e h = let same : n ≡ base = omega (arith, e) in rw same refl
insert-numbered base n (first ∷ hosts) host e h =
    let later : contains hosts host ≡ false = ground (arith, h) in
    let other : (first == host) ≡ false = ground (arith, h) in
    rw other (
      ap (λ more. (first, base) ∷ more)
        (insert-numbered (suc base) n hosts host (omega (arith, e)) later))

length-snoc :
    (hosts : List String) (host : String) → length (hosts ++ host ∷ []) ≡ suc (length hosts)
length-snoc [] host = refl
length-snoc (first ∷ hosts) host = omega (arith, length-snoc hosts host)

Distinct-different :
    (before hosts : List String) → Distinct before → Distinct (before ++ different before hosts)
Distinct-different before [] d = rw (append-nil before) d
Distinct-different before (host ∷ hosts) d =
    elim (Bool-cases (is_blank host || contains before host)) [
      | inl t ↦
          (let r : Distinct (before ++ different before (host ∷ hosts)) =
              rw t (Distinct-different before hosts d) in
            r)
      | inr f ↦
          (let new : contains before host ≡ false = ground (arith, f) in
            let all : Distinct ((before ++ host ∷ []) ++ different (before ++ host ∷ []) hosts) =
              Distinct-different (before ++ host ∷ []) hosts (Distinct-snoc before host d new) in
            let r : Distinct (before ++ different before (host ∷ hosts)) = rw f (
              rw (sym (append_assoc before (host ∷ []) (different (before ++ host ∷ []) hosts)))
                all) in
            r)
    ]

keys-numbered : (base : ℕ) (hosts : List String) → keys (numbered base hosts) ≡ hosts
keys-numbered base [] = refl
keys-numbered base (host ∷ hosts) = ap (λ more. host ∷ more) (keys-numbered (suc base) hosts)

-- The hosts of the peers.
abbrev pub hosts_of : Net → List Peer → List String
hosts_of net [] = []
hosts_of net (p ∷ peers) = host_in net p.endpoint ∷ hosts_of net peers

module _ (base n : ℕ) (host : String) (before : List String) (e : n ≡ base + length before) where
  next_ports-seen :
      (is_blank host || contains before host) ≡ true
      → next_ports host (numbered base before, n) ≡ (numbered base before, n)
  unfolding next_ports
  next_ports-seen t = rw (lookup-numbered base before host) (rw t refl)

  next_ports-new :
      (is_blank host || contains before host) ≡ false
      → next_ports host (numbered base before, n) ≡ (numbered base (before ++ host ∷ []), suc n)
  unfolding next_ports
  next_ports-new f =
      rw (lookup-numbered base before host)
        (rw f (rw (insert-numbered base n before host e (ground (arith, f))) refl))

module _ (net : Net) (base : ℕ) where
  allocate_from-numbered :
      (peers : List Peer) (n : ℕ) (before : List String)
      → n ≡ base + length before
      → (allocate_from net peers (numbered base before, n)).0
        ≡ numbered base (before ++ different before (hosts_of net peers))
  unfolding allocate_from
  allocate_from-numbered [] n before e = rw (append-nil before) refl
  allocate_from-numbered (p ∷ peers) n before e =
      let host : String = host_in net p.endpoint in
      let given : (String → Dict ℕ) =
        λ h. (allocate_from net peers (next_ports h (numbered base before, n))).0 in
      ap given (endpoint_host-host_in net p.endpoint)
      ∙ elim (Bool-cases (is_blank host || contains before host)) [
        | inl t ↦
            rw (next_ports-seen base n host before e t)
              (rw t (allocate_from-numbered peers n before e))
        | inr f ↦ rw (next_ports-new base n host before e f) (
            rw f (
              allocate_from-numbered peers (suc n) (before ++ host ∷ [])
                (omega (arith, e, length-snoc before host))
              ∙ ap (numbered base) (
                  append_assoc before (host ∷ [])
                    (different (before ++ host ∷ []) (hosts_of net peers)))))
      ]

-- Whether the host has a port.
abbrev pub served : String → Dict ℕ × ℕ → Bool
served host s = is_some (lookup host s.0)

some_if :
    (b : Bool) (v : ℕ) (o : Option ℕ) → is_some o ≡ true → is_some (if b then some v else o) ≡ true
some_if true v o h = refl
some_if false v o h = h

served-next_ports :
    (next host : String) (s : Dict ℕ × ℕ)
    → served host s ≡ true
    → served host (next_ports next s) ≡ true
unfolding next_ports
served-next_ports next host s h = elim (Bool-cases (is_blank next || served next s)) [
  | inl t ↦ (let r : served host (next_ports next s) ≡ true = rw t h in r)
  | inr f ↦
      (let r : served host (next_ports next s) ≡ true =
          rw f (
            rw (lookup-insert next host s.1 s.0)
              (some_if (next == host) s.1 (lookup host s.0) h)) in
        r)
]

own_port :
    (host : String) (s : Dict ℕ × ℕ)
    → is_blank host ≡ false
    → served host (next_ports host s) ≡ true
unfolding next_ports
own_port host s nb = elim (Bool-cases (served host s)) [
  | inl t ↦ served-next_ports host host s t
  | inr f ↦
      (let r : served host (next_ports host s) ≡ true =
          rw nb (rw f (rw (lookup-insert host host s.1 s.0) (rw (==_refl host) refl))) in
        r)
]

served-allocate_from :
    (net : Net) (peers : List Peer) (s : Dict ℕ × ℕ) (host : String)
    → served host s ≡ true
    → served host (allocate_from net peers s) ≡ true
unfolding allocate_from
served-allocate_from net [] s host h = h
served-allocate_from net (p ∷ peers) s host h =
    served-allocate_from net peers (next_ports (endpoint_host net p.endpoint) s) host
      (served-next_ports (endpoint_host net p.endpoint) host s h)

-- The peer has no host, or its host has a port.
abbrev pub HasPort : Net → Dict ℕ → Peer → Type 0
HasPort net ports p =
    (is_blank (host_in net p.endpoint) ≡ true)
    ⊎ (is_some (lookup (host_in net p.endpoint) ports) ≡ true)

allocate_from-HasPort :
    (net : Net) (peers : List Peer) (s : Dict ℕ × ℕ)
    → All (HasPort net (allocate_from net peers s).0) peers
unfolding allocate_from
allocate_from-HasPort net [] s = tt
allocate_from-HasPort net (p ∷ peers) s =
    let host : String = endpoint_host net p.endpoint in
    let same : host ≡ host_in net p.endpoint = endpoint_host-host_in net p.endpoint in
    let later : All (HasPort net (allocate_from net peers (next_ports host s)).0) peers =
      allocate_from-HasPort net peers (next_ports host s) in
    elim (Bool-cases (is_blank host)) [
      | inl b ↦ (inl (subst (λ h. is_blank h ≡ true) same b), later)
      | inr nb ↦ (
        inr (
            subst (λ h. served h (allocate_from net peers (next_ports host s)) ≡ true) same
              (served-allocate_from net peers (next_ports host s) host (own_port host s nb))),
        later,
      )
    ]

-- The ports are given to the different hosts in the peers' endpoints, in the order in which the hosts first
-- come: the first one has the base, and each next one the next number. So every peer with a host has a
-- port for it, and no host has two.
pub allocate_local_ports_lem :
    (net : Net) (peers : List Peer) (base : ℕ)
    → (allocate_local_ports net peers base ≡ numbered base (different [] (hosts_of net peers)))
      × All (HasPort net (allocate_local_ports net peers base)) peers
      × Distinct (keys (allocate_local_ports net peers base))
unfolding allocate_local_ports
allocate_local_ports_lem net peers base =
    let e : (allocate_from net peers ([], base)).0
        ≡ numbered base (different [] (hosts_of net peers)) =
      allocate_from-numbered net base peers base [] (omega arith) in
    (
      e,
      allocate_from-HasPort net peers ([], base),
      rw e (
          rw (keys-numbered base (different [] (hosts_of net peers)))
            (Distinct-different [] (hosts_of net peers) tt)),
    )
