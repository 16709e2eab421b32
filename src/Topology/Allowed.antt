-- ===== src/Topology/Allowed.antt =====
-- The AllowedIPs of a peer in pkg/topology/plan.go: its overlay address, then its CIDRs, each once.
use peer_wan.Prelude.{
  ◌⊎◌, true, String, ◌==◌, eq_iff, ◌||◌, not, List, [], ◌∷◌, ◌++◌, ◌≡◌, ◌&&◌, refl, sym, arith,
  is_blank, contains, Distinct, contains-append, Distinct-snoc, Bool-cases, inl, inr, if◌then◌else◌,
}
use mathlib.Core.List.{append-nil, append_assoc}

-- The loop over the CIDRs. The source's `seen` map holds exactly what `allowed` holds.
unfoldable pub add_cidrs : List String → List String → List String
add_cidrs allowed [] = allowed
add_cidrs allowed (cidr ∷ rest) =
    add_cidrs (if contains allowed cidr then allowed else allowed ++ cidr ∷ []) rest

unfoldable pub allowed_ips : String → List String → List String
unfolding add_cidrs
allowed_ips overlay cidrs = add_cidrs (if is_blank overlay then [] else overlay ∷ []) cidrs

Distinct-add_cidrs : (xs ys : List String) → Distinct xs → Distinct (add_cidrs xs ys)
unfolding add_cidrs
Distinct-add_cidrs xs [] d = d
Distinct-add_cidrs xs (y ∷ ys) d = elim (Bool-cases (contains xs y)) [
  | inl h ↦ rw h (Distinct-add_cidrs xs ys d)
  | inr h ↦ rw h (Distinct-add_cidrs (xs ++ y ∷ []) ys (Distinct-snoc xs y d h))
]

contains-add_cidrs :
    (xs ys : List String) (a : String)
    → contains (add_cidrs xs ys) a ≡ (contains xs a || contains ys a)
unfolding add_cidrs
contains-add_cidrs xs [] a = ground arith
contains-add_cidrs xs (y ∷ ys) a = elim (Bool-cases (contains xs y)) [
  | inl h ↦ rw h (ground (arith, contains-add_cidrs xs ys a, eq_iff y a))
  | inr h ↦
      rw h (ground (arith, contains-add_cidrs (xs ++ y ∷ []) ys a, contains-append xs (y ∷ []) a))
]

-- What is there already stays in front.
add_cidrs-prefix : (xs ys : List String) → (rest : List String) × (add_cidrs xs ys ≡ xs ++ rest)
unfolding add_cidrs
add_cidrs-prefix xs [] = ([], sym (append-nil xs))
add_cidrs-prefix xs (y ∷ ys) = elim (Bool-cases (contains xs y)) [
  | inl h ↦ rw h (add_cidrs-prefix xs ys)
  | inr h ↦
      let (rest, e) = add_cidrs-prefix (xs ++ y ∷ []) ys in
      (y ∷ rest, rw h (rw e (append_assoc xs (y ∷ []) rest)))
]

pub record IsAllowedList (overlay : String) (cidrs allowed : List String) : Type 0 where
  pub distinct : Distinct allowed
  pub members :
      (a : String)
      → contains allowed a ≡ ((not (is_blank overlay) && (overlay == a)) || contains cidrs a)
  pub overlay_first :
      (is_blank overlay ≡ true) ⊎ ((rest : List String) × (allowed ≡ overlay ∷ rest))

-- The allowed addresses of a peer are its overlay address, if it has one, and its networks, and
-- nothing else, each of them once; the overlay address comes first.
pub allowed_ips_lem :
    (overlay : String) (cidrs : List String)
    → IsAllowedList overlay cidrs (allowed_ips overlay cidrs)
unfolding allowed_ips
allowed_ips_lem overlay cidrs = elim (Bool-cases (is_blank overlay)) [
  | inl h ↦ rw h (record {
    distinct = Distinct-add_cidrs [] cidrs tt;
    members = λ a. ground (arith, contains-add_cidrs [] cidrs a);
    overlay_first = inl h;
  })
  | inr h ↦ rw h (record {
    distinct = Distinct-add_cidrs (overlay ∷ []) cidrs (refl, tt);
    members = λ a. ground (arith, contains-add_cidrs (overlay ∷ []) cidrs a);
    overlay_first = inr (add_cidrs-prefix (overlay ∷ []) cidrs);
  })
]
