-- ===== src/Prepare/Overlays.antt =====
-- The overlay addresses that pkg/api/prepare.go gives to nodes.
use mathlib.Core.Option.{some-injective, some-ne-none}
use peer_wan.Prelude.{
  ℕ, zero, suc, ◌+◌, ◌≤◌, ◌<◌, String, true, false, Option, none, some, List, [], ◌∷◌, ◌==◌,
  eq_of_==, ◌⧺◌, All, ◌∙◌, ◌≡◌, refl, sym, arith, length, eqb, eqb_iff, Bool-cases, inl, inr,
  decimal,
}
use peer_wan.Model.{Node}
use peer_wan.Store.{MemoryStore, list_nodes}
use peer_wan.Prepare.{
  octets, note, third_octet, ip_without_mask, mem, first_free, overlay_of, or_fallback,
  assign_overlay,
}
use peer_wan.Prepare.Octets.{
  AllUsed, AllUsed-le, FirstFree, first_free-FirstFree, third_octet-overlay_of,
}

-- An address of the form that is assigned, with an octet from 1 to 253 that is not in the list.
abbrev pub IsFreshOctet : List ℕ → String → Type 0
IsFreshOctet used overlay =
    (i : ℕ) × (overlay ≡ overlay_of i) × (1 ≤ i) × (i < 254) × (mem used i ≡ false)

or_fallback-IsFreshOctet :
    (used : List ℕ) (o : Option ℕ)
    → length used < 253
    → FirstFree 253 1 used o
    → IsFreshOctet used (or_fallback o)
unfolding or_fallback
or_fallback-IsFreshOctet used none few h = absurd (omega (arith, AllUsed-le 253 1 used h))
or_fallback-IsFreshOctet used (some i) few h = (i, refl, h.0, omega (arith, h.1), h.2)

pub assign_overlay-IsFreshOctet :
    (s : MemoryStore)
    → length (octets (list_nodes s)) < 253
    → IsFreshOctet (octets (list_nodes s)) (assign_overlay s)
unfolding assign_overlay
assign_overlay-IsFreshOctet s few =
    or_fallback-IsFreshOctet (octets (list_nodes s)) (first_free 253 1 (octets (list_nodes s))) few
      (first_free-FirstFree 253 1 (octets (list_nodes s)))

length-note : (o : Option ℕ) (xs : List ℕ) → length (note o xs) ≤ suc (length xs)
length-note none xs = omega arith
length-note (some i) xs = omega arith

pub length-octets : (nodes : List Node) → length (octets nodes) ≤ length nodes
unfolding octets
length-octets [] = omega arith
length-octets (n ∷ nodes) = omega (
  arith,
  length-note (third_octet (ip_without_mask n.overlay_ip)) (octets nodes),
  length-octets nodes,
)

-- No node has the address, and it is one of the form that is assigned, with an octet from 1 to 253.
abbrev pub IsFreshOverlay : List Node → String → Type 0
IsFreshOverlay nodes overlay =
    All (λ n. (n.overlay_ip == overlay) ≡ false) nodes
    × ((i : ℕ) × (overlay ≡ ("10.10." ⧺ decimal i ⧺ ".1/32")) × (1 ≤ i) × (i < 254))

mem-later : (o : Option ℕ) (xs : List ℕ) (i : ℕ) → mem (note o xs) i ≡ false → mem xs i ≡ false
mem-later none xs i h = h
mem-later (some j) xs i h = ground arith

other_octet : (o : Option ℕ) (xs : List ℕ) (i : ℕ) → mem (note o xs) i ≡ false → o ≡ some i → ⊥
other_octet none xs i h e = absurd (some-ne-none i (sym e))
other_octet (some j) xs i h e = absurd (ground (arith, h, some-injective j i e))

All-other :
    (nodes : List Node) (i : ℕ)
    → i < 254
    → mem (octets nodes) i ≡ false
    → All (λ n. (n.overlay_ip == overlay_of i) ≡ false) nodes
unfolding octets
All-other [] i lt h = tt
All-other (n ∷ nodes) i lt h = (
  elim (Bool-cases (n.overlay_ip == overlay_of i)) [
    | inl t ↦
        (let same : n.overlay_ip ≡ overlay_of i = eq_of_== n.overlay_ip (overlay_of i) t in
          let e : third_octet (ip_without_mask n.overlay_ip) ≡ some i =
            rw same (third_octet-overlay_of i lt) in
          absurd (other_octet (third_octet (ip_without_mask n.overlay_ip)) (octets nodes) i h e))
    | inr f ↦ f
  ],
  All-other nodes i lt (mem-later (third_octet (ip_without_mask n.overlay_ip)) (octets nodes) i h),
)

-- As long as fewer than 253 nodes are stored, the address that is assigned is that of no stored node, and
-- reads "10.10.", a number from 1 to 253, and ".1/32".
pub assign_overlay-IsFreshOverlay :
    (s : MemoryStore)
    → length (list_nodes s) < 253
    → IsFreshOverlay (list_nodes s) (assign_overlay s)
assign_overlay-IsFreshOverlay s few =
    let fresh : IsFreshOctet (octets (list_nodes s)) (assign_overlay s) =
      assign_overlay-IsFreshOctet s (omega (arith, length-octets (list_nodes s), few)) in
    (
      rw fresh.1 (All-other (list_nodes s) fresh.0 fresh.3 fresh.4),
      (fresh.0, fresh.1 ∙ (unfold overlay_of in refl), fresh.2, fresh.3),
    )

AllUsed-mem : (n i k : ℕ) (used : List ℕ) → AllUsed n i used → i ≤ k → k < i + n → mem used k ≡ true
AllUsed-mem zero i k used h le lt = absurd (omega arith)
AllUsed-mem (suc n) i k used h le lt = elim (Bool-cases (eqb i k)) [
  | inl e ↦
      (let same : i ≡ k = (eqb_iff i k).0 e in let r : mem used k ≡ true = rw (sym same) h.0 in r)
  | inr d ↦ AllUsed-mem n (suc i) k used h.1 (ground (arith, d)) (omega arith)
]

or_fallback-taken :
    (used : List ℕ) (o : Option ℕ)
    → AllUsed 253 1 used
    → FirstFree 253 1 used o
    → (or_fallback o ≡ overlay_of 250) × (mem used 250 ≡ true)
unfolding or_fallback overlay_of decimal
or_fallback-taken used none all h =
    (refl, AllUsed-mem 253 1 250 used all (omega arith) (omega arith))
or_fallback-taken used (some i) all h =
    absurd (ground (arith, AllUsed-mem 253 1 i used all, h.0, h.1, h.2))

-- Once the octets from 1 to 253 are all taken, every further node gets the address 10.10.250.1/32,
-- the octet of which another node has.
pub assign_overlay-taken :
    (s : MemoryStore)
    → AllUsed 253 1 (octets (list_nodes s))
    → (assign_overlay s ≡ overlay_of 250) × (mem (octets (list_nodes s)) 250 ≡ true)
unfolding assign_overlay
assign_overlay-taken s all =
    or_fallback-taken (octets (list_nodes s)) (first_free 253 1 (octets (list_nodes s))) all
      (first_free-FirstFree 253 1 (octets (list_nodes s)))
