-- ===== src/Prepare/Octets.antt =====
-- The search for a free octet in `assignOverlay` of pkg/api/prepare.go, and the octet of an assigned
-- address as it is read again.
use peer_wan.Prelude.{
  ℕ, zero, suc, ◌+◌, ◌-◌, ◌≤◌, ◌<◌, Bool, true, false, ◌&&◌, Option, none, some, List, [], ◌∷◌, ◌≡◌,
  refl, ap, arith, decimal, eqb, eqb_iff, length, Bool-cases, inl, inr, if◌then◌else◌,
}
use peer_wan.Prepare.{mem, first_free, third_octet, overlay_of, ip_without_mask}

-- The list without the first `j`.
abbrev without : ℕ → List ℕ → List ℕ
without j [] = []
without j (x ∷ xs) = if eqb x j then xs else x ∷ without j xs

mem-without : (i j : ℕ) (xs : List ℕ) → eqb i j ≡ false → mem (without j xs) i ≡ mem xs i
mem-without i j [] h = refl
mem-without i j (x ∷ xs) h = ground (arith, mem-without i j xs h)

length-without : (j : ℕ) (xs : List ℕ) → mem xs j ≡ true → suc (length (without j xs)) ≡ length xs
length-without j [] h = ground arith
length-without j (x ∷ xs) h = ground (arith, length-without j xs)

-- Every number of the `n` from `i` on is in the list.
abbrev pub AllUsed : ℕ → ℕ → List ℕ → Type 0
AllUsed zero i xs = Unit
AllUsed (suc n) i xs = (mem xs i ≡ true) × AllUsed n (suc i) xs

AllUsed-without : (n i j : ℕ) (xs : List ℕ) → j < i → AllUsed n i xs → AllUsed n i (without j xs)
AllUsed-without zero i j xs lt h = tt
AllUsed-without (suc n) i j xs lt h =
    (ground (arith, mem-without i j xs, h.0), AllUsed-without n (suc i) j xs (omega arith) h.1)

-- So the list is not shorter.
pub AllUsed-le : (n i : ℕ) (xs : List ℕ) → AllUsed n i xs → n ≤ length xs
AllUsed-le zero i xs h = omega arith
AllUsed-le (suc n) i xs h = omega (
  arith,
  length-without i xs h.0,
  AllUsed-le n (suc i) (without i xs) (AllUsed-without n (suc i) i xs (omega arith) h.1),
)

-- What the search finds, as a statement on its result.
abbrev pub FirstFree : ℕ → ℕ → List ℕ → Option ℕ → Type 0
FirstFree n i xs none = AllUsed n i xs
FirstFree n i xs (some k) = (i ≤ k) × (k < i + n) × (mem xs k ≡ false) × AllUsed (k - i) i xs

FirstFree-later :
    (n i : ℕ) (xs : List ℕ) (o : Option ℕ)
    → mem xs i ≡ true
    → FirstFree n (suc i) xs o
    → FirstFree (suc n) i xs o
FirstFree-later n i xs none e h = (e, h)
FirstFree-later n i xs (some k) e h =
    let eq : k - i ≡ suc (k - suc i) = omega arith in
    (omega arith, omega arith, h.2, rw eq (e, h.3))

pub first_free-FirstFree : (n i : ℕ) (xs : List ℕ) → FirstFree n i xs (first_free n i xs)
unfolding first_free
first_free-FirstFree zero i xs = tt
first_free-FirstFree (suc n) i xs = elim (Bool-cases (mem xs i)) [
  | inl t ↦
      (let r : FirstFree (suc n) i xs (first_free (suc n) i xs) = rw t (
          FirstFree-later n i xs (first_free n (suc i) xs) t (first_free-FirstFree n (suc i) xs)) in
        r)
  | inr f ↦
      (let here : FirstFree (suc n) i xs (some i) =
          (omega arith, omega arith, f, (let z : i - i ≡ 0 = omega arith in rw z tt)) in
        let r : FirstFree (suc n) i xs (first_free (suc n) i xs) = rw f here in r)
]

is_some_of : ℕ → Option ℕ → Bool
is_some_of i none = false
is_some_of i (some k) = eqb k i

all_below : ℕ → (ℕ → Bool) → Bool
all_below zero p = true
all_below (suc n) p = p n && all_below n p

all_below-true : (n : ℕ) (p : ℕ → Bool) (x : ℕ) → all_below n p ≡ true → x < n → p x ≡ true
unfolding all_below
all_below-true zero p x h lt = absurd (omega arith)
all_below-true (suc n) p x h lt = ground (arith, all_below-true n p x)

-- The addresses that can be assigned, each read again.
octet_table :
    all_below 254 (λ i. is_some_of i (third_octet (ip_without_mask (overlay_of i)))) ≡ true
unfolding all_below is_some_of third_octet ip_without_mask overlay_of decimal
octet_table = refl

eq_some : (i : ℕ) (o : Option ℕ) → is_some_of i o ≡ true → o ≡ some i
unfolding is_some_of
eq_some i none h = cc
eq_some i (some k) h = ap some ((eqb_iff k i).0 h)

-- What `Sscanf` reads of an address that was assigned is its octet.
pub third_octet-overlay_of :
    (i : ℕ) → i < 254 → third_octet (ip_without_mask (overlay_of i)) ≡ some i
third_octet-overlay_of i lt = eq_some i (third_octet (ip_without_mask (overlay_of i))) (
    all_below-true 254 (λ k. is_some_of k (third_octet (ip_without_mask (overlay_of k)))) i
      octet_table lt)
