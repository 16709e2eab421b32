-- ===== src/Controller/Waiting.antt =====
-- pkg/api/controller.go: the waiting for a version of the plans. `t` is the time of each round, `v` the
-- counter that it reads; a negative target, which every counter passes, is left out.
use peer_wan.Prelude.{
  ℕ, zero, suc, ◌+◌, ◌*◌, ◌≤◌, ◌<◌, Option, none, some, ◌≡◌, refl, arith, ltb, Bool-cases, inl, inr,
  ◌⊎◌, if◌then◌else◌,
}

-- The rounds of `waitForVersion` from the `i`th on, with its deadline: the round in which it returns.
-- `none` is a loop that goes on.
unfoldable pub wait_rounds : (ℕ → ℕ) → (ℕ → ℕ) → ℕ → ℕ → ℕ → ℕ → Option ℕ
wait_rounds t v target deadline zero i = none
wait_rounds t v target deadline (suc rounds) i =
    let rest = wait_rounds t v target deadline rounds (suc i) in
    if ltb (t i) deadline then (if ltb target (v i) then some i else rest) else some i

-- `waitForVersion`, from the time `start`, for 41 rounds
unfoldable pub wait_for_version : (ℕ → ℕ) → (ℕ → ℕ) → ℕ → ℕ → Option ℕ
unfolding wait_rounds
wait_for_version t v target start = wait_rounds t v target (start + 20000000000) 41 0

-- It ends after at most 40 pauses, because the counter has passed the target or the time is up.
abbrev pub IsOver : (ℕ → ℕ) → (ℕ → ℕ) → ℕ → ℕ → Option ℕ → Type 0
IsOver t v target deadline none = ⊥
IsOver t v target deadline (some k) = (k ≤ 40) × ((target < v k) ⊎ (deadline ≤ t k))

module _ (t v : ℕ → ℕ) (target start : ℕ) (pause : (i : ℕ) → t i + 500000000 ≤ t (suc i)) where
  wait_rounds-IsOver :
      (rounds i : ℕ)
      → i + rounds ≡ 41
      → i ≤ 40
      → start + i * 500000000 ≤ t i
      → IsOver t v target
          (start + 20000000000)
          (wait_rounds t v target (start + 20000000000) rounds i)
  unfolding wait_rounds
  wait_rounds-IsOver zero i e le late = absurd (omega arith)
  wait_rounds-IsOver (suc rounds) i e le late =
      let deadline : ℕ = start + 20000000000 in
      elim (Bool-cases (ltb (t i) deadline)) [
        | inl early ↦ elim (Bool-cases (ltb target (v i))) [
          | inl passed ↦
              (let r : IsOver t v target deadline (wait_rounds t v target deadline (suc rounds) i) =
                  rw early (rw passed (le, inl (ground (arith, passed)))) in
                r)
          | inr short ↦
              (let before : t i < start + 20000000000 = ground (arith, early) in
                let next : IsOver t v target deadline
                    (wait_rounds t v target deadline rounds (suc i)) =
                  wait_rounds-IsOver rounds (suc i) (omega (arith, e)) (omega (arith, before, late))
                    (omega (arith, late, pause i)) in
                let r : IsOver t v target deadline
                    (wait_rounds t v target deadline (suc rounds) i) =
                  rw early (rw short next) in
                r)
        ]
        | inr due ↦
            (let r : IsOver t v target deadline (wait_rounds t v target deadline (suc rounds) i) =
                rw due (le, inr (ground (arith, due))) in
              r)
      ]

  -- Where each pause takes half a second or more and the first round is not before the start, the waiting
  -- for a version ends, after at most 40 pauses; then the counter has passed the target or 20 seconds
  -- have gone by.
  pub wait_for_version-IsOver :
      start ≤ t 0 → IsOver t v target (start + 20000000000) (wait_for_version t v target start)
  unfolding wait_for_version
  wait_for_version-IsOver first = wait_rounds-IsOver 41 0 refl (omega arith) (omega (arith, first))
