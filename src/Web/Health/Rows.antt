-- ===== src/Web/Health/Rows.antt =====
-- The table of components/HealthHistoryModal.jsx.
use mathlib.Core.List.{Perm}
use mathlib.Core.List.Perm
use peer_wan.Prelude.{ℕ, ◌≤◌, String, List, [], ◌∷◌, arith, All, ltb, Bool-cases, inl, inr}
use peer_wan.Web.Health.{Row, insert_newest, newest_first}

module _ (time : String → ℕ) where
  abbrev pub IsNewestFirst : List Row → Type 0
  IsNewestFirst [] = Unit
  IsNewestFirst (r ∷ rest) =
      All (λ t. time t.timestamp ≤ time r.timestamp) rest × IsNewestFirst rest

  insert_newest-perm : (r : Row) (l : List Row) → Perm (insert_newest time r l) (r ∷ l)
  unfolding insert_newest
  insert_newest-perm r [] = Perm.rfl
  insert_newest-perm r (t ∷ l) = elim (Bool-cases (ltb (time r.timestamp) (time t.timestamp))) [
    | inl h ↦ rw h (Perm.trans (Perm.cons t (insert_newest-perm r l)) (Perm.swap r t l))
    | inr h ↦ rw h Perm.rfl
  ]

  All-insert_newest :
      (n : ℕ) (r : Row) (l : List Row)
      → time r.timestamp ≤ n
      → All (λ t. time t.timestamp ≤ n) l
      → All (λ t. time t.timestamp ≤ n) (insert_newest time r l)
  unfolding insert_newest
  All-insert_newest n r [] h a = (h, tt)
  All-insert_newest n r (t ∷ l) h a = ground (arith, All-insert_newest n r l h a.1)

  All-le_trans :
      (m n : ℕ) (l : List Row)
      → n ≤ m
      → All (λ t. time t.timestamp ≤ n) l
      → All (λ t. time t.timestamp ≤ m) l
  All-le_trans m n [] h a = tt
  All-le_trans m n (t ∷ l) h a = (omega arith, All-le_trans m n l h a.1)

  insert_newest-IsNewestFirst :
      (r : Row) (l : List Row) → IsNewestFirst l → IsNewestFirst (insert_newest time r l)
  unfolding insert_newest
  insert_newest-IsNewestFirst r [] a = (tt, tt)
  insert_newest-IsNewestFirst r (t ∷ l) a =
      elim (Bool-cases (ltb (time r.timestamp) (time t.timestamp))) [
        | inl h ↦ rw h (
          All-insert_newest (time t.timestamp) r l (ground arith) a.0,
          insert_newest-IsNewestFirst r l a.1,
        )
        | inr h ↦
            let le : time t.timestamp ≤ time r.timestamp = ground arith in
            rw h ((le, All-le_trans (time r.timestamp) (time t.timestamp) l le a.0), a)
      ]

  -- The table shows every row of the history once, from the newest to the oldest.
  pub newest_first_lem :
      (l : List Row) → Perm (newest_first time l) l × IsNewestFirst (newest_first time l)
  unfolding newest_first
  newest_first_lem [] = (Perm.rfl, tt)
  newest_first_lem (r ∷ l) =
      let (perm, ordered) = newest_first_lem l in
      (
        Perm.trans (insert_newest-perm r (newest_first time l)) (Perm.cons r perm),
        insert_newest-IsNewestFirst r (newest_first time l) ordered,
      )
