-- ===== src/Topology/Sort.antt =====
-- The stable sort of pkg/topology/plan.go against what `sort.SliceStable` promises.
use mathlib.Core.List.{Perm}
use mathlib.Core.List.Perm
use peer_wan.Prelude.{
  ℕ, ◌≤◌, List, [], ◌∷◌, ◌≡◌, refl, arith, All, keep, ltb, eqb, Bool-cases, inl, inr,
}
use peer_wan.Topology.{Scored, insert_stable, sort_stable}

abbrev pub IsAscending : List Scored → Type 0
IsAscending [] = Unit
IsAscending (s ∷ rest) = All (λ t. s.score ≤ t.score) rest × IsAscending rest

-- The elements of one score, in order.
abbrev pub of_score : ℕ → List Scored → List Scored
of_score n = keep (λ s. eqb s.score n)

pub record IsStableSort (given sorted : List Scored) : Type 0 where
  pub perm : Perm sorted given
  pub ascending : IsAscending sorted
  pub stable : (n : ℕ) → of_score n sorted ≡ of_score n given

insert_stable-perm : (s : Scored) (l : List Scored) → Perm (insert_stable s l) (s ∷ l)
unfolding insert_stable
insert_stable-perm s [] = Perm.rfl
insert_stable-perm s (t ∷ l) = elim (Bool-cases (ltb t.score s.score)) [
  | inl h ↦ rw h (Perm.trans (Perm.cons t (insert_stable-perm s l)) (Perm.swap s t l))
  | inr h ↦ rw h Perm.rfl
]

All-insert_stable :
    (n : ℕ) (s : Scored) (l : List Scored)
    → n ≤ s.score
    → All (λ t. n ≤ t.score) l
    → All (λ t. n ≤ t.score) (insert_stable s l)
unfolding insert_stable
All-insert_stable n s [] h a = (h, tt)
All-insert_stable n s (t ∷ l) h a = ground (arith, All-insert_stable n s l h a.1)

All-le_trans :
    (m n : ℕ) (l : List Scored) → m ≤ n → All (λ t. n ≤ t.score) l → All (λ t. m ≤ t.score) l
All-le_trans m n [] h a = tt
All-le_trans m n (t ∷ l) h a = (omega arith, All-le_trans m n l h a.1)

insert_stable-IsAscending :
    (s : Scored) (l : List Scored) → IsAscending l → IsAscending (insert_stable s l)
unfolding insert_stable
insert_stable-IsAscending s [] a = (tt, tt)
insert_stable-IsAscending s (t ∷ l) a = elim (Bool-cases (ltb t.score s.score)) [
  | inl h ↦
      rw h (All-insert_stable t.score s l (ground arith) a.0, insert_stable-IsAscending s l a.1)
  | inr h ↦
      let le : s.score ≤ t.score = ground arith in
      rw h ((le, All-le_trans s.score t.score l le a.0), a)
]

of_score-insert_stable :
    (n : ℕ) (s : Scored) (l : List Scored) → of_score n (insert_stable s l) ≡ of_score n (s ∷ l)
unfolding insert_stable
of_score-insert_stable n s [] = refl
of_score-insert_stable n s (t ∷ l) = elim (Bool-cases (ltb t.score s.score)) [
  | inl h ↦ rw h (ground (arith, of_score-insert_stable n s l))
  | inr h ↦ rw h
]

pub sort_stable-IsStableSort : (l : List Scored) → IsStableSort l (sort_stable l)
unfolding sort_stable
sort_stable-IsStableSort [] = record { perm = Perm.rfl; ascending = tt; stable = λ n. refl }
sort_stable-IsStableSort (s ∷ l) =
    let ih = sort_stable-IsStableSort l in
    record {
      perm = Perm.trans (insert_stable-perm s (sort_stable l)) (Perm.cons s ih.perm);
      ascending = insert_stable-IsAscending s (sort_stable l) ih.ascending;
      stable = λ n. ground (arith, of_score-insert_stable n s (sort_stable l), ih.stable n);
    }
