-- ===== src/Web/Mesh/Drawing.antt =====
-- What the map of components/MeshStatus.jsx shows.
use mathlib.Core.Path.{fun_ext}
use peer_wan.Prelude.{
  ℕ, String, eq_iff, Bool, true, false, ◌&&◌, ◌||◌, Option, none, some, List, [], ◌∷◌, map, ◌≡◌,
  refl, ap, ap₂, ◌∙◌, ◌↔◌, ◌⊎◌, arith, keep, All, contains, is_some, length, if◌then◌else◌,
}
use peer_wan.Prelude.Dict.{Dict, lookup, insert, lookup-insert}
use peer_wan.Web.Mesh.{
  Numbers, Link, hop_key, path_set, highlighted, normal, Point, MeshNode, place_all, positions,
  lines, add_line, dots, mesh_map, place,
}

module _ (N : Numbers) where
  abbrev pub ids : List (MeshNode N) → List String
  ids = map (λ n. n.id)

  lookup-place_all :
      (count : ℕ) (nodes : List (MeshNode N)) (unknown : ℕ) (acc : Dict (Point N)) (k : String)
      → is_some (lookup k (place_all N count nodes unknown acc))
        ≡ (contains (ids nodes) k || is_some (lookup k acc))
  unfolding place_all
  lookup-place_all count [] unknown acc k = refl
  lookup-place_all count (n ∷ rest) unknown acc k =
      rw (lookup-place_all count rest next (insert n.id pos acc) k, lookup-insert n.id k pos acc)
        (ground (arith, eq_iff n.id k))
    where
      next : ℕ
      next = (place N count unknown n.lat n.lng).1

      pos : Point N
      pos = (place N count unknown n.lat n.lng).0

  lookup-positions :
      (nodes : List (MeshNode N)) (k : String)
      → is_some (lookup k (positions N nodes)) ≡ contains (ids nodes) k
  unfolding positions lookup
  lookup-positions nodes k = ground (arith, lookup-place_all (length nodes) nodes 0 [] k)

  lines_lem :
      (pos : Dict (Point N)) (set : List String) (links : List Link)
      → map (λ l. l.link) (lines N pos set links)
        ≡ keep (λ l. is_some (lookup l.from pos) && is_some (lookup l.to pos)) links
  unfolding lines
  lines_lem pos set [] = refl
  lines_lem pos set (l ∷ links) = ground (arith, lines_lem pos set links)

  dots_lem :
      (pos : Dict (Point N)) (links : List Link) (nodes : List (MeshNode N))
      → map (λ d. d.id) (dots N pos links nodes)
        ≡ map (λ n. n.id) (keep (λ n. is_some (lookup n.id pos)) nodes)
  unfolding dots
  dots_lem pos links [] = refl
  dots_lem pos links (n ∷ nodes) = ground (arith, dots_lem pos links nodes)

  keep_known :
      (known : List (MeshNode N)) (nodes : List (MeshNode N))
      → All (λ n. contains (ids known) n.id ≡ true) nodes
      → map (λ n. n.id) (keep (λ n. contains (ids known) n.id) nodes) ≡ ids nodes
  keep_known known [] h = refl
  keep_known known (n ∷ nodes) h = ground (arith, keep_known known nodes h.1)

  known_weaken :
      (m : MeshNode N) (known nodes : List (MeshNode N))
      → All (λ n. contains (ids known) n.id ≡ true) nodes
      → All (λ n. contains (ids (m ∷ known)) n.id ≡ true) nodes
  known_weaken m known [] h = tt
  known_weaken m known (n ∷ nodes) h = (ground arith, known_weaken m known nodes h.1)

  known_self : (nodes : List (MeshNode N)) → All (λ n. contains (ids nodes) n.id ≡ true) nodes
  known_self [] = tt
  known_self (n ∷ nodes) =
      (ground (arith, eq_iff n.id n.id), known_weaken n nodes nodes (known_self nodes))

  -- The map shows every node, once and in order, and draws a line for exactly the links whose two
  -- ends are both nodes of the mesh, in their order.
  pub mesh_map_lem :
      (nodes : List (MeshNode N)) (links : List Link) (highlight : List String)
      → (map (λ d. d.id) (mesh_map N nodes links highlight).dots_drawn ≡ ids nodes)
        × (map (λ l. l.link) (mesh_map N nodes links highlight).lines_drawn
            ≡ keep (λ l. contains (ids nodes) l.from && contains (ids nodes) l.to) links)
  unfolding mesh_map
  mesh_map_lem nodes links highlight = (
    dots_lem (positions N nodes) links nodes
        ∙ rw (fun_ext (λ (n : MeshNode N). lookup-positions nodes n.id))
            (keep_known nodes nodes (known_self nodes)),
    lines_lem (positions N nodes) (path_set highlight) links
        ∙ ap (λ (p : Link → Bool). keep p links)
            (fun_ext (λ l. ap₂ ◌&&◌ (lookup-positions nodes l.from) (lookup-positions nodes l.to))),
  )

-- `k` names a step of the path, in one of its two directions.
abbrev pub StepOf : String → List String → Type 0
StepOf k [] = ⊥
StepOf k (a ∷ []) = ⊥
StepOf k (a ∷ b ∷ rest) = (k ≡ hop_key a b) ⊎ (k ≡ hop_key b a) ⊎ StepOf k (b ∷ rest)

contains-path_set :
    (path : List String) (k : String) → (contains (path_set path) k ≡ true) ↔ StepOf k path
unfolding path_set
contains-path_set [] k = ground arith
contains-path_set (a ∷ []) k = ground arith
contains-path_set (a ∷ b ∷ rest) k =
    ground (arith, eq_iff (hop_key a b) k, eq_iff (hop_key b a) k, contains-path_set (b ∷ rest) k)

module _ (N : Numbers) where
  lines-width :
      (pos : Dict (Point N)) (path : List String) (links : List Link)
      → All
          (λ l. (l.width ≡ highlighted) ↔ StepOf (hop_key l.link.from l.link.to) path)
          (lines N pos (path_set path) links)
  unfolding lines
  lines-width pos path [] = tt
  lines-width pos path (l ∷ links) =
      go (lookup l.from pos) (lookup l.to pos) (lines-width pos path links)
    where
      k : String
      k = hop_key l.from l.to

      width_iff :
          (b : Bool)
          → ((b ≡ true) ↔ StepOf k path)
          → ((if b then highlighted else normal) ≡ highlighted) ↔ StepOf k path
      width_iff true h = (λ _. h.0 refl, λ _. refl)
      width_iff false h = (λ e. absurd (cc), λ s. cc (h.1 s))

      go :
          (a b : Option (Point N))
          → All
              (λ l. (l.width ≡ highlighted) ↔ StepOf (hop_key l.link.from l.link.to) path)
              (lines N pos (path_set path) links)
          → All
              (λ l. (l.width ≡ highlighted) ↔ StepOf (hop_key l.link.from l.link.to) path)
              (add_line N (path_set path) l a b (lines N pos (path_set path) links))
      go (some a) (some b) ih =
          (width_iff (contains (path_set path) k) (contains-path_set path k), ih)
      go none b ih = ih
      go (some a) none ih = ih

  -- A drawn line is wide exactly when it runs between two neighbours of the highlighted path, in
  -- either direction.
  pub mesh_map-width :
      (nodes : List (MeshNode N)) (links : List Link) (highlight : List String)
      → All
          (λ l. (l.width ≡ highlighted) ↔ StepOf (hop_key l.link.from l.link.to) highlight)
          (mesh_map N nodes links highlight).lines_drawn
  unfolding mesh_map
  mesh_map-width nodes links highlight = lines-width (positions N nodes) highlight links
