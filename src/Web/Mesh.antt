-- ===== src/Web/Mesh.antt =====
-- frontend/src/components/MeshStatus.jsx: the map of nodes and links, and the list of broken links.
-- Coordinates are JavaScript numbers; their arithmetic is a parameter.
pub mod Drawing
use peer_wan.Prelude.{
  ℕ, zero, suc, ◌+◌, ◌-◌, String, ◌==◌, Bool, true, false, ◌&&◌, ◌||◌, not, Option, none, some,
  List, [], ◌∷◌, ◌⧺◌, length, keep, any_of, contains, decimal, ltb, if◌then◌else◌,
}
use peer_wan.Prelude.Dict.{Dict, lookup, insert}

-- JavaScript's numbers, as far as the map computes with them.
pub record Numbers : Type 1 where
  pub F : Type 0
  pub of_ℕ : ℕ → F
  pub plus : F → F → F
  pub minus : F → F → F
  pub times : F → F → F
  pub over : F → F → F
  pub cos : F → F
  pub sin : F → F
  pub pi : F

-- `data.links` of the mesh status
pub record Link : Type 0 where
  pub from : String
  pub to : String
  pub ok : Bool
  pub reason : Option String

-- The links that `MeshStatus` lists under `异常段`.
unfoldable pub down_links : List Link → List Link
down_links = keep (λ l. not l.ok)

-- `${a}->${b}`
abbrev pub hop_key : String → String → String
hop_key a b = a ⧺ "->" ⧺ b

-- `pathSet`: both directions of each step of the path
unfoldable pub path_set : List String → List String
path_set [] = []
path_set (a ∷ []) = []
path_set (a ∷ b ∷ rest) = hop_key a b ∷ hop_key b a ∷ path_set (b ∷ rest)

pub data Width : Type 0 where
  highlighted normal : Width

module _ (N : Numbers) where
  open N use {F, of_ℕ, plus, minus, times, over, cos, sin, pi}

  pub record Point : Type 0 where
    pub x : F
    pub y : F

  -- `n.location`, where present, with `lat` and `lng` where they are numbers
  pub record MeshNode : Type 0 where
    pub id : String
    pub lat : Option F
    pub lng : Option F
    pub current : Bool

  abbrev located : F → F → Point
  located lat lng = record {
    x = times (over (plus lng (of_ℕ 180)) (of_ℕ 360)) (of_ℕ 900);
    y = times (over (minus (of_ℕ 90) lat) (of_ℕ 180)) (of_ℕ 420);
  }

  -- `Math.max(nodes.length, 1)`
  abbrev at_least_one : ℕ → ℕ
  at_least_one n = if ltb n 1 then 1 else n

  abbrev angle : ℕ → ℕ → F
  angle index count = times (times (over (of_ℕ index) (of_ℕ (at_least_one count))) pi) (of_ℕ 2)

  abbrev on_circle : ℕ → ℕ → Point
  on_circle index count = record {
    x = plus (over (of_ℕ 900) (of_ℕ 2)) (times (cos (angle index count)) (of_ℕ 180));
    y = plus (over (of_ℕ 420) (of_ℕ 2)) (times (sin (angle index count)) (of_ℕ 120));
  }

  -- The place of one node, and how many nodes without a place have been met.
  abbrev place : ℕ → ℕ → Option F → Option F → Point × ℕ
  place count unknown (some lat) (some lng) = (located lat lng, unknown)
  place count unknown _ _ = (on_circle unknown count, unknown + 1)

  unfoldable pub place_all : ℕ → List MeshNode → ℕ → Dict Point → Dict Point
  place_all count [] unknown acc = acc
  place_all count (n ∷ rest) unknown acc =
      let (pos, unknown') = place count unknown n.lat n.lng in
      place_all count rest unknown' (insert n.id pos acc)

  unfoldable pub positions : List MeshNode → Dict Point
  unfolding place_all
  positions nodes = place_all (length nodes) nodes 0 []

  pub record Line : Type 0 where
    pub link : Link
    pub start : Point
    pub finish : Point
    pub color : String
    pub dashes : String
    pub width : Width

  abbrev pub line_of : List String → Link → Point → Point → Line
  line_of set l a b = record {
    link = l;
    start = a;
    finish = b;
    color = if l.ok then "#38f39d" else "#ff4d4f";
    dashes = if l.ok then "4 0" else "6 4";
    width = if contains set (hop_key l.from l.to) then highlighted else normal;
  }

  abbrev pub add_line : List String → Link → Option Point → Option Point → List Line → List Line
  add_line set l (some a) (some b) rest = line_of set l a b ∷ rest
  add_line set l _ _ rest = rest

  -- `links.map`, without the entries that are `null`
  unfoldable pub lines : Dict Point → List String → List Link → List Line
  lines pos set [] = []
  lines pos set (l ∷ rest) =
      add_line set l (lookup l.from pos) (lookup l.to pos) (lines pos set rest)

  unfoldable pub is_critical : List Link → String → Bool
  is_critical links id = any_of (λ l. not l.ok && ((l.from == id) || (l.to == id))) links

  pub record Dot : Type 0 where
    pub id : String
    pub at : Point
    pub size : ℕ
    pub critical : Bool

  abbrev add_dot : List Link → MeshNode → Option Point → List Dot → List Dot
  add_dot links n none rest = rest
  add_dot links n (some pos) rest =
      record {
        id = n.id;
        at = pos;
        size = if n.current then 16 else 12;
        critical = is_critical links n.id;
      }
      ∷ rest

  -- `nodes.map`
  unfoldable pub dots : Dict Point → List Link → List MeshNode → List Dot
  unfolding is_critical
  dots pos links [] = []
  dots pos links (n ∷ rest) = add_dot links n (lookup n.id pos) (dots pos links rest)

  pub record MapView : Type 0 where
    pub lines_drawn : List Line
    pub dots_drawn : List Dot

  -- `MeshMap`
  unfoldable pub mesh_map : List MeshNode → List Link → List String → MapView
  unfolding positions path_set lines dots
  mesh_map nodes links highlight = record {
    lines_drawn = lines (positions nodes) (path_set highlight) links;
    dots_drawn = dots (positions nodes) links nodes;
  }
