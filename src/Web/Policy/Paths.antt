-- ===== src/Web/Policy/Paths.antt =====
-- `PathSelectorModal` of components/PolicyDrawer.jsx: choosing a path on the map.
use peer_wan.Prelude.{
  String, ◌==◌, Bool, true, false, ◌&&◌, ◌||◌, not, Option, none, some, List, [], ◌∷◌, ◌++◌,
  is_blank, find_first, All, ◌≡◌, ◌↔◌, refl, arith, if◌then◌else◌,
}
use peer_wan.Web.Mesh.{Link}

-- `setPath([])` when the modal opens
unfoldable pub open_selector : Bool → List String → List String
open_selector opened path = if opened then [] else path

-- `onNodeClick`: a click on the current node is ignored.
unfoldable pub click_node : Option String → String → List String → List String
click_node none id path = path ++ id ∷ []
click_node (some current) id path = if id == current then path else path ++ id ∷ []

pub record Segment : Type 0 where
  pub from : String
  pub to : String
  pub reason : Option String

abbrev pub joins : String → String → Link → Bool
joins from to l = (l.from == from) && (l.to == to) || (l.from == to) && (l.to == from)

abbrev broken : String → String → Option Link → List Segment
broken from to none = []
broken from to (some l) =
    if l.ok then [] else record { from = from; to = to; reason = l.reason } ∷ []

-- One round of the loop of `downSegments`.
unfoldable pub segment : List Link → Option String → String → List Segment
segment links none to = []
segment links (some from) to =
    if is_blank from || is_blank to then [] else broken from to (find_first (joins from to) links)

-- The loop, with the node before the next hop.
unfoldable pub down_segments : List Link → Option String → List String → List Segment
unfolding segment
down_segments links before [] = []
down_segments links before (to ∷ path) =
    segment links before to ++ down_segments links (some to) path

-- Whether the first of the links that connects the two nodes, in either direction, is down; none is not.
abbrev pub is_down : List Link → String → String → Bool
is_down [] a b = false
is_down (l ∷ links) a b =
    if ((l.from == a) && (l.to == b)) || ((l.from == b) && (l.to == a))
    then not l.ok
    else is_down links a b

-- No step of the path is down.
abbrev pub IsSound : List Link → String → List String → Type 0
IsSound links before [] = Unit
IsSound links before (to ∷ path) = (is_down links before to ≡ false) × IsSound links to path

abbrev pub NoneBlank : List String → Type 0
NoneBlank = All (λ s. is_blank s ≡ false)

abbrev is_none : List Segment → Bool
is_none [] = true
is_none (s ∷ rest) = false

is_none-broken :
    (links : List Link) (from to : String)
    → is_none (broken from to (find_first (joins from to) links)) ≡ not (is_down links from to)
is_none-broken [] from to = refl
is_none-broken (l ∷ links) from to = ground (arith, is_none-broken links from to)

none_iff : (segments : List Segment) → (segments ≡ []) ↔ (is_none segments ≡ true)
none_iff [] = ground arith
none_iff (s ∷ rest) = ground arith

segment_lem :
    (links : List Link) (from to : String)
    → is_blank from ≡ false
    → is_blank to ≡ false
    → (segment links (some from) to ≡ []) ↔ (is_down links from to ≡ false)
unfolding segment
segment_lem links from to f t = ground (
  arith,
  f,
  t,
  is_none-broken links from to,
  none_iff (broken from to (find_first (joins from to) links)),
)

append_none : {A : Type 0} (xs ys : List A) → (xs ++ ys ≡ []) ↔ ((xs ≡ []) × (ys ≡ []))
append_none [] ys = ground arith
append_none (x ∷ xs) ys = ground arith

-- For named nodes, the selector reports no broken segment exactly when on no step from the current node along
-- the chosen path the link is down: of the links that connect the step's two nodes, in either direction,
-- the first in the list counts, and a step without one is not down.
pub down_segments_iff :
    (links : List Link) (current : String) (path : List String)
    → NoneBlank (current ∷ path)
    → (down_segments links (some current) path ≡ []) ↔ IsSound links current path
unfolding down_segments
down_segments_iff links current [] named = (λ _. tt, λ _. refl)
down_segments_iff links current (to ∷ path) named = ground (
  arith,
  append_none (segment links (some current) to) (down_segments links (some to) path),
  segment_lem links current to,
  down_segments_iff links to path named.1,
)
