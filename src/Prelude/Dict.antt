-- ===== src/Prelude/Dict.antt =====
-- A Go map or a JavaScript object with text keys: an association list with one entry for each key.
-- An entry that is written again keeps its place.
use Prim.Native.String.{String}
use mathlib.Core.Path.{◌≡◌, refl}
use mathlib.Core.Bool.{◌||◌}
use mathlib.Core.Option.{Option, none, some}
use mathlib.Core.List.{List, [], ◌∷◌}
use text.Mathlib.Text.{◌==◌}
use text.Mathlib.TextEquality.{eq_iff}
use native.Mathlib.Omega.{arith}
use peer_wan.Prelude.Tests.{if◌then◌else◌}
use peer_wan.Prelude.Text.{contains, Distinct}

abbrev pub Dict {ℓ} : Type ℓ → Type ℓ
Dict V = List (String × V)

module _ {ℓ} {V : Type ℓ} where
  unfoldable pub lookup : String → Dict V → Option V
  lookup key [] = none
  lookup key ((name, value) ∷ entries) = if name == key then some value else lookup key entries

  unfoldable pub insert : String → V → Dict V → Dict V
  insert key value [] = (key, value) ∷ []
  insert key value ((name, old) ∷ entries) =
      if name == key then (name, value) ∷ entries else (name, old) ∷ insert key value entries

  abbrev pub keys : Dict V → List String
  keys [] = []
  keys ((key, value) ∷ entries) = key ∷ keys entries

  abbrev pub values : Dict V → List V
  values [] = []
  values ((key, value) ∷ entries) = value ∷ values entries

  pub lookup-insert :
      (key name : String) (value : V) (entries : Dict V)
      → lookup name (insert key value entries)
        ≡ (if key == name then some value else lookup name entries)
  unfolding lookup insert
  lookup-insert key name value [] = refl
  lookup-insert key name value ((first, old) ∷ entries) = ground (
    arith,
    lookup-insert key name value entries,
    eq_iff first name,
    eq_iff first key,
    eq_iff key name,
  )

  contains-keys-insert :
      (key name : String) (value : V) (entries : Dict V)
      → contains (keys (insert key value entries)) name
        ≡ ((key == name) || contains (keys entries) name)
  unfolding insert
  contains-keys-insert key name value [] = refl
  contains-keys-insert key name value ((first, old) ∷ entries) = ground (
    arith,
    eq_iff first key,
    eq_iff first name,
    eq_iff key name,
    contains-keys-insert key name value entries,
  )

  pub Distinct-insert :
      (key : String) (value : V) (entries : Dict V)
      → Distinct (keys entries)
      → Distinct (keys (insert key value entries))
  unfolding insert
  Distinct-insert key value [] d = (refl, tt)
  Distinct-insert key value ((first, old) ∷ entries) d = ground (
    arith,
    eq_iff first key,
    eq_iff key first,
    contains-keys-insert key first value entries,
    Distinct-insert key value entries,
  )
