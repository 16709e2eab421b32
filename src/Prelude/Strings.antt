-- ===== src/Prelude/Strings.antt =====
-- Walks over the characters of a text: joining, splitting, trimming, stripping, decimal numbers.
use Prim.Native.Nat.{ℕ, zero, suc, ◌/◌, ◌%◌}
use Prim.Native.Char.{Char, code}
use Prim.Native.String.{String}
use Prim.Native.String
use mathlib.Core.Path.{◌≡◌, refl, ap, ◌∙◌}
use mathlib.Core.Bool.{Bool, true, false, ◌||◌, ◌&&◌, not}
use mathlib.Core.List.{List, [], ◌∷◌}
use native.Mathlib.Omega.{arith}
use peer_wan.Prelude.Tests.{eqb, if◌then◌else◌, Bool-cases}
use mathlib.Core.Logic.{inl, inr}
use text.Mathlib.TextLemmas.{nil-append, cons-append}
use peer_wan.Prelude.Lists.{All}
use peer_wan.Prelude.Text.{is_blank}

infixr 66 ◌⧺◌
-- concatenation of texts
abbrev pub ◌⧺◌ : String → String → String
s ⧺ t = String.◌++◌ s t

abbrev pub text_of : Char → String → String
text_of c s = String.◌∷◌ c s

-- `xs.join(sep)`
unfoldable pub join : String → List String → String
join sep [] = ""
join sep (x ∷ []) = x
join sep (x ∷ y ∷ ys) = x ⧺ sep ⧺ join sep (y ∷ ys)

-- Drops the longest end whose characters all pass the test.
unfoldable pub strip_end : (ℕ → Bool) → String → String
strip_end p String.[] = ""
strip_end p (String.◌∷◌ c s) =
    let rest = strip_end p s in if is_blank rest && p (code c) then "" else text_of c rest

-- Drops the longest start whose characters all pass the test.
unfoldable pub strip_start : (ℕ → Bool) → String → String
strip_start p String.[] = ""
strip_start p (String.◌∷◌ c s) = if p (code c) then strip_start p s else text_of c s

unfoldable pub no_char : (ℕ → Bool) → String → Bool
no_char p String.[] = true
no_char p (String.◌∷◌ c s) = not (p (code c)) && no_char p s

-- The last character does not pass the test.
unfoldable pub ends_clear : (ℕ → Bool) → String → Bool
ends_clear p String.[] = true
ends_clear p (String.◌∷◌ c s) = if is_blank s then not (p (code c)) else ends_clear p s

abbrev pub cons_head : Char → List String → List String
cons_head c [] = text_of c "" ∷ []
cons_head c (x ∷ xs) = text_of c x ∷ xs

-- `s.split(',')`
unfoldable pub split_commas : String → List String
split_commas String.[] = "" ∷ []
split_commas (String.◌∷◌ c s) =
    if eqb (code c) b',' then "" ∷ split_commas s else cons_head c (split_commas s)

abbrev pub digit_char : ℕ → Char
digit_char d =
    if eqb d 0
    then "0"
    else if eqb d 1
    then "1"
    else if eqb d 2
    then "2"
    else if eqb d 3
    then "3"
    else if eqb d 4
    then "4"
    else if eqb d 5
    then "5"
    else if eqb d 6
    then "6"
    else if eqb d 7
    then "7"
    else if eqb d 8
    then "8"
    else "9"

-- The decimal digits of `n` in front of `acc`, at most `fuel` of them.
unfoldable pub decimal_digits : ℕ → ℕ → String → String
decimal_digits zero n acc = acc
decimal_digits (suc fuel) n acc =
    let rest = decimal_digits fuel (n / 10) (text_of (digit_char (n % 10)) acc) in
    if eqb n 0 then acc else rest

-- `strconv.Itoa`, and `'' + n` in JavaScript
unfoldable pub decimal : ℕ → String
unfolding decimal_digits
decimal n = if eqb n 0 then "0" else decimal_digits n n ""

decimal_test : decimal 8082 ≡ "8082"
unfolding decimal
decimal_test = refl

unfoldable pub is_comma : ℕ → Bool
is_comma c = eqb c b','

pub strip_end-ends_clear : (p : ℕ → Bool) (s : String) → ends_clear p (strip_end p s) ≡ true
unfolding strip_end ends_clear
strip_end-ends_clear p String.[] = refl
strip_end-ends_clear p (String.◌∷◌ c s) = go (strip_end p s) (strip_end-ends_clear p s)
  where
    go :
        (r : String)
        → ends_clear p r ≡ true
        → ends_clear p (if is_blank r && p (code c) then "" else text_of c r) ≡ true
    go String.[] h = elim (Bool-cases (p (code c))) [ inl e ↦ rw e refl | inr e ↦ rw e (rw e) ]
    go (String.◌∷◌ d r) h = h

pub strip_end_clear : (p : ℕ → Bool) (s : String) → ends_clear p s ≡ true → strip_end p s ≡ s
unfolding strip_end ends_clear
strip_end_clear p String.[] h = refl
strip_end_clear p (String.◌∷◌ c String.[]) h = ground arith
strip_end_clear p (String.◌∷◌ c (String.◌∷◌ d s)) h = rw (strip_end_clear p (String.◌∷◌ d s) h)

-- Text with no comma in front of a comma is the first piece.
split_commas-piece :
    (x rest : String)
    → no_char is_comma x ≡ true
    → split_commas (x ⧺ "," ⧺ rest) ≡ x ∷ split_commas rest
unfolding split_commas no_char is_comma
split_commas-piece String.[] rest h = rw nil-append (rw cons-append (rw nil-append))
split_commas-piece (String.◌∷◌ c x) rest h =
    rw cons-append (ground (arith, split_commas-piece x rest))

split_commas-single : (x : String) → no_char is_comma x ≡ true → split_commas x ≡ x ∷ []
unfolding split_commas no_char is_comma
split_commas-single String.[] h = refl
split_commas-single (String.◌∷◌ c x) h = ground (arith, split_commas-single x)

-- Splitting what was joined with commas gives the pieces back, where no piece has a comma.
pub split_commas-join :
    (x : String) (xs : List String)
    → All (λ s. no_char is_comma s ≡ true) (x ∷ xs)
    → split_commas (join "," (x ∷ xs)) ≡ x ∷ xs
unfolding join
split_commas-join x [] h = split_commas-single x h.0
split_commas-join x (y ∷ ys) h =
    split_commas-piece x (join "," (y ∷ ys)) h.0 ∙ ap (◌∷◌ x) (split_commas-join y ys h.1)

-- `s.startsWith(t)`
unfoldable pub begins_with : String → String → Bool
begins_with s String.[] = true
begins_with String.[] (String.◌∷◌ d t) = false
begins_with (String.◌∷◌ c s) (String.◌∷◌ d t) = eqb (code c) (code d) && begins_with s t

-- `s.includes(t)`
unfoldable pub includes : String → String → Bool
unfolding begins_with
includes String.[] t = is_blank t
includes (String.◌∷◌ c s) t = begins_with (String.◌∷◌ c s) t || includes s t

-- The first character does not pass the test.
unfoldable pub starts_clear : (ℕ → Bool) → String → Bool
starts_clear p String.[] = true
starts_clear p (String.◌∷◌ c s) = not (p (code c))

pub strip_start-starts_clear : (p : ℕ → Bool) (s : String) → starts_clear p (strip_start p s) ≡ true
unfolding strip_start starts_clear
strip_start-starts_clear p String.[] = refl
strip_start-starts_clear p (String.◌∷◌ c s) = elim (Bool-cases (p (code c))) [
  | inl e ↦ rw e (strip_start-starts_clear p s)
  | inr e ↦ rw e (rw e)
]

pub strip_start_clear : (p : ℕ → Bool) (s : String) → starts_clear p s ≡ true → strip_start p s ≡ s
unfolding strip_start starts_clear
strip_start_clear p String.[] h = refl
strip_start_clear p (String.◌∷◌ c s) h = ground arith

pub starts_clear-strip_end :
    (p : ℕ → Bool) (s : String) → starts_clear p s ≡ true → starts_clear p (strip_end p s) ≡ true
unfolding strip_end starts_clear
starts_clear-strip_end p String.[] h = refl
starts_clear-strip_end p (String.◌∷◌ c s) h =
    elim (Bool-cases (is_blank (strip_end p s) && p (code c))) [
      | inl e ↦ rw e refl
      | inr e ↦ rw e h
    ]

pub no_char-strip_start :
    (q p : ℕ → Bool) (s : String) → no_char q s ≡ true → no_char q (strip_start p s) ≡ true
unfolding strip_start no_char
no_char-strip_start q p String.[] h = refl
no_char-strip_start q p (String.◌∷◌ c s) h = elim (Bool-cases (p (code c))) [
  | inl e ↦ rw e (no_char-strip_start q p s (ground arith))
  | inr e ↦ rw e h
]

pub no_char-strip_end :
    (q p : ℕ → Bool) (s : String) → no_char q s ≡ true → no_char q (strip_end p s) ≡ true
unfolding strip_end no_char
no_char-strip_end q p String.[] h = refl
no_char-strip_end q p (String.◌∷◌ c s) h =
    elim (Bool-cases (is_blank (strip_end p s) && p (code c))) [
      | inl e ↦ rw e refl
      | inr e ↦ rw e (ground (arith, no_char-strip_end q p s))
    ]

no_comma_head :
    (c : Char) (pieces : List String)
    → eqb (code c) b',' ≡ false
    → All (λ x. no_char is_comma x ≡ true) pieces
    → All (λ x. no_char is_comma x ≡ true) (cons_head c pieces)
unfolding no_char is_comma
no_comma_head c [] e h = (ground arith, tt)
no_comma_head c (x ∷ xs) e h = (ground arith, h.1)

pub split_commas-no_comma : (s : String) → All (λ x. no_char is_comma x ≡ true) (split_commas s)
unfolding split_commas
split_commas-no_comma String.[] = (unfold no_char in refl, tt)
split_commas-no_comma (String.◌∷◌ c s) = elim (Bool-cases (eqb (code c) b',')) [
  | inl e ↦ rw e (unfold no_char in refl, split_commas-no_comma s)
  | inr e ↦ rw e (no_comma_head c (split_commas s) e (split_commas-no_comma s))
]
