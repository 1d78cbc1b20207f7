-- ===== src/Prelude/Split.antt =====
-- Splitting texts, and the decimal digits of a number.
use Prim.Native.Nat.{ℕ, zero, suc, ◌+◌, ◌-◌, ◌*◌, ◌/◌, ◌%◌, ◌^◌}
use mathlib.Core.Path.{◌≡◌, refl}
use mathlib.Core.Logic.{inl, inr}
use mathlib.Core.Bool.{false, ◌&&◌}
use mathlib.Core.Option.{Option, none, some}
use mathlib.Core.List.{List, [], ◌∷◌, ◌++◌}
use native.Mathlib.Omega.{arith}
use uprava.Prelude.Tests.{
  ltb, leb, ◌==◌, if◌then◌else◌, option_map, map_or, option_filter, Bool-cases,
}
use uprava.Prelude.Lists.{is_empty}
use uprava.Prelude.Strings.{Text, contains_char, is_whitespace}

-- `str::split_once(char)`
unfoldable pub split_once : ℕ → Text → Option (Text × Text)
split_once c [] = none
split_once c (d ∷ s) =
    let rest : Option (Text × Text) = option_map (λ r. (d ∷ r.0, r.1)) (split_once c s) in
    if c == d then some ([], s) else rest

abbrev add_to_first : ℕ → List Text → List Text
add_to_first d [] = (d ∷ []) ∷ []
add_to_first d (piece ∷ pieces) = (d ∷ piece) ∷ pieces

-- `str::split(char)`
unfoldable pub split : ℕ → Text → List Text
split c [] = [] ∷ []
split c (d ∷ s) = let rest = split c s in if c == d then [] ∷ rest else add_to_first d rest

-- `str::splitn(n, char)`
unfoldable pub splitn : ℕ → ℕ → Text → List Text
unfolding split_once
splitn zero c s = []
splitn (suc zero) c s = s ∷ []
splitn (suc (suc n)) c s = map_or (s ∷ []) (λ r. r.0 ∷ splitn (suc n) c r.1) (split_once c s)

-- `str::split_whitespace`: the pieces between white space that are not empty, after a piece that
-- has begun with the given characters
abbrev pub closing : Text → List Text → List Text
closing [] pieces = pieces
closing piece pieces = piece ∷ pieces

unfoldable pub split_whitespace_from : Text → Text → List Text
unfolding is_whitespace
split_whitespace_from piece [] = closing piece []
split_whitespace_from piece (c ∷ s) =
    let piece' = if is_whitespace c then [] else piece ++ c ∷ [] in
    let rest = split_whitespace_from piece' s in
    if is_whitespace c then closing piece rest else rest

unfoldable pub split_whitespace : Text → List Text
unfolding split_whitespace_from
split_whitespace s = split_whitespace_from [] s

-- the value of a row of decimal digits, if each character is one
unfoldable pub digits_value : ℕ → Text → Option ℕ
digits_value n [] = some n
digits_value n (c ∷ s) =
    let rest = digits_value (n * 10 + (c - 48)) s in if leb 48 c && leb c 57 then rest else none

abbrev without_plus : Text → Text
without_plus [] = []
without_plus (c ∷ s) = if c == 43 then s else c ∷ s

-- `str::parse::<u64>`: an optional plus sign and at least one digit, below 2 ^ 64
unfoldable pub parse_u64 : Text → Option ℕ
unfolding digits_value
parse_u64 s =
    let digits = without_plus s in
    if is_empty digits then none else option_filter (λ n. ltb n (2 ^ 64)) (digits_value 0 digits)

-- The decimal digits of a number: a number has no more digits than its successor counts.
unfoldable pub decimal_from : ℕ → ℕ → Text
decimal_from zero n = []
decimal_from (suc fuel) n =
    let rest = decimal_from fuel (n / 10) in
    if ltb n 10 then (48 + n) ∷ [] else rest ++ (48 + n % 10) ∷ []

-- `format!("{n}")`
unfoldable pub decimal : ℕ → Text
unfolding decimal_from
decimal n = decimal_from (suc n) n

pub split_once-append :
    (c : ℕ) (a b : Text) → contains_char c a ≡ false → split_once c (a ++ c ∷ b) ≡ some (a, b)
unfolding split_once contains_char
split_once-append c [] b h = ground arith
split_once-append c (d ∷ a) b h = elim (Bool-cases (c == d)) [
  | inl e ↦ ground arith
  | inr e ↦ ground (arith, split_once-append c a b (ground arith))
]

pub split_once-absent : (c : ℕ) (s : Text) → contains_char c s ≡ false → split_once c s ≡ none
unfolding split_once contains_char
split_once-absent c [] h = refl
split_once-absent c (d ∷ s) h = elim (Bool-cases (c == d)) [
  | inl e ↦ ground arith
  | inr e ↦ ground (arith, split_once-absent c s (ground arith))
]

-- A first piece without the separator is the first piece.
pub splitn-append :
    (n c : ℕ) (a b : Text)
    → contains_char c a ≡ false
    → splitn (suc (suc n)) c (a ++ c ∷ b) ≡ a ∷ splitn (suc n) c b
unfolding splitn
splitn-append n c a b h = rw (split_once-append c a b h) refl

pub splitn-absent : (n c : ℕ) (s : Text) → contains_char c s ≡ false → splitn (suc n) c s ≡ s ∷ []
unfolding splitn
splitn-absent zero c s h = refl
splitn-absent (suc n) c s h = rw (split_once-absent c s h) refl
