-- ===== src/Prelude/Maps.antt =====
-- `HashMap<String, V>` as an association list and `HashSet<String>` as a list. The order of the
-- entries stands for the order in which the hash table iterates, which a program cannot rely on.
use mathlib.Core.Path.{◌≡◌, refl}
use mathlib.Core.Bool.{Bool, not, ◌&&◌, ◌||◌}
use mathlib.Core.Option.{Option, none, some}
use mathlib.Core.List.{List, [], ◌∷◌}
use native.Mathlib.Omega.{arith}
use uprava.Prelude.Tests.{if◌then◌else◌, is_some}
use uprava.Prelude.Strings.{Text, text_eq, text_eq_iff, text_eq_refl, contains_text}

abbrev pub Map {ℓ} : Type ℓ → Type ℓ
Map V = List (Text × V)

module _ {ℓ} {V : Type ℓ} where
  unfoldable pub get : Text → Map V → Option V
  get k [] = none
  get k ((j, v) ∷ m) = if text_eq j k then some v else get k m

  unfoldable pub insert : Text → V → Map V → Map V
  insert k v [] = (k, v) ∷ []
  insert k v ((j, w) ∷ m) = if text_eq j k then (k, v) ∷ m else (j, w) ∷ insert k v m

  unfoldable pub remove : Text → Map V → Map V
  remove k [] = []
  remove k ((j, w) ∷ m) = let rest = remove k m in if text_eq j k then rest else (j, w) ∷ rest

  abbrev pub keys : Map V → List Text
  keys [] = []
  keys ((j, w) ∷ m) = j ∷ keys m

  abbrev pub contains_key : Text → Map V → Bool
  contains_key k m = is_some (get k m)

  pub get-insert :
      (k j : Text) (v : V) (m : Map V)
      → get j (insert k v m) ≡ (if text_eq k j then some v else get j m)
  unfolding get insert
  get-insert k j v [] = refl
  get-insert k j v ((i, w) ∷ m) =
      ground (arith, text_eq_iff k j, text_eq_iff i k, text_eq_iff i j, get-insert k j v m)

  pub get-remove :
      (k j : Text) (m : Map V) → get j (remove k m) ≡ (if text_eq k j then none else get j m)
  unfolding get remove
  get-remove k j [] = ground arith
  get-remove k j ((i, w) ∷ m) =
      ground (arith, get-remove k j m, text_eq_iff i k, text_eq_iff i j, text_eq_iff k j)

  pub get-insert_self : (k : Text) (v : V) (m : Map V) → get k (insert k v m) ≡ some v
  get-insert_self k v m = ground (arith, get-insert k k v m, text_eq_refl k)

-- `HashSet::insert`
unfoldable pub set_insert : Text → List Text → List Text
set_insert k s = if contains_text s k then s else k ∷ s

-- `HashSet::remove`
unfoldable pub set_remove : Text → List Text → List Text
set_remove k [] = []
set_remove k (j ∷ s) = let rest = set_remove k s in if text_eq j k then rest else j ∷ rest

pub contains_text-set_insert :
    (k j : Text) (s : List Text)
    → contains_text (set_insert k s) j ≡ (text_eq k j || contains_text s j)
unfolding set_insert contains_text
contains_text-set_insert k j s = ground (arith, text_eq_iff k j)

pub contains_text-set_remove :
    (k j : Text) (s : List Text)
    → contains_text (set_remove k s) j ≡ (not (text_eq k j) && contains_text s j)
unfolding set_remove contains_text
contains_text-set_remove k j [] = ground arith
contains_text-set_remove k j (i ∷ s) =
    ground
      (arith, contains_text-set_remove k j s, text_eq_iff i k, text_eq_iff i j, text_eq_iff k j)

pub ruleset map_laws = (get-insert, get-remove)
