-- ===== src/Node/Store/Forgotten.antt =====
-- How many commands the compaction before a write forgets.
use uprava.Prelude.{
  ◌-◌, ℕ, zero, suc, max, ◌≡◌, refl, ap, ◌∙◌, inl, inr, true, false, not, List, [], ◌∷◌, arith,
  Text, text_eq, contains_text, text_eq_iff, Bool-cases, length, take, count_if, count_if-le-length,
  Map, get, remove, contains_key, text_eq_refl,
}
use uprava.Protocol.Domain.{CommandState}
use uprava.Node.Store.{is_removable, removable, remove_each}

-- No key twice, as in a hash map.
unfoldable pub Distinct {ℓ} : {V : Type ℓ} → Map V → Type 0
Distinct [] = Unit
Distinct ((k, v) ∷ m) = (contains_key k m ≡ false) × Distinct m

-- The commands that the compaction must keep.
abbrev pub open_commands : Map CommandState → ℕ
open_commands m = count_if (λ c. not (is_removable c.1)) m

pub contains_text-take :
    (n : ℕ) (ks : List Text) (k : Text)
    → contains_text (take n ks) k ≡ true
    → contains_text ks k ≡ true
unfolding contains_text
contains_text-take zero ks k h = ground (arith, h)
contains_text-take (suc n) [] k h = h
contains_text-take (suc n) (j ∷ ks) k h = ground (arith, h, contains_text-take n ks k)

remove-absent : {V : Type 0} (k : Text) (m : Map V) → contains_key k m ≡ false → remove k m ≡ m
unfolding remove get
remove-absent k [] h = refl
remove-absent k ((j, v) ∷ m) h = elim (Bool-cases (text_eq j k)) [
  | inl e ↦ ground (arith, e, h)
  | inr e ↦ rw e (ap (λ t. (j, v) ∷ t) (remove-absent k m (ground (arith, e, h))))
]

removable-absent :
    (k : Text) (m : Map CommandState)
    → contains_key k m ≡ false
    → contains_text (removable m) k ≡ false
unfolding removable contains_text get
removable-absent k [] h = refl
removable-absent k ((j, v) ∷ m) h = ground (arith, h, removable-absent k m)

taken-absent :
    (n : ℕ) (k : Text) (m : Map CommandState)
    → contains_key k m ≡ false
    → contains_text (take n (removable m)) k ≡ false
taken-absent n k m h = ground (arith, removable-absent k m h, contains_text-take n (removable m) k)

remove_each-cons :
    {V : Type 0} (ks : List Text) (k : Text) (v : V) (m : Map V)
    → contains_text ks k ≡ false
    → remove_each ks ((k, v) ∷ m) ≡ (k, v) ∷ remove_each ks m
unfolding remove_each remove contains_text
remove_each-cons [] k v m h = refl
remove_each-cons (j ∷ ks) k v m h = elim (Bool-cases (text_eq k j)) [
  | inl e ↦ ground (arith, e, h, text_eq_iff k j, text_eq_refl k)
  | inr e ↦ rw e (remove_each-cons ks k v (remove j m) (ground (arith, h)))
]

remove_each-head :
    {V : Type 0} (ks : List Text) (k : Text) (v : V) (m : Map V)
    → contains_key k m ≡ false
    → remove_each (k ∷ ks) ((k, v) ∷ m) ≡ remove_each ks m
unfolding remove_each remove
remove_each-head ks k v m h = rw (text_eq_refl k) (ap (remove_each ks) (remove-absent k m h))

length-remove_each-head :
    (n : ℕ) (k : Text) (status : CommandState) (m : Map CommandState)
    → contains_key k m ≡ false
    → ((j : ℕ)
        → length (remove_each (take j (removable m)) m) ≡ max (length m - j) (open_commands m))
    → length (remove_each (take n (k ∷ removable m)) ((k, status) ∷ m))
      ≡ max (suc (length m) - n) (open_commands m)
unfolding remove_each
length-remove_each-head zero k status m h ih =
    omega (arith, count_if-le-length (λ c. not (is_removable c.1)) m)
length-remove_each-head (suc n) k status m h ih =
    ap (λ t. length t) (remove_each-head (take n (removable m)) k status m h) ∙ ih n ∙ omega arith

-- Of a map without a key twice, removing the first of the removable keys leaves the others.
pub length-remove_each :
    (n : ℕ) (m : Map CommandState)
    → Distinct m
    → length (remove_each (take n (removable m)) m) ≡ max (length m - n) (open_commands m)
unfolding removable Distinct remove_each
length-remove_each zero [] d = omega arith
length-remove_each (suc n) [] d = omega arith
length-remove_each n ((k, status) ∷ m) d = elim (Bool-cases (is_removable status)) [
  | inr e ↦
      rw (e, remove_each-cons (take n (removable m)) k status m (taken-absent n k m d.0))
        (omega (arith, length-remove_each n m d.1))
  | inl e ↦ rw e (length-remove_each-head n k status m d.0 (λ j. length-remove_each j m d.1))
]
