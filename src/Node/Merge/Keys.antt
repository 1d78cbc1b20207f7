-- ===== src/Node/Merge/Keys.antt =====
-- What `merge_changed_map` does to each key.
use uprava.Prelude.{
  ◌≡◌, refl, ap, ◌∙◌, false, ◌||◌, Option, none, some, List, [], ◌∷◌, ◌++◌, arith, Text, text_eq,
  contains_text, text_eq_iff, if◌then◌else◌, Map, get, keys, get-insert, get-remove,
  contains_text-set_insert,
}
use uprava.Node.Merge.{merged, merge_key_with, merge_keys, key_set, merge_changed_map}

module _ {ℓ} {V : Type ℓ} (dec : Discrete V) where
  get-merge_key_with :
      (k j : Text) (b c : Option V) (owner : Map V)
      → get j (merge_key_with dec k b c owner)
        ≡ (if text_eq k j then merged dec (get k owner) b c else get j owner)
  get-merge_key_with k j (some p) (some n) owner =
      ground (arith, get-insert k j n owner, text_eq_iff k j)
  get-merge_key_with k j none (some n) owner =
      ground (arith, get-insert k j n owner, text_eq_iff k j)
  get-merge_key_with k j (some p) none owner = ground (arith, get-remove k j owner, text_eq_iff k j)
  get-merge_key_with k j none none owner = ground (arith, text_eq_iff k j)

  -- Merging a key a second time changes nothing.
  merged_idem : (o b c : Option V) → merged dec (merged dec o b c) b c ≡ merged dec o b c
  merged_idem o b c = ground arith

  module _ (baseline candidate : Map V) (j : Text) where
    get-merge_keys :
        (ks : List Text) (owner : Map V)
        → get j (merge_keys dec ks owner baseline candidate) ≡ (
            if contains_text ks j
            then merged dec (get j owner) (get j baseline) (get j candidate)
            else get j owner)
    unfolding merge_keys contains_text
    get-merge_keys [] owner = refl
    get-merge_keys (k ∷ ks) owner =
        let owner' = merge_key_with dec k (get k baseline) (get k candidate) owner in
        ground (
          arith,
          get-merge_keys ks owner',
          get-merge_key_with k j (get k baseline) (get k candidate) owner,
          merged_idem (get j owner) (get j baseline) (get j candidate),
          text_eq_iff k j,
        )

  contains_text-key_set :
      (ks : List Text) (j : Text) → contains_text (key_set dec ks) j ≡ contains_text ks j
  unfolding key_set contains_text
  contains_text-key_set [] j = refl
  contains_text-key_set (k ∷ ks) j =
      contains_text-set_insert k j (key_set dec ks)
      ∙ ap (λ b. text_eq k j || b) (contains_text-key_set ks j)

  contains_text-append :
      (xs ys : List Text) (j : Text)
      → contains_text (xs ++ ys) j ≡ (contains_text xs j || contains_text ys j)
  unfolding contains_text
  contains_text-append [] ys j = refl
  contains_text-append (x ∷ xs) ys j = ground (arith, contains_text-append xs ys j)

  get-eq-none : (m : Map V) (j : Text) → contains_text (keys m) j ≡ false → get j m ≡ none
  unfolding get contains_text
  get-eq-none [] j h = refl
  get-eq-none ((k, v) ∷ m) j h = ground (arith, get-eq-none m j)

  -- Each key of the merged map is decided by its values in the owner, the baseline and the
  -- candidate: a value that the candidate changed or added replaces the owner's, a value that the
  -- candidate removed is removed if the owner still holds the baseline's value of it, and the owner
  -- keeps its own value in every other case.
  pub get-merge_changed_map :
      (owner baseline candidate : Map V) (j : Text)
      → get j (merge_changed_map dec owner baseline candidate)
        ≡ merged dec (get j owner) (get j baseline) (get j candidate)
  unfolding merge_changed_map
  get-merge_changed_map owner baseline candidate j = ground (
    arith,
    get-merge_keys baseline candidate j (key_set dec (keys baseline ++ keys candidate)) owner,
    contains_text-key_set (keys baseline ++ keys candidate) j,
    contains_text-append (keys baseline) (keys candidate) j,
    get-eq-none baseline j,
    get-eq-none candidate j,
  )
