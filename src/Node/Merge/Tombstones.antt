-- ===== src/Node/Merge/Tombstones.antt =====
-- The bounded set of deductions that were cancelled before they ran.
use uprava.Prelude.{
  ◌≤◌, ◌<◌, ◌≡◌, ◌⊎◌, inl, inr, true, Option, some, List, [], ◌∷◌, arith, Text, text_eq,
  contains_text, text_eq_iff, text_eq_refl, leb, Bool-cases, length, set_insert, set_remove,
  contains_text-set_remove,
}
use uprava.Node.Merge.{max_cancelled_deduction_tombstones, remember_cancelled_deduction}

length-set_remove-le : (k : Text) (s : List Text) → length (set_remove k s) ≤ length s
unfolding set_remove
length-set_remove-le k [] = omega arith
length-set_remove-le k (j ∷ s) = ground (arith, length-set_remove-le k s)

length-set_remove-lt :
    (k : Text) (s : List Text) → contains_text s k ≡ true → length (set_remove k s) < length s
unfolding set_remove contains_text
length-set_remove-lt k [] h = cc
length-set_remove-lt k (j ∷ s) h =
    ground (arith, length-set_remove-lt k s, length-set_remove-le k s)

module _ (iter_next : List Text → Option Text) where
  -- A hash set that is not empty gives one of its members.
  abbrev pub Picks : Type 0
  Picks =
      (s : List Text)
      → 0 < length s
      → (k : Text) × (iter_next s ≡ some k) × (contains_text s k ≡ true)

  -- Remembering a cancelled deduction keeps the set within 1024 entries, and the deduction is in it
  -- afterwards. No other deduction enters it.
  pub remember_cancelled_deduction_lem :
      Picks
      → (s : List Text) (id j : Text) → length s ≤ max_cancelled_deduction_tombstones
      → let s' = remember_cancelled_deduction iter_next s id in
        (length s' ≤ max_cancelled_deduction_tombstones)
        × (contains_text s' id ≡ true)
        × (contains_text s' j ≡ true → (text_eq id j ≡ true) ⊎ (contains_text s j ≡ true))
  unfolding remember_cancelled_deduction set_insert contains_text
  remember_cancelled_deduction_lem picks s id j h =
      elim (Bool-cases (leb max_cancelled_deduction_tombstones (length s))) [
        | inl full ↦
            let (k, e, m) = picks s (ground arith) in
            ground (
              arith,
              e,
              length-set_remove-lt k s m,
              contains_text-set_remove k j s,
              text_eq_refl id,
              text_eq_iff id j,
            )
        | inr room ↦ ground (arith, text_eq_refl id, text_eq_iff id j)
      ]
