-- ===== src/Server/Ingest/Missed.antt =====
-- When numbers are missing between those that Core has of a scope and the number of an event.
use uprava.Prelude.{
  ◌≡◌, refl, ap, ◌∙◌, inl, inr, Bool, false, ◌&&◌, not, Option, none, some, List, [], ◌∷◌, arith,
  zero, suc, Bool-cases, if◌then◌else◌, is_empty, unwrap_or, all, All, maxℤ, leℤ, ◌≤ℤ◌, ℤ, pos,
  negsuc, i64_succ,
}
use uprava.Protocol.Event.{EventEnvelope}
use uprava.Server.Support.{scope_key}
use uprava.Server.Tables.{Db, max_value, greater}
use uprava.Server.Ingest.{ltℤ, in_scope, expected_seq, is_task_scope, stream_gap}
use uprava.Server.Publication.Values.{values, with_value, Below, max_value-Below}

-- A number is missing below `seq`: it is past the successor of every number that is there, or past 1
-- if none is there.
unfoldable pub skips : ℤ → List ℤ → Bool
skips seq [] = ltℤ (pos 1) seq
skips seq (n ∷ ns) = all (λ m. ltℤ (i64_succ m) seq) (n ∷ ns)

i64_succ-mono : (n m : ℤ) → n ≤ℤ m → Below m → i64_succ n ≤ℤ i64_succ m
i64_succ-mono (pos n) (pos m) h k = ground (arith, h, k)
i64_succ-mono (pos n) (negsuc zero) h k = ground (arith, h, k)
i64_succ-mono (pos n) (negsuc (suc m)) h k = ground (arith, h, k)
i64_succ-mono (negsuc zero) (pos m) h k = ground (arith, h, k)
i64_succ-mono (negsuc zero) (negsuc zero) h k = ground (arith, h, k)
i64_succ-mono (negsuc zero) (negsuc (suc m)) h k = ground (arith, h, k)
i64_succ-mono (negsuc (suc n)) (pos m) h k = ground (arith, h, k)
i64_succ-mono (negsuc (suc n)) (negsuc zero) h k = ground (arith, h, k)
i64_succ-mono (negsuc (suc n)) (negsuc (suc m)) h k = ground (arith, h, k)

ltℤ-smaller : (a b seq : ℤ) → a ≤ℤ b → ltℤ b seq ≡ (ltℤ a seq && ltℤ b seq)
ltℤ-smaller a b seq h = ground (arith, h)

ltℤ-maxℤ :
    (n m seq : ℤ)
    → Below n
    → Below m
    → ltℤ (i64_succ (maxℤ n m)) seq ≡ (ltℤ (i64_succ n) seq && ltℤ (i64_succ m) seq)
ltℤ-maxℤ n m seq h k = elim (Bool-cases (leℤ n m)) [
  | inl e ↦
      rw e (ltℤ-smaller (i64_succ n) (i64_succ m) seq (i64_succ-mono n m (ground (arith, e)) k))
  | inr e ↦ rw e (
      ltℤ-smaller (i64_succ m) (i64_succ n) seq (i64_succ-mono m n (ground (arith, e)) h)
      ∙ ground arith)
]

module _ (seq : ℤ) where
  -- The maximum of the numbers decides for all of them.
  abbrev Decides : Option ℤ → List ℤ → Type 0
  Decides none ns = ns ≡ []
  Decides (some n) ns =
      (is_empty ns ≡ false) × (ltℤ (i64_succ n) seq ≡ all (λ m. ltℤ (i64_succ m) seq) ns)

  greater-Decides :
      (o rest : Option ℤ) (ns : List ℤ)
      → All Below (with_value o ns)
      → Below (unwrap_or rest (pos 0))
      → Decides rest ns
      → Decides (greater o rest) (with_value o ns)
  greater-Decides none rest ns b k d = d
  greater-Decides (some n) none ns b k d = (refl, rw d (ground arith))
  greater-Decides (some n) (some m) ns b k d =
      (refl, ltℤ-maxℤ n m seq b.0 k ∙ ap (λ t. ltℤ (i64_succ n) seq && t) d.1)

  with_value-tail : (o : Option ℤ) (ns : List ℤ) → All Below (with_value o ns) → All Below ns
  with_value-tail none ns h = h
  with_value-tail (some n) ns h = h.1

  max_value-Decides {ℓ} :
      {A : Type ℓ} (f : A → Option ℤ) (xs : List A)
      → All Below (values f xs)
      → Decides (max_value f xs) (values f xs)
  unfolding values max_value
  max_value-Decides f [] h = refl
  max_value-Decides f (x ∷ xs) h =
      let rest = with_value-tail (f x) (values f xs) h in
      greater-Decides (f x) (max_value f xs) (values f xs) h (max_value-Below f xs rest)
        (max_value-Decides f xs rest)

  Decides-skips :
      (o : Option ℤ) (ns : List ℤ)
      → Decides o ns
      → ltℤ (i64_succ (unwrap_or o (pos 0))) seq ≡ skips seq ns
  unfolding skips
  Decides-skips none ns d = rw d refl
  Decides-skips (some n) [] d = ground (arith, d)
  Decides-skips (some n) (m ∷ ns) d = d.1

  -- Whether the number comes after the one that is next, told by the numbers themselves.
  pub ltℤ-max_value {ℓ} :
      {A : Type ℓ} (f : A → Option ℤ) (xs : List A)
      → All Below (values f xs)
      → ltℤ (i64_succ (unwrap_or (max_value f xs) (pos 0))) seq ≡ skips seq (values f xs)
  ltℤ-max_value f xs h = Decides-skips (max_value f xs) (values f xs) (max_value-Decides f xs h)

-- The event comes behind others of its scope that Core does not have. The numbers of a task run do
-- not count.
unfoldable pub is_behind_gap : EventEnvelope → Db → Bool
unfolding skips
is_behind_gap event db =
    not (is_task_scope event.scope_ref)
    && skips event.seq (values (in_scope (scope_key event.scope_ref)) db.events)

-- The test of the code, against the numbers of the stored events.
pub stream_gap-is_behind_gap :
    (event : EventEnvelope) (db : Db)
    → All Below (values (in_scope (scope_key event.scope_ref)) db.events)
    → stream_gap event db ≡ (
        if is_behind_gap event db then some (expected_seq (scope_key event.scope_ref) db) else none)
unfolding stream_gap is_behind_gap expected_seq
stream_gap-is_behind_gap event db h =
    ap
      (λ b.
        if not (is_task_scope event.scope_ref) && b
        then some (expected_seq (scope_key event.scope_ref) db)
        else none)
      (ltℤ-max_value event.seq (in_scope (scope_key event.scope_ref)) db.events h)
