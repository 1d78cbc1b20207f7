-- ===== src/Node/Outbox/Cut.antt =====
-- How many events the limits drop: the loops of the retention against a description of the limits.
use uprava.Prelude.{
  ◌+◌, ◌-◌, ◌^◌, ◌≤◌, ◌<◌, ℕ, zero, suc, ◌≡◌, refl, inl, inr, Bool, true, false, ◌&&◌, ◌||◌, Option,
  none, List, [], ◌∷◌, arith, ltb, leb, ◌==◌, if◌then◌else◌, Bool-cases, length, drop,
}
use uprava.Protocol.Reference.{DateTime}
use uprava.Protocol.Event.{EventEnvelope}
use uprava.Node.Outbox.{
  Host, serialized_event_len, sum_event_sizes, cutoff_of, too_old, drop_loop,
  event_outbox_retention_drop_count, trim_event_outbox_to_limits,
}

below_suc :
    {n : ℕ} (P : ℕ → Type 0) → P 0 → ((k : ℕ) → k < n → P (suc k)) → (k : ℕ) → k < suc n → P k
below_suc P z s zero h = z
below_suc P z s (suc k) h = s k (omega arith)

module _ (host : Host) where
  -- The bytes of the encoded events, with no bound.
  unfoldable pub total_bytes : List EventEnvelope → ℕ
  total_bytes [] = 0
  total_bytes (e ∷ es) = serialized_event_len host e + total_bytes es

  -- An outbox breaks a limit: a limit of 0 is off, and of the ages only that of the oldest event
  -- counts.
  unfoldable pub breaks : ℕ → Option DateTime → ℕ → List EventEnvelope → Bool
  breaks max_events cutoff max_bytes [] = false
  breaks max_events cutoff max_bytes (e ∷ es) =
      ltb 0 max_events && ltb max_events (length (e ∷ es))
      || too_old cutoff e
      || ltb 0 max_bytes && ltb max_bytes (total_bytes (e ∷ es))

  sum_event_sizes-eq :
      (es : List EventEnvelope) → total_bytes es < 2 ^ 64 → sum_event_sizes host es ≡ total_bytes es
  unfolding sum_event_sizes total_bytes
  sum_event_sizes-eq [] h = refl
  sum_event_sizes-eq (e ∷ es) h = omega (arith, sum_event_sizes-eq es)

  module _ (max_events : ℕ) (cutoff : Option DateTime) (max_bytes : ℕ) where
    drop_loop-fits :
        (es : List EventEnvelope) (retained : ℕ)
        → retained ≡ total_bytes es
        → breaks max_events cutoff max_bytes
            (drop (drop_loop host max_events cutoff max_bytes es retained) es)
          ≡ false
    unfolding drop_loop breaks total_bytes
    drop_loop-fits [] retained h = refl
    drop_loop-fits (e ∷ es) retained h =
        ground (arith, drop_loop-fits es (retained - serialized_event_len host e))

    drop_loop-least :
        (es : List EventEnvelope) (retained k : ℕ)
        → retained ≡ total_bytes es
        → k < drop_loop host max_events cutoff max_bytes es retained
        → breaks max_events cutoff max_bytes (drop k es) ≡ true
    unfolding drop_loop breaks total_bytes
    drop_loop-least [] retained k e h = absurd (omega arith)
    drop_loop-least (e ∷ es) retained zero p h = ground arith
    drop_loop-least (e ∷ es) retained (suc k) p h =
        drop_loop-least es (retained - serialized_event_len host e) k (omega arith) (ground arith)

    drop_loop-le-length :
        (es : List EventEnvelope) (retained : ℕ)
        → drop_loop host max_events cutoff max_bytes es retained ≤ length es
    unfolding drop_loop
    drop_loop-le-length [] retained = omega arith
    drop_loop-le-length (e ∷ es) retained =
        ground (arith, drop_loop-le-length es (retained - serialized_event_len host e))

  -- When an outbox's events encode to less than 2^64 bytes, the count drops the shortest prefix
  -- after which no limit is broken: the rest breaks none, and with fewer events dropped it would
  -- break one. The age limit is off when it is 0 or too large for chrono.
  pub event_outbox_retention_drop_count_lem :
      (outbox : List EventEnvelope) (max_events max_age max_bytes k : ℕ)
      → total_bytes outbox < 2 ^ 64
      → let n = event_outbox_retention_drop_count host outbox max_events max_age max_bytes in
        let age = if max_age == 0 then none else host.duration_from_std max_age in
        let cutoff = cutoff_of (host.utc_now 0) age in
        (n ≤ length outbox)
        × (breaks max_events cutoff max_bytes (drop n outbox) ≡ false)
        × (k < n → breaks max_events cutoff max_bytes (drop k outbox) ≡ true)
  unfolding event_outbox_retention_drop_count
  event_outbox_retention_drop_count_lem outbox max_events max_age max_bytes k h =
      let age = if max_age == 0 then none else host.duration_from_std max_age in
      let cutoff = cutoff_of (host.utc_now 0) age in
      let sum = sum_event_sizes host outbox in
      (
        drop_loop-le-length max_events cutoff max_bytes outbox sum,
        drop_loop-fits max_events cutoff max_bytes outbox sum (sum_event_sizes-eq outbox h),
        drop_loop-least max_events cutoff max_bytes outbox sum k (sum_event_sizes-eq outbox h),
      )

  -- The limits as the trimming loop measures them.
  unfoldable pub within : ℕ → ℕ → List EventEnvelope → Bool
  within max_events max_bytes es =
      (max_events == 0 || leb (length es) max_events)
      && (max_bytes == 0 || leb (sum_event_sizes host es) max_bytes)

  -- One outbox is what is left of another when the fewest events have been taken off its front that
  -- bring it within the limits.
  unfoldable pub Cut : ℕ → ℕ → List EventEnvelope → List EventEnvelope → Type 0
  Cut max_events max_bytes es left =
      (n : ℕ) × (left ≡ drop n es)
      × (within max_events max_bytes (drop n es) ≡ true)
      × ((k : ℕ) → k < n → within max_events max_bytes (drop k es) ≡ false)

  module _ (max_events max_bytes : ℕ) where
    -- Trimming ends within the limits on the number and on the bytes of the events, and it only
    -- removes events at the front: as few as that takes.
    pub trim_event_outbox_to_limits_lem :
        (es : List EventEnvelope)
        → (n : ℕ) × (trim_event_outbox_to_limits host max_events max_bytes es ≡ drop n es)
          × (within max_events max_bytes (drop n es) ≡ true)
          × ((k : ℕ) → k < n → within max_events max_bytes (drop k es) ≡ false)
    unfolding trim_event_outbox_to_limits within sum_event_sizes
    trim_event_outbox_to_limits_lem [] = (0, refl, ground arith, λ k h. absurd (omega arith))
    trim_event_outbox_to_limits_lem (e ∷ es) =
        elim (Bool-cases (within max_events max_bytes (e ∷ es))) [
          | inl w ↦ (0, ground arith, w, λ k h. absurd (omega arith))
          | inr w ↦
              let (n, eq, fits, least) = trim_event_outbox_to_limits_lem es in
              (
                suc n,
                ground arith,
                fits,
                below_suc (λ k. within max_events max_bytes (drop k (e ∷ es)) ≡ false) w least,
              )
        ]
