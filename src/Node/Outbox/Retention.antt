-- ===== src/Node/Outbox/Retention.antt =====
-- The retention as a whole.
use uprava.Prelude.{
  ◌+◌, ◌-◌, ◌^◌, ◌<◌, ℕ, min, ◌≡◌, refl, sym, ap, ◌∙◌, inl, inr, true, Option, some, List, [], ◌∷◌,
  ◌++◌, arith, ◌==◌, if◌then◌else◌, Bool-cases, take, drop, get, ==_iff,
}
use uprava.Protocol.Reference.{RuntimeSessionId, DateTime}
use uprava.Protocol.Domain.{RuntimeSessionState}
use uprava.Protocol.Event.{EventEnvelope}
use uprava.Node.State.{NodeLocalState, saturating_add_u64}
use uprava.Node.Outbox.{
  Host, affected_runtimes, retention_notices, sum_event_sizes, drop_loop,
  trim_event_outbox_to_limits, event_outbox_retention_drop_count, drop_and_notify,
  enforce_event_outbox_retention_with_limits,
}
use uprava.Node.Outbox.Cut.{within, Cut, trim_event_outbox_to_limits_lem}
use uprava.Node.Outbox.Notices.{
  concerns, affects, affects-affected_runtimes, Keyed-affected_runtimes, get-projection-notices,
  concerns-retention_notices, retention_notices-state,
}

module _ (host : Host) (max_events max_bytes : ℕ) where
  drop_loop-zero-within :
      (cutoff : Option DateTime) (es : List EventEnvelope)
      → drop_loop host max_events cutoff max_bytes es (sum_event_sizes host es) ≡ 0
      → within host max_events max_bytes es ≡ true
  unfolding drop_loop within sum_event_sizes
  drop_loop-zero-within cutoff [] h = ground arith
  drop_loop-zero-within cutoff (e ∷ es) h = ground arith

  module _ (n : ℕ) (s : NodeLocalState) where
    abbrev lost : List EventEnvelope
    lost = take n s.event_outbox

    abbrev counted : NodeLocalState
    counted = record s {
      dropped_event_count = saturating_add_u64 s.dropped_event_count n;
      event_outbox = drop n s.event_outbox;
    }

    -- What the final trim starts from.
    abbrev before_trim : List EventEnvelope → List EventEnvelope
    before_trim notices = drop n s.event_outbox ++ notices

    drop_and_notify-outbox :
        let (s', notices) = drop_and_notify host n max_events max_bytes s in
        s'.event_outbox
        ≡ trim_event_outbox_to_limits host max_events max_bytes (before_trim notices)
    unfolding drop_and_notify
    drop_and_notify-outbox =
        let r = retention_notices host 0 counted (affected_runtimes lost []) in
        ap (λ t. trim_event_outbox_to_limits host max_events max_bytes (t.event_outbox ++ r.1))
          (retention_notices-state host 0 counted (affected_runtimes lost []))

    drop_and_notify-Cut :
        let (s', notices) = drop_and_notify host n max_events max_bytes s in
        Cut host max_events max_bytes (before_trim notices) s'.event_outbox
    unfolding Cut
    drop_and_notify-Cut =
        let notices = (drop_and_notify host n max_events max_bytes s).1 in
        let (k, eq, fits, least) =
          trim_event_outbox_to_limits_lem host max_events max_bytes (before_trim notices) in
        (k, drop_and_notify-outbox ∙ eq, fits, least)

    drop_and_notify-count :
        (drop_and_notify host n max_events max_bytes s).0.dropped_event_count
        ≡ saturating_add_u64 s.dropped_event_count n
    unfolding drop_and_notify
    drop_and_notify-count =
        ap (λ t. t.dropped_event_count)
          (retention_notices-state host 0 counted (affected_runtimes lost []))

    drop_and_notify-states :
        (r : RuntimeSessionId)
        → get r (drop_and_notify host n max_events max_bytes s).0.runtime_states
          ≡ (if concerns r lost then some RuntimeSessionState.error else get r s.runtime_states)
    unfolding drop_and_notify affects
    drop_and_notify-states r =
        let m = affected_runtimes lost [] in
        let s2 = (retention_notices host 0 counted m).0 in
        get-projection-notices host r 0 counted m s2.runtime_states
          (Keyed-affected_runtimes lost [] tt)
        ∙ ground (
          arith,
          affects-affected_runtimes r lost [],
          ap (λ t. t.runtime_states) (retention_notices-state host 0 counted m),
        )

    drop_and_notify-notices :
        (r : RuntimeSessionId)
        → concerns r (drop_and_notify host n max_events max_bytes s).1 ≡ concerns r lost
    unfolding drop_and_notify affects
    drop_and_notify-notices r =
        concerns-retention_notices host r 0 counted (affected_runtimes lost [])
          (Keyed-affected_runtimes lost [] tt)
        ∙ affects-affected_runtimes r lost []

  append_nil : (es : List EventEnvelope) → es ++ [] ≡ es
  append_nil [] = refl
  append_nil (e ∷ es) = ap (λ t. e ∷ t) (append_nil es)

  nothing-Cut :
      (s : NodeLocalState) (max_age : ℕ)
      → event_outbox_retention_drop_count host s.event_outbox max_events max_age max_bytes ≡ 0
      → Cut host max_events max_bytes (s.event_outbox ++ []) s.event_outbox
  unfolding event_outbox_retention_drop_count Cut
  nothing-Cut s max_age h =
      let same = append_nil s.event_outbox in
      (0, sym same, rw same (drop_loop-zero-within _ s.event_outbox h), λ j k. absurd (omega arith))

  -- One pass of the retention, for any limits and any state whose counter of dropped events is a
  -- `u64`. The pass drops the number of events that `event_outbox_retention_drop_count` answers,
  -- appends the notices that it returns, and then removes from the front the fewest events after
  -- which the outbox is within the limits on the number and on the bytes, as the code measures them;
  -- so it ends within these limits, and with one event fewer removed it would not. The counter grows
  -- by the number of events that the count dropped, without wrapping. A runtime that lost one of
  -- these events is left in the state `error` and is the subject of a returned notice; every other
  -- runtime keeps its state and is the subject of none. What the last removal takes is neither
  -- counted nor reported.
  pub enforce_event_outbox_retention_lem :
      (s : NodeLocalState) (max_age : ℕ) (r : RuntimeSessionId)
      → s.dropped_event_count < 2 ^ 64
      → let (s', notices) =
          enforce_event_outbox_retention_with_limits host s max_events max_age max_bytes in
        let n =
          event_outbox_retention_drop_count host s.event_outbox max_events max_age max_bytes in
        let lost = concerns r (take n s.event_outbox) in
        Cut host max_events max_bytes (drop n s.event_outbox ++ notices) s'.event_outbox
        × (s'.dropped_event_count ≡ min (s.dropped_event_count + n) (2 ^ 64 - 1))
        × (get r s'.runtime_states
            ≡ (if lost then some RuntimeSessionState.error else get r s.runtime_states))
        × (concerns r notices ≡ lost)
  unfolding enforce_event_outbox_retention_with_limits concerns
  enforce_event_outbox_retention_lem s max_age r h =
      let n = event_outbox_retention_drop_count host s.event_outbox max_events max_age max_bytes in
      elim (Bool-cases (n == 0)) [
        | inl z ↦ rw z (
          rw ((==_iff n 0).0 z) (nothing-Cut s max_age ((==_iff n 0).0 z)),
          ground arith,
          rw ((==_iff n 0).0 z),
          rw ((==_iff n 0).0 z),
        )
        | inr nz ↦ rw nz (
          drop_and_notify-Cut n s,
          drop_and_notify-count n s,
          drop_and_notify-states n s r,
          drop_and_notify-notices n s r,
        )
      ]
