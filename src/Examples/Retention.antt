-- ===== src/Examples/Retention.antt =====
-- An outbox of three events under a limit of two.
use uprava.Prelude.{
  ◌+◌, ◌-◌, ◌^◌, ◌≤◌, ◌<◌, ℕ, min, ◌≡◌, true, false, some, ◌++◌, arith, codes, if◌then◌else◌, take,
  drop, get,
}
use uprava.Protocol.Domain.{RuntimeSessionState}
use uprava.Node.Outbox.{
  event_outbox_retention_drop_count, trim_event_outbox_to_limits, cutoff_of,
  enforce_event_outbox_retention_with_limits, serialized_event_len,
}
use uprava.Node.Outbox.Cut.{
  total_bytes, breaks, within, Cut, event_outbox_retention_drop_count_lem,
  trim_event_outbox_to_limits_lem,
}
use uprava.Node.Outbox.Notices.{concerns}
use uprava.Node.Outbox.Retention.{enforce_event_outbox_retention_lem}
use uprava.Examples.Fixtures.{host, outbox, busy_state}

outbox_bytes : total_bytes host outbox < 2 ^ 64
unfolding total_bytes serialized_event_len
outbox_bytes = ground arith

event_outbox_retention_drop_count_lem_example :
    let n = event_outbox_retention_drop_count host outbox 2 50 1_000 in
    let cutoff = cutoff_of 1_000 (some 50) in
    (n ≤ 3)
    × (breaks host 2 cutoff 1_000 (drop n outbox) ≡ false)
    × (0 < n → breaks host 2 cutoff 1_000 (drop 0 outbox) ≡ true)
event_outbox_retention_drop_count_lem_example =
    event_outbox_retention_drop_count_lem host outbox 2 50 1_000 0 outbox_bytes

trim_event_outbox_to_limits_lem_example :
    (n : ℕ) × (trim_event_outbox_to_limits host 2 250 outbox ≡ drop n outbox)
    × (within host 2 250 (drop n outbox) ≡ true)
    × ((k : ℕ) → k < n → within host 2 250 (drop k outbox) ≡ false)
trim_event_outbox_to_limits_lem_example = trim_event_outbox_to_limits_lem host 2 250 outbox

enforce_event_outbox_retention_lem_example :
    let (s', notices) = enforce_event_outbox_retention_with_limits host busy_state 2 0 1_000 in
    let n = event_outbox_retention_drop_count host outbox 2 0 1_000 in
    let lost = concerns (codes "r1") (take n outbox) in
    Cut host 2 1_000 (drop n outbox ++ notices) s'.event_outbox
    × (s'.dropped_event_count ≡ min (0 + n) (2 ^ 64 - 1))
    × (get (codes "r1") s'.runtime_states ≡ (
        if lost
        then some RuntimeSessionState.error
        else get (codes "r1") busy_state.runtime_states))
    × (concerns (codes "r1") notices ≡ lost)
enforce_event_outbox_retention_lem_example =
    enforce_event_outbox_retention_lem host 2 1_000 busy_state 0 (codes "r1") (ground arith)
