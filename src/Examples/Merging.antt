-- ===== src/Examples/Merging.antt =====
-- A command's snapshot is merged into a state that has moved on.
use uprava.Prelude.{
  ◌≤◌, ◌≡◌, refl, ◌&&◌, ◌||◌, not, Option, none, some, List, [], ◌∷◌, arith, Text, codes, text_eq,
  contains_text, text_eq_refl, Map, get, ◌≤ℤ◌, ℤ, pos,
}
use uprava.Protocol.Domain.{CommandState}
use uprava.Protocol.Event.{EventEnvelope}
use uprava.Node.State.{CommandState-discrete}
use uprava.Node.Merge.{merge_changed_map, merged, merge_events, has_event, merge_seqs}
use uprava.Node.Merge.Keys.{get-merge_changed_map}
use uprava.Node.Merge.Events.{
  has_event-merge_events, copies, copies-merge_events, counter, merge_seqs-ge-candidate,
}
use uprava.Node.Merge.Tombstones.{Picks}
use uprava.Examples.Fixtures.{first_event, second_event, third_event}

abbrev before : Map CommandState
before = (codes "c1", CommandState.dispatched) ∷ (codes "c2", CommandState.recorded) ∷ []

abbrev after : Map CommandState
after = (codes "c1", CommandState.completed) ∷ []

-- The owner has moved `c2` meanwhile, so the command's removal of it does not count.
abbrev owned : Map CommandState
owned = (codes "c1", CommandState.dispatched) ∷ (codes "c2", CommandState.failed) ∷ []

get-merge_changed_map_example :
    get (codes "c2") (merge_changed_map CommandState-discrete owned before after)
    ≡ merged CommandState-discrete
        (get (codes "c2") owned)
        (get (codes "c2") before)
        (get (codes "c2") after)
get-merge_changed_map_example =
    get-merge_changed_map CommandState-discrete owned before after (codes "c2")

-- The first event was acknowledged since the snapshot; the third is new.
abbrev owned_events : List EventEnvelope
owned_events = second_event ∷ []

abbrev snapshot_events : List EventEnvelope
snapshot_events = first_event ∷ second_event ∷ []

abbrev command_events : List EventEnvelope
command_events = first_event ∷ second_event ∷ third_event ∷ []

has_event-merge_events_example :
    has_event (codes "e1") (merge_events owned_events snapshot_events command_events) ≡ (
      has_event (codes "e1") owned_events
      || (not (has_event (codes "e1") snapshot_events) && has_event (codes "e1") command_events))
has_event-merge_events_example =
    has_event-merge_events (codes "e1") owned_events snapshot_events command_events

copies-merge_events_example :
    copies (codes "e2") (merge_events owned_events snapshot_events command_events) ≤ 1
copies-merge_events_example =
    copies-merge_events (codes "e2") owned_events snapshot_events command_events (ground arith)

abbrev owned_seqs : Map ℤ
owned_seqs = (codes "r1", pos 7) ∷ []

abbrev snapshot_seqs : Map ℤ
snapshot_seqs = (codes "r1", pos 4) ∷ []

abbrev command_seqs : Map ℤ
command_seqs = (codes "r1", pos 6) ∷ []

r1_at_6 : get (codes "r1") command_seqs ≡ some (pos 6)
unfolding get text_eq
r1_at_6 = refl

merge_seqs-ge-candidate_example :
    pos 6 ≤ℤ counter (codes "r1") (merge_seqs owned_seqs snapshot_seqs command_seqs)
unfolding get text_eq
merge_seqs-ge-candidate_example =
    merge_seqs-ge-candidate (codes "r1") (pos 6) owned_seqs snapshot_seqs command_seqs r1_at_6 refl

abbrev first_of : List Text → Option Text
first_of [] = none
first_of (k ∷ ks) = some k

first_of-Picks : Picks first_of
unfolding contains_text
first_of-Picks [] h = absurd (omega arith)
first_of-Picks (k ∷ ks) h = (k, refl, ground (arith, text_eq_refl k))
