-- ===== src/Examples/Conflicts.antt =====
-- What the unique indexes on approvals and placements refuse.
use uprava.Prelude.{◌≡◌, refl, inl, inr, Option, none, some, [], ◌∷◌, Text, codes, text_eq}
use uprava.Protocol.Reference.{ApprovalId, TurnId, NodeId, ProjectPlacementId}
use uprava.Protocol.Domain.{ApprovalState, PlacementState, SessionThreadState}
use uprava.Server.Tables.{ApprovalRow, PlacementRow, Db, select_one, update_where, column_is}
use uprava.Server.Projection.{unique_failed, turn_taken, upsert_approval}
use uprava.Server.Updates.{identity_taken, update_placement}

abbrev approval_of : ApprovalId → Option TurnId → ApprovalRow
approval_of id turn_id = record {
  approval_id = id;
  session_thread_id = codes "s1";
  runtime_session_id = some (codes "r1");
  turn_id = turn_id;
  state = ApprovalState.requested;
  request_payload_json = codes "{}";
  response_payload_json = none;
  request_command_id = none;
  resolve_command_id = none;
  requested_event_id = none;
  resolved_event_id = none;
  created_at = 1;
  updated_at = 1;
  resolved_at = none;
}

abbrev placement_at : ProjectPlacementId → NodeId → Text → PlacementRow
placement_at id node path = record {
  project_placement_id = id;
  node_id = node;
  display_name = codes "work";
  workspace_path = path;
  state = PlacementState.validated;
  resource_badges_json = codes "[]";
  git_snapshot_json = none;
  last_validated_at = none;
  updated_at = 1;
}

abbrev asked : Db
asked = record {
  events = [];
  publications = [];
  messages = [];
  turns = [];
  approvals = approval_of (codes "a1") (some (codes "t1")) ∷ [];
  runtimes = [];
  sessions =
      record {
        session_thread_id = codes "s1";
        project_placement_id = codes "p1";
        state = SessionThreadState.active;
        updated_at = 1;
      }
      ∷ [];
  placements =
      placement_at (codes "p1") (codes "n1") (codes "/a")
      ∷ placement_at (codes "p2") (codes "n1") (codes "/b")
      ∷ placement_at (codes "p3") (codes "n2") (codes "/c")
      ∷ [];
  task_runs = [];
  actors = [];
  commands = [];
}

-- A second approval of a turn is refused; the same approval again is not, nor is one without a turn.
second_of_turn :
    upsert_approval (approval_of (codes "a2") (some (codes "t1"))) (λ r. r) asked
    ≡ inl unique_failed
unfolding upsert_approval turn_taken select_one text_eq column_is
second_of_turn = refl

same_approval :
    upsert_approval (approval_of (codes "a1") (some (codes "t1"))) (λ r. r) asked ≡ inr asked
unfolding upsert_approval turn_taken select_one update_where text_eq column_is
same_approval = refl

without_turn :
    upsert_approval (approval_of (codes "a2") none) (λ r. r) asked
    ≡ inr (record asked {
      approvals = approval_of (codes "a1") (some (codes "t1")) ∷ approval_of (codes "a2") none ∷ [];
    })
unfolding upsert_approval turn_taken select_one text_eq column_is
without_turn = refl

-- A placement does not move onto the path of another on its node; the path of a placement of another
-- node is free.
onto_other :
    update_placement (codes "p1") (λ p. record p { workspace_path = codes "/b" }) asked
    ≡ inl unique_failed
unfolding update_placement identity_taken update_where text_eq
onto_other = refl

onto_free :
    update_placement (codes "p1") (λ p. record p { workspace_path = codes "/c" }) asked
    ≡ inr (record asked {
      placements =
          placement_at (codes "p1") (codes "n1") (codes "/c")
          ∷ placement_at (codes "p2") (codes "n1") (codes "/b")
          ∷ placement_at (codes "p3") (codes "n2") (codes "/c")
          ∷ [];
    })
unfolding update_placement identity_taken update_where text_eq
onto_free = refl
