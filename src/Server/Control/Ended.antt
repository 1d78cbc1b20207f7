-- ===== src/Server/Control/Ended.antt =====
-- Task runs that have ended, however many events come.
use uprava.Prelude.{true, contains_text, ◌≡◌, sym, ap, subst, some, text_eq}
use uprava.Protocol.Reference.{TaskRunId}
use uprava.Server.Updates.{terminal_task_states}
use uprava.Server.Tables.{TaskRunRow, Db, select_one}
use uprava.Server.Projection.{Codecs}
use uprava.Server.Apply.Frame.{EndedKept}
use uprava.Server.Ingest.Added.{nothing, Spares-nothing}
use uprava.Server.Publication.{Publisher, drain_event_publication_outbox}
use uprava.Server.Publication.Sound.{Sound}
use uprava.Server.Publication.Drained.{OnlyPublished, drain_event_publication_outbox-Drained}
use uprava.Server.Publication.Redelivery.{Accepts, start, accept, publish, Accepts-Sound}
use uprava.Server.Control.Isolation.{accept_node_event-Isolated}

published-EndedKept : (db db' : Db) → OnlyPublished db db' → EndedKept db db'
published-EndedKept db db' o id row t h =
    subst (λ rows. select_one (λ (t : TaskRunRow). text_eq t.task_run_id id) rows ≡ some row)
      (sym (ap (λ d. d.task_runs) o)) h

-- From sound tables, however many events are taken in or refused and however often what waits is
-- published, the row of a task run in a final state is as it was.
pub Accepts-select_one :
    (codecs : Codecs) (publisher : Publisher) (id : TaskRunId) (row : TaskRunRow) {before db : Db}
    → Accepts codecs publisher before db
    → Sound codecs before
    → contains_text terminal_task_states row.state ≡ true
    → select_one (λ t. text_eq t.task_run_id id) before.task_runs ≡ some row
    → select_one (λ t. text_eq t.task_run_id id) db.task_runs ≡ some row
Accepts-select_one codecs publisher id row start sound t h = h
Accepts-select_one codecs publisher id row (accept {db = db} steps event) sound t h =
    (accept_node_event-Isolated nothing nothing codecs publisher event db
        (Accepts-Sound codecs publisher steps sound) (Spares-nothing event)).ended
      id row t (Accepts-select_one codecs publisher id row steps sound t h)
Accepts-select_one codecs publisher id row (publish {db = db} steps) sound t h =
    published-EndedKept db (drain_event_publication_outbox codecs publisher db).db
      (drain_event_publication_outbox-Drained codecs publisher db
        (Accepts-Sound codecs publisher steps sound)).1
      id row t (Accepts-select_one codecs publisher id row steps sound t h)
