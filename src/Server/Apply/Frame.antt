-- ===== src/Server/Apply/Frame.antt =====
-- What a projection leaves as it is: the events, the publications and the messages, the rows of
-- runtimes and sessions that the event does not name, and whose the rows are.
use uprava.Server.Rows.{retain-update_where, map-update_where}
use uprava.Prelude.{
  subst, ◌≡◌, refl, ap, ◌∙◌, inl, inr, Bool, true, false, some, List, map, Text, text_eq,
  contains_text, text_eq_iff, if◌then◌else◌, retain,
}
use uprava.Protocol.Reference.{TaskRunId, RuntimeSessionId, SessionThreadId}
use uprava.Protocol.Event.{EventEnvelope}
use uprava.Server.Support.{Outcome, ◌>>=◌}
use uprava.Server.Updates.{terminal_task_states}
use uprava.Server.Tables.{
  RuntimeRow, SessionRow, PlacementRow, ApprovalRow, TurnRow, TaskRunRow, Db, select_one,
  update_where,
}

-- A property of the value, if there is one.
abbrev pub IfOk : {A : Type 0} → (A → Type 0) → Outcome A → Type 0
IfOk P (inl e) = Unit
IfOk P (inr a) = P a

pub IfOk-bind :
    {A B : Type 0} (P : A → Type 0) (Q : B → Type 0) (m : Outcome A) (f : A → Outcome B)
    → IfOk P m
    → ((a : A) → P a → IfOk Q (f a))
    → IfOk Q (m >>= f)
IfOk-bind P Q (inl e) f h k = tt
IfOk-bind P Q (inr a) f h k = k a h

pub IfOk-if :
    {A : Type 0} (P : A → Type 0) (b : Bool) (x y : Outcome A)
    → IfOk P x
    → IfOk P y
    → IfOk P (if b then x else y)
IfOk-if P true x y h k = h
IfOk-if P false x y h k = k

pub IfOk-inr : {A : Type 0} (P : A → Type 0) (m : Outcome A) (a : A) → IfOk P m → m ≡ inr a → P a
IfOk-inr P m a h e = subst (IfOk P) e h

pub IfOk-trivial : {A : Type 0} (m : Outcome A) → IfOk (λ a. Unit) m
IfOk-trivial (inl e) = tt
IfOk-trivial (inr a) = tt

pub IfOk-map :
    {A : Type 0} (P Q : A → Type 0) (m : Outcome A) → ((a : A) → P a → Q a) → IfOk P m → IfOk Q m
IfOk-map P Q (inl e) f h = tt
IfOk-map P Q (inr a) f h = f a h

abbrev pub runtime_key : RuntimeRow → Text × Text
runtime_key r = (r.runtime_session_id, r.session_thread_id)

abbrev pub session_key : SessionRow → Text × Text
session_key s = (s.session_thread_id, s.project_placement_id)

abbrev pub placement_key : PlacementRow → Text × Text
placement_key p = (p.project_placement_id, p.node_id)

-- The row of a task run that has ended is as it was.
abbrev pub EndedKept : Db → Db → Type 0
EndedKept db db' =
    (id : TaskRunId) (row : TaskRunRow)
    → contains_text terminal_task_states row.state ≡ true
    → select_one (λ t. text_eq t.task_run_id id) db.task_runs ≡ some row
    → select_one (λ t. text_eq t.task_run_id id) db'.task_runs ≡ some row

-- The runtimes and sessions whose identifiers are picked are as they were, too.
pub record Frame (runtime session : Text → Bool) (db db' : Db) : Type 0 where
  pub events : db'.events ≡ db.events
  pub publications : db'.publications ≡ db.publications
  pub messages : db'.messages ≡ db.messages
  pub runtimes :
      retain (λ r. runtime r.runtime_session_id) db'.runtimes
      ≡ retain (λ r. runtime r.runtime_session_id) db.runtimes
  pub sessions :
      retain (λ s. session s.session_thread_id) db'.sessions
      ≡ retain (λ s. session s.session_thread_id) db.sessions
  pub runtime_keys : map runtime_key db'.runtimes ≡ map runtime_key db.runtimes
  pub session_keys : map session_key db'.sessions ≡ map session_key db.sessions
  pub placement_keys : map placement_key db'.placements ≡ map placement_key db.placements
  pub ended : EndedKept db db'

-- An event names no picked runtime and no picked session.
pub record Spares (runtime session : Text → Bool) (event : EventEnvelope) : Type 0 where
  pub runtime_spared : (id : Text) → event.runtime_session_id ≡ some id → runtime id ≡ false
  pub session_spared : (id : Text) → event.session_thread_id ≡ some id → session id ≡ false

module _ (runtime session : Text → Bool) where
  pub Frame-refl : (db : Db) → Frame runtime session db db
  Frame-refl db = record {
    events = refl;
    publications = refl;
    messages = refl;
    runtimes = refl;
    sessions = refl;
    runtime_keys = refl;
    session_keys = refl;
    placement_keys = refl;
    ended = λ id row t h. h;
  }

  pub Frame-trans :
      (a b c : Db)
      → Frame runtime session a b
      → Frame runtime session b c
      → Frame runtime session a c
  Frame-trans a b c f g = record {
    events = g.events ∙ f.events;
    publications = g.publications ∙ f.publications;
    messages = g.messages ∙ f.messages;
    runtimes = g.runtimes ∙ f.runtimes;
    sessions = g.sessions ∙ f.sessions;
    runtime_keys = g.runtime_keys ∙ f.runtime_keys;
    session_keys = g.session_keys ∙ f.session_keys;
    placement_keys = g.placement_keys ∙ f.placement_keys;
    ended = λ id row t h. g.ended id row t (f.ended id row t h);
  }

  -- an update of the row of one runtime
  pub Frame-runtime :
      (db : Db) (id : RuntimeSessionId) (f : RuntimeRow → RuntimeRow)
      → runtime id ≡ false
      → ((r : RuntimeRow) → runtime_key (f r) ≡ runtime_key r)
      → Frame runtime session db (record db {
        runtimes = update_where (λ r. text_eq r.runtime_session_id id) f db.runtimes;
      })
  Frame-runtime db id f spared keeps = record {
    events = refl;
    publications = refl;
    messages = refl;
    runtimes =
        retain-update_where (λ r. runtime r.runtime_session_id)
          (λ r. text_eq r.runtime_session_id id) f db.runtimes
          (λ r e.
            let same = (text_eq_iff r.runtime_session_id id).0 e in
            let here = ap runtime same ∙ spared in (here, ap (λ k. runtime k.0) (keeps r) ∙ here));
    sessions = refl;
    runtime_keys =
        map-update_where runtime_key (λ r. text_eq r.runtime_session_id id) f db.runtimes keeps;
    session_keys = refl;
    placement_keys = refl;
    ended = λ id row t h. h;
  }

  pub Frame-session :
      (db : Db) (id : SessionThreadId) (f : SessionRow → SessionRow)
      → session id ≡ false
      → ((s : SessionRow) → session_key (f s) ≡ session_key s)
      → Frame runtime session db (record db {
        sessions = update_where (λ s. text_eq s.session_thread_id id) f db.sessions;
      })
  Frame-session db id f spared keeps = record {
    events = refl;
    publications = refl;
    messages = refl;
    runtimes = refl;
    sessions =
        retain-update_where (λ s. session s.session_thread_id) (λ s. text_eq s.session_thread_id id)
          f db.sessions
          (λ s e.
            let same = (text_eq_iff s.session_thread_id id).0 e in
            let here = ap session same ∙ spared in (here, ap (λ k. session k.0) (keeps s) ∙ here));
    runtime_keys = refl;
    session_keys =
        map-update_where session_key (λ s. text_eq s.session_thread_id id) f db.sessions keeps;
    placement_keys = refl;
    ended = λ id row t h. h;
  }

  -- other rows of turns and approvals, task runs that have ended as they were, and the same
  -- placements
  pub Frame-tables :
      (db : Db) (turns : List TurnRow) (approvals : List ApprovalRow) (task_runs : List TaskRunRow)
      (placements : List PlacementRow)
      → map placement_key placements ≡ map placement_key db.placements
      → EndedKept db (record db { task_runs = task_runs })
      → Frame runtime session db (record db {
        turns = turns;
        approvals = approvals;
        task_runs = task_runs;
        placements = placements;
      })
  Frame-tables db turns approvals task_runs placements keys kept = record {
    events = refl;
    publications = refl;
    messages = refl;
    runtimes = refl;
    sessions = refl;
    runtime_keys = refl;
    session_keys = refl;
    placement_keys = keys;
    ended = kept;
  }
