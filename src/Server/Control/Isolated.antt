-- ===== src/Server/Control/Isolated.antt =====
-- What it is for rows of runtimes and sessions to be left as they are.
use uprava.Prelude.{◌≡◌, refl, ◌∙◌, Bool, List, Text, retain}
use uprava.Server.Tables.{EventRow, PublicationRow, MessageRow, ActorRow, Db}
use uprava.Server.Apply.Frame.{Frame, EndedKept}
use uprava.Server.Control.Owners.{SameKeys}

-- The picked rows of runtimes and sessions are as they were, and whose the rows are, and the task
-- runs that have ended.
pub record Isolated (runtime session : Text → Bool) (db db' : Db) : Type 0 where
  pub runtimes :
      retain (λ r. runtime r.runtime_session_id) db'.runtimes
      ≡ retain (λ r. runtime r.runtime_session_id) db.runtimes
  pub sessions :
      retain (λ s. session s.session_thread_id) db'.sessions
      ≡ retain (λ s. session s.session_thread_id) db.sessions
  pub keys : SameKeys db db'
  pub ended : EndedKept db db'

module _ (runtime session : Text → Bool) where
  abbrev pub From : Db → Db → Type 0
  From db db' = Isolated runtime session db db'

  pub Isolated-refl : (db : Db) → From db db
  Isolated-refl db = record {
    runtimes = refl;
    sessions = refl;
    keys = record { runtime_keys = refl; session_keys = refl; placement_keys = refl };
    ended = λ id row t h. h;
  }

  pub Isolated-trans : (a b c : Db) → From a b → From b c → From a c
  Isolated-trans a b c f g = record {
    runtimes = g.runtimes ∙ f.runtimes;
    sessions = g.sessions ∙ f.sessions;
    keys = record {
      runtime_keys = g.keys.runtime_keys ∙ f.keys.runtime_keys;
      session_keys = g.keys.session_keys ∙ f.keys.session_keys;
      placement_keys = g.keys.placement_keys ∙ f.keys.placement_keys;
    };
    ended = λ id row t h. g.ended id row t (f.ended id row t h);
  }

  -- The other tables do not matter.
  pub other_rows :
      (start db : Db) (events : List EventRow) (publications : List PublicationRow)
      (messages : List MessageRow) (actors : List ActorRow)
      → From start db
      → From start (record db {
        events = events;
        publications = publications;
        messages = messages;
        actors = actors;
      })
  other_rows start db events publications messages actors h = record {
    runtimes = h.runtimes;
    sessions = h.sessions;
    keys = record {
      runtime_keys = h.keys.runtime_keys;
      session_keys = h.keys.session_keys;
      placement_keys = h.keys.placement_keys;
    };
    ended = h.ended;
  }

  pub Frame-Isolated : (db db' : Db) → Frame runtime session db db' → From db db'
  Frame-Isolated db db' f = record {
    runtimes = f.runtimes;
    sessions = f.sessions;
    keys = record {
      runtime_keys = f.runtime_keys;
      session_keys = f.session_keys;
      placement_keys = f.placement_keys;
    };
    ended = f.ended;
  }
