-- ===== src/Server/Apply/States.antt =====
-- The state of the rows of a runtime through the updates of a projection.
use uprava.Server.Rows.{All-retain-update_where}
use uprava.Prelude.{
  false-true, ◌≡◌, refl, sym, ◌∙◌, subst, inl, inr, Bool, true, false, ◌&&◌, Option, none, some,
  List, [], ◌∷◌, Text, text_eq, if◌then◌else◌, Bool-cases, map_or, retain, All,
}
use uprava.Protocol.Reference.{RuntimeSessionId, SessionThreadId}
use uprava.Protocol.Domain.{SessionThreadState, RuntimeSessionState}
use uprava.Protocol.Event.{EventEnvelope}
use uprava.Server.Tables.{RuntimeRow, Db, update_where}
use uprava.Server.Projection.{Codecs}
use uprava.Server.Updates.{
  update_runtime_state, set_session_state, is_active, is_detached, load_session_state,
  update_session_state_from_event, provider_resume_ref_json, update_runtime_provider_resume_ref,
}

-- The rows of the runtime are in the state.
abbrev pub States : RuntimeSessionId → RuntimeSessionState → Db → Type 0
States id target db =
    All (λ r. r.state ≡ target) (retain (λ r. text_eq r.runtime_session_id id) db.runtimes)

states-update_where :
    (id : RuntimeSessionId) (target : RuntimeSessionState) (p : RuntimeRow → Bool)
    (f : RuntimeRow → RuntimeRow) (rows : List RuntimeRow)
    → ((r : RuntimeRow)
        → (text_eq (f r).runtime_session_id id ≡ text_eq r.runtime_session_id id)
          × ((f r).state ≡ r.state))
    → All (λ r. r.state ≡ target) (retain (λ r. text_eq r.runtime_session_id id) rows)
    → All
        (λ r. r.state ≡ target)
        (retain (λ r. text_eq r.runtime_session_id id) (update_where p f rows))
unfolding update_where
states-update_where id target p f [] keeps h = tt
states-update_where id target p f (r ∷ rows) keeps h =
    elim (Bool-cases (text_eq r.runtime_session_id id)) [
      | inl c ↦
          let (here, rest) =
            subst
              (λ b.
                All (λ r. r.state ≡ target)
                  (let kept = retain (λ r. text_eq r.runtime_session_id id) rows in
                    if b then r ∷ kept else kept))
              c h in
          let more = states-update_where id target p f rows keeps rest in
          elim (Bool-cases (p r)) [
            | inl e ↦ rw (e, (keeps r).0, c) ((keeps r).1 ∙ here, more)
            | inr e ↦ rw (e, c) (here, more)
          ]
      | inr c ↦
          let rest =
            subst
              (λ b.
                All (λ r. r.state ≡ target)
                  (let kept = retain (λ r. text_eq r.runtime_session_id id) rows in
                    if b then r ∷ kept else kept))
              c h in
          let more = states-update_where id target p f rows keeps rest in
          elim (Bool-cases (p r)) [ inl e ↦ rw (e, (keeps r).0, c) more | inr e ↦ rw (e, c) more ]
    ]

module _ (codecs : Codecs) (event : EventEnvelope) (id : RuntimeSessionId) where
  update_runtime_state-States :
      (target : RuntimeSessionState) (db : Db)
      → States id target (update_runtime_state id target event.happened_at db)
  unfolding update_runtime_state
  update_runtime_state-States target db =
      All-retain-update_where (λ r. r.state ≡ target) (λ r. text_eq r.runtime_session_id id)
        (λ r. text_eq r.runtime_session_id id) _ db.runtimes (λ r. refl)
        (λ r c e. absurd (false-true (sym e ∙ c))) (λ r e. refl)

  pub set_runtime-States :
      (target : RuntimeSessionState) (db : Db) (o : Option RuntimeSessionId)
      → o ≡ some id
      → States id target (map_or db (λ id. update_runtime_state id target event.happened_at db) o)
  set_runtime-States target db o h = rw h (update_runtime_state-States target db)

  resume_ref-States :
      (target : RuntimeSessionState) (db : Db) (other : RuntimeSessionId)
      → States id target db
      → States id target (update_runtime_provider_resume_ref codecs other event db)
  unfolding update_runtime_provider_resume_ref
  resume_ref-States target db other h = with_ref (provider_resume_ref_json codecs event)
    where
      with_ref :
          (ref : Option Text)
          → States id target (
              map_or db
                (λ ref. record db {
                  runtimes =
                      update_where
                        (λ r. text_eq r.runtime_session_id other)
                        (λ r. record r {
                          provider_resume_ref_json = some ref;
                          updated_at = event.happened_at;
                        })
                        db.runtimes;
                })
                ref)
      with_ref none = h
      with_ref (some ref) = states-update_where id target _ _ db.runtimes (λ r. (refl, refl)) h

  pub set_resume_ref-States :
      (target : RuntimeSessionState) (db : Db) (o : Option RuntimeSessionId)
      → States id target db
      → States id target (map_or db (λ id. update_runtime_provider_resume_ref codecs id event db) o)
  set_resume_ref-States target db none h = h
  set_resume_ref-States target db (some other) h = resume_ref-States target db other h

  pub update_session_state_from_event-States :
      (target : RuntimeSessionState) (session : SessionThreadState) (db : Db)
      → States id target db
      → States id target (update_session_state_from_event event session db)
  unfolding update_session_state_from_event
  update_session_state_from_event-States target session db h = of_session event.session_thread_id
    where
      guarded :
          (b : Bool) (s : SessionThreadId)
          → States id target (if b then db else set_session_state s session event.happened_at db)
      guarded true s = h
      guarded false s = h

      of_session :
          (o : Option SessionThreadId)
          → States id target (
              map_or db
                (λ id.
                  if is_active session && map_or false is_detached (load_session_state id db)
                  then db
                  else set_session_state id session event.happened_at db)
                o)
      of_session none = h
      of_session (some s) =
          guarded (is_active session && map_or false is_detached (load_session_state s db)) s
