-- ===== src/Node/Outbox/Notices.antt =====
-- The runtimes that lose events, and the notices about them.
use uprava.Prelude.{
  All, ℕ, suc, ◌≡◌, refl, ◌∙◌, Bool, false, ◌||◌, Option, none, some, List, [], ◌∷◌, arith, text_eq,
  text_eq_iff, if◌then◌else◌, map_or, any, Map, get, insert, get-insert,
}
use uprava.Protocol.Reference.{RuntimeSessionId, SessionThreadId, NodeId}
use uprava.Protocol.Domain.{RuntimeSessionState}
use uprava.Protocol.Event.{EventEnvelope}
use uprava.Node.State.{NodeLocalState}
use uprava.Node.Outbox.{
  Host, Affected, or_insert, affect, runtime_outbox_retention_event, affected_runtimes,
  retention_notices, apply_runtime_state_projection,
}

-- Some event of the list belongs to the runtime.
unfoldable pub concerns : RuntimeSessionId → List EventEnvelope → Bool
concerns r = any (λ e. map_or false (λ id. text_eq id r) e.runtime_session_id)

unfoldable pub affects : RuntimeSessionId → Affected → Bool
affects r = any (λ x. text_eq x.0 r)

-- The value under each key begins with the key.
abbrev pub Keyed : Affected → Type 0
Keyed m = All (λ x. x.1.0 ≡ x.0) m

affects-or_insert :
    (r k : RuntimeSessionId) (v : RuntimeSessionId × Option SessionThreadId × Option NodeId)
    (m : Affected)
    → affects r (or_insert k v m) ≡ (text_eq k r || affects r m)
unfolding or_insert affects
affects-or_insert r k v [] = refl
affects-or_insert r k v ((j, w) ∷ m) =
    ground (arith, affects-or_insert r k v m, text_eq_iff j k, text_eq_iff j r, text_eq_iff k r)

Keyed-or_insert :
    (k : RuntimeSessionId) (thread : Option SessionThreadId) (origin : Option NodeId) (m : Affected)
    → Keyed m
    → Keyed (or_insert k (k, thread, origin) m)
unfolding or_insert
Keyed-or_insert k thread origin [] h = (refl, tt)
Keyed-or_insert k thread origin ((j, w) ∷ m) h =
    ground (arith, Keyed-or_insert k thread origin m, text_eq_iff j k)

affects-affect :
    (r : RuntimeSessionId) (o : Option RuntimeSessionId) (e : EventEnvelope) (m : Affected)
    → affects r (affect o e m) ≡ (affects r m || map_or false (λ id. text_eq id r) o)
affects-affect r none e m = ground arith
affects-affect r (some id) e m =
    ground (arith, affects-or_insert r id (id, e.session_thread_id, e.node_id) m)

pub affects-affected_runtimes :
    (r : RuntimeSessionId) (es : List EventEnvelope) (m : Affected)
    → affects r (affected_runtimes es m) ≡ (affects r m || concerns r es)
unfolding affected_runtimes concerns
affects-affected_runtimes r [] m = ground arith
affects-affected_runtimes r (e ∷ es) m = ground (
  arith,
  affects-affected_runtimes r es (affect e.runtime_session_id e m),
  affects-affect r e.runtime_session_id e m,
)

Keyed-affect :
    (o : Option RuntimeSessionId) (e : EventEnvelope) (m : Affected)
    → Keyed m
    → Keyed (affect o e m)
Keyed-affect none e m h = h
Keyed-affect (some id) e m h = Keyed-or_insert id e.session_thread_id e.node_id m h

pub Keyed-affected_runtimes :
    (es : List EventEnvelope) (m : Affected) → Keyed m → Keyed (affected_runtimes es m)
unfolding affected_runtimes
Keyed-affected_runtimes [] m h = h
Keyed-affected_runtimes (e ∷ es) m h =
    Keyed-affected_runtimes es (affect e.runtime_session_id e m)
      (Keyed-affect e.runtime_session_id e m h)

module _ (host : Host) where
  -- The states after the projection of the notices.
  pub get-projection-notices :
      (r : RuntimeSessionId) (n : ℕ) (s : NodeLocalState) (m : Affected)
      (states : Map RuntimeSessionState)
      → Keyed m
      → get r (apply_runtime_state_projection states (retention_notices host n s m).1)
        ≡ (if affects r m then some RuntimeSessionState.error else get r states)
  unfolding retention_notices apply_runtime_state_projection affects
  get-projection-notices r n s [] states h = refl
  get-projection-notices r n s ((k, (id, thread, origin)) ∷ m) states h =
      let s' = (runtime_outbox_retention_event host n s id thread origin).0 in
      let states' = insert id RuntimeSessionState.error states in
      get-projection-notices r (suc n) s' m states' h.1
      ∙ ground (arith, get-insert id r RuntimeSessionState.error states, h.0)

  -- Each runtime that lost events is the subject of a notice, and no other runtime is.
  pub concerns-retention_notices :
      (r : RuntimeSessionId) (n : ℕ) (s : NodeLocalState) (m : Affected)
      → Keyed m
      → concerns r (retention_notices host n s m).1 ≡ affects r m
  unfolding retention_notices concerns affects
  concerns-retention_notices r n s [] h = refl
  concerns-retention_notices r n s ((k, (id, thread, origin)) ∷ m) h =
      let s' = (runtime_outbox_retention_event host n s id thread origin).0 in
      ground (arith, concerns-retention_notices r (suc n) s' m h.1, h.0)

  -- The notices advance the counters of the runtimes, and change nothing else of the state.
  pub retention_notices-state :
      (n : ℕ) (s : NodeLocalState) (m : Affected)
      → (retention_notices host n s m).0
        ≡ record s { runtime_seqs = (retention_notices host n s m).0.runtime_seqs }
  unfolding retention_notices
  retention_notices-state n s [] = refl
  retention_notices-state n s ((k, (id, thread, origin)) ∷ m) =
      retention_notices-state (suc n) (runtime_outbox_retention_event host n s id thread origin).0 m
