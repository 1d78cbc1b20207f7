-- ===== src/Server/Support.antt =====
-- Errors, scope keys and the fields of an event that Core reads: crates/uprava-server/src/runtime/support.rs
-- and the helpers at the end of crates/uprava-server/src/runtime/application/projection.rs.
use uprava.Prelude.{
  ℕ, suc, ◌⊎◌, inl, inr, not, Option, none, some, List, [], ◌∷◌, ◌++◌, Text, codes, leb,
  if◌then◌else◌, and_then, option_filter, length, take, is_empty, split_whitespace, decimal, ℤ, pos,
  negsuc,
}
use uprava.Protocol.Json.{json_get, as_str}
use uprava.Protocol.Reference.{ApprovalId, ActorRef, ScopeRef}
use uprava.Protocol.Event.{EventEnvelope}

-- The errors of other libraries are their texts.
pub data AppError : Type 0 where
  database : Text → AppError
  serialization : Text → AppError
  io : Text → AppError
  task_join : Text → AppError
  internal : Text → Text → AppError
  not_found : Text → Text → AppError
  bad_request : Text → Text → AppError
  conflict : Text → Text → AppError
  auth : Text → Text → AppError
  rate_limited : Text → Text → AppError

-- `Result<(), AppError>`
abbrev pub Validated : Type 0
Validated = AppError ⊎ Unit {0}

-- `Result<T, AppError>` and `?`
abbrev pub Outcome : Type 0 → Type 0
Outcome A = AppError ⊎ A

infixl 5 ◌>>=◌
abbrev pub ◌>>=◌ : {A B : Type 0} → Outcome A → (A → Outcome B) → Outcome B
inl e >>= f = inl e
inr a >>= f = f a

unfoldable pub scope_key : ScopeRef → Text
scope_key (ScopeRef.runtime id) = codes "runtime:" ++ id
scope_key (ScopeRef.session id) = codes "session:" ++ id
scope_key (ScopeRef.node id) = codes "node:" ++ id
scope_key (ScopeRef.placement id) = codes "placement:" ++ id
scope_key (ScopeRef.task_run id) = codes "task_run:" ++ id
scope_key (ScopeRef.unknown scope) = codes "unknown:" ++ scope

-- the key, the kind and the display name of an actor
unfoldable pub actor_identity : ActorRef → Text × Text × Text
actor_identity (ActorRef.local_user none) =
    (codes "local_user", codes "local_user", codes "Local user")
actor_identity (ActorRef.local_user (some actor_id)) =
    (codes "local_user:" ++ actor_id, codes "local_user", codes "Local user")
actor_identity ActorRef.system = (codes "system", codes "system", codes "System")
actor_identity (ActorRef.node id) = (codes "node:" ++ id, codes "node", codes "Node " ++ id)
actor_identity (ActorRef.provider provider) =
    (codes "provider:" ++ provider, codes "provider", codes "Provider " ++ provider)
actor_identity ActorRef.unknown = (codes "unknown", codes "unknown", codes "Unknown")

-- `event.payload.0.get(key).and_then(Value::as_str)`
unfoldable pub payload_str : Text → EventEnvelope → Option Text
payload_str key event = and_then (json_get key event.payload.json) as_str

unfoldable pub event_approval_id : EventEnvelope → Option ApprovalId
unfolding payload_str
event_approval_id event =
    option_filter (λ id. not (is_empty id)) (payload_str (codes "approval_id") event)

-- `join(" ")`
unfoldable pub join_words : List Text → Text
join_words [] = []
join_words (word ∷ []) = word
join_words (word ∷ next ∷ rest) = word ++ 32 ∷ join_words (next ∷ rest)

unfoldable pub snippet : Text → ℕ → Text
unfolding join_words
snippet value max_chars =
    let normalized = join_words (split_whitespace value) in
    if leb (length normalized) max_chars
    then normalized
    else take max_chars normalized ++ codes "..."

-- the decimal digits of an `i64`
abbrev pub decimal_i64 : ℤ → Text
decimal_i64 (pos n) = decimal n
decimal_i64 (negsuc n) = 45 ∷ decimal (suc n)
