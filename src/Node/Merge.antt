-- ===== src/Node/Merge.antt =====
-- `merge_command_state_from` and its helpers of
-- crates/uprava-node/src/runtime/persistence/state.rs: a command works on a snapshot of the state,
-- and what it changed there is merged into the state of the owner, which may have moved on.
pub mod Keys
pub mod Events
pub mod Tombstones
use uprava.Prelude.{
  ◌+◌, ◌-◌, ◌*◌, ◌/◌, ◌%◌, ◌^◌, ◌≤◌, ◌<◌, ℕ, zero, suc, max, min, compare, Ordering, ◌≡◌, refl, sym,
  ap, ◌∙◌, subst, ◌≢◌, ◌↔◌, ◌⊎◌, inl, inr, Bool, true, false, ◌&&◌, ◌||◌, not, Option, none, some,
  List, [], ◌∷◌, ◌++◌, map, arith, Text, codes, text_eq, text_lt, contains_char, contains_text,
  strip_prefix, trim, byte_len, utf8_len, text_eq_iff, text_eq_refl, ltb, leb, ◌==◌, if◌then◌else◌,
  Bool-cases, Option-cases, and_then, option_map, map_or, unwrap_or, or_else, is_some,
  option_filter, length, take, drop, is_empty, retain, any, all, count_if, Map, get, insert, remove,
  contains_key, keys, set_insert, set_remove, get-insert, get-remove, map_laws,
  contains_text-set_insert, contains_text-set_remove, i64_max, maxℤ, ◌≤ℤ◌, ◌<ℤ◌, maxℤ-ge_left,
  maxℤ-ge_right, ℤ, pos, negsuc, i64_succ, eqℤ, leℤ, ltb→lt, lt→ltb, leb→le,
}
use uprava.Protocol.Reference.{EventId}
use uprava.Protocol.Event.{EventEnvelope}
use uprava.Node.State.{
  NodeLocalState, Text-discrete, CommandState-discrete, RuntimeSessionState-discrete, Json-discrete,
  Transcript-discrete, ProviderResumeRef-discrete, TaskRuntimeMapping-discrete,
  ToolDependencyDesired-discrete,
}

-- `==` of two values
abbrev pub same {ℓ} : {V : Type ℓ} → Discrete V → V → V → Bool
same dec a b = elim (dec a b) [ yes _ ↦ true | no _ ↦ false ]

-- `owner.get(&key) == Some(previous)`
abbrev pub holds {ℓ} : {V : Type ℓ} → Discrete V → Option V → V → Bool
holds dec none v = false
holds dec (some w) v = same dec w v

module _ {ℓ} {V : Type ℓ} (dec : Discrete V) where
  -- One round of the loop of `merge_changed_map`: the values of the key in the baseline and in the
  -- candidate decide.
  abbrev merge_key_with : Text → Option V → Option V → Map V → Map V
  merge_key_with k (some previous) (some next) owner =
      if same dec previous next then owner else insert k next owner
  merge_key_with k none (some next) owner = insert k next owner
  merge_key_with k (some previous) none owner =
      if holds dec (get k owner) previous then remove k owner else owner
  merge_key_with k none none owner = owner

  unfoldable pub merge_keys : List Text → Map V → Map V → Map V → Map V
  merge_keys [] owner baseline candidate = owner
  merge_keys (k ∷ ks) owner baseline candidate =
      merge_keys ks (merge_key_with k (get k baseline) (get k candidate) owner) baseline candidate

  -- the keys of both maps, each once
  unfoldable pub key_set : List Text → List Text
  key_set [] = []
  key_set (k ∷ ks) = set_insert k (key_set ks)

  unfoldable pub merge_changed_map : Map V → Map V → Map V → Map V
  unfolding merge_keys key_set
  merge_changed_map owner baseline candidate =
      merge_keys (key_set (keys baseline ++ keys candidate)) owner baseline candidate

  -- What one key of the owner becomes.
  abbrev pub merged : Option V → Option V → Option V → Option V
  merged o (some previous) (some next) = if same dec previous next then o else some next
  merged o none (some next) = some next
  merged o (some previous) none = if holds dec o previous then none else o
  merged o none none = o

unfoldable pub has_event : EventId → List EventEnvelope → Bool
has_event id [] = false
has_event id (e ∷ es) = text_eq e.event_id id || has_event id es

-- The loop over the events of the command's snapshot.
unfoldable pub merge_events :
    List EventEnvelope → List EventEnvelope → List EventEnvelope → List EventEnvelope
unfolding has_event
merge_events owner baseline [] = owner
merge_events owner baseline (e ∷ es) =
    let known = has_event e.event_id baseline || has_event e.event_id owner in
    merge_events (if known then owner else owner ++ e ∷ []) baseline es

-- `baseline.get(id) != Some(seq)`
abbrev changed_seq : Option ℤ → ℤ → Bool
changed_seq none seq = true
changed_seq (some old) seq = not (eqℤ old seq)

-- The loops over `runtime_seqs` and `placement_seqs`: a changed counter never falls.
unfoldable pub merge_seqs : Map ℤ → Map ℤ → Map ℤ → Map ℤ
merge_seqs owner baseline [] = owner
merge_seqs owner baseline ((id, seq) ∷ rest) =
    merge_seqs
      (if changed_seq (get id baseline) seq
        then insert id (maxℤ (unwrap_or (get id owner) (pos 0)) seq) owner
        else owner)
      baseline rest

abbrev pub max_cancelled_deduction_tombstones : ℕ
max_cancelled_deduction_tombstones = 1024

-- `HashSet::difference`
abbrev pub difference : List Text → List Text → List Text
difference xs ys = retain (λ x. not (contains_text ys x)) xs

unfoldable pub remove_all : List Text → List Text → List Text
remove_all [] s = s
remove_all (k ∷ ks) s = remove_all ks (set_remove k s)

-- `iter_next` is the entry that a hash set happens to give first.
module _ (iter_next : List Text → Option Text) where
  abbrev evict : Option Text → List Text → List Text
  evict none s = s
  evict (some expired) s = set_remove expired s

  unfoldable pub remember_cancelled_deduction : List Text → Text → List Text
  remember_cancelled_deduction tombstones id =
      if contains_text tombstones id
      then tombstones
      else set_insert id (
          if leb max_cancelled_deduction_tombstones (length tombstones)
          then evict (iter_next tombstones) tombstones
          else tombstones)

  unfoldable pub remember_all : List Text → List Text → List Text
  unfolding remember_cancelled_deduction
  remember_all [] s = s
  remember_all (k ∷ ks) s = remember_all ks (remember_cancelled_deduction s k)

  unfoldable pub merge_command_state_from :
      NodeLocalState → NodeLocalState → NodeLocalState → NodeLocalState
  unfolding remember_all
  merge_command_state_from s b c = record s {
    command_status =
        merge_changed_map CommandState-discrete s.command_status b.command_status c.command_status;
    command_result_payloads =
        merge_changed_map Json-discrete s.command_result_payloads b.command_result_payloads
          c.command_result_payloads;
    event_outbox = merge_events s.event_outbox b.event_outbox c.event_outbox;
    runtime_seqs = merge_seqs s.runtime_seqs b.runtime_seqs c.runtime_seqs;
    runtime_providers =
        merge_changed_map Text-discrete s.runtime_providers b.runtime_providers c.runtime_providers;
    runtime_workspace_paths =
        merge_changed_map Text-discrete s.runtime_workspace_paths b.runtime_workspace_paths
          c.runtime_workspace_paths;
    runtime_states =
        merge_changed_map RuntimeSessionState-discrete s.runtime_states b.runtime_states
          c.runtime_states;
    runtime_transcripts =
        merge_changed_map Transcript-discrete s.runtime_transcripts b.runtime_transcripts
          c.runtime_transcripts;
    runtime_provider_resume_refs =
        merge_changed_map ProviderResumeRef-discrete s.runtime_provider_resume_refs
          b.runtime_provider_resume_refs c.runtime_provider_resume_refs;
    cancelled_deductions = remove_all (difference b.cancelled_deductions c.cancelled_deductions) (
        remember_all (difference c.cancelled_deductions b.cancelled_deductions)
          s.cancelled_deductions);
    tool_dependencies =
        merge_changed_map ToolDependencyDesired-discrete s.tool_dependencies b.tool_dependencies
          c.tool_dependencies;
    task_runtime_mappings =
        merge_changed_map TaskRuntimeMapping-discrete s.task_runtime_mappings
          b.task_runtime_mappings c.task_runtime_mappings;
    placement_seqs = merge_seqs s.placement_seqs b.placement_seqs c.placement_seqs;
    dropped_event_count = max s.dropped_event_count c.dropped_event_count;
    heartbeat_failures = max s.heartbeat_failures c.heartbeat_failures;
  }
