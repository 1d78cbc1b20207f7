-- ===== src/Node/Store/Compaction.antt =====
-- What the compaction before a write keeps.
use uprava.Prelude.{
  ◌-◌, ℕ, ◌≡◌, refl, ap, ◌∙◌, ◌↔◌, ◌⊎◌, inl, inr, Bool, true, false, not, none, some, List, [], ◌∷◌,
  arith, Text, codes, text_eq, contains_text, text_eq_iff, ltb, if◌then◌else◌, Bool-cases, map_or,
  length, take, min, max, count_if-le-length, Map, get, remove, contains_key, get-remove,
}
use uprava.Protocol.Json.{Json}
use uprava.Protocol.Domain.{CommandState}
use uprava.Node.State.{NodeLocalState}
use uprava.Node.Store.Forgotten.{Distinct, open_commands, contains_text-take, length-remove_each}
use uprava.Node.Store.{
  is_removable, removable, remove_each, retain_known, compact_with_limit, command_state_storage,
  command_state_from_storage,
}

get-remove_each :
    {V : Type 0} (j : Text) (ks : List Text) (m : Map V)
    → get j (remove_each ks m) ≡ (if contains_text ks j then none else get j m)
unfolding remove_each contains_text
get-remove_each j [] m = refl
get-remove_each j (k ∷ ks) m = ground (arith, get-remove_each j ks (remove k m), get-remove k j m)

get-retain_known :
    (j : Text) (status : Map CommandState) (m : Map Json)
    → get j (retain_known status m) ≡ (if contains_key j status then get j m else none)
unfolding retain_known get
get-retain_known j status [] = ground arith
get-retain_known j status ((k, v) ∷ m) =
    ground (arith, get-retain_known j status m, text_eq_iff k j)

removable-get :
    (k : Text) (m : Map CommandState)
    → Distinct m
    → contains_text (removable m) k ≡ true
    → map_or false is_removable (get k m) ≡ true
unfolding removable contains_text get Distinct
removable-get k [] d h = ground arith
removable-get k ((j, status) ∷ m) d h = elim (Bool-cases (text_eq j k)) [
  | inr e ↦ ground (arith, e, removable-get k m d.1)
  | inl e ↦ elim (Bool-cases (is_removable status)) [
    | inl r ↦ ground (arith, e, r)
    | inr r ↦
        let there = removable-get k m d.1 (ground (arith, h, r)) in
        ground (arith, e, r, there, d.0, text_eq_iff j k)
  ]
]

gone-removable :
    (b : Bool) (n : ℕ) (k : Text) (ks : List Text)
    → contains_text (if b then take n ks else []) k ≡ true
    → contains_text ks k ≡ true
unfolding contains_text
gone-removable true n k ks h = contains_text-take n ks k h
gone-removable false n k ks h = ground (arith, h)

module _ (gone : List Text) (status : Map CommandState) (payloads : Map Json) (id : Text) where
  abbrev left : Map CommandState
  left = remove_each gone status

  abbrev left_payloads : Map Json
  left_payloads = retain_known left (remove_each gone payloads)

  get-left : get id left ≡ (if contains_text gone id then none else get id status)
  get-left = get-remove_each id gone status

  get-left_payloads : get id left_payloads ≡ (
      if contains_key id left
      then if contains_text gone id then none else get id payloads
      else none)
  get-left_payloads =
      get-retain_known id left (remove_each gone payloads)
      ∙ ap (λ o. if contains_key id left then o else none) (get-remove_each id gone payloads)

  kept_if_open :
      (contains_text gone id ≡ true → map_or false is_removable (get id status) ≡ true)
      → map_or false (λ t. not (is_removable t)) (get id status) ≡ true
      → (get id left ≡ get id status) × (get id left_payloads ≡ get id payloads)
  kept_if_open h o = elim (Bool-cases (contains_text gone id)) [
    | inl e ↦ ground (arith, h e, o)
    | inr e ↦
        let same : get id left ≡ get id status = ground (arith, e, get-left) in
        (same, ground (arith, e, o, same, get-left_payloads))
  ]

  kept_or_gone : (get id left ≡ none) ⊎ (get id left ≡ get id status)
  kept_or_gone = elim (Bool-cases (contains_text gone id)) [
    | inl e ↦ inl (ground (arith, e, get-left))
    | inr e ↦ inr (ground (arith, e, get-left))
  ]

  payload_with_status :
      get id left_payloads ≡ (if contains_key id left then get id payloads else none)
  payload_with_status = elim (Bool-cases (contains_text gone id)) [
    | inl e ↦ ground (arith, e, get-left, get-left_payloads)
    | inr e ↦ ground (arith, e, get-left, get-left_payloads)
  ]

length-left :
    (max_commands : ℕ) (m : Map CommandState)
    → Distinct m
    → let gone =
        if ltb max_commands (length m) then take (length m - max_commands) (removable m) else [] in
      length (remove_each gone m) ≡ max (min max_commands (length m)) (open_commands m)
unfolding remove_each
length-left max_commands m d = elim (Bool-cases (ltb max_commands (length m))) [
  | inl e ↦ rw (e, length-remove_each (length m - max_commands) m d) (ground (arith, e))
  | inr e ↦ rw e (ground (arith, e, count_if-le-length (λ c. not (is_removable c.1)) m))
]

-- The compaction before a write, of statuses with no key twice. It forgets only commands that are
-- done: a command with any other status keeps that status and its payload. A status is kept as it is
-- or forgotten. A payload is left, as it was, exactly for the commands that still have a status and
-- had a payload. Where there are more statuses than the limit, as many are left as the limit, or as
-- there are commands that are not done if these are more; otherwise as many as there were.
pub compact_with_limit_lem :
    (max_commands : ℕ) (s : NodeLocalState) (id : Text)
    → Distinct s.command_status
    → let s' = compact_with_limit max_commands s in
      (map_or false (λ t. not (is_removable t)) (get id s.command_status) ≡ true
        → (get id s'.command_status ≡ get id s.command_status)
          × (get id s'.command_result_payloads ≡ get id s.command_result_payloads))
      × ((get id s'.command_status ≡ none) ⊎ (get id s'.command_status ≡ get id s.command_status))
      × (get id s'.command_result_payloads
          ≡ (if contains_key id s'.command_status then get id s.command_result_payloads else none))
      × (length s'.command_status
          ≡ max (min max_commands (length s.command_status)) (open_commands s.command_status))
unfolding compact_with_limit
compact_with_limit_lem max_commands s id d =
    let n = length s.command_status - max_commands in
    let gone =
      if ltb max_commands (length s.command_status)
      then take n (removable s.command_status)
      else [] in
    let done : contains_text gone id ≡ true
        → map_or false is_removable (get id s.command_status) ≡ true =
      λ h.
        removable-get id s.command_status d
          (gone-removable _ n id (removable s.command_status) h) in
    (
      kept_if_open gone s.command_status s.command_result_payloads id done,
      kept_or_gone gone s.command_status s.command_result_payloads id,
      payload_with_status gone s.command_status s.command_result_payloads id,
      length-left max_commands s.command_status d,
    )

from_storage-eq :
    (state : CommandState) (text : Text)
    → command_state_from_storage text ≡ some state
    → text ≡ command_state_storage state
unfolding command_state_from_storage command_state_storage
from_storage-eq state text h = ground (
  arith,
  h,
  text_eq_iff text (codes "recorded"),
  text_eq_iff text (codes "pending_dispatch"),
  text_eq_iff text (codes "dispatched"),
  text_eq_iff text (codes "acknowledged"),
  text_eq_iff text (codes "completed"),
  text_eq_iff text (codes "failed"),
  text_eq_iff text (codes "blocked"),
  text_eq_iff text (codes "expired"),
)

storage-from_storage :
    (state : CommandState) → command_state_from_storage (command_state_storage state) ≡ some state
unfolding command_state_from_storage command_state_storage text_eq
storage-from_storage CommandState.recorded = refl
storage-from_storage CommandState.pending_dispatch = refl
storage-from_storage CommandState.dispatched = refl
storage-from_storage CommandState.acknowledged = refl
storage-from_storage CommandState.completed = refl
storage-from_storage CommandState.failed = refl
storage-from_storage CommandState.blocked = refl
storage-from_storage CommandState.expired = refl

-- The name of a command's state is read back as that state, and no other text is read as it.
pub command_state_storage_lem :
    (state : CommandState) (text : Text)
    → (command_state_from_storage text ≡ some state) ↔ (text ≡ command_state_storage state)
command_state_storage_lem state text =
    (from_storage-eq state text, λ e. rw e (storage-from_storage state))
