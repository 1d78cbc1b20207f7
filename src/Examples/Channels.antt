-- ===== src/Examples/Channels.antt =====
-- Channels as a list of values and of whether a receiver is alive: an instance of what
-- `tokio::sync::watch` is taken to do.
use uprava.Prelude.{
  ℕ, zero, suc, ◌≡◌, refl, ap, inl, inr, Bool, true, false, some, List, [], ◌∷◌, ◌++◌, arith, ltb,
  if◌then◌else◌, Option-cases, map_or, length, get_elem?, length-append,
}
use uprava.Node.Cancellation.{Watch, ExecutionCancellationRegistry}

abbrev pub Channel : Type 0
Channel = Bool × Bool

-- the update of one channel
abbrev pub set_at : ℕ → Channel → List Channel → List Channel
set_at c v [] = []
set_at zero v (x ∷ xs) = v ∷ xs
set_at (suc c) v (x ∷ xs) = x ∷ set_at c v xs

abbrev pub value_at : ℕ → List Channel → Bool
value_at c s = map_or false (λ v. v.0) (get_elem? s c)

abbrev pub open_at : ℕ → List Channel → Bool
open_at c s = map_or false (λ v. v.1) (get_elem? s c)

abbrev pub send_to : ℕ → Bool → List Channel → Bool × List Channel
send_to c b s = if open_at c s then (true, set_at c (b, true) s) else (false, s)

pub get_elem?-last : (s : List Channel) (v : Channel) → get_elem? (s ++ v ∷ []) (length s) ≡ some v
get_elem?-last [] v = refl
get_elem?-last (x ∷ s) v = get_elem?-last s v

get_elem?-set_at :
    (c : ℕ) (v w : Channel) (s : List Channel)
    → get_elem? s c ≡ some w
    → get_elem? (set_at c v s) c ≡ some v
get_elem?-set_at c v w [] h = ground (arith, h)
get_elem?-set_at zero v w (x ∷ s) h = refl
get_elem?-set_at (suc c) v w (x ∷ s) h = get_elem?-set_at c v w s h

pub send_to-open :
    (c : ℕ) (b : Bool) (s : List Channel)
    → open_at c s ≡ true
    → ((send_to c b s).0 ≡ true) × (value_at c (send_to c b s).1 ≡ b)
send_to-open c b s h = elim (Option-cases (get_elem? s c)) [
  | inl e ↦ ground (arith, e, h)
  | inr (w, e) ↦ rw h (refl, ap (map_or false (λ v. v.0)) (get_elem?-set_at c (b, true) w s e))
]

pub drop-closed : (c : ℕ) (s : List Channel) → open_at c (set_at c (false, false) s) ≡ false
drop-closed c [] = ground arith
drop-closed zero (x ∷ s) = refl
drop-closed (suc c) (x ∷ s) = drop-closed c s

pub length-known : (s : List Channel) → ltb (length s) (length s) ≡ false
length-known s = ground arith

pub length-grows :
    (s : List Channel) (v : Channel) (c : ℕ)
    → ltb c (length s) ≡ true
    → ltb c (length (s ++ v ∷ [])) ≡ true
length-grows s v c h = ground (arith, length-append s (v ∷ []))

pub length-last : (s : List Channel) (v : Channel) → ltb (length s) (length (s ++ v ∷ [])) ≡ true
length-last s v = ground (arith, length-append s (v ∷ []))

abbrev pub watch : Watch
watch = record {
  Store = List Channel;
  channel = λ b s. (length s, s ++ (b, true) ∷ []);
  send = send_to;
  drop_receivers = λ c s. set_at c (false, false) s;
  borrow = value_at;
  is_open = open_at;
  known = λ c s. ltb c (length s);
  channel-fresh = λ b s. length-known s;
  channel-known = λ b s c h. length-grows s (b, true) c h;
  channel-known_self = λ b s. length-last s (b, true);
  channel-borrow = λ b s. rw (get_elem?-last s (b, true)) refl;
  channel-open = λ b s. rw (get_elem?-last s (b, true)) refl;
  send-open = send_to-open;
  send-closed = λ c b s h. rw h refl;
  drop-closed = drop-closed;
}

abbrev pub idle_registry : ExecutionCancellationRegistry watch
idle_registry = record { state = record { senders = []; pending = [] }; store = [] }
