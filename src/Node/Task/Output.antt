-- ===== src/Node/Task/Output.antt =====
-- Bounds on captured output.
use uprava.Prelude.{
  ◌+◌, ◌-◌, ◌≤◌, ◌<◌, ℕ, max, ◌≡◌, refl, sym, ap, subst, inl, inr, Bool, true, false, ◌||◌, Option,
  none, some, [], ◌∷◌, ◌++◌, arith, Text, codes, text_eq, byte_len, utf8_len, ltb, leb,
  if◌then◌else◌, Bool-cases, and_then, map_or, unwrap_or, or_else, is_empty, ltb→lt, lt→ltb, leb→le,
}
use uprava.Protocol.Json.{Json, json_get, as_str}
use uprava.Node.Task.{
  prefix_within, append_capped, cap_string, ExecdOutcome, with_stdout, with_stderr,
  apply_execd_event, reported_exit_code, parse_execd_frame, task_output_bytes,
}

append_nil : (xs : Text) → xs ++ [] ≡ xs
append_nil [] = refl
append_nil (x ∷ xs) = ap (λ t. x ∷ t) (append_nil xs)

utf8_len-pos : (c : ℕ) → 0 < utf8_len c
unfolding utf8_len
utf8_len-pos c = ground arith

byte_len-append : (s t : Text) → byte_len (s ++ t) ≡ byte_len s + byte_len t
unfolding byte_len
byte_len-append [] t = omega arith
byte_len-append (c ∷ s) t = omega (arith, byte_len-append s t)

byte_len-prefix_within : (max : ℕ) (s : Text) → byte_len (prefix_within max s) ≤ max
unfolding byte_len prefix_within
byte_len-prefix_within max [] = omega arith
byte_len-prefix_within max (c ∷ s) = ground (arith, byte_len-prefix_within (max - utf8_len c) s)

-- The next character would go beyond the bound.
pub overflows : ℕ → Text → Text → Bool
overflows max kept [] = false
overflows max kept (c ∷ rest) = ltb max (byte_len kept + utf8_len c)

overflows-cons :
    (max c : ℕ) (kept rest : Text)
    → utf8_len c ≤ max
    → overflows (max - utf8_len c) kept rest ≡ true
    → overflows max (c ∷ kept) rest ≡ true
unfolding overflows byte_len
overflows-cons max c kept [] h k = k
overflows-cons max c kept (d ∷ rest) h k =
    lt→ltb max _ (omega (arith, h, ltb→lt (max - utf8_len c) (byte_len kept + utf8_len d) k))

prefix_within-split :
    (max : ℕ) (s : Text)
    → max < byte_len s
    → (rest : Text) × (s ≡ prefix_within max s ++ rest)
      × (overflows max (prefix_within max s) rest ≡ true)
unfolding byte_len prefix_within overflows
prefix_within-split max [] h = absurd (omega arith)
prefix_within-split max (c ∷ s) h = elim (Bool-cases (leb (utf8_len c) max)) [
  | inr e ↦ rw e (c ∷ s, refl, ground arith)
  | inl e ↦
      let (rest, eq, over) = prefix_within-split (max - utf8_len c) s (ground (arith, e)) in
      rw e (
        rest,
        ap (λ t. c ∷ t) eq,
        overflows-cons max c (prefix_within (max - utf8_len c) s) rest (leb→le _ _ e) over,
      )
]

-- Cutting a text to a bound keeps a prefix of whole characters within the bound. It is the whole text
-- if that is within the bound, and then the text is not marked as truncated; otherwise it is marked,
-- and one more character would go beyond the bound.
pub cap_string_lem :
    (value : Text) (max : ℕ)
    → let (kept, truncated) = cap_string value max in
      (rest : Text) × (value ≡ kept ++ rest)
      × (byte_len kept ≤ max)
      × (truncated ≡ ltb max (byte_len value))
      × (if truncated then overflows max kept rest ≡ true else rest ≡ [])
unfolding cap_string
cap_string_lem value max = elim (Bool-cases (leb (byte_len value) max)) [
  | inl fits ↦ rw fits ([], sym (append_nil value), leb→le _ _ fits, ground arith, refl)
  | inr over ↦
      let (rest, eq, next) = prefix_within-split max value (ground arith) in
      rw over (rest, eq, byte_len-prefix_within max value, ground arith, next)
]

byte_len-append_capped :
    (target value : Text) (max : ℕ) (b : Bool)
    → byte_len target ≤ max
    → byte_len (append_capped target value max b).0 ≤ max
unfolding append_capped
byte_len-append_capped target value max b h = elim (Bool-cases (leb max (byte_len target))) [
  | inl full ↦ rw full h
  | inr room ↦ elim (Bool-cases (leb (byte_len value) (max - byte_len target))) [
    | inl fits ↦
        rw (room, fits)
          (subst (λ n. n ≤ max) (sym (byte_len-append target value))
            (omega (arith, leb→le _ _ fits, h)))
    | inr over ↦
        let part = prefix_within (max - byte_len target) value in
        rw (room, over)
          (subst (λ n. n ≤ max) (sym (byte_len-append target part))
            (omega (arith, byte_len-prefix_within (max - byte_len target) value, h)))
  ]
]

-- Both captured outputs are within the bound.
unfoldable pub Bounded : ExecdOutcome → Type 0
Bounded o = (byte_len o.stdout ≤ task_output_bytes) × (byte_len o.stderr ≤ task_output_bytes)

with_stdout-Bounded : (text : Text) (o : ExecdOutcome) → Bounded o → Bounded (with_stdout text o)
unfolding with_stdout Bounded
with_stdout-Bounded text o h =
    (byte_len-append_capped o.stdout text task_output_bytes o.stdout_truncated h.0, h.1)

with_stderr-Bounded : (text : Text) (o : ExecdOutcome) → Bounded o → Bounded (with_stderr text o)
unfolding with_stderr Bounded
with_stderr-Bounded text o h =
    (h.0, byte_len-append_capped o.stderr text task_output_bytes o.stderr_truncated h.1)

Bounded-if : (b : Bool) (x y : ExecdOutcome) → Bounded x → Bounded y → Bounded (if b then x else y)
Bounded-if true x y h k = h
Bounded-if false x y h k = k

pub same-Bounded :
    (o o' : ExecdOutcome) → o'.stdout ≡ o.stdout → o'.stderr ≡ o.stderr → Bounded o → Bounded o'
unfolding Bounded
same-Bounded o o' e f h = (rw e h.0, rw f h.1)

apply_execd_event-Bounded :
    (value : Json) (o : ExecdOutcome) → Bounded o → Bounded (apply_execd_event value o)
unfolding apply_execd_event with_stdout with_stderr
apply_execd_event-Bounded value o h =
    let ty = unwrap_or (and_then (json_get (codes "type") value) as_str) [] in
    let text = unwrap_or (and_then (json_get (codes "text") value) as_str) [] in
    elim (Bool-cases (text_eq ty (codes "init"))) [
      | inl e ↦ rw e (
          Bounded-if (is_empty text) o (record o { command_id = some text }) h
            (same-Bounded o (record o { command_id = some text }) refl refl h))
      | inr e ↦ elim (Bool-cases (text_eq ty (codes "stdout"))) [
        | inl f ↦ rw (e, f) (with_stdout-Bounded text o h)
        | inr f ↦ elim (Bool-cases (text_eq ty (codes "stderr") || text_eq ty (codes "error"))) [
          | inl g ↦ rw (e, f, g) (with_stderr-Bounded text o h)
          | inr g ↦
              let code = or_else (reported_exit_code value) o.exit_code in
              rw (e, f, g)
                (Bounded-if _ (record o { exit_code = code }) o
                  (same-Bounded o (record o { exit_code = code }) refl refl h) h)
        ]
      ]
    ]

map_or-Bounded :
    (f : Json → ExecdOutcome) (o : ExecdOutcome) (v : Option Json)
    → Bounded o
    → ((j : Json) → Bounded (f j))
    → Bounded (map_or o f v)
map_or-Bounded f o none h k = h
map_or-Bounded f o (some j) h k = k j

pub parse_execd_frame-Bounded :
    (from_str : Text → Option Json) (text : Text) (o : ExecdOutcome)
    → Bounded o
    → Bounded (parse_execd_frame from_str text o)
unfolding parse_execd_frame
parse_execd_frame-Bounded from_str text o h =
    Bounded-if _ _ _ h
      (map_or-Bounded (λ v. apply_execd_event v o) o _ h (λ v. apply_execd_event-Bounded v o h))
