-- ===== src/Node/Task/Frames.antt =====
-- Frames are the same however the stream is cut into chunks.
use uprava.Prelude.{
  ◌+◌, ◌≤◌, ◌<◌, ℕ, zero, suc, ◌≡◌, refl, sym, ap, ◌∙◌, inl, inr, true, false, Option, none, some,
  List, [], ◌∷◌, ◌++◌, arith, strip_prefix, leb, if◌then◌else◌, Bool-cases, Option-cases,
  option_map, length, take, drop, length-drop,
}
use uprava.Node.Workspace.{starts_with}
use uprava.Node.Task.{ExecdOutcome}
use uprava.Node.Task.Stream.{
  lf_lf, crlf_crlf, position, earlier, next_sse_frame, StreamHost, parse_frame, consume_loop,
}

-- The first delimiter, looked for place by place.
pub scan : List ℕ → Option (ℕ × ℕ)
scan [] = none
scan (c ∷ s) =
    let rest = scan s in
    if starts_with lf_lf (c ∷ s)
    then some (0, 2)
    else if starts_with crlf_crlf (c ∷ s)
    then some (0, 4)
    else option_map (λ p. (suc p.0, p.1)) rest

earlier-suc :
    (a b : Option ℕ)
    → earlier
        (option_map (λ i. (i, 2)) (option_map (λ i. suc i) a))
        (option_map (λ i. (i, 4)) (option_map (λ i. suc i) b))
      ≡ option_map
          (λ p. (suc p.0, p.1))
          (earlier (option_map (λ i. (i, 2)) a) (option_map (λ i. (i, 4)) b))
earlier-suc none none = refl
earlier-suc none (some j) = refl
earlier-suc (some i) none = refl
earlier-suc (some i) (some j) = elim (Bool-cases (leb i j)) [
  | inl e ↦ let f : leb (suc i) (suc j) ≡ true = ground (arith, e) in rw (e, f) refl
  | inr e ↦ let f : leb (suc i) (suc j) ≡ false = ground (arith, e) in rw (e, f) refl
]

earlier-first : (b : Option ℕ) → earlier (some (0, 2)) (option_map (λ i. (i, 4)) b) ≡ some (0, 2)
earlier-first none = refl
earlier-first (some j) = ground arith

earlier-second :
    (a : Option ℕ)
    → earlier (option_map (λ i. (i, 2)) (option_map (λ i. suc i) a)) (some (0, 4)) ≡ some (0, 4)
earlier-second none = refl
earlier-second (some i) = ground arith

pub next_sse_frame-scan : (s : List ℕ) → next_sse_frame s ≡ scan s
unfolding next_sse_frame position scan
next_sse_frame-scan [] = refl
next_sse_frame-scan (c ∷ s) = elim (Bool-cases (starts_with lf_lf (c ∷ s))) [
  | inl e ↦ rw e (earlier-first _)
  | inr e ↦ elim (Bool-cases (starts_with crlf_crlf (c ∷ s))) [
    | inl f ↦ rw (e, f) (earlier-second (position lf_lf s))
    | inr f ↦
        rw (e, f)
          (earlier-suc (position lf_lf s) (position crlf_crlf s)
            ∙ ap (option_map (λ p. (suc p.0, p.1))) (next_sse_frame-scan s))
  ]
]

-- The first delimiter of a tail is that of the whole if the whole begins with none.
scan-step :
    (c : ℕ) (t t' : List ℕ) (p : ℕ × ℕ)
    → starts_with lf_lf (c ∷ t') ≡ starts_with lf_lf (c ∷ t)
    → starts_with crlf_crlf (c ∷ t') ≡ starts_with crlf_crlf (c ∷ t)
    → ((q : ℕ × ℕ) → scan t ≡ some q → scan t' ≡ some q)
    → scan (c ∷ t) ≡ some p
    → scan (c ∷ t') ≡ some p
unfolding scan
scan-step c t t' p lf crlf rest h = elim (Bool-cases (starts_with lf_lf (c ∷ t))) [
  | inl e ↦ rw (lf, e) (rw e at h)
  | inr e ↦ elim (Bool-cases (starts_with crlf_crlf (c ∷ t))) [
    | inl f ↦ rw (lf, crlf, e, f) (rw (e, f) at h)
    | inr f ↦
        let shifted : option_map (λ p. (suc p.0, p.1)) (scan t) ≡ some p = rw (e, f) at h in
        rw (lf, crlf, e, f)
          (elim (Option-cases (scan t)) [
            | inl n ↦ ground (arith, rw n at shifted)
            | inr (q, s) ↦ rw (rest q s) (rw s at shifted)
          ])
  ]
]

starts_with-lf :
    (c d : ℕ) (s b : List ℕ) → starts_with lf_lf (c ∷ d ∷ (s ++ b)) ≡ starts_with lf_lf (c ∷ d ∷ s)
unfolding starts_with strip_prefix
starts_with-lf c d s b = ground arith

starts_with-crlf :
    (c d e f : ℕ) (s b : List ℕ)
    → starts_with crlf_crlf (c ∷ d ∷ e ∷ f ∷ (s ++ b)) ≡ starts_with crlf_crlf (c ∷ d ∷ e ∷ f ∷ s)
unfolding starts_with strip_prefix
starts_with-crlf c d e f s b = ground arith

pub scan-append : (a b : List ℕ) (p : ℕ × ℕ) → scan a ≡ some p → scan (a ++ b) ≡ some p
unfolding scan starts_with strip_prefix
scan-append [] b p h = ground (arith, h)
scan-append (c ∷ []) b p h = ground (arith, h)
scan-append (c ∷ d ∷ []) b p h = ground (arith, h)
scan-append (c ∷ d ∷ e ∷ []) b p h = ground (arith, h)
scan-append (c ∷ d ∷ e ∷ f ∷ s) b p h =
    scan-step c (d ∷ e ∷ f ∷ s) (d ∷ e ∷ f ∷ (s ++ b)) p (starts_with-lf c d (e ∷ f ∷ s) b)
      (starts_with-crlf c d e f s b) (λ q. scan-append (d ∷ e ∷ f ∷ s) b q) h

starts_with-length : (d s : List ℕ) → starts_with d s ≡ true → length d ≤ length s
unfolding starts_with strip_prefix
starts_with-length [] s h = omega arith
starts_with-length (c ∷ d) [] h = ground (arith, h)
starts_with-length (c ∷ d) (e ∷ s) h = ground (arith, h, starts_with-length d s)

-- A delimiter stands within the buffer.
pub scan-bound : (s : List ℕ) (p : ℕ × ℕ) → scan s ≡ some p → (p.0 + p.1 ≤ length s) × (0 < p.1)
unfolding scan
scan-bound [] p h = ground (arith, h)
scan-bound (c ∷ s) p h = elim (Bool-cases (starts_with lf_lf (c ∷ s))) [
  | inl e ↦
      let short = starts_with-length lf_lf (c ∷ s) e in
      let here : some (0, 2) ≡ some p = rw e at h in ground (arith, here, short)
  | inr e ↦ elim (Bool-cases (starts_with crlf_crlf (c ∷ s))) [
    | inl f ↦
        let short = starts_with-length crlf_crlf (c ∷ s) f in
        let here : some (0, 4) ≡ some p = rw (e, f) at h in ground (arith, here, short)
    | inr f ↦
        let shifted : option_map (λ p. (suc p.0, p.1)) (scan s) ≡ some p = rw (e, f) at h in
        elim (Option-cases (scan s)) [
          | inl n ↦ ground (arith, rw n at shifted)
          | inr (q, r) ↦
              let within = scan-bound s q r in
              let there : some (suc q.0, q.1) ≡ some p = rw r at shifted in
              ground (arith, there, within)
        ]
  ]
]

pub take-append_long : (n : ℕ) (a b : List ℕ) → n ≤ length a → take n (a ++ b) ≡ take n a
take-append_long zero a b h = refl
take-append_long (suc n) [] b h = absurd (omega (arith, h))
take-append_long (suc n) (x ∷ a) b h = ap (λ s. x ∷ s) (take-append_long n a b (omega (arith, h)))

pub drop-append_long : (n : ℕ) (a b : List ℕ) → n ≤ length a → drop n (a ++ b) ≡ drop n a ++ b
drop-append_long zero a b h = refl
drop-append_long (suc n) [] b h = absurd (omega (arith, h))
drop-append_long (suc n) (x ∷ a) b h = drop-append_long n a b (omega (arith, h))

module _ (host : StreamHost) where
  -- A buffer and an outcome before and after all its whole frames are taken off it.
  pub data Consumes : List ℕ → ExecdOutcome → List ℕ × ExecdOutcome → Type 0 where
    finished : (s : List ℕ) (o : ExecdOutcome) → next_sse_frame s ≡ none → Consumes s o (s, o)
    framed :
        (s : List ℕ) (o : ExecdOutcome) (p : ℕ × ℕ) (r : List ℕ × ExecdOutcome)
        → next_sse_frame s ≡ some p
        → Consumes (drop (p.0 + p.1) s) (parse_frame host (take p.0 s) o) r
        → Consumes s o r

  -- As much fuel as the buffer is long is enough.
  pub consume_loop-Consumes :
      (fuel : ℕ) (s : List ℕ) (o : ExecdOutcome)
      → length s ≤ fuel
      → Consumes s o (consume_loop host fuel s o)
  unfolding consume_loop next_sse_frame position
  consume_loop-Consumes zero [] o h = Consumes.finished [] o refl
  consume_loop-Consumes zero (c ∷ s) o h = absurd (omega (arith, h))
  consume_loop-Consumes (suc fuel) s o h = elim (Option-cases (next_sse_frame s)) [
    | inl n ↦ rw n (Consumes.finished s o n)
    | inr (p, e) ↦
        let bound = scan-bound s p (sym (next_sse_frame-scan s) ∙ e) in
        let less : length (drop (p.0 + p.1) s) ≤ fuel =
          omega (arith, length-drop (p.0 + p.1) s, bound.0, bound.1, h) in
        rw e (
          Consumes.framed s o p _ e (
            consume_loop-Consumes fuel (drop (p.0 + p.1) s) (parse_frame host (take p.0 s) o) less))
  ]
