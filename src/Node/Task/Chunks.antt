-- ===== src/Node/Task/Chunks.antt =====
-- The outcome of a stream against the whole of its bytes.
use uprava.Prelude.{
  ◌+◌, ℕ, ◌≡◌, refl, sym, ap, ◌∙◌, subst, inl, inr, true, false, none, some, List, [], ◌∷◌, ◌++◌,
  map, arith, ltb, if◌then◌else◌, Bool-cases, length, take, drop,
}
use uprava.Node.Task.{ExecdOutcome}
use uprava.Node.Task.Stream.{
  position, next_sse_frame, StreamHost, parse_frame, consume_execd_frames, StreamEvent,
  CommandStream, default_outcome, opened_stream, on_chunk, on_event, stream_loop,
  max_execd_frame_buffer_bytes,
}
use uprava.Node.Task.Frames.{
  next_sse_frame-scan, scan-append, scan-bound, take-append_long, drop-append_long, Consumes,
  consume_loop-Consumes,
}

append_nil : (s : List ℕ) → s ++ [] ≡ s
append_nil [] = refl
append_nil (x ∷ s) = ap (λ t. x ∷ t) (append_nil s)

append_assoc : (a b c : List ℕ) → (a ++ b) ++ c ≡ a ++ (b ++ c)
append_assoc [] b c = refl
append_assoc (x ∷ a) b c = ap (λ t. x ∷ t) (append_assoc a b c)

-- The bytes of all chunks.
pub concat : List (List ℕ) → List ℕ
concat [] = []
concat (bytes ∷ chunks) = bytes ++ concat chunks

some-injective : (p q : ℕ × ℕ) → some p ≡ some q → p ≡ q
some-injective p q h = ground (arith, h)

module _ (host : StreamHost) where
  Consumes-none :
      (s : List ℕ) (o : ExecdOutcome) (r : List ℕ × ExecdOutcome)
      → next_sse_frame s ≡ none
      → Consumes host s o r
      → (s, o) ≡ r
  Consumes-none _ _ _ n (Consumes.finished s o e) = refl
  Consumes-none _ _ _ n (Consumes.framed s o p r e c) = ground (arith, n, e)

  Consumes-some :
      (s : List ℕ) (o : ExecdOutcome) (r : List ℕ × ExecdOutcome) (p : ℕ × ℕ)
      → next_sse_frame s ≡ some p
      → Consumes host s o r
      → Consumes host (drop (p.0 + p.1) s) (parse_frame host (take p.0 s) o) r
  Consumes-some _ _ _ p h (Consumes.finished s o e) = ground (arith, h, e)
  Consumes-some _ _ _ p h (Consumes.framed s o q r e c) =
      let same : q ≡ p = some-injective q p (sym e ∙ h) in
      subst (λ q. Consumes host (drop (q.0 + q.1) s) (parse_frame host (take q.0 s) o) r) same c

  Consumes-unique :
      (s : List ℕ) (o : ExecdOutcome) (r r' : List ℕ × ExecdOutcome)
      → Consumes host s o r
      → Consumes host s o r'
      → r ≡ r'
  Consumes-unique _ _ _ r' (Consumes.finished s o e) d = Consumes-none s o r' e d
  Consumes-unique _ _ _ r' (Consumes.framed s o p r e c) d =
      Consumes-unique (drop (p.0 + p.1) s) (parse_frame host (take p.0 s) o) r r' c
        (Consumes-some s o r' p e d)

  -- More bytes behind the buffer do not change the frames that are whole in it.
  Consumes-append :
      (a b : List ℕ) (o : ExecdOutcome) (r q : List ℕ × ExecdOutcome)
      → Consumes host a o r
      → Consumes host (r.0 ++ b) r.1 q
      → Consumes host (a ++ b) o q
  Consumes-append _ b _ _ q (Consumes.finished s o e) d = d
  Consumes-append _ b _ _ q (Consumes.framed a o p r e c) d =
      let found = sym (next_sse_frame-scan a) ∙ e in
      let bound = scan-bound a p found in
      let behind = drop-append_long (p.0 + p.1) a b bound.0 in
      let frame = take-append_long p.0 a b (omega (arith, bound.0)) in
      Consumes.framed (a ++ b) o p q (next_sse_frame-scan (a ++ b) ∙ scan-append a b p found) (
        subst (λ s. Consumes host s (parse_frame host (take p.0 (a ++ b)) o) q) (sym behind)
          (subst (λ f. Consumes host (drop (p.0 + p.1) a ++ b) (parse_frame host f o) q) (sym frame)
            (Consumes-append (drop (p.0 + p.1) a) b (parse_frame host (take p.0 a) o) r q c d)))

  consume-Consumes :
      (s : List ℕ) (o : ExecdOutcome) → Consumes host s o (consume_execd_frames host s o)
  unfolding consume_execd_frames
  consume-Consumes s o = consume_loop-Consumes host (length s) s o (omega arith)

  ended :
      (es : List StreamEvent) (st : CommandStream)
      → st.is_running ≡ false
      → stream_loop host es st ≡ st
  unfolding stream_loop
  ended [] st h = refl
  ended (e ∷ es) st h =
      subst (λ b. (if b then stream_loop host es (on_event host e st) else st) ≡ st) (sym h) refl

  Consumes-rest :
      (s : List ℕ) (o : ExecdOutcome) (r : List ℕ × ExecdOutcome)
      → Consumes host s o r
      → next_sse_frame r.0 ≡ none
  Consumes-rest _ _ _ (Consumes.finished s o e) = e
  Consumes-rest _ _ _ (Consumes.framed s o p r e c) = Consumes-rest _ _ r c

  abbrev after_chunks : List (List ℕ) → CommandStream → CommandStream
  after_chunks chunks st = stream_loop host (map StreamEvent.chunk chunks) st

  after_chunk :
      (bytes : List ℕ) (chunks : List (List ℕ)) (st : CommandStream)
      → st.is_running ≡ true
      → after_chunks (bytes ∷ chunks) st ≡ after_chunks chunks (on_chunk host bytes st)
  unfolding stream_loop on_event
  after_chunk bytes chunks st run =
      ap (λ b. if b then after_chunks chunks (on_chunk host bytes st) else st) run

  -- What a chunk that fits leaves, as long as the loop goes on behind it.
  chunk_fits :
      (bytes : List ℕ) (chunks : List (List ℕ)) (st : CommandStream)
      → (after_chunks chunks (on_chunk host bytes st)).is_running ≡ true
      → on_chunk host bytes st ≡ (
          let r = consume_execd_frames host (st.buffer ++ bytes) st.outcome in
          record st { buffer = r.0; outcome = r.1 })
  unfolding on_chunk
  chunk_fits bytes chunks st run =
      elim (Bool-cases (ltb max_execd_frame_buffer_bytes (length st.buffer + length bytes))) [
        | inr fits ↦ rw fits refl
        | inl over ↦
            let broken : (on_chunk host bytes st).is_running ≡ false = rw over refl in
            let same = ended (map StreamEvent.chunk chunks) (on_chunk host bytes st) broken in
            ground (arith, broken, run, ap (λ s. s.is_running) same)
      ]

  after_chunks-Consumes :
      (chunks : List (List ℕ)) (st : CommandStream)
      → st.is_running ≡ true
      → next_sse_frame st.buffer ≡ none
      → (after_chunks chunks st).is_running ≡ true
      → Consumes host
          (st.buffer ++ concat chunks)
          st.outcome
          ((after_chunks chunks st).buffer, (after_chunks chunks st).outcome)
  unfolding stream_loop concat
  after_chunks-Consumes [] st run none_left h =
      subst (λ s. Consumes host s st.outcome (st.buffer, st.outcome)) (sym (append_nil st.buffer))
        (Consumes.finished st.buffer st.outcome none_left)
  after_chunks-Consumes (bytes ∷ chunks) st run none_left h =
      let r = consume_execd_frames host (st.buffer ++ bytes) st.outcome in
      let next : CommandStream = record st { buffer = r.0; outcome = r.1 } in
      let last = after_chunks (bytes ∷ chunks) st in
      let step = after_chunk bytes chunks st run in
      let fits = chunk_fits bytes chunks st (subst (λ s. s.is_running ≡ true) step h) in
      let whole = step ∙ ap (after_chunks chunks) fits in
      let taken = consume-Consumes (st.buffer ++ bytes) st.outcome in
      let later =
        after_chunks-Consumes chunks next run (Consumes-rest _ _ r taken)
          (subst (λ s. s.is_running ≡ true) whole h) in
      subst (λ s. Consumes host s st.outcome (last.buffer, last.outcome))
        (append_assoc st.buffer bytes (concat chunks))
        (subst
          (λ l.
            Consumes host ((st.buffer ++ bytes) ++ concat chunks) st.outcome (l.buffer, l.outcome))
          (sym whole)
          (Consumes-append (st.buffer ++ bytes) (concat chunks) st.outcome r _ taken later))

-- However the daemon's bytes are cut into chunks, if the loop has not stopped at the limit of the
-- buffer, its outcome and the rest in its buffer are those of taking the frames off all the bytes
-- at once.
pub stream_loop-chunks :
    (host : StreamHost) (chunks : List (List ℕ))
    → (stream_loop host (map StreamEvent.chunk chunks) opened_stream).is_running ≡ true
    → (
      (stream_loop host (map StreamEvent.chunk chunks) opened_stream).buffer,
      (stream_loop host (map StreamEvent.chunk chunks) opened_stream).outcome,
    )
      ≡ consume_execd_frames host (concat chunks) default_outcome
unfolding next_sse_frame position
stream_loop-chunks host chunks run =
    Consumes-unique host (concat chunks) default_outcome _ _
      (after_chunks-Consumes host chunks opened_stream refl refl run)
      (consume-Consumes host (concat chunks) default_outcome)
