-- ===== src/Node/Task/Captured.antt =====
-- Bounds on what a stream captures.
use uprava.Prelude.{
  ◌+◌, ℕ, zero, suc, refl, inl, inr, Bool, true, false, List, [], ◌∷◌, ◌++◌, ltb, if◌then◌else◌,
  Bool-cases, Option-cases, length, take, drop,
}
use uprava.Node.Task.{ExecdOutcome}
use uprava.Node.Task.Stream.{
  next_sse_frame, StreamHost, parse_frame, consume_loop, consume_execd_frames, StreamEvent,
  consume_final_execd_frame, CommandStream, on_chunk, on_event, stream_loop,
  max_execd_frame_buffer_bytes,
}
use uprava.Node.Task.Output.{Bounded, parse_execd_frame-Bounded, same-Bounded}

module _ (host : StreamHost) where
  consume_loop-Bounded :
      (fuel : ℕ) (s : List ℕ) (o : ExecdOutcome)
      → Bounded o
      → Bounded (consume_loop host fuel s o).1
  unfolding consume_loop
  consume_loop-Bounded zero s o h = h
  consume_loop-Bounded (suc fuel) s o h = elim (Option-cases (next_sse_frame s)) [
    | inl n ↦ rw n h
    | inr (p, e) ↦ rw e (
        consume_loop-Bounded fuel (drop (p.0 + p.1) s) (parse_frame host (take p.0 s) o)
          (parse_execd_frame-Bounded host.from_str (host.from_utf8_lossy (take p.0 s)) o h))
  ]

  consume_final_execd_frame-Bounded :
      (s : List ℕ) (o : ExecdOutcome) → Bounded o → Bounded (consume_final_execd_frame host s o)
  unfolding consume_final_execd_frame
  consume_final_execd_frame-Bounded [] o h = h
  consume_final_execd_frame-Bounded (b ∷ s) o h =
      parse_execd_frame-Bounded host.from_str (host.from_utf8_lossy (b ∷ s)) o h

  on_chunk-Bounded :
      (bytes : List ℕ) (st : CommandStream)
      → Bounded st.outcome
      → Bounded (on_chunk host bytes st).outcome
  unfolding on_chunk consume_execd_frames
  on_chunk-Bounded bytes st h =
      elim (Bool-cases (ltb max_execd_frame_buffer_bytes (length st.buffer + length bytes))) [
        | inl over ↦ rw over (same-Bounded st.outcome _ refl refl h)
        | inr fits ↦
            rw fits
              (consume_loop-Bounded (length (st.buffer ++ bytes)) (st.buffer ++ bytes) st.outcome h)
      ]

  on_event-Bounded :
      (e : StreamEvent) (st : CommandStream)
      → Bounded st.outcome
      → Bounded (on_event host e st).outcome
  unfolding on_event
  on_event-Bounded StreamEvent.hard_timeout st h = same-Bounded st.outcome _ refl refl h
  on_event-Bounded (StreamEvent.cancellation true) st h = same-Bounded st.outcome _ refl refl h
  on_event-Bounded (StreamEvent.cancellation false) st h = h
  on_event-Bounded (StreamEvent.chunk bytes) st h = on_chunk-Bounded bytes st h
  on_event-Bounded (StreamEvent.chunk_failed failure) st h = same-Bounded st.outcome _ refl refl h
  on_event-Bounded StreamEvent.end_of_stream st h =
      consume_final_execd_frame-Bounded st.buffer st.outcome h

  Bounded-if_running :
      (b : Bool) (x y : CommandStream)
      → Bounded x.outcome
      → Bounded y.outcome
      → Bounded (if b then x else y).outcome
  Bounded-if_running true x y h k = h
  Bounded-if_running false x y h k = k

  -- Whatever the sandbox's daemon sends, and whenever the loop ends, the captured outputs stay
  -- within 64 KiB each if they were before.
  pub stream_loop-Bounded :
      (es : List StreamEvent) (st : CommandStream)
      → Bounded st.outcome
      → Bounded (stream_loop host es st).outcome
  unfolding stream_loop
  stream_loop-Bounded [] st h = h
  stream_loop-Bounded (e ∷ es) st h =
      Bounded-if_running st.is_running _ st
        (stream_loop-Bounded es (on_event host e st) (on_event-Bounded e st h)) h
