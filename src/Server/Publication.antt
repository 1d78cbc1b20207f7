-- ===== src/Server/Publication.antt =====
-- Publishing what was taken in: `drain_event_publication_outbox` of
-- crates/uprava-server/src/persistence/event.rs, and `accept_node_event` of
-- crates/uprava-server/src/runtime/application/coordination.rs around its transaction.
pub mod Sound
pub mod Drained
pub mod Redelivery
pub mod Values
pub mod Numbers
use uprava.Prelude.{
  ◌+◌, ◌-◌, ◌*◌, ◌/◌, ◌%◌, ◌^◌, ◌≤◌, ◌<◌, ℕ, zero, suc, max, min, compare, Ordering, ◌≡◌, refl, sym,
  ap, ◌∙◌, subst, ◌≢◌, ◌↔◌, ◌⊎◌, inl, inr, Bool, true, false, ◌&&◌, ◌||◌, not, Option, none, some,
  List, [], ◌∷◌, ◌++◌, map, arith, Text, codes, text_eq, text_lt, contains_char, contains_text,
  strip_prefix, trim, byte_len, utf8_len, text_eq_iff, text_eq_refl, ltb, leb, ◌==◌, if◌then◌else◌,
  Bool-cases, Option-cases, and_then, option_map, map_or, unwrap_or, or_else, is_some,
  option_filter, length, take, drop, is_empty, retain, any, all, count_if, Map, get, insert, remove,
  contains_key, keys, set_insert, set_remove, get-insert, get-insert_self, get-remove, map_laws,
  split_once, split, splitn, split_whitespace, parse_u64, decimal, splitn-append, splitn-absent,
  contains_text-set_insert, contains_text-set_remove, i64_max, All, get_elem?, length-append,
  length-drop, length-take, length-retain, count_if-le-length, take-append-drop, count_if-append,
  take-append_one, any-append, retain-append, All-append, All-drop, strip_prefix-append,
  append-cancel_left, trim_start, is_whitespace, text_eq-sym, ==_iff, eqℤ-refl, maxℤ, ◌≤ℤ◌, ◌<ℤ◌,
  maxℤ-ge_left, maxℤ-ge_right, ℤ, pos, negsuc, i64_succ, eqℤ, leℤ, ltb→lt, lt→ltb, leb→le,
}
use uprava.Protocol.Reference.{DateTime}
use uprava.Protocol.Event.{EventEnvelope, matches_kind}
use uprava.Server.Support.{AppError, Validated, Outcome}
use uprava.Server.Tables.{PublicationRow, Db, update_where}
use uprava.Server.Projection.{Codecs}
use uprava.Server.Ingest.{accept_transaction, decode_event}

-- `order by enqueued_at, event_id`
abbrev pub comes_before : PublicationRow → PublicationRow → Bool
comes_before a b =
    ltb a.enqueued_at b.enqueued_at
    || a.enqueued_at == b.enqueued_at && text_lt a.event_id b.event_id

unfoldable pub insert_row : PublicationRow → List PublicationRow → List PublicationRow
insert_row row [] = row ∷ []
insert_row row (next ∷ rows) =
    let further = insert_row row rows in
    if comes_before next row then next ∷ further else row ∷ next ∷ rows

unfoldable pub sort_rows : List PublicationRow → List PublicationRow
unfolding insert_row
sort_rows [] = []
sort_rows (row ∷ rows) = insert_row row (sort_rows rows)

abbrev pub is_pending : PublicationRow → Bool
is_pending row = not (is_some row.published_at)

-- whether the broadcast has a receiver, and the time
pub record Publisher : Type 0 where
  pub has_receivers : Bool
  pub utc_now : DateTime

abbrev pub after_send : Publisher → PublicationRow → Db → Db
after_send publisher row db = record db {
  publications =
      if publisher.has_receivers
      then update_where (λ r. text_eq r.event_id row.event_id && is_pending r)
          (λ r. record r { published_at = some publisher.utc_now }) db.publications
      else update_where (λ r. text_eq r.event_id row.event_id)
          (λ r. record r { attempts = r.attempts + 1 }) db.publications;
}

-- The tables, the events that were broadcast, and the result.
pub record Ingested : Type 0 where
  pub db : Db
  pub broadcast : List EventEnvelope
  pub result : Validated

module _ (codecs : Codecs) (publisher : Publisher) where
  abbrev pub sent_first : EventEnvelope → Ingested → Ingested
  sent_first event i = record i {
    broadcast = if publisher.has_receivers then event ∷ i.broadcast else i.broadcast;
  }

  abbrev pub after_decode : Outcome EventEnvelope → Db → Ingested → Ingested
  after_decode (inl e) db rest = record { db = db; broadcast = []; result = inl e }
  after_decode (inr event) db rest = sent_first event rest

  -- the loop; an event that cannot be decoded ends it
  unfoldable pub drain_rows : List PublicationRow → Db → Ingested
  drain_rows [] db = record { db = db; broadcast = []; result = inr tt }
  drain_rows (row ∷ rows) db =
      after_decode (decode_event codecs row.event_json) db
        (drain_rows rows (after_send publisher row db))

  unfoldable pub drain_event_publication_outbox : Db → Ingested
  unfolding drain_rows sort_rows
  drain_event_publication_outbox db = drain_rows (sort_rows (retain is_pending db.publications)) db

  abbrev pub payload_mismatch : AppError
  payload_mismatch =
      AppError.bad_request (codes "protocol.event_payload_mismatch")
        (codes "Event payload does not match its event kind")

  abbrev pub committed : Db → Outcome Db → Ingested
  committed db (inl e) = record { db = db; broadcast = []; result = inl e }
  committed db (inr db') = drain_event_publication_outbox db'

  unfoldable pub accept_node_event : EventEnvelope → Db → Ingested
  accept_node_event event db =
      if matches_kind event.payload.kind event.kind
      then committed db (accept_transaction codecs event db)
      else record { db = db; broadcast = []; result = inl payload_mismatch }
