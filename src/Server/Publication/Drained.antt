-- ===== src/Server/Publication/Drained.antt =====
-- Publishing what waits touches the publications alone, and keeps them sound.
use uprava.Server.Rows.{All-weaken, any-update_where, All-update_where, All-retain}
use uprava.Prelude.{
  false-true, ◌≡◌, refl, sym, ap, ◌∙◌, subst, inl, inr, Bool, true, List, [], ◌∷◌, text_eq,
  Bool-cases, Option-cases, option_map, is_some, any, All,
}
use uprava.Protocol.Reference.{EventId}
use uprava.Server.Tables.{EventRow, PublicationRow, Db, update_where}
use uprava.Server.Projection.{Codecs}
use uprava.Server.Publication.{
  comes_before, insert_row, sort_rows, is_pending, Publisher, after_send, Ingested, drain_rows,
  drain_event_publication_outbox,
}
use uprava.Server.Publication.Sound.{Decodes, Known, Sound}

module _ (P : PublicationRow → Type 0) where
  All-insert_row :
      (row : PublicationRow) (rows : List PublicationRow)
      → P row
      → All P rows
      → All P (insert_row row rows)
  unfolding insert_row
  All-insert_row row [] h k = (h, tt)
  All-insert_row row (next ∷ rows) h k = elim (Bool-cases (comes_before next row)) [
    | inl e ↦ rw e (k.0, All-insert_row row rows h k.1)
    | inr e ↦ rw e (h, k)
  ]

  All-sort_rows : (rows : List PublicationRow) → All P rows → All P (sort_rows rows)
  unfolding sort_rows
  All-sort_rows [] h = tt
  All-sort_rows (row ∷ rows) h = All-insert_row row (sort_rows rows) h.0 (All-sort_rows rows h.1)

-- The publications aside, the tables are as they were.
abbrev pub OnlyPublished : Db → Db → Type 0
OnlyPublished db db' = record db' { publications = db.publications } ≡ db

module _ (codecs : Codecs) (publisher : Publisher) where
  abbrev Readable : PublicationRow → Type 0
  Readable p = Decodes codecs p.event_json p.event_id

  send-Sound :
      (db : Db) (q : PublicationRow → Bool) (f : PublicationRow → PublicationRow)
      → ((r : PublicationRow) → ((f r).event_id ≡ r.event_id) × ((f r).event_json ≡ r.event_json))
      → Sound codecs db
      → Sound codecs (record db { publications = update_where q f db.publications })
  send-Sound db q f keeps sound = record {
    rows =
        All-weaken db.events
          (λ row (a, b, c). (
            a,
            b,
            any-update_where (λ r. text_eq r.event_id row.event_id) q f db.publications
                  (λ r. ap (λ i. text_eq i row.event_id) (keeps r).0)
                ∙ c,
          ))
          sound.rows;
    decodes =
        All-update_where Readable q f db.publications (λ r h. rw ((keeps r).0, (keeps r).1) h)
          sound.decodes;
  }

  after_send-Sound :
      (row : PublicationRow) (db : Db)
      → Sound codecs db
      → Sound codecs (after_send publisher row db)
  after_send-Sound row db sound = elim (Bool-cases publisher.has_receivers) [
    | inl e ↦ rw e (send-Sound db _ _ (λ r. (refl, refl)) sound)
    | inr e ↦ rw e (send-Sound db _ _ (λ r. (refl, refl)) sound)
  ]

  abbrev pub Drained : Db → Ingested → Type 0
  Drained db i = Sound codecs i.db × OnlyPublished db i.db × (i.result ≡ inr tt)

  drain_rows-Drained :
      (rows : List PublicationRow) (db : Db)
      → All Readable rows
      → Sound codecs db
      → Drained db (drain_rows codecs publisher rows db)
  unfolding drain_rows
  drain_rows-Drained [] db h sound = (sound, refl, refl)
  drain_rows-Drained (row ∷ rows) db h sound =
      let (s, o, r) =
        drain_rows-Drained rows (after_send publisher row db) h.1 (after_send-Sound row db sound) in
      elim (Option-cases (codecs.event_from_str row.event_json)) [
        | inl n ↦ absurd (false-true (ap is_some (ap (option_map (λ d. d.event_id)) (sym n) ∙ h.0)))
        | inr (d, n) ↦ rw n (s, ap (λ (d : Db). record d { publications = db.publications }) o, r)
      ]

  pub drain_event_publication_outbox-Drained :
      (db : Db) → Sound codecs db → Drained db (drain_event_publication_outbox codecs publisher db)
  unfolding drain_event_publication_outbox
  drain_event_publication_outbox-Drained db sound =
      drain_rows-Drained _ db
        (All-sort_rows Readable _ (All-retain Readable is_pending db.publications sound.decodes))
        sound

  pub drained-Known :
      (id : EventId) (db db' : Db) → OnlyPublished db db' → Known id db → Known id db'
  drained-Known id db db' o known =
      subst (λ rows. any (λ (r : EventRow). text_eq r.event_id id) rows ≡ true)
        (sym (ap (λ d. d.events) o)) known
