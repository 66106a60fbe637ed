-- ===== src/State/Outbox/Dedup.antt =====
-- Inserts into the outbox and their keys.
use ptf.Prelude.{
  ℕ, suc, ◌≡◌, refl, sym, ap, ◌∙◌, String, false, Option, some, [], ◌∷◌, ◌++◌, arith, inl, inr,
  Bool-cases, eq_refl, length,
}
use ptf.Prelude.Table.{
  find_where, update_where, exists_where, find-update, find-append_none, find_satisfies,
  exists_of_find, length-update, find_of_exists,
}
use ptf.Core.Envelope.{VersionedEnvelope}
use ptf.Core.Errors.{ok}
use ptf.State.Db.{Db, OutboxRow}
use ptf.State.Outbox.{has_dedup, raise_token, pending_row, insert_outbox}

-- An insert under a key that is not taken appends a pending message under the next identifier and
-- returns that.
pub insert_outbox-fresh :
    (now : ℕ) (kind key destination : String) (envelope : VersionedEnvelope) (token : Option ℕ)
    (db : Db)
    → exists_where (has_dedup kind key) db.outbox ≡ false
    → insert_outbox now kind key destination envelope token db ≡ (
      ok db.next_outbox_id,
      record db {
        next_outbox_id = suc db.next_outbox_id;
        outbox =
            db.outbox ++ pending_row db.next_outbox_id now kind key destination envelope token ∷ [];
      },
    )
unfolding insert_outbox
insert_outbox-fresh now kind key destination envelope token db fresh = ground (
  arith,
  find-append_none (has_dedup kind key) db.outbox
      (pending_row db.next_outbox_id now kind key destination envelope token) fresh,
  eq_refl kind,
  eq_refl key,
)

-- An insert under a taken key returns the identifier of the message that is there, and changes
-- nothing of it but its token, which becomes the greater of the two.
pub insert_outbox-taken :
    (now : ℕ) (kind key destination : String) (envelope : VersionedEnvelope) (token : Option ℕ)
    (db : Db) (r : OutboxRow)
    → find_where (has_dedup kind key) db.outbox ≡ some r
    → let (answer, after) = insert_outbox now kind key destination envelope token db in
      (answer ≡ ok r.outbox_id)
      × (find_where (has_dedup kind key) after.outbox ≡ some (raise_token token r))
      × (after.outbox ≡ update_where (has_dedup kind key) (raise_token token) db.outbox)
unfolding insert_outbox
insert_outbox-taken now kind key destination envelope token db r found = ground (
  arith,
  exists_of_find (has_dedup kind key) db.outbox r found,
  find-update (has_dedup kind key) (has_dedup kind key) (raise_token token) db.outbox (λ x. refl),
  find_satisfies (has_dedup kind key) db.outbox r found,
)

-- Replayed work converges on one message: a second insert under the same key, whatever else it
-- carries, returns the identifier that the first returned and adds no row.
pub insert_outbox_converges :
    (now later : ℕ) (kind key dest dest' : String) (env env' : VersionedEnvelope)
    (token token' : Option ℕ) (db : Db)
    → let (first, after) = insert_outbox now kind key dest env token db in
      let (second, last) = insert_outbox later kind key dest' env' token' after in
      (second ≡ first) × (length last.outbox ≡ length after.outbox)
insert_outbox_converges now later kind key dest dest' env env' token token' db =
    elim (Bool-cases (exists_where (has_dedup kind key) db.outbox)) [
      | inl taken ↦
          let (r, found) = find_of_exists (has_dedup kind key) db.outbox taken in
          let (first, there, _) = insert_outbox-taken now kind key dest env token db r found in
          again (raise_token token r) there first
      | inr fresh ↦
          let row = pending_row db.next_outbox_id now kind key dest env token in
          let run = insert_outbox-fresh now kind key dest env token db fresh in
          again row
            (ap (λ x. find_where (has_dedup kind key) x.1.outbox) run
              ∙ find-append_none (has_dedup kind key) db.outbox row fresh
                  (ground (arith, eq_refl kind, eq_refl key)))
            (ap (λ x. x.0) run)
    ]
  where
    after : Db
    after = (insert_outbox now kind key dest env token db).1

    again :
        (r : OutboxRow)
        → find_where (has_dedup kind key) after.outbox ≡ some r
        → (insert_outbox now kind key dest env token db).0 ≡ ok r.outbox_id
        → ((insert_outbox later kind key dest' env' token' after).0
            ≡ (insert_outbox now kind key dest env token db).0)
          × (length (insert_outbox later kind key dest' env' token' after).1.outbox
              ≡ length after.outbox)
    again r there e =
        let (second, _, rows) =
          insert_outbox-taken later kind key dest' env' token' after r there in
        (
          second ∙ sym e,
          ap length rows ∙ length-update (has_dedup kind key) (raise_token token') after.outbox,
        )

-- No insert raises.
pub insert_outbox-ok :
    (now : ℕ) (kind key dest : String) (env : VersionedEnvelope) (token : Option ℕ) (db : Db)
    → (id : ℕ) × ((insert_outbox now kind key dest env token db).0 ≡ ok id)
insert_outbox-ok now kind key dest env token db =
    elim (Bool-cases (exists_where (has_dedup kind key) db.outbox)) [
      | inl taken ↦
          let (r, found) = find_of_exists (has_dedup kind key) db.outbox taken in
          (r.outbox_id, (insert_outbox-taken now kind key dest env token db r found).0)
      | inr fresh ↦ (
        db.next_outbox_id,
        ap (λ x. x.0) (insert_outbox-fresh now kind key dest env token db fresh),
      )
    ]
