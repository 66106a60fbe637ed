-- ===== src/State/Finite/Fencing.antt =====
-- The fence of the writes under a claim.
use ptf.Prelude.{
  ◌&&◌, inl, inr, Bool-cases, List, ℕ, ◌≡◌, ◌≢◌, refl, ap, ◌∙◌, String, true, false, Option, some,
  arith, if◌then◌else◌, nat_eq, nat_eq_iff, eq_refl,
}
use ptf.Prelude.Table.{
  find_where, update_where, count_where, exists_where, update-none, find-update, count-and,
  exists_of_find, exists-append, find_satisfies,
}
use ptf.Core.Enums.{ExecutionStatus}
use ptf.Core.Json.{JsonValue, is_finite}
use ptf.Core.Errors.{ok, err, Result, Error}
use ptf.State.Tx.{bind-ok, transaction, transaction-err, transaction-ok, lift, ◌>>=◌, ◌>>◌}
use ptf.State.Db.{Db, UnitRow, AttemptRow}
use ptf.State.Finite.Runs.{not_json}
use ptf.State.Finite.Plan.{has_key}
use ptf.State.Finite.Claim.{ClaimedUnit}
use ptf.State.Finite.Attempt.{
  final_status, same_attempt, insert_attempt, add_attempt, holds_token, complete_row, attempt_row,
  stale_claim, record_attempt, complete_attempt, fenced_update, dead_letter_row, stale_dead_letter,
  dead_letter,
}
use ptf.State.Finite.Exclusion.{IsKeyed}
use ptf.State.Finite.Encoding.{
  column_of, nullable-finite, nullable-not_finite, completed_row, refusal,
}

module _ (c : ClaimedUnit) (db : Db) (u : UnitRow) (keyed : IsKeyed db.units)
    (found : find_where (has_key c.run_id c.unit_key) db.units ≡ some u) where
  count-holds_token :
      count_where (holds_token c) db.units ≡ (if nat_eq u.claim_token c.claim_token then 1 else 0)
  count-holds_token =
      count-and (has_key c.run_id c.unit_key) (λ x. nat_eq x.claim_token c.claim_token) db.units u
        (keyed c.run_id c.unit_key) found

  insert_attempt-known :
      (row : AttemptRow)
      → exists_where (has_key row.run_id row.unit_key) db.units ≡ true
      → insert_attempt row db ≡ (ok tt, record db { attempts = add_attempt row db.attempts })
  unfolding insert_attempt
  insert_attempt-known row known = rw known

  fenced_update-stale :
      (write : UnitRow → UnitRow) (stale : Error)
      → nat_eq u.claim_token c.claim_token ≡ false
      → (fenced_update c write stale db).0 ≡ err stale
  unfolding fenced_update
  fenced_update-stale write stale miss = rw (count-holds_token, miss)

  fenced_update-current :
      (write : UnitRow → UnitRow) (attempts : List AttemptRow)
      → u.claim_token ≡ c.claim_token
      → fenced_update c write stale_claim (record db { attempts = attempts }) ≡ (
        ok tt,
        record db { units = update_where (holds_token c) write db.units; attempts = attempts },
      )
  unfolding fenced_update
  fenced_update-current write attempts current =
      let holds : nat_eq u.claim_token c.claim_token ≡ true =
        ground (arith, current, nat_eq_iff u.claim_token c.claim_token) in
      rw (count-holds_token, holds) refl

  insert_fenced-stale :
      (row : AttemptRow) (write : UnitRow → UnitRow) (stale : Error)
      → exists_where (has_key row.run_id row.unit_key) db.units ≡ true
      → nat_eq u.claim_token c.claim_token ≡ false
      → ((insert_attempt row >> fenced_update c write stale) db).0 ≡ err stale
  unfolding fenced_update
  insert_fenced-stale row write stale known miss =
      ap (λ (r : Result (Unit {0}) × Db). r.0)
        (bind-ok (insert_attempt row) (λ _. fenced_update c write stale) db tt
          (record db { attempts = add_attempt row db.attempts }) (insert_attempt-known row known))
      ∙ fenced_update-stale write stale miss

  module _ (execution_id outcome : String) (result error : JsonValue) (retry_at : Option ℕ)
      (status : ExecutionStatus) (known : final_status outcome ≡ some status) where
    -- what a completion runs when its values can be encoded
    complete_attempt-encoded :
        is_finite error ≡ true
        → is_finite result ≡ true
        → complete_attempt c execution_id outcome result error retry_at db
          ≡ transaction
              (insert_attempt (attempt_row c execution_id outcome (column_of error))
                >> fenced_update c
                    (complete_row status (column_of result) (column_of error) retry_at)
                    stale_claim)
              db
    unfolding complete_attempt record_attempt
    complete_attempt-encoded e r =
        rw (known, nullable-finite error e, nullable-finite result r, complete_attempt) refl

    record_attempt-not_finite :
        (is_finite error && is_finite result) ≡ false
        → (record_attempt c execution_id outcome status result error retry_at db).0 ≡ err not_json
    unfolding record_attempt insert_attempt
    record_attempt-not_finite other = elim (Bool-cases (is_finite error)) [
      | inr e ↦ rw (nullable-not_finite error e, record_attempt) refl
      | inl e ↦
          let row = attempt_row c execution_id outcome (column_of error) in
          rw (nullable-finite error e, nullable-not_finite result (ground (arith, other, e)))
            (ap (λ (r : Result (Unit {0}) × Db). r.0)
              (bind-ok (insert_attempt row)
                (λ _. lift (err not_json) >>= λ stored. lift (ok (column_of error)) >>= λ last.
                  fenced_update c (complete_row status stored last retry_at) stale_claim)
                db tt (record db { attempts = add_attempt row db.attempts })
                (insert_attempt-known row
                  (exists_of_find (has_key c.run_id c.unit_key) db.units u found))))
    ]

    -- A completion with a result or an error that has a float which is not finite raises, and is
    -- rolled back whole.
    pub complete_attempt-not_finite :
        (is_finite error && is_finite result) ≡ false
        → complete_attempt c execution_id outcome result error retry_at db ≡ (err not_json, db)
    unfolding complete_attempt
    complete_attempt-not_finite other = rw known (
        transaction-err (record_attempt c execution_id outcome status result error retry_at) db
          not_json (record_attempt-not_finite other))

    -- A completion under a token that is not the unit's is refused and rolled back whole: neither
    -- the unit nor the history of attempts changes. The error is that of a stale claim, or that of
    -- the encoding where the result or the error has a float which is not finite.
    pub complete_attempt-stale :
        u.claim_token ≢ c.claim_token
        → complete_attempt c execution_id outcome result error retry_at db
          ≡ (err (refusal result error), db)
    complete_attempt-stale moved =
        let miss : nat_eq u.claim_token c.claim_token ≡ false = ground (arith, moved) in
        let row = attempt_row c execution_id outcome (column_of error) in
        let write = complete_row status (column_of result) (column_of error) retry_at in
        elim (Bool-cases (is_finite error && is_finite result)) [
          | inr other ↦ rw other (complete_attempt-not_finite other)
          | inl both ↦ rw both (
              complete_attempt-encoded (ground (arith, both)) (ground (arith, both))
              ∙ transaction-err (insert_attempt row >> fenced_update c write stale_claim) db
                  stale_claim
                  (insert_fenced-stale row write stale_claim
                    (exists_of_find (has_key c.run_id c.unit_key) db.units u found) miss))
        ]

    insert_fenced-current :
        u.claim_token ≡ c.claim_token
        → let row = attempt_row c execution_id outcome (column_of error) in
          let write = complete_row status (column_of result) (column_of error) retry_at in
          let (r, after) =
            transaction (insert_attempt row >> fenced_update c write stale_claim) db in
          (r ≡ ok tt)
          × (find_where (has_key c.run_id c.unit_key) after.units
              ≡ some (completed_row status (column_of result) (column_of error) retry_at u))
          × (exists_where (same_attempt row) after.attempts ≡ true)
    insert_fenced-current current =
        let row = attempt_row c execution_id outcome (column_of error) in
        let write = complete_row status (column_of result) (column_of error) retry_at in
        let db1 : Db = record db { attempts = add_attempt row db.attempts } in
        let written : Result (Unit {0}) × Db =
          (ok tt, record db1 { units = update_where (holds_token c) write db.units }) in
        let run =
          transaction-ok (insert_attempt row >> fenced_update c write stale_claim) (λ _. written) db
            (bind-ok (insert_attempt row) (λ _. fenced_update c write stale_claim) db tt db1
                (insert_attempt-known row
                  (exists_of_find (has_key c.run_id c.unit_key) db.units u found))
              ∙ fenced_update-current write db1.attempts current)
            (tt, refl) in
        rw run (
          refl,
          ground (
            arith,
            nat_eq_iff u.claim_token c.claim_token,
            current,
            found,
            find_satisfies (has_key c.run_id c.unit_key) db.units u found,
            find-update (holds_token c) (has_key c.run_id c.unit_key) write db.units (λ x. refl),
          ),
          ground (
            arith,
            exists-append (same_attempt row) db.attempts row,
            eq_refl c.run_id,
            eq_refl c.unit_key,
            nat_eq_iff c.attempt c.attempt,
          ),
        )

    pub complete_attempt-current :
        u.claim_token ≡ c.claim_token
        → is_finite error ≡ true
        → is_finite result ≡ true
        → let (r, after) = complete_attempt c execution_id outcome result error retry_at db in
          (r ≡ ok tt)
          × (find_where (has_key c.run_id c.unit_key) after.units
              ≡ some (completed_row status (column_of result) (column_of error) retry_at u))
          × (exists_where
                (same_attempt (attempt_row c execution_id outcome (column_of error)))
                after.attempts
              ≡ true)
    complete_attempt-current current e r =
        rw (complete_attempt-encoded e r) (insert_fenced-current current)

  -- Dead-lettering is fenced by the same token: it succeeds exactly under the unit's token, moves
  -- nothing of the unit but its status, and changes nothing otherwise.
  pub dead_letter-fenced :
      let current = nat_eq u.claim_token c.claim_token in
      let (r, after) = dead_letter c db in
      (r ≡ (if current then ok tt else err stale_dead_letter))
      × (after ≡ (
          if current
          then (record db { units = update_where (holds_token c) dead_letter_row db.units })
          else db))
      × (find_where (has_key c.run_id c.unit_key) after.units
          ≡ some (if current then dead_letter_row u else u))
  unfolding dead_letter
  dead_letter-fenced = ground (
    arith,
    count-holds_token,
    update-none (holds_token c) dead_letter_row db.units,
    find_satisfies (has_key c.run_id c.unit_key) db.units u found,
    find-update (holds_token c) (has_key c.run_id c.unit_key) dead_letter_row db.units (λ x. refl),
  )
