-- ===== src/Worker/Settled.antt =====
-- Where the end of an attempt leaves its unit, however it ended.
use ptf.Prelude.{
  ℕ, ◌≡◌, ◌≢◌, ◌<◌, refl, ap, ◌∙◌, String, Bool, true, none, some, arith, is_some, inl, inr,
  Bool-cases,
}
use ptf.Prelude.Table.{find_where}
use ptf.Core.Enums.{ExecutionStatus, is_claimable}
use ptf.Core.Failure.{Failure}
use ptf.Core.Json.{JsonValue, is_finite}
use ptf.State.Db.{Db, UnitRow}
use ptf.State.Tx.{bind-ok, bind-pure_db, pure, ◌>>=◌}
use ptf.State.Finite.Plan.{has_key}
use ptf.State.Finite.Claim.{ClaimedUnit}
use ptf.State.Finite.Attempt.{final_status, complete_attempt}
use ptf.State.Finite.Finalize.{finalize_run_if_done}
use ptf.State.Finite.Exclusion.{IsKeyed}
use ptf.State.Finite.Encoding.{column_of, completed_row}
use ptf.State.Finite.Fencing.{complete_attempt-current}
use ptf.Worker.Retry.{AttemptOutcome, FinitePolicy, classify_error, retries_exhausted}
use ptf.Worker.Settle.{
  Attempted, HandledUnit, settle, record_failure, final_outcome, gives_up, is_retried,
}
use ptf.Worker.Backoff.{classify_error_lem}
use ptf.Worker.Outcome.{failed_row, record_failure-unit, finalize-units, pair}

-- the status that `complete_attempt` gives for an outcome
abbrev pub status_of : String → ExecutionStatus
status_of outcome = elim (final_status outcome) [ none ↦ ExecutionStatus.failed | some s ↦ s ]

permanent-known : final_status "permanent" ≡ some (status_of "permanent")
unfolding final_status
permanent-known = refl

succeeded-known : final_status "succeeded" ≡ some ExecutionStatus.succeeded
unfolding final_status
succeeded-known = refl

status_of-ne-running : (outcome : String) → status_of outcome ≢ ExecutionStatus.running
unfolding final_status
status_of-ne-running outcome h = ground (arith, h)

status_of-claimable :
    (outcome : String) → is_claimable (status_of outcome) ≡ true → is_retried outcome ≡ true
unfolding final_status
status_of-claimable outcome h = ground (arith, h)

module _ (show_unexpected : String → String → String) (now : ℕ) (policy : FinitePolicy)
    (c : ClaimedUnit) where
  -- the row of a unit whose attempt `c` ended as given, recorded at `now`
  abbrev pub settled_row : Attempted → UnitRow → UnitRow
  settled_row (Attempted.returned result) u =
      completed_row ExecutionStatus.succeeded (column_of result) none none u
  settled_row (Attempted.raised failure) u =
      let o = classify_error show_unexpected failure c.attempt policy in
      failed_row now c o (status_of (final_outcome c o)) u

  -- the result, or the error of the failure, can be encoded: its floats are finite
  abbrev pub encodes : Attempted → Bool
  encodes (Attempted.returned result) = is_finite result
  encodes (Attempted.raised failure) =
      is_finite (classify_error show_unexpected failure c.attempt policy).error

  final_outcome-known :
      (o : AttemptOutcome)
      → is_some (final_status o.outcome) ≡ true
      → final_status (final_outcome c o) ≡ some (status_of (final_outcome c o))
  unfolding final_outcome
  final_outcome-known o known = elim (Bool-cases (gives_up c o)) [
    | inl last ↦ rw last permanent-known
    | inr more ↦ rw more (ground (arith, known))
  ]

  module _ (db : Db) (u : UnitRow) (keyed : IsKeyed db.units)
      (found : find_where (has_key c.run_id c.unit_key) db.units ≡ some u)
      (current : u.claim_token ≡ c.claim_token) where
    settle-returned :
        (execution_id : String) (result : JsonValue)
        → is_finite result ≡ true
        → find_where
            (has_key c.run_id c.unit_key)
            (settle show_unexpected now policy c execution_id
              (Attempted.returned result)
              db).1.units
          ≡ some (settled_row (Attempted.returned result) u)
    unfolding settle is_finite
    settle-returned execution_id result finite =
        let m = complete_attempt c execution_id "succeeded" result JsonValue.null none in
        let finish = finalize_run_if_done c.run_id in
        let done : HandledUnit = record {
          run_id = c.run_id;
          unit_key = c.unit_key;
          outcome = "succeeded";
        } in
        let (returns, stores, _) =
          complete_attempt-current c db u keyed found execution_id "succeeded" result JsonValue.null
            none ExecutionStatus.succeeded succeeded-known current refl finite in
        let run = bind-ok m (λ _. finish >>= λ _. pure done) db tt (m db).1 (pair returns) in
        ap (λ r. find_where (has_key c.run_id c.unit_key) r.1.units) run
        ∙ (ap (λ (d : Db). find_where (has_key c.run_id c.unit_key) d.units)
              (bind-pure_db finish done (m db).1)
            ∙ (ap (find_where (has_key c.run_id c.unit_key)) (finalize-units c.run_id (m db).1)
                ∙ stores))

    settle-raised :
        (execution_id : String) (failure : Failure)
        → encodes (Attempted.raised failure) ≡ true
        → find_where
            (has_key c.run_id c.unit_key)
            (settle show_unexpected now policy c execution_id (Attempted.raised failure) db).1.units
          ≡ some (settled_row (Attempted.raised failure) u)
    unfolding settle
    settle-raised execution_id failure finite =
        let o = classify_error show_unexpected failure c.attempt policy in
        let done : HandledUnit = record {
          run_id = c.run_id;
          unit_key = c.unit_key;
          outcome = o.outcome;
        } in
        ap (λ (d : Db). find_where (has_key c.run_id c.unit_key) d.units)
          (bind-pure_db (record_failure now c execution_id o) done db)
        ∙ record_failure-unit now c execution_id o db u (status_of (final_outcome c o)) keyed found
            current
            (final_outcome-known o (classify_error_lem show_unexpected failure c.attempt policy).0)
            finite

    -- An attempt recorded under the unit's token, with a result or an error that can be encoded,
    -- leaves the unit as its end says.
    pub settle-unit :
        (execution_id : String) (ended : Attempted)
        → encodes ended ≡ true
        → find_where
            (has_key c.run_id c.unit_key)
            (settle show_unexpected now policy c execution_id ended db).1.units
          ≡ some (settled_row ended u)
    settle-unit execution_id (Attempted.returned result) finite =
        settle-returned execution_id result finite
    settle-unit execution_id (Attempted.raised failure) finite =
        settle-raised execution_id failure finite

  -- what a row keeps clear of once its attempt has ended
  pub record IsSettled (u row : UnitRow) : Type 0 where
    pub not_running : row.status ≢ ExecutionStatus.running
    pub free : row.claimed_by ≡ none
    pub unlimited : row.claim_expires_at ≡ none
    pub counted : row.attempt_count ≡ u.attempt_count
    pub token : row.claim_token ≡ u.claim_token
    pub left : is_claimable row.status ≡ true → c.attempt < c.unit.max_attempts

  failed_row-IsSettled :
      (o : AttemptOutcome) (u : UnitRow)
      → IsSettled u (failed_row now c o (status_of (final_outcome c o)) u)
  unfolding final_outcome retries_exhausted
  failed_row-IsSettled o u = elim (Bool-cases (gives_up c o)) [
    | inl last ↦ rw last (record {
      not_running = λ h. cc;
      free = refl;
      unlimited = refl;
      counted = refl;
      token = refl;
      left = λ h. absurd (cc);
    })
    | inr more ↦ rw more (record {
      not_running = λ h. ground (arith, h, status_of-ne-running o.outcome);
      free = ground arith;
      unlimited = ground arith;
      counted = ground arith;
      token = ground arith;
      left = λ h. ground (arith, h, more, status_of-claimable o.outcome);
    })
  ]

  -- Once its attempt has ended, however it did, a unit is neither running nor claimed, and it waits
  -- for another attempt only if one is left.
  pub settled_row-IsSettled : (ended : Attempted) (u : UnitRow) → IsSettled u (settled_row ended u)
  settled_row-IsSettled (Attempted.returned result) u = record {
    not_running = λ h. cc;
    free = refl;
    unlimited = refl;
    counted = refl;
    token = refl;
    left = λ h. absurd (cc);
  }
  settled_row-IsSettled (Attempted.raised failure) u =
      failed_row-IsSettled (classify_error show_unexpected failure c.attempt policy) u
