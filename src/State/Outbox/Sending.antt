-- ===== src/State/Outbox/Sending.antt =====
-- The loop of `dispatch`, which sends a batch of messages and records what became of each.
use ptf.Prelude.{
  ℕ, ◌+◌, ◌≤◌, ◌≡◌, refl, ap, ◌∙◌, Bool, true, false, some, List, [], ◌∷◌, map, arith, nat_eq,
  nat_eq_iff, subst, if◌then◌else◌, inl, inr, Bool-cases, All,
}
use ptf.Prelude.Table.{
  find_where, update_where, exists_where, count_where, find-update, find_satisfies,
  count-pos_of_find, exists-zero_of_count,
}
use ptf.Core.Errors.{ok}
use ptf.State.Db.{Db, OutboxRow, OutboxStatus}
use ptf.State.Tx.{bind-ok, ◌>>=◌, pure}
use ptf.State.Outbox.{
  OutboxMessage, row_to_message, has_outbox_id, publish_row, fail_row, mark_published, mark_failed,
  dispatch_one, dispatch_all,
}

-- `PRIMARY KEY (outbox_id)`
abbrev pub IsNumbered : List OutboxRow → Type 0
IsNumbered rows = (n : ℕ) → count_where (has_outbox_id n) rows ≤ 1

-- the row of a message once the sender was called with it: published if the call returned, failed
-- with one attempt more if it raised, and nothing else changed
abbrev pub sent_row : (OutboxMessage → Bool) → OutboxRow → OutboxRow
sent_row sender r =
    if sender (row_to_message r)
    then (record r { status = OutboxStatus.published })
    else (record r { status = OutboxStatus.failed; attempts = r.attempts + 1 })

-- the number that one message adds to the count of those sent
abbrev pub one_if : Bool → ℕ
one_if b = if b then 1 else 0

-- the table after the rows `rs` were dispatched in turn
unfoldable pub after_sends :
    (OutboxMessage → Bool) → List OutboxRow → List OutboxRow → List OutboxRow
after_sends sender [] rows = rows
after_sends sender (r ∷ rs) rows = after_sends sender rs (
    update_where (has_outbox_id r.outbox_id)
      (if sender (row_to_message r) then publish_row else fail_row) rows)

-- Each of the rows is in the table under its identifier.
abbrev pub Stored : List OutboxRow → List OutboxRow → Type 0
Stored rows rs = All (λ r. find_where (has_outbox_id r.outbox_id) rows ≡ some r) rs

pub IsNumbered-tail : (r : OutboxRow) (rs : List OutboxRow) → IsNumbered (r ∷ rs) → IsNumbered rs
unfolding count_where
IsNumbered-tail r rs keyed n = ground (arith, keyed n)

pub IsNumbered-head :
    (r : OutboxRow) (rs : List OutboxRow)
    → IsNumbered (r ∷ rs)
    → count_where (has_outbox_id r.outbox_id) rs ≡ 0
unfolding count_where
IsNumbered-head r rs keyed = ground (arith, keyed r.outbox_id, nat_eq_iff r.outbox_id r.outbox_id)

-- a send leaves the other rows in place
Stored-tail :
    (f : OutboxRow → OutboxRow) (n : ℕ) (rows rs : List OutboxRow)
    → ((x : OutboxRow) → (f x).outbox_id ≡ x.outbox_id)
    → count_where (has_outbox_id n) rs ≡ 0
    → Stored rows rs
    → Stored (update_where (has_outbox_id n) f rows) rs
unfolding count_where
Stored-tail f n rows [] keep none_left stored = tt
Stored-tail f n rows (s ∷ rs) keep none_left stored = (
  ground (
    arith,
    find-update (has_outbox_id n) (has_outbox_id s.outbox_id) f rows
        (λ x. ap (λ k. nat_eq k s.outbox_id) (keep x)),
    stored.0,
  ),
  Stored-tail f n rows rs keep (ground arith) stored.1,
)

send_keeps :
    (b : Bool) (x : OutboxRow) → ((if b then publish_row else fail_row) x).outbox_id ≡ x.outbox_id
send_keeps true x = refl
send_keeps false x = refl

dispatch_one_lem :
    (sender : OutboxMessage → Bool) (db : Db) (r : OutboxRow)
    → find_where (has_outbox_id r.outbox_id) db.outbox ≡ some r
    → dispatch_one sender (row_to_message r) db ≡ (
      ok (one_if (sender (row_to_message r))),
      record db {
        outbox =
            update_where
              (has_outbox_id r.outbox_id)
              (if sender (row_to_message r) then publish_row else fail_row)
              db.outbox;
      },
    )
unfolding dispatch_one mark_published mark_failed
dispatch_one_lem sender db r found = elim (Bool-cases (sender (row_to_message r))) [
  | inl sends ↦
      rw sends ground (arith, count-pos_of_find (has_outbox_id r.outbox_id) db.outbox r found)
  | inr fails ↦ rw fails refl
]

pub dispatch_all_lem :
    (sender : OutboxMessage → Bool) (rs : List OutboxRow) (db : Db)
    → IsNumbered rs
    → Stored db.outbox rs
    → dispatch_all sender (map row_to_message rs) db ≡ (
      ok (count_where (λ r. sender (row_to_message r)) rs),
      record db { outbox = after_sends sender rs db.outbox },
    )
unfolding dispatch_all after_sends count_where
dispatch_all_lem sender [] db keyed stored = refl
dispatch_all_lem sender (r ∷ rs) db keyed stored =
    let sends = sender (row_to_message r) in
    let write : OutboxRow → OutboxRow = if sends then publish_row else fail_row in
    let db1 : Db = record db {
      outbox = update_where (has_outbox_id r.outbox_id) write db.outbox;
    } in
    bind-ok (dispatch_one sender (row_to_message r))
      (λ n. dispatch_all sender (map row_to_message rs) >>= λ rest. pure (n + rest)) db
      (one_if sends) db1 (dispatch_one_lem sender db r stored.0)
    ∙ bind-ok (dispatch_all sender (map row_to_message rs)) (λ rest. pure (one_if sends + rest)) db1
        (count_where (λ r. sender (row_to_message r)) rs)
        (record db1 { outbox = after_sends sender rs db1.outbox })
        (dispatch_all_lem sender rs db1 (IsNumbered-tail r rs keyed) (
          Stored-tail write r.outbox_id db.outbox rs (send_keeps sends) (IsNumbered-head r rs keyed)
            stored.1))
    ∙ ap (λ k. (ok k, record db { outbox = after_sends sender rs db1.outbox })) (ground arith)

written :
    (sender : OutboxMessage → Bool) (r x : OutboxRow)
    → r ≡ x
    → some ((if sender (row_to_message r) then publish_row else fail_row) x)
      ≡ some (sent_row sender x)
written sender r x same =
    ap some (apply (sender (row_to_message r)))
    ∙ ap (λ y. some (if sender (row_to_message y) then publish_row x else fail_row x)) same
  where
    apply :
        (b : Bool)
        → (if b then publish_row else fail_row) x ≡ (if b then publish_row x else fail_row x)
    apply true = refl
    apply false = refl

pub after_sends-row :
    (sender : OutboxMessage → Bool) (rs rows : List OutboxRow) (n : ℕ) (x : OutboxRow)
    → IsNumbered rs
    → Stored rows rs
    → find_where (has_outbox_id n) rows ≡ some x
    → find_where (has_outbox_id n) (after_sends sender rs rows)
      ≡ some (if exists_where (has_outbox_id n) rs then sent_row sender x else x)
unfolding after_sends exists_where
after_sends-row sender [] rows n x keyed stored found = found
after_sends-row sender (r ∷ rs) rows n x keyed stored found =
    let sends = sender (row_to_message r) in
    let write : OutboxRow → OutboxRow = if sends then publish_row else fail_row in
    let rows1 = update_where (has_outbox_id r.outbox_id) write rows in
    let stored1 =
      Stored-tail write r.outbox_id rows rs (send_keeps sends) (IsNumbered-head r rs keyed)
        stored.1 in
    let found1 =
      find-update (has_outbox_id r.outbox_id) (has_outbox_id n) write rows
        (λ y. ap (λ k. nat_eq k n) (send_keeps sends y)) in
    let number = (find_satisfies (has_outbox_id n) rows x found) in
    let later = after_sends-row sender rs rows1 n in
    elim (Bool-cases (nat_eq r.outbox_id n)) [
      | inl here ↦
          let eqn : r.outbox_id ≡ n = ground (arith, here, nat_eq_iff r.outbox_id n) in
          let found_r : find_where (has_outbox_id n) rows ≡ some r =
            subst (λ k. find_where (has_outbox_id k) rows ≡ some r) eqn stored.0 in
          let same : r ≡ x = cc in
          let gone : exists_where (has_outbox_id n) rs ≡ false =
            subst (λ k. exists_where (has_outbox_id k) rs ≡ false) eqn
              (exists-zero_of_count (has_outbox_id r.outbox_id) rs (IsNumbered-head r rs keyed)) in
          let hit : find_where (has_outbox_id n) rows1 ≡ some (write x) = ground (
            arith,
            found1,
            found,
            number,
            here,
            nat_eq_iff x.outbox_id r.outbox_id,
            nat_eq_iff x.outbox_id n,
            eqn,
          ) in
          later (write x) (IsNumbered-tail r rs keyed) stored1 hit
          ∙ rw (gone, here) (written sender r x same)
      | inr other ↦
          let miss : find_where (has_outbox_id n) rows1 ≡ some x = ground (
            arith,
            found1,
            found,
            number,
            other,
            nat_eq_iff x.outbox_id r.outbox_id,
            nat_eq_iff x.outbox_id n,
            nat_eq_iff r.outbox_id n,
          ) in
          later x (IsNumbered-tail r rs keyed) stored1 miss ∙ rw other refl
    ]
