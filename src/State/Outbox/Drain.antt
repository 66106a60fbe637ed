-- ===== src/State/Outbox/Drain.antt =====
-- What a dispatch does to the messages.
use ptf.Prelude.{
  ℕ, ◌≡◌, ap, ◌∙◌, Bool, false, some, List, [], ◌∷◌, take, arith, leb, nat_eq, nat_eq_iff,
  if◌then◌else◌, All, All-implies, All-both, All-take,
}
use ptf.Prelude.Table.{
  find_where, exists_where, count_where, select_where, order_by, All-order_by, All-select,
  count-take_le, count-order_by, count-select_le,
}
use ptf.Core.Errors.{ok}
use ptf.State.Db.{Db, OutboxRow}
use ptf.State.Outbox.{OutboxMessage, row_to_message, has_outbox_id, is_pending, pending, dispatch}
use ptf.State.Outbox.Sending.{
  IsNumbered, sent_row, Stored, IsNumbered-tail, IsNumbered-head, dispatch_all_lem, after_sends-row,
}

others :
    (n : ℕ) (rs : List OutboxRow)
    → count_where (has_outbox_id n) rs ≡ 0
    → All (λ r. nat_eq r.outbox_id n ≡ false) rs
unfolding count_where
others n [] h = tt
others n (r ∷ rs) h = (ground arith, others n rs (ground arith))

IsNumbered-Stored : (rows : List OutboxRow) → IsNumbered rows → Stored rows rows
unfolding find_where
IsNumbered-Stored [] keyed = tt
IsNumbered-Stored (r ∷ rs) keyed = (
  ground (arith, nat_eq_iff r.outbox_id r.outbox_id),
  All-implies
      (λ s.
        (find_where (has_outbox_id s.outbox_id) rs ≡ some s)
        × (nat_eq s.outbox_id r.outbox_id ≡ false))
      (λ s. find_where (has_outbox_id s.outbox_id) (r ∷ rs) ≡ some s)
      (λ s h.
        ground
          (arith, h.0, h.1, nat_eq_iff s.outbox_id r.outbox_id, nat_eq_iff r.outbox_id s.outbox_id))
      rs
      (All-both (λ s. find_where (has_outbox_id s.outbox_id) rs ≡ some s)
        (λ s. nat_eq s.outbox_id r.outbox_id ≡ false) rs
        (IsNumbered-Stored rs (IsNumbered-tail r rs keyed))
        (others r.outbox_id rs (IsNumbered-head r rs keyed))),
)

-- the rows that `pending` reads
abbrev pub batch : ℕ → List OutboxRow → List OutboxRow
batch limit rows =
    take limit (order_by (λ a b. leb a.outbox_id b.outbox_id) (select_where is_pending rows))

batch-IsNumbered :
    (limit : ℕ) (rows : List OutboxRow) → IsNumbered rows → IsNumbered (batch limit rows)
batch-IsNumbered limit rows keyed n = omega (
  arith,
  keyed n,
  count-take_le (has_outbox_id n) limit
      (order_by (λ a b. leb a.outbox_id b.outbox_id) (select_where is_pending rows)),
  count-order_by (λ a b. leb a.outbox_id b.outbox_id) (has_outbox_id n)
      (select_where is_pending rows),
  count-select_le is_pending (has_outbox_id n) rows,
)

batch-Stored :
    (limit : ℕ) (rows : List OutboxRow) → IsNumbered rows → Stored rows (batch limit rows)
batch-Stored limit rows keyed =
    All-take P limit (order_by (λ a b. leb a.outbox_id b.outbox_id) (select_where is_pending rows))
      (All-order_by P (λ a b. leb a.outbox_id b.outbox_id) (select_where is_pending rows)
        (All-select P is_pending rows (IsNumbered-Stored rows keyed)))
  where
    P : OutboxRow → Type 0
    P r = find_where (has_outbox_id r.outbox_id) rows ≡ some r

-- A dispatch calls the sender with each of the oldest pending messages, up to the limit, and returns
-- the number of calls that returned. Of the messages that it called with, each is published if the
-- call returned and failed, with one attempt more, if it raised; all others stay as they are.
pub dispatch_lem :
    (sender : OutboxMessage → Bool) (limit : ℕ) (db : Db) (n : ℕ) (x : OutboxRow)
    → IsNumbered db.outbox
    → find_where (has_outbox_id n) db.outbox ≡ some x
    → let rs = batch limit db.outbox in
      let (answer, after) = dispatch sender limit db in
      (answer ≡ ok (count_where (λ r. sender (row_to_message r)) rs))
      × (find_where (has_outbox_id n) after.outbox
          ≡ some (if exists_where (has_outbox_id n) rs then sent_row sender x else x))
unfolding dispatch pending
dispatch_lem sender limit db n x keyed found =
    let rs = batch limit db.outbox in
    let numbered = batch-IsNumbered limit db.outbox keyed in
    let stored = batch-Stored limit db.outbox keyed in
    let run = dispatch_all_lem sender rs db numbered stored in
    (
      ap (λ r. r.0) run,
      ap (λ r. find_where (has_outbox_id n) r.1.outbox) run
          ∙ after_sends-row sender rs db.outbox n x numbered stored found,
    )
