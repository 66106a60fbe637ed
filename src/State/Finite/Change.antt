-- ===== src/State/Finite/Change.antt =====
-- What the operations of state/finite.py do to the table of units, as a relation.
use ptf.Prelude.{
  ℕ, ◌≤◌, ◌≡◌, ◌≢◌, refl, String, Bool, true, false, Option, none, some, List, [], ◌∷◌, ◌++◌, arith,
  All, is_some, inl, inr, Bool-cases, eq_iff,
}
use ptf.Prelude.Table.{
  update_where, exists_where, find_where, All-find, All-update, count-update, count-append,
  count-zero_of_exists, find-update, find-append,
}
use ptf.Prelude.{All-append}
use ptf.Core.Enums.{ExecutionStatus, is_claimable}
use ptf.Core.Json.{JsonValue}
use ptf.State.Db.{UnitRow, PlanRow}
use ptf.State.Finite.Plan.{has_key, ready_unit}
use ptf.State.Finite.Claim.{ClaimedUnit, claim_row}
use ptf.State.Finite.Attempt.{final_status, holds_token, complete_row, dead_letter_row}
use ptf.State.Finite.Exclusion.{IsKeyed}

-- `H` tells which claims may be written under.
pub data Change (H : ClaimedUnit → Type 0) : List UnitRow → List UnitRow → Type 0 where
  same : (xs : List UnitRow) → Change H xs xs
  add :
      (run key : String) (xs : List UnitRow)
      → exists_where (has_key run key) xs ≡ false
      → Change H xs (xs ++ ready_unit run key ∷ [])
  claim :
      (p : UnitRow → Bool) (plans : List PlanRow) (now : ℕ) (owner : String) (grace : ℕ)
      (xs : List UnitRow)
      → All (λ u. p u ≡ true → is_claimable u.status ≡ true) xs
      → Change H xs (update_where p (claim_row plans now owner grace) xs)
  complete :
      (c : ClaimedUnit) (outcome : String) (status : ExecutionStatus)
      (result error : Option JsonValue) (retry_at : Option ℕ) (xs : List UnitRow)
      → H c
      → final_status outcome ≡ some status
      → Change H xs (update_where (holds_token c) (complete_row status result error retry_at) xs)
  dead :
      (c : ClaimedUnit) (xs : List UnitRow)
      → H c
      → Change H xs (update_where (holds_token c) dead_letter_row xs)
  next : {xs ys zs : List UnitRow} → Change H xs ys → Change H ys zs → Change H xs zs

-- What holds of a unit's row between operations: a running unit has a holder and an expiry, a unit
-- that waits for a claim has neither, tokens count the attempts, and a `ready` unit is untried.
pub record UnitInv (u : UnitRow) : Type 0 where
  pub running_owner : u.status ≡ ExecutionStatus.running → is_some u.claimed_by ≡ true
  pub running_expiry : u.status ≡ ExecutionStatus.running → is_some u.claim_expires_at ≡ true
  pub running_next : u.status ≡ ExecutionStatus.running → u.next_attempt_at ≡ none
  pub waiting_owner : is_claimable u.status ≡ true → u.claimed_by ≡ none
  pub waiting_expiry : is_claimable u.status ≡ true → u.claim_expires_at ≡ none
  pub counted : u.claim_token ≡ u.attempt_count
  pub untried : u.status ≡ ExecutionStatus.ready → u.attempt_count ≡ 0

ready_unit-UnitInv : (run key : String) → UnitInv (ready_unit run key)
ready_unit-UnitInv run key = ground arith

claim_row-UnitInv :
    (plans : List PlanRow) (now : ℕ) (owner : String) (grace : ℕ) (u : UnitRow)
    → UnitInv u
    → UnitInv (claim_row plans now owner grace u)
claim_row-UnitInv plans now owner grace u v = ground arith

-- No outcome puts a unit into `running` or back into `ready`.
pub final_status-ne :
    (outcome : String) (status : ExecutionStatus)
    → final_status outcome ≡ some status
    → (status ≢ ExecutionStatus.running) × (status ≢ ExecutionStatus.ready)
unfolding final_status
final_status-ne outcome status h = ground arith

complete_row-UnitInv :
    (outcome : String) (status : ExecutionStatus) (result error : Option JsonValue)
    (retry_at : Option ℕ) (u : UnitRow)
    → final_status outcome ≡ some status
    → UnitInv u
    → UnitInv (complete_row status result error retry_at u)
complete_row-UnitInv outcome status result error retry_at u h v =
    ground (arith, final_status-ne outcome status h)

dead_letter_row-UnitInv : (u : UnitRow) → UnitInv u → UnitInv (dead_letter_row u)
dead_letter_row-UnitInv u v = ground arith

pub Change-UnitInv :
    {H : ClaimedUnit → Type 0} {xs ys : List UnitRow}
    → Change H xs ys
    → All UnitInv xs
    → All UnitInv ys
Change-UnitInv (same xs) h = h
Change-UnitInv (add run key xs fresh) h =
    All-append UnitInv xs (ready_unit run key ∷ []) h (ready_unit-UnitInv run key, tt)
Change-UnitInv (claim p plans now owner grace xs due) h =
    All-update UnitInv p (claim_row plans now owner grace) xs
      (λ u _ v. claim_row-UnitInv plans now owner grace u v) h
Change-UnitInv (complete c outcome status result error retry_at xs held known) h =
    All-update UnitInv (holds_token c) (complete_row status result error retry_at) xs
      (λ u _ v. complete_row-UnitInv outcome status result error retry_at u known v) h
Change-UnitInv (dead c xs held) h =
    All-update UnitInv (holds_token c) dead_letter_row xs (λ u _ v. dead_letter_row-UnitInv u v) h
Change-UnitInv (next a b) h = Change-UnitInv b (Change-UnitInv a h)

add-IsKeyed :
    (run key : String) (xs : List UnitRow)
    → exists_where (has_key run key) xs ≡ false
    → IsKeyed xs
    → IsKeyed (xs ++ ready_unit run key ∷ [])
add-IsKeyed run key xs fresh keyed r k = ground (
  arith,
  keyed r k,
  eq_iff run r,
  eq_iff key k,
  count-append (has_key r k) xs (ready_unit run key),
  count-zero_of_exists (has_key run key) xs fresh,
)

pub Change-IsKeyed :
    {H : ClaimedUnit → Type 0} {xs ys : List UnitRow} → Change H xs ys → IsKeyed xs → IsKeyed ys
Change-IsKeyed (same xs) h r k = h r k
Change-IsKeyed (add run key xs fresh) h r k = add-IsKeyed run key xs fresh h r k
Change-IsKeyed (claim p plans now owner grace xs due) h r k =
    rw (count-update p (has_key r k) (claim_row plans now owner grace) xs (λ x e. refl)) (h r k)
Change-IsKeyed (complete c outcome status result error retry_at xs held known) h r k =
    rw
      (count-update (holds_token c) (has_key r k) (complete_row status result error retry_at) xs
        (λ x e. refl))
      (h r k)
Change-IsKeyed (dead c xs held) h r k =
    rw (count-update (holds_token c) (has_key r k) dead_letter_row xs (λ x e. refl)) (h r k)
Change-IsKeyed (next a b) h r k = Change-IsKeyed b (Change-IsKeyed a h) r k

-- A unit's row is still in the table, with a token at least as great.
abbrev pub Grown : String → String → UnitRow → List UnitRow → Type 0
Grown run key u ys =
    (v : UnitRow) × (find_where (has_key run key) ys ≡ some v) × (u.claim_token ≤ v.claim_token)

update-Grown :
    (p : UnitRow → Bool) (f : UnitRow → UnitRow) (run key : String) (xs : List UnitRow)
    (u : UnitRow)
    → ((x : UnitRow) → has_key run key (f x) ≡ has_key run key x)
    → u.claim_token ≤ (f u).claim_token
    → find_where (has_key run key) xs ≡ some u
    → Grown run key u (update_where p f xs)
update-Grown p f run key xs u keep le found = elim (Bool-cases (p u)) [
  | inl hit ↦ (f u, rw (find-update p (has_key run key) f xs keep, found) (rw hit), le)
  | inr miss ↦ (u, rw (find-update p (has_key run key) f xs keep, found) (rw miss), omega arith)
]

-- Tokens never fall and units never disappear.
pub Change-Grown :
    {H : ClaimedUnit → Type 0} {xs ys : List UnitRow} (run key : String) (u : UnitRow)
    → Change H xs ys
    → find_where (has_key run key) xs ≡ some u
    → Grown run key u ys
Change-Grown run key u (same xs) h = (u, h, omega arith)
Change-Grown run key u (add r k xs fresh) h =
    (u, find-append (has_key run key) xs (ready_unit r k) u h, omega arith)
Change-Grown run key u (claim p plans now owner grace xs due) h =
    update-Grown p (claim_row plans now owner grace) run key xs u (λ x. refl) (omega arith) h
Change-Grown run key u (complete c outcome status result error retry_at xs held known) h =
    update-Grown (holds_token c) (complete_row status result error retry_at) run key xs u
      (λ x. refl) (omega arith) h
Change-Grown run key u (dead c xs held) h =
    update-Grown (holds_token c) dead_letter_row run key xs u (λ x. refl) (omega arith) h
Change-Grown run key u (next a b) h =
    let (v, e, le) = Change-Grown run key u a h in
    let (w, e', le') = Change-Grown run key v b e in (w, e', omega arith)

-- A running unit moves only by a completion or a burial under its own token.
pub Change-running :
    {H : ClaimedUnit → Type 0} {xs ys : List UnitRow} (run key : String) (u : UnitRow)
    → ((c : ClaimedUnit) → H c → holds_token c u ≡ false)
    → u.status ≡ ExecutionStatus.running
    → Change H xs ys
    → find_where (has_key run key) xs ≡ some u
    → find_where (has_key run key) ys ≡ some u
Change-running run key u other runs (same xs) h = h
Change-running run key u other runs (add r k xs fresh) h =
    find-append (has_key run key) xs (ready_unit r k) u h
Change-running run key u other runs (claim p plans now owner grace xs due) h =
    let only =
      All-find (λ x. p x ≡ true → is_claimable x.status ≡ true) (has_key run key) xs u due h in
    elim (Bool-cases (p u)) [
      | inl hit ↦ absurd (ground (arith, only hit))
      | inr miss ↦
          rw (find-update p (has_key run key) (claim_row plans now owner grace) xs (λ x. refl), h)
            (rw miss)
    ]
Change-running run key u other runs (complete c outcome status result error retry_at xs held known)
      h =
    rw
      (
        find-update (holds_token c) (has_key run key) (complete_row status result error retry_at) xs
            (λ x. refl),
        h,
      )
      (rw (other c held))
Change-running run key u other runs (dead c xs held) h =
    rw (find-update (holds_token c) (has_key run key) dead_letter_row xs (λ x. refl), h)
      (rw (other c held))
Change-running run key u other runs (next a b) h =
    Change-running run key u other runs b (Change-running run key u other runs a h)
