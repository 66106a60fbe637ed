-- ===== src/State/Finite/Held.antt =====
-- src/distributed_runtime/state/finite.py: a unit between its claim and the first write under it.
use ptf.Prelude.{
  ℕ, ◌≡◌, refl, subst, ap, sym, String, Bool, false, ◌==◌, ◌&&◌, none, some, List, All, nat_eq,
}
use ptf.Prelude.Table.{find_where}
use ptf.Core.Enums.{ExecutionStatus}
use ptf.Core.Errors.{ok}
use ptf.Core.Json.{JsonFields}
use ptf.State.Db.{Db, UnitRow}
use ptf.State.Finite.Plan.{has_key}
use ptf.State.Finite.Claim.{ClaimedUnit, claim_unit}
use ptf.State.Finite.Exclusion.{
  IsKeyed, running_row, claim_unit-Got, claim_unit-IsKeyed, claim_unit-refused,
}
use ptf.State.Finite.History.{Call, Allowed, run_calls, running_stays, run_calls-IsKeyed}

-- the handles are of the same unit, under the same token
abbrev pub same_claim : ClaimedUnit → ClaimedUnit → Bool
same_claim c h =
    (c.run_id == h.run_id && c.unit_key == h.unit_key) && nat_eq c.claim_token h.claim_token

-- The unit is running, and `owner` holds it under the token of the claim `c`.
pub record IsHeldBy (owner run key : String) (c : ClaimedUnit) (db : Db) : Type 0 where
  pub unit : UnitRow
  pub found : find_where (has_key run key) db.units ≡ some unit
  pub runs : unit.status ≡ ExecutionStatus.running
  pub owned : unit.claimed_by ≡ some owner
  pub token : unit.claim_token ≡ c.claim_token
  pub expiry : unit.claim_expires_at ≡ some c.claim_expires_at

module _ (digest : JsonFields → String) (collation : String → String → Bool) (now later : ℕ)
    (owner other run key : String) (grace grace' : ℕ) (db : Db) (keyed : IsKeyed db.units) where
  -- Whoever holds a claim holds it alone: through any calls of the store of which none completes or
  -- dead-letters under the claim, the unit stays running and the claimer's, and a further claim of it
  -- by any worker at any time, also past the expiry of the claim, gets nothing and changes nothing.
  pub claim_unit_excludes :
      (c : ClaimedUnit) (cs : List Call)
      → (claim_unit now owner run key grace db).0 ≡ ok (some c)
      → All (Allowed (λ h. same_claim c h ≡ false)) cs
      → let held = run_calls digest collation (claim_unit now owner run key grace db).1 cs in
        IsHeldBy owner run key c held
        × (claim_unit later other run key grace' held ≡ (ok none, held))
  claim_unit_excludes c cs got others =
      let g = claim_unit-Got now owner run key grace db c keyed got in
      let granted = (claim_unit now owner run key grace db).1 in
      let keyed' = claim_unit-IsKeyed now owner run key grace db keyed in
      let row = running_row now owner grace g.unit g.plan in
      let stays =
        running_stays digest collation run key row granted cs keyed' g.after refl
          (subst (λ x. All (Allowed (λ h. same_claim x h ≡ false)) cs) g.handle others) in
      (
        record {
          unit = row;
          found = stays;
          runs = refl;
          owned = refl;
          token = ap (λ (x : ClaimedUnit). x.claim_token) (sym g.handle);
          expiry = ap (λ (x : ClaimedUnit). some x.claim_expires_at) (sym g.handle);
        },
        claim_unit-refused later other run key grace' (run_calls digest collation granted cs) row
            (run_calls-IsKeyed digest collation granted cs keyed') stays refl,
      )
