-- ===== src/State/Finite/Batch.antt =====
-- `claim_units`: which rows a batch takes, and how many.
use ptf.Prelude.{
  ℕ, ◌≡◌, ◌≤◌, refl, String, Bool, true, Option, some, List, [], ◌∷◌, arith, All, All-take,
  All-implies, All-both, length, ◌⊎◌, inl, inr, Bool-cases, length-take-le, eq_iff, eq_refl,
}
use ptf.Prelude.Table.{
  find_where, update_where, select_where, exists_where, count_where, count-update, count-or_le,
  length-select, find-update, All-select, All-order_by, All-where, All-exists, count-pos_of_find,
}
use ptf.Core.Enums.{is_claimable}
use ptf.Core.Errors.{ok, Result-cases}
use ptf.State.Db.{Db, UnitRow}
use ptf.State.Finite.Plan.{has_key, load_unit}
use ptf.State.Finite.Claim.{
  ClaimedUnit, is_available, due_before, due_units, is_among, claim_row, load_all_claimed,
  claim_units,
}
use ptf.State.Finite.Exclusion.{IsKeyed, find-has_key}
use ptf.State.Finite.Change.{Change}
use ptf.State.Finite.Effects.{Changes}

-- A row that its own key finds.
abbrev Finds : List UnitRow → UnitRow → Type 0
Finds xs d = find_where (has_key d.run_id d.unit_key) xs ≡ some d

IsKeyed-tail : (x : UnitRow) (xs : List UnitRow) → IsKeyed (x ∷ xs) → IsKeyed xs
unfolding count_where
IsKeyed-tail x xs keyed r k = ground (arith, keyed r k)

Finds-cons : (x d : UnitRow) (xs : List UnitRow) → IsKeyed (x ∷ xs) → Finds xs d → Finds (x ∷ xs) d
unfolding find_where count_where
Finds-cons x d xs keyed f =
    ground
      (arith, keyed d.run_id d.unit_key, count-pos_of_find (has_key d.run_id d.unit_key) xs d f)

-- Under the primary key every row is the one that its key finds.
IsKeyed-Finds : (xs : List UnitRow) → IsKeyed xs → All (Finds xs) xs
unfolding find_where
IsKeyed-Finds [] keyed = tt
IsKeyed-Finds (x ∷ xs) keyed = (
  ground (arith, eq_refl x.run_id, eq_refl x.unit_key),
  All-implies (Finds xs) (Finds (x ∷ xs)) (λ d f. Finds-cons x d xs keyed f) xs
      (IsKeyed-Finds xs (IsKeyed-tail x xs keyed)),
)

count-nobody : (xs : List UnitRow) → count_where (is_among []) xs ≡ 0
unfolding count_where exists_where
count-nobody [] = refl
count-nobody (x ∷ xs) = count-nobody xs

-- at most one row for each due row
count-among : (ds xs : List UnitRow) → IsKeyed xs → count_where (is_among ds) xs ≤ length ds
unfolding exists_where
count-among [] xs keyed = omega (arith, count-nobody xs)
count-among (d ∷ ds) xs keyed = omega (
  arith,
  count-or_le (has_key d.run_id d.unit_key) (is_among ds) xs,
  keyed d.run_id d.unit_key,
  count-among ds xs keyed,
)

module _ (collation : String → String → Bool) (db : Db) (now limit : ℕ) (required : Option String)
    (locked : UnitRow → Bool) where
  abbrev due : List UnitRow
  due = due_units collation db now limit required locked

  -- the rows that the subquery selects are due
  due_units-due : All (λ d. is_available db now required locked d ≡ true) due
  unfolding due_units
  due_units-due =
      All-take (λ d. is_available db now required locked d ≡ true) limit _
        (All-order_by (λ d. is_available db now required locked d ≡ true) (due_before collation)
          (select_where (is_available db now required locked) db.units)
          (All-where (λ d. is_available db now required locked d ≡ true)
            (is_available db now required locked) db.units (λ x h. h)))

  due_units-Finds : IsKeyed db.units → All (Finds db.units) due
  unfolding due_units
  due_units-Finds keyed = All-take (Finds db.units) limit _ (
      All-order_by (Finds db.units) (due_before collation)
        (select_where (is_available db now required locked) db.units)
        (All-select (Finds db.units) (is_available db now required locked) db.units
          (IsKeyed-Finds db.units keyed)))

  due_units-length : length due ≤ limit
  unfolding due_units
  due_units-length = length-take-le limit _

  -- a member that has a due row's key is that row
  among_available :
      (u : UnitRow)
      → IsKeyed db.units
      → Finds db.units u
      → is_among due u ≡ true
      → is_available db now required locked u ≡ true
  among_available u keyed f h =
      let (d, same_key, avail_finds) =
        All-exists (λ d. (is_available db now required locked d ≡ true) × Finds db.units d)
          (λ d. has_key d.run_id d.unit_key u) due
          (All-both (λ d. is_available db now required locked d ≡ true) (Finds db.units) due
            due_units-due (due_units-Finds keyed))
          h in
      ground (arith, avail_finds, same_key, eq_iff u.run_id d.run_id, eq_iff u.unit_key d.unit_key)

  load_all_claimed-db : (us : List UnitRow) (d : Db) → (load_all_claimed us d).1 ≡ d
  unfolding load_all_claimed load_unit
  load_all_claimed-db [] d = refl
  load_all_claimed-db (u ∷ us) d = ground (arith, load_all_claimed-db us d)

  module _ (owner : String) (grace : ℕ) where
    abbrev claim : UnitRow → UnitRow
    claim = claim_row db.plan_units now owner grace

    claim_units-db :
        (claim_units collation now owner limit grace required locked db).1
        ≡ record db { units = update_where (is_among due) claim db.units }
    unfolding claim_units
    claim_units-db = load_all_claimed-db _ _

    pub claim_units-Changes :
        (H : ClaimedUnit → Type 0)
        → IsKeyed db.units
        → Changes H db (claim_units collation now owner limit grace required locked db).1
    unfolding is_available
    claim_units-Changes H keyed = rw claim_units-db (
        Change.claim (is_among due) db.plan_units now owner grace db.units (
          All-implies (Finds db.units) (λ u. is_among due u ≡ true → is_claimable u.status ≡ true)
            (λ u f h. ground (arith, among_available u keyed f h)) db.units
            (IsKeyed-Finds db.units keyed)))

    -- A batch claims available units only (due, planned, of the required revision and not locked by
    -- another transaction), and leaves every other unit as it was.
    pub claim_units_rows :
        (run key : String) (u : UnitRow)
        → IsKeyed db.units
        → find_where (has_key run key) db.units ≡ some u
        → let after = (claim_units collation now owner limit grace required locked db).1 in
          (find_where (has_key run key) after.units ≡ some u)
          ⊎ ((is_available db now required locked u ≡ true)
              × (find_where (has_key run key) after.units ≡ some (claim u)))
    claim_units_rows run key u keyed found =
        let (er, ek) = find-has_key run key db.units u found in
        let finds : Finds db.units u = simp (er, ek) found in
        elim (Bool-cases (is_among due u)) [
          | inl hit ↦ inr (
            among_available u keyed finds hit,
            rw
                (
                  claim_units-db,
                  find-update (is_among due) (has_key run key) claim db.units (λ x. refl),
                  found,
                )
                (rw hit),
          )
          | inr miss ↦ inl (
              rw
                (
                  claim_units-db,
                  find-update (is_among due) (has_key run key) claim db.units (λ x. refl),
                  found,
                )
                (rw miss))
        ]

    load_all_claimed-length :
        (us : List UnitRow) (d : Db) (cs : List ClaimedUnit)
        → (load_all_claimed us d).0 ≡ ok cs
        → length cs ≡ length us
    unfolding load_all_claimed load_unit
    load_all_claimed-length [] d cs h = ground arith
    load_all_claimed-length (u ∷ us) d cs h = elim (Result-cases (load_all_claimed us d).0) [
      | inl (rest, e) ↦
          ground (arith, e, load_all_claimed-db us d, load_all_claimed-length us d rest e)
      | inr (x, e) ↦ absurd (ground (arith, e, load_all_claimed-db us d))
    ]

    -- A batch returns at most `limit` claims.
    pub claim_units_bounded :
        (cs : List ClaimedUnit)
        → IsKeyed db.units
        → (claim_units collation now owner limit grace required locked db).0 ≡ ok cs
        → length cs ≤ limit
    unfolding claim_units
    claim_units_bounded cs keyed h = omega (
      arith,
      load_all_claimed-length _ _ cs h,
      length-select (is_among due) (update_where (is_among due) claim db.units),
      count-update (is_among due) (is_among due) claim db.units (λ x e. refl),
      count-among due db.units keyed,
      due_units-length,
    )
