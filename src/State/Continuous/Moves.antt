-- ===== src/State/Continuous/Moves.antt =====
-- What the operations of state/continuous.py may do to the table of partitions, as a relation.
use ptf.Prelude.{
  ◌≤◌, ◌≡◌, refl, String, Bool, false, some, List, [], ◌∷◌, ◌++◌, arith, inl, inr, Bool-cases,
  eq_iff,
}
use ptf.Prelude.Table.{
  update_where, exists_where, find_where, count-update, count-append, count-zero_of_exists,
  find-update, find-append,
}
use ptf.Continuous.Contracts.{Partition}
use ptf.State.Db.{PartitionRow}
use ptf.State.Continuous.Sync.{has_partition, unassigned_row}
use ptf.State.Continuous.Exclusion.{IsKeyed}

-- A write keeps the key of a row and never lowers its token.
pub record Raises (f : PartitionRow → PartitionRow) : Type 0 where
  pub same_deployment : (r : PartitionRow) → (f r).deployment_id ≡ r.deployment_id
  pub same_partition : (r : PartitionRow) → (f r).partition_id ≡ r.partition_id
  pub token : (r : PartitionRow) → r.fencing_token ≤ (f r).fencing_token

pub data Moves : List PartitionRow → List PartitionRow → Type 0 where
  same : (xs : List PartitionRow) → Moves xs xs
  add :
      (d : String) (p : Partition) (xs : List PartitionRow)
      → exists_where (has_partition d p.partition_id) xs ≡ false
      → Moves xs (xs ++ unassigned_row d p ∷ [])
  write :
      (test : PartitionRow → Bool) (f : PartitionRow → PartitionRow) (xs : List PartitionRow)
      → Raises f
      → Moves xs (update_where test f xs)
  next : {xs ys zs : List PartitionRow} → Moves xs ys → Moves ys zs → Moves xs zs

Raises-key :
    {f : PartitionRow → PartitionRow} (d p : String) (r : PartitionRow)
    → Raises f
    → has_partition d p (f r) ≡ has_partition d p r
Raises-key d p r h = rw (h.same_deployment r, h.same_partition r) refl

add-IsKeyed :
    (d : String) (p : Partition) (xs : List PartitionRow)
    → exists_where (has_partition d p.partition_id) xs ≡ false
    → IsKeyed xs
    → IsKeyed (xs ++ unassigned_row d p ∷ [])
add-IsKeyed d p xs fresh keyed e q = ground (
  arith,
  keyed e q,
  eq_iff d e,
  eq_iff p.partition_id q,
  count-append (has_partition e q) xs (unassigned_row d p),
  count-zero_of_exists (has_partition d p.partition_id) xs fresh,
)

pub Moves-IsKeyed : {xs ys : List PartitionRow} → Moves xs ys → IsKeyed xs → IsKeyed ys
Moves-IsKeyed (same xs) h d p = h d p
Moves-IsKeyed (add d p xs fresh) h e q = add-IsKeyed d p xs fresh h e q
Moves-IsKeyed (write test f xs up) h d p =
    rw (count-update test (has_partition d p) f xs (λ x _. Raises-key d p x up)) (h d p)
Moves-IsKeyed (next a b) h d p = Moves-IsKeyed b (Moves-IsKeyed a h) d p

-- A partition's row is still in the table, with a token at least as great.
abbrev pub Grown : String → String → PartitionRow → List PartitionRow → Type 0
Grown d p r ys =
    (s : PartitionRow) × (find_where (has_partition d p) ys ≡ some s)
    × (r.fencing_token ≤ s.fencing_token)

-- Tokens never fall and partitions never disappear.
pub Moves-Grown :
    {xs ys : List PartitionRow} (d p : String) (r : PartitionRow)
    → Moves xs ys
    → find_where (has_partition d p) xs ≡ some r
    → Grown d p r ys
Moves-Grown d p r (same xs) h = (r, h, omega arith)
Moves-Grown d p r (add e q xs fresh) h =
    (r, find-append (has_partition d p) xs (unassigned_row e q) r h, omega arith)
Moves-Grown d p r (write test f xs up) h = elim (Bool-cases (test r)) [
  | inl hit ↦ (
    f r,
    rw (find-update test (has_partition d p) f xs (λ x. Raises-key d p x up), h) (rw hit),
    up.token r,
  )
  | inr miss ↦ (
    r,
    rw (find-update test (has_partition d p) f xs (λ x. Raises-key d p x up), h) (rw miss),
    omega arith,
  )
]
Moves-Grown d p r (next a b) h =
    let (s, e, le) = Moves-Grown d p r a h in
    let (t, e', le') = Moves-Grown d p s b e in (t, e', omega arith)
