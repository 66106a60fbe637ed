-- ===== src/Control/Balance.antt =====
-- Who gets a partition, and who keeps one, in a pass of the reconciler.
use ptf.Prelude.{ℕ, ◌≤◌, String, [], ◌∷◌, arith, if◌then◌else◌, All}
use ptf.State.Db.{Db}
use ptf.State.Tx.{Tx}
use ptf.State.Steps.{Steps}
use ptf.Control.Reconciler.{Load, lighter, least_loaded}
use ptf.Control.Holding.{Keeps}

lighter_below :
    (x best : String × ℕ)
    → ((if lighter x best then x else best).1 ≤ x.1)
      × ((if lighter x best then x else best).1 ≤ best.1)
lighter_below x best = ground arith

least_loaded_below :
    (best : String × ℕ) (xs : Load)
    → ((least_loaded best xs).1 ≤ best.1) × All (λ y. (least_loaded best xs).1 ≤ y.1) xs
unfolding least_loaded
least_loaded_below best [] = (omega arith, tt)
least_loaded_below best (x ∷ xs) =
    let (below, all) = least_loaded_below (if lighter x best then x else best) xs in
    let (to_x, to_best) = lighter_below x best in (omega arith, (omega arith, all))

-- The worker that the reconciler picks carries no more weight than any other.
pub least_loaded_lem :
    (x : String × ℕ) (xs : Load) → All (λ y. (least_loaded x xs).1 ≤ y.1) (x ∷ xs)
least_loaded_lem x xs = least_loaded_below x xs

module _ (now : ℕ) (d id owner : String) where
  abbrev Kept : Db → Db → Type 0
  Kept = Keeps now d id owner
