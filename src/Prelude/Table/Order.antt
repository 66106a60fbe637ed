-- ===== src/Prelude/Table/Order.antt =====
-- Sorting and limits.
use Prim.Native.Nat.{ℕ, zero, suc, ◌≤◌}
use mathlib.Core.Path.{◌≡◌, refl, ap, ◌∙◌}
use mathlib.Core.Bool.{Bool, ◌&&◌, ◌||◌}
use mathlib.Core.List.{List, [], ◌∷◌}
use native.Mathlib.Omega.{arith}
use ptf.Prelude.Lists.{take, length}
use ptf.Prelude.Table.Statements.{select_where, count_where, exists_where, insert_by, order_by}

module _ {ℓ} {A : Type ℓ} where
  exists-insert_by :
      (before : A → A → Bool) (q : A → Bool) (x : A) (xs : List A)
      → exists_where q (insert_by before x xs) ≡ (q x || exists_where q xs)
  unfolding insert_by exists_where
  exists-insert_by before q x [] = refl
  exists-insert_by before q x (y ∷ ys) = ground (arith, exists-insert_by before q x ys)

  pub exists-order_by :
      (before : A → A → Bool) (q : A → Bool) (xs : List A)
      → exists_where q (order_by before xs) ≡ exists_where q xs
  unfolding order_by exists_where
  exists-order_by before q [] = refl
  exists-order_by before q (x ∷ xs) =
      exists-insert_by before q x (order_by before xs)
      ∙ ap (◌||◌ (q x)) (exists-order_by before q xs)

  pub exists-select :
      (p q : A → Bool) (xs : List A)
      → exists_where q (select_where p xs) ≡ exists_where (λ x. p x && q x) xs
  unfolding select_where exists_where
  exists-select p q [] = refl
  exists-select p q (x ∷ xs) = ground (arith, exists-select p q xs)

  pub count-take_le :
      (p : A → Bool) (n : ℕ) (xs : List A) → count_where p (take n xs) ≤ count_where p xs
  unfolding count_where
  count-take_le p zero xs = omega arith
  count-take_le p (suc n) [] = omega arith
  count-take_le p (suc n) (x ∷ xs) = ground (arith, count-take_le p n xs)

  pub count-select_le :
      (p q : A → Bool) (xs : List A) → count_where q (select_where p xs) ≤ count_where q xs
  unfolding count_where select_where
  count-select_le p q [] = omega arith
  count-select_le p q (x ∷ xs) = ground (arith, count-select_le p q xs)

  count-insert_by :
      (before : A → A → Bool) (q : A → Bool) (x : A) (xs : List A)
      → count_where q (insert_by before x xs) ≡ count_where q (x ∷ xs)
  unfolding insert_by count_where
  count-insert_by before q x [] = refl
  count-insert_by before q x (y ∷ ys) = ground (arith, count-insert_by before q x ys)

  pub count-order_by :
      (before : A → A → Bool) (q : A → Bool) (xs : List A)
      → count_where q (order_by before xs) ≡ count_where q xs
  unfolding order_by count_where
  count-order_by before q [] = refl
  count-order_by before q (x ∷ xs) =
      ground (arith, count-insert_by before q x (order_by before xs), count-order_by before q xs)

  length-insert_by :
      (before : A → A → Bool) (x : A) (xs : List A)
      → length (insert_by before x xs) ≡ suc (length xs)
  unfolding insert_by
  length-insert_by before x [] = refl
  length-insert_by before x (y ∷ ys) = ground (arith, length-insert_by before x ys)

  pub length-order_by :
      (before : A → A → Bool) (xs : List A) → length (order_by before xs) ≡ length xs
  unfolding order_by
  length-order_by before [] = refl
  length-order_by before (x ∷ xs) =
      length-insert_by before x (order_by before xs) ∙ ap suc (length-order_by before xs)

  pub count-select :
      (p q : A → Bool) (xs : List A)
      → count_where q (select_where p xs) ≡ count_where (λ x. p x && q x) xs
  unfolding count_where select_where
  count-select p q [] = refl
  count-select p q (x ∷ xs) = ground (arith, count-select p q xs)
