-- ===== src/Prelude/Table/Counts.antt =====
-- Counts, lengths and inserts of rows.
use Prim.Native.Nat.{◌+◌, ◌≤◌}
use mathlib.Core.Path.{◌≡◌, refl}
use mathlib.Core.Logic.{inl, inr}
use mathlib.Core.Bool.{Bool, true, false, ◌||◌}
use mathlib.Core.Option.{some}
use mathlib.Core.List.{List, [], ◌∷◌, ◌++◌}
use native.Mathlib.Omega.{arith}
use ptf.Prelude.Tests.{Bool-cases}
use ptf.Prelude.Lists.{All, length}
use ptf.Prelude.Table.Statements.{find_where, select_where, update_where, count_where, exists_where}

module _ {ℓ} {A : Type ℓ} where
  pub count-or_le :
      (p q : A → Bool) (xs : List A)
      → count_where (λ x. p x || q x) xs ≤ count_where p xs + count_where q xs
  unfolding count_where
  count-or_le p q [] = omega arith
  count-or_le p q (x ∷ xs) = ground (arith, count-or_le p q xs)

  pub length-select : (p : A → Bool) (xs : List A) → length (select_where p xs) ≡ count_where p xs
  unfolding select_where count_where
  length-select p [] = refl
  length-select p (x ∷ xs) = ground (arith, length-select p xs)

  pub find-append_none :
      (p : A → Bool) (xs : List A) (x : A)
      → exists_where p xs ≡ false
      → p x ≡ true
      → find_where p (xs ++ x ∷ []) ≡ some x
  unfolding exists_where find_where
  find-append_none p [] x h hit = rw hit
  find-append_none p (y ∷ ys) x h hit = ground (arith, find-append_none p ys x)

  -- a test that no row meets
  pub count-none : (p : A → Bool) (xs : List A) → All (λ x. p x ≡ false) xs → count_where p xs ≡ 0
  unfolding count_where
  count-none p [] h = refl
  count-none p (x ∷ xs) h = ground (arith, count-none p xs h.1)

  pub length-update :
      (p : A → Bool) (f : A → A) (xs : List A) → length (update_where p f xs) ≡ length xs
  unfolding update_where
  length-update p f [] = refl
  length-update p f (x ∷ xs) = ground (arith, length-update p f xs)

  pub find_of_exists :
      (p : A → Bool) (xs : List A) → exists_where p xs ≡ true → (a : A) × (find_where p xs ≡ some a)
  unfolding exists_where find_where
  find_of_exists p [] h = absurd (cc)
  find_of_exists p (x ∷ xs) h = elim (Bool-cases (p x)) [
    | inl t ↦ (x, rw t refl)
    | inr f ↦ let (a, e) = find_of_exists p xs (rw f at h) in (a, rw f e)
  ]

  pub exists-zero_of_count :
      (p : A → Bool) (xs : List A) → count_where p xs ≡ 0 → exists_where p xs ≡ false
  unfolding count_where exists_where
  exists-zero_of_count p [] h = refl
  exists-zero_of_count p (x ∷ xs) h = ground (arith, exists-zero_of_count p xs)
