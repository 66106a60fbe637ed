-- ===== src/Prelude/Table/Rows.antt =====
-- How updates and inserts show in the rows that a key finds.
use Prim.Native.Nat.{◌+◌, ◌≤◌}
use mathlib.Core.Path.{◌≡◌, refl}
use mathlib.Core.Bool.{Bool, true, false, ◌&&◌, ◌||◌}
use mathlib.Core.Option.{none, some}
use mathlib.Core.List.{List, [], ◌∷◌, ◌++◌}
use native.Mathlib.Omega.{arith}
use ptf.Prelude.Tests.{if◌then◌else◌}
use ptf.Prelude.Table.Statements.{find_where, update_where, count_where, exists_where}

module _ {ℓ} {A : Type ℓ} where
  pub update-none :
      (p : A → Bool) (f : A → A) (xs : List A) → count_where p xs ≡ 0 → update_where p f xs ≡ xs
  unfolding update_where count_where
  update-none p f [] h = refl
  update-none p f (x ∷ xs) h = ground (arith, update-none p f xs)

  pub count-zero_of_find :
      (p : A → Bool) (xs : List A) → find_where p xs ≡ none → count_where p xs ≡ 0
  unfolding find_where count_where
  count-zero_of_find p [] h = refl
  count-zero_of_find p (x ∷ xs) h = ground (arith, count-zero_of_find p xs)

  pub find-none_of_count :
      (p : A → Bool) (xs : List A) → count_where p xs ≡ 0 → find_where p xs ≡ none
  unfolding find_where count_where
  find-none_of_count p [] h = refl
  find-none_of_count p (x ∷ xs) h = ground (arith, find-none_of_count p xs)

  pub count-pos_of_find :
      (p : A → Bool) (xs : List A) (a : A) → find_where p xs ≡ some a → 1 ≤ count_where p xs
  unfolding find_where count_where
  count-pos_of_find p [] a h = absurd (cc)
  count-pos_of_find p (x ∷ xs) a h = ground (arith, count-pos_of_find p xs a)

  pub find_satisfies : (p : A → Bool) (xs : List A) (a : A) → find_where p xs ≡ some a → p a ≡ true
  unfolding find_where
  find_satisfies p [] a h = cc
  find_satisfies p (x ∷ xs) a h = ground (arith, find_satisfies p xs a)

  -- An update that keeps what `q` reads changes the row that `q` finds and no other.
  pub find-update :
      (p q : A → Bool) (f : A → A) (xs : List A)
      → ((x : A) → q (f x) ≡ q x)
      → find_where q (update_where p f xs)
        ≡ elim (find_where q xs) [ none ↦ none | some x ↦ some (if p x then f x else x) ]
  unfolding find_where update_where
  find-update p q f [] keep = refl
  find-update p q f (x ∷ xs) keep = ground (arith, keep x, find-update p q f xs keep)

  pub count-update :
      (p q : A → Bool) (f : A → A) (xs : List A)
      → ((x : A) → p x ≡ true → q (f x) ≡ q x)
      → count_where q (update_where p f xs) ≡ count_where q xs
  unfolding count_where update_where
  count-update p q f [] keep = refl
  count-update p q f (x ∷ xs) keep = ground (arith, keep x, count-update p q f xs keep)

  pub exists-update :
      (p q : A → Bool) (f : A → A) (xs : List A)
      → ((x : A) → q (f x) ≡ q x)
      → exists_where q (update_where p f xs) ≡ exists_where q xs
  unfolding exists_where update_where
  exists-update p q f [] keep = refl
  exists-update p q f (x ∷ xs) keep = ground (arith, keep x, exists-update p q f xs keep)

  pub count-append :
      (p : A → Bool) (xs : List A) (x : A)
      → count_where p (xs ++ x ∷ []) ≡ count_where p xs + (if p x then 1 else 0)
  unfolding count_where
  count-append p [] x = ground arith
  count-append p (y ∷ ys) x = ground (arith, count-append p ys x)

  pub exists-append :
      (p : A → Bool) (xs : List A) (x : A)
      → exists_where p (xs ++ x ∷ []) ≡ (exists_where p xs || p x)
  unfolding exists_where
  exists-append p [] x = ground arith
  exists-append p (y ∷ ys) x = ground (arith, exists-append p ys x)

  pub find-append :
      (p : A → Bool) (xs : List A) (x a : A)
      → find_where p xs ≡ some a
      → find_where p (xs ++ x ∷ []) ≡ some a
  unfolding find_where
  find-append p [] x a h = cc
  find-append p (y ∷ ys) x a h = ground (arith, find-append p ys x a)

  pub count-zero_of_exists :
      (p : A → Bool) (xs : List A) → exists_where p xs ≡ false → count_where p xs ≡ 0
  unfolding count_where exists_where
  count-zero_of_exists p [] h = refl
  count-zero_of_exists p (x ∷ xs) h = ground (arith, count-zero_of_exists p xs)

  pub exists_of_find :
      (p : A → Bool) (xs : List A) (a : A) → find_where p xs ≡ some a → exists_where p xs ≡ true
  unfolding find_where exists_where
  exists_of_find p [] a h = cc
  exists_of_find p (x ∷ xs) a h = ground (arith, exists_of_find p xs a)

  pub find_of_exists_none :
      (p : A → Bool) (xs : List A) → exists_where p xs ≡ false → find_where p xs ≡ none
  unfolding find_where exists_where
  find_of_exists_none p [] h = refl
  find_of_exists_none p (x ∷ xs) h = ground (arith, find_of_exists_none p xs)

  count-and-zero :
      (p q : A → Bool) (xs : List A) → count_where p xs ≡ 0 → count_where (λ x. p x && q x) xs ≡ 0
  unfolding count_where
  count-and-zero p q [] h = refl
  count-and-zero p q (x ∷ xs) h = ground (arith, count-and-zero p q xs)

  find-and-none :
      (p q : A → Bool) (xs : List A) → count_where p xs ≡ 0 → find_where (λ x. p x && q x) xs ≡ none
  unfolding count_where find_where
  find-and-none p q [] h = refl
  find-and-none p q (x ∷ xs) h = ground (arith, find-and-none p q xs)

  -- Further conditions on a keyed row are read off the row that the key finds.
  pub count-and :
      (p q : A → Bool) (xs : List A) (a : A)
      → count_where p xs ≤ 1
      → find_where p xs ≡ some a
      → count_where (λ x. p x && q x) xs ≡ (if q a then 1 else 0)
  unfolding count_where find_where
  count-and p q [] a one h = cc
  count-and p q (x ∷ xs) a one h = ground (arith, count-and p q xs a, count-and-zero p q xs)

  pub find-and :
      (p q : A → Bool) (xs : List A) (a : A)
      → count_where p xs ≤ 1
      → find_where p xs ≡ some a
      → find_where (λ x. p x && q x) xs ≡ (if q a then some a else none)
  unfolding count_where find_where
  find-and p q [] a one h = cc
  find-and p q (x ∷ xs) a one h = ground (arith, find-and p q xs a, find-and-none p q xs)

  pub find-and_none :
      (p q : A → Bool) (xs : List A)
      → find_where p xs ≡ none
      → find_where (λ x. p x && q x) xs ≡ none
  unfolding find_where
  find-and_none p q [] h = refl
  find-and_none p q (x ∷ xs) h = ground (arith, find-and_none p q xs)
