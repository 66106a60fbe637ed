-- ===== src/Prelude/Table/Members.antt =====
-- What holds of every row.
use mathlib.Core.Path.{◌≡◌, subst}
use mathlib.Core.Logic.{inl, inr}
use mathlib.Core.Bool.{Bool, true, false}
use mathlib.Core.Option.{some}
use mathlib.Core.List.{List, [], ◌∷◌}
use native.Mathlib.Omega.{arith}
use ptf.Prelude.Tests.{Bool-cases}
use ptf.Prelude.Lists.{All}
use ptf.Prelude.Table.Statements.{
  find_where, select_where, update_where, exists_where, insert_by, order_by,
}

module _ {ℓ κ} {A : Type ℓ} (P : A → Type κ) where
  pub All-update :
      (p : A → Bool) (f : A → A) (xs : List A)
      → ((x : A) → p x ≡ true → P x → P (f x))
      → All P xs
      → All P (update_where p f xs)
  unfolding update_where
  All-update p f [] keep h = tt
  All-update p f (x ∷ xs) keep h = elim (Bool-cases (p x)) [
    | inl e ↦ rw e (keep x e h.0, All-update p f xs keep h.1)
    | inr e ↦ rw e (h.0, All-update p f xs keep h.1)
  ]

  pub All-select : (p : A → Bool) (xs : List A) → All P xs → All P (select_where p xs)
  unfolding select_where
  All-select p [] h = tt
  All-select p (x ∷ xs) h = elim (Bool-cases (p x)) [
    | inl e ↦ rw e (h.0, All-select p xs h.1)
    | inr e ↦ rw e (All-select p xs h.1)
  ]

  pub All-find : (p : A → Bool) (xs : List A) (a : A) → All P xs → find_where p xs ≡ some a → P a
  unfolding find_where
  All-find p [] a h e = cc
  All-find p (x ∷ xs) a h e = elim (Bool-cases (p x)) [
    | inl t ↦ subst P (ground arith) h.0
    | inr t ↦ All-find p xs a h.1 (ground arith)
  ]

  -- A table with a key: at most one row answers `p`.
  All-insert_by :
      (before : A → A → Bool) (x : A) (xs : List A) → P x → All P xs → All P (insert_by before x xs)
  unfolding insert_by
  All-insert_by before x [] px h = (px, tt)
  All-insert_by before x (y ∷ ys) px h = elim (Bool-cases (before x y)) [
    | inl e ↦ rw e (px, h)
    | inr e ↦ rw e (h.0, All-insert_by before x ys px h.1)
  ]

  pub All-order_by : (before : A → A → Bool) (xs : List A) → All P xs → All P (order_by before xs)
  unfolding order_by
  All-order_by before [] h = tt
  All-order_by before (x ∷ xs) h =
      All-insert_by before x (order_by before xs) h.0 (All-order_by before xs h.1)

  pub All-updated :
      (p : A → Bool) (f : A → A) (xs : List A)
      → ((x : A) → p x ≡ true → P (f x))
      → ((x : A) → p x ≡ false → P x)
      → All P (update_where p f xs)
  unfolding update_where
  All-updated p f [] hit miss = tt
  All-updated p f (x ∷ xs) hit miss = elim (Bool-cases (p x)) [
    | inl e ↦ rw e (hit x e, All-updated p f xs hit miss)
    | inr e ↦ rw e (miss x e, All-updated p f xs hit miss)
  ]

  -- What holds of every row that passes the test.
  pub All-where :
      (p : A → Bool) (xs : List A) → ((x : A) → p x ≡ true → P x) → All P (select_where p xs)
  unfolding select_where
  All-where p [] h = tt
  All-where p (x ∷ xs) h = elim (Bool-cases (p x)) [
    | inl e ↦ rw e (h x e, All-where p xs h)
    | inr e ↦ rw e (All-where p xs h)
  ]

  pub All-exists :
      (q : A → Bool) (xs : List A)
      → All P xs
      → exists_where q xs ≡ true
      → (a : A) × (q a ≡ true) × P a
  unfolding exists_where
  All-exists q [] h e = absurd (cc)
  All-exists q (x ∷ xs) h e = elim (Bool-cases (q x)) [
    | inl t ↦ (x, t, h.0)
    | inr t ↦ All-exists q xs h.1 (rw t at e)
  ]
