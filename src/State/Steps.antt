-- ===== src/State/Steps.antt =====
-- What a computation may do to the database, as a relation between the state before it and the
-- state after it, whether it returns or raises; proved statement by statement.
use ptf.Prelude.{Bool, Option, none, some}
use ptf.Core.Errors.{Result, ok, err, Error}
use ptf.State.Db.{Db}
use ptf.State.Tx.{Tx, query, transaction, or_raise, raise_if, ◌>>=◌, ◌>>◌}

-- The state after `m` is related to the state before it.
abbrev pub Steps : {A : Type 0} → (Db → Db → Type 0) → Tx A → Type 0
Steps R m = (db : Db) → R db (m db).1

module _ (R : Db → Db → Type 0) (same : (db : Db) → R db db)
    (join : (a b c : Db) → R a b → R b c → R a c) where
  pub Steps-bind :
      {A B : Type 0} (m : Tx A) (f : A → Tx B)
      → Steps R m
      → ((a : A) → Steps R (f a))
      → Steps R (m >>= f)
  Steps-bind {A} {B} m f hm hf db = go (m db) (hm db)
    where
      go : (r : Result A × Db) → R db r.1 → R db (◌>>=◌ (λ (d : Db). r) f db).1
      go (ok a, db') h = join db db' (f a db').1 h (hf a db')
      go (err e, db') h = h

  pub Steps-then : {A B : Type 0} (m : Tx A) (k : Tx B) → Steps R m → Steps R k → Steps R (m >> k)
  Steps-then m k hm hk = Steps-bind m (λ _. k) hm (λ _. hk)

  pub Steps-transaction : {A : Type 0} (m : Tx A) → Steps R m → Steps R (transaction m)
  Steps-transaction {A} m hm db = go (m db) (hm db)
    where
      go : (r : Result A × Db) → R db r.1 → R db (transaction (λ (d : Db). r) db).1
      go (ok a, db') h = h
      go (err e, db') h = same db

  pub Steps-query : {A : Type 0} (f : Db → A) → Steps R (query f)
  Steps-query f db = same db

  pub Steps-or_raise : {A : Type 0} (o : Option A) (e : Error) → Steps R (or_raise o e)
  Steps-or_raise none e db = same db
  Steps-or_raise (some a) e db = same db

  pub Steps-raise_if : (b : Bool) (e : Error) → Steps R (raise_if b e)
  Steps-raise_if b e db = same db
