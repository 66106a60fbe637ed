-- ===== src/State/Tx.antt =====
-- Statements and transactions: a computation reads and writes the database, and may raise. A
-- statement outside a transaction is committed at once, so what was written stays written after a
-- raise; `transaction` rolls back.
use ptf.Prelude.{Option, none, some, Bool, if◌then◌else◌, ap, ◌≡◌, refl, refl, sym, ◌∙◌}
use ptf.Core.Errors.{Result, ok, err, Error}
use ptf.State.Db.{Db}

abbrev pub Tx : Type 0 → Type 0
Tx A = Db → Result A × Db

module _ {A : Type 0} where
  abbrev pub pure : A → Tx A
  pure a db = (ok a, db)

  abbrev pub raise : Error → Tx A
  raise e db = (err e, db)

  abbrev pub query : (Db → A) → Tx A
  query f db = (ok (f db), db)

  -- `async with connection.transaction()`: an exception undoes the writes of the block.
  abbrev pub transaction : Tx A → Tx A
  transaction m db = let (r, db') = m db in elim r [ ok a ↦ (ok a, db') | err e ↦ (err e, db) ]

  abbrev pub or_raise : Option A → Error → Tx A
  or_raise none e = raise e
  or_raise (some a) e = pure a

infixl 5 ◌>>=◌ ◌>>◌
abbrev pub ◌>>=◌ : {A B : Type 0} → Tx A → (A → Tx B) → Tx B
◌>>=◌ m f db = let (r, db') = m db in elim r [ ok a ↦ f a db' | err e ↦ (err e, db') ]

abbrev pub ◌>>◌ : {A B : Type 0} → Tx A → Tx B → Tx B
m >> k = m >>= λ _. k

abbrev pub raise_if : Bool → Error → Tx (Unit {0})
raise_if c e db = (if c then err e else ok tt, db)

-- code that touches no table, inside an operation
abbrev pub lift : {A : Type 0} → Result A → Tx A
lift r db = (r, db)

-- How a chain of steps runs, by how its first step ended.
module _ {A B : Type 0} where
  pub bind-ok :
      (m : Tx A) (f : A → Tx B) (db : Db) (a : A) (db' : Db)
      → m db ≡ (ok a, db')
      → (m >>= f) db ≡ f a db'
  bind-ok m f db a db' e =
      ap
        (λ (r : Result A × Db). elim r.0 as (λ x. Result B × Db) [
          | ok x ↦ f x r.1
          | err x ↦ (err x, r.1)
        ])
        e

  pub bind-err :
      (m : Tx A) (f : A → Tx B) (db : Db) (x : Error) (db' : Db)
      → m db ≡ (err x, db')
      → (m >>= f) db ≡ (err x, db')
  bind-err m f db x db' e =
      ap
        (λ (r : Result A × Db). elim r.0 as (λ x. Result B × Db) [
          | ok x ↦ f x r.1
          | err x ↦ (err x, r.1)
        ])
        e

pub transaction-err :
    {A : Type 0} (m : Tx A) (db : Db) (x : Error)
    → (m db).0 ≡ err x
    → transaction m db ≡ (err x, db)
transaction-err {A} m db x e =
    ap
      (λ (r : Result A). elim r as (λ _. Result A × Db) [
        | ok a ↦ (ok a, (m db).1)
        | err y ↦ (err y, db)
      ])
      e

-- a last step that writes nothing
pub bind-pure_db :
    {A B : Type 0} (m : Tx A) (b : B) (db : Db) → ((m >>= λ _. pure b) db).1 ≡ (m db).1
bind-pure_db {A} {B} m b db = go (m db)
  where
    go : (r : Result A × Db) → (◌>>=◌ (λ (d : Db). r) (λ _. pure b) db).1 ≡ r.1
    go (ok a, db') = refl
    go (err e, db') = refl

-- a transaction that succeeds as `k` does
pub transaction-ok :
    {A : Type 0} (m k : Tx A) (db : Db)
    → m db ≡ k db
    → ((a : A) × ((k db).0 ≡ ok a))
    → transaction m db ≡ k db
transaction-ok {A} m k db e (a, h) =
    ap finish e ∙ (ap (λ r. finish (r, (k db).1)) h ∙ ap (λ r. (r, (k db).1)) (sym h))
  where
    finish : Result A × Db → Result A × Db
    finish (r, d) = elim r [ ok a ↦ (ok a, d) | err x ↦ (err x, db) ]

-- a chain that succeeded, taken apart
pub bind-inv :
    {A B : Type 0} (m : Tx A) (f : A → Tx B) (db : Db) (b : B)
    → ((m >>= f) db).0 ≡ ok b
    → (a : A) × (d : Db) × (m db ≡ (ok a, d)) × ((f a d).0 ≡ ok b) × (((m >>= f) db).1 ≡ (f a d).1)
bind-inv {A} {B} m f db b = go (m db) refl
  where
    go :
        (r : Result A × Db)
        → m db ≡ r
        → (◌>>=◌ (λ (d : Db). r) f db).0 ≡ ok b
        → (a : A) × (d : Db) × (m db ≡ (ok a, d))
          × ((f a d).0 ≡ ok b)
          × ((◌>>=◌ (λ (d : Db). r) f db).1 ≡ (f a d).1)
    go (ok a, d) e h = (a, d, e, h, refl)
    go (err x, d) e h = absurd (cc (h))

-- a last step that only changes the answer
pub bind-answer_db :
    {A B : Type 0} (m : Tx A) (f : A → B) (db : Db) → ((m >>= λ a. pure (f a)) db).1 ≡ (m db).1
bind-answer_db {A} {B} m f db = go (m db)
  where
    go : (r : Result A × Db) → (◌>>=◌ (λ (d : Db). r) (λ a. pure (f a)) db).1 ≡ r.1
    go (ok a, db') = refl
    go (err e, db') = refl
