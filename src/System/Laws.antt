-- ===== src/System/Laws.antt =====
-- Transactions.
use sealvault.Prelude.{◌≡◌, arith}
use sealvault.Prelude.Result.{ok, err}
use sealvault.Error.{Error}
use sealvault.System.{System, World, App, transaction}

module _ ⦃sys : System⦄ where
  -- A transaction that fails, at its start, in its body or at its commit, leaves the database as
  -- it was before, whatever the body wrote.
  pub db-transaction_of_error :
      {A : Type 0} (body : App A) (w w' : World) (e : Error)
      → transaction body w ≡ (err e, w')
      → w'.db ≡ w.db
  unfolding transaction
  db-transaction_of_error body w w' e h = ground arith

  -- A transaction that succeeds has run its body once, on the state it started with but for the
  -- operating system, the body succeeded with the same answer, and all it wrote is kept.
  pub transaction_of_ok :
      {A : Type 0} (body : App A) (w w' : World) (a : A)
      → transaction body w ≡ (ok a, w')
      → let (r, v) = body (record w { os = (sys.os.connect w.os).1 }) in
        (r ≡ ok a)
        × (w'.db ≡ v.db)
        × (w'.db_file ≡ v.db_file)
        × (w'.keychain ≡ v.keychain)
        × (w'.storage ≡ v.storage)
  unfolding transaction
  transaction_of_ok body w w' a h =
      (ground arith, ground arith, ground arith, ground arith, ground arith)

  -- A transaction whose body leaves the database as it is does so too, however it ends.
  pub db-transaction_of_same :
      {A : Type 0} (body : App A) (w : World)
      → (body (record w { os = (sys.os.connect w.os).1 })).1.db ≡ w.db
      → (transaction body w).1.db ≡ w.db
  unfolding transaction
  db-transaction_of_same body w h = ground arith
