-- ===== src/PaperRun/Act.antt =====
-- The code of src/paper_broker.py that changes the store and the books.
pub mod Binds
use hermes_crypto_lab.Base.{Result, ok, err}
use hermes_crypto_lab.Broker.{Books}
use hermes_crypto_lab.Store.{Store}
unfoldable pub use hermes_crypto_lab.State.{
  Program, ◌>>=◌, ◌>>◌, returned, lift, read, transaction, then_run, committed,
}

pub record System (F : Type 0) : Type 0 where
  pub store : Store
  pub books : Books F

abbrev pub Action : Type 0 → Type 0 → Type 0
Action F A = Program (System F) A

module _ {F : Type 0} where
  -- A transaction on the store alone.
  abbrev pub stored : System F → Result Store → System F × Result (Unit {0})
  stored s (err e) = (s, err e)
  stored s (ok store) = (record s { store = store }, ok tt)

  unfoldable pub on_store : (Store → Result Store) → Action F (Unit {0})
  on_store operation s = stored s (operation s.store)

  abbrev pub booked : {A : Type 0} → System F → Result (A × Books F) → System F × Result A
  booked s (err e) = (s, err e)
  booked s (ok (x, b)) = (record s { books = b }, ok x)

  unfoldable pub on_books : {A : Type 0} → (Books F → Result (A × Books F)) → Action F A
  on_books operation s = booked s (operation s.books)
