-- ===== src/PaperRun/Act/Binds.antt =====
-- The two ways in which a call of `PaperTradingSystem.run` and what follows it end.
use hermes_crypto_lab.Base.{◌≡◌, refl, Result, ok, err, Exn}
use hermes_crypto_lab.Broker.{Books}
use hermes_crypto_lab.Store.{Store}
use hermes_crypto_lab.PaperRun.Act.{
  System, Action, ◌>>=◌, read, on_store, on_books, transaction, then_run, stored, booked, committed,
}

-- What holds of the state after an action and what follows it, by how the action ends.
module _ {F : Type 0} {B : Type 0} (Q : System F × Result B → Type 0) where
  pub on_store-bind :
      (operation : Store → Result Store) (next : Unit {0} → Action F B) (s : System F)
      → ((e : Exn) → Q (s, err e))
      → ((store : Store) → operation s.store ≡ ok store → Q (next tt (record s { store = store })))
      → Q ((on_store operation >>= next) s)
  unfolding ◌>>=◌ on_store
  on_store-bind operation next s stays goes = by_result (operation s.store) goes
    where
      by_result :
          (r : Result Store)
          → ((store : Store) → r ≡ ok store → Q (next tt (record s { store = store })))
          → Q (then_run (stored s r) next)
      by_result (err e) h = stays e
      by_result (ok store) h = h store refl

  pub read-bind :
      {A : Type 0} (f : System F → A) (next : A → Action F B) (s : System F)
      → Q (next (f s) s)
      → Q ((read f >>= next) s)
  unfolding ◌>>=◌ read
  read-bind f next s h = h

  pub on_books-bind :
      {A : Type 0} (operation : Books F → Result (A × Books F)) (next : A → Action F B)
      (s : System F)
      → ((e : Exn) → Q (s, err e))
      → ((x : A) (b : Books F)
          → operation s.books ≡ ok (x, b)
          → Q (next x (record s { books = b })))
      → Q ((on_books operation >>= next) s)
  unfolding ◌>>=◌ on_books
  on_books-bind {A} operation next s stays goes = by_result (operation s.books) goes
    where
      by_result :
          (r : Result (A × Books F))
          → ((x : A) (b : Books F) → r ≡ ok (x, b) → Q (next x (record s { books = b })))
          → Q (then_run (booked s r) next)
      by_result (err e) h = stays e
      by_result (ok (x, b)) h = h x b refl

  pub transaction-bind :
      {A : Type 0} (work : System F → Result (A × System F)) (next : A → Action F B) (s : System F)
      → ((e : Exn) → Q (s, err e))
      → ((x : A) (t : System F) → work s ≡ ok (x, t) → Q (next x t))
      → Q ((transaction work >>= next) s)
  unfolding ◌>>=◌ transaction
  transaction-bind {A} work next s stays goes = by_result (work s) goes
    where
      by_result :
          (r : Result (A × System F))
          → ((x : A) (t : System F) → r ≡ ok (x, t) → Q (next x t))
          → Q (then_run (committed s r) next)
      by_result (err e) h = stays e
      by_result (ok (x, t)) h = h x t refl
