-- ===== src/State.antt =====
-- Python code that changes a state and may raise, as functions: what was changed before an
-- exception stays. The state is an argument and a result.
pub mod Keeps
use hermes_crypto_lab.Base.{Result, ok, err}

abbrev pub Program : Type 0 → Type 0 → Type 0
Program S A = S → S × Result A

module _ {S : Type 0} where
  abbrev pub then_run : {A B : Type 0} → S × Result A → (A → Program S B) → S × Result B
  then_run (s, err e) next = (s, err e)
  then_run (s, ok x) next = next x s

  infixl 5 ◌>>=◌
  unfoldable pub ◌>>=◌ : {A B : Type 0} → Program S A → (A → Program S B) → Program S B
  (act >>= next) s = then_run (act s) next

  infixl 5 ◌>>◌
  abbrev pub ◌>>◌ : {A B : Type 0} → Program S A → Program S B → Program S B
  act >> next = act >>= (λ done. next)

  unfoldable pub returned : {A : Type 0} → A → Program S A
  returned x s = (s, ok x)

  -- A call that reads or changes nothing but may raise, and one that only reads.
  unfoldable pub lift : {A : Type 0} → Result A → Program S A
  lift r s = (s, r)

  unfoldable pub read : {A : Type 0} → (S → A) → Program S A
  read f s = (s, ok (f s))

  -- A transaction: the state after it, unless it raised.
  abbrev pub committed : {A : Type 0} → S → Result (A × S) → S × Result A
  committed s (err e) = (s, err e)
  committed s (ok (x, s')) = (s', ok x)

  unfoldable pub transaction : {A : Type 0} → (S → Result (A × S)) → Program S A
  transaction run s = committed s (run s)
