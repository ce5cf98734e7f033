-- ===== src/State/Keeps.antt =====
-- Relations between the states before and after a program of State.antt.
use hermes_crypto_lab.Base.{◌≡◌, refl, Bool, true, false, if◌then◌else◌, Result, ok, err}
use hermes_crypto_lab.State.{Program, ◌>>=◌, returned, lift, read, transaction, then_run, committed}

pub record IsPreorder {S : Type 0} (R : S → S → Type 0) : Type 0 where
  pub rest : (s : S) → R s s
  pub on : (s t u : S) → R s t → R t u → R s u

module _ {S : Type 0} (R : S → S → Type 0) (order : IsPreorder R) where
  abbrev pub Keeps : {A : Type 0} → Program S A → Type 0
  Keeps act = (s : S) → R s (act s).0

  pub Keeps-bind :
      {A B : Type 0} (act : Program S A) (next : A → Program S B)
      → Keeps act
      → ((x : A) → Keeps (next x))
      → Keeps (act >>= next)
  unfolding ◌>>=◌
  Keeps-bind {A} {B} act next first rest s = after (act s) (first s)
    where
      after : (o : S × Result A) → R s o.0 → R s (then_run o next).0
      after (t, err e) r = r
      after (t, ok x) r = order.on s t _ r (rest x t)

  pub Keeps-returned : {A : Type 0} (x : A) → Keeps (returned x)
  unfolding returned
  Keeps-returned x s = order.rest s

  pub Keeps-lift : {A : Type 0} (r : Result A) → Keeps (lift r)
  unfolding lift
  Keeps-lift r s = order.rest s

  pub Keeps-read : {A : Type 0} (f : S → A) → Keeps (read f)
  unfolding read
  Keeps-read f s = order.rest s

  pub Keeps-transaction :
      {A : Type 0} (work : S → Result (A × S))
      → ((s : S) (x : A) (t : S) → work s ≡ ok (x, t) → R s t)
      → Keeps (transaction work)
  unfolding transaction
  Keeps-transaction {A} work h s = after (work s) (h s)
    where
      after :
          (o : Result (A × S)) → ((x : A) (t : S) → o ≡ ok (x, t) → R s t) → R s (committed s o).0
      after (err e) h = order.rest s
      after (ok (x, t)) h = h x t refl

  pub Keeps-if :
      {A : Type 0} (b : Bool) (act other : Program S A)
      → Keeps act
      → Keeps other
      → Keeps (if b then act else other)
  Keeps-if true act other h k = h
  Keeps-if false act other h k = k
