-- ===== src/Forward.antt =====
-- The forward experiment of src/paper_store.py, src/paper_forward.py and
-- src/forward_operations.py: which weekly window belongs to which run, what a failed or missed
-- window leaves behind. The state is that of the paper account beside the tables whose names begin
-- with `forward_`.
pub mod Tables
pub mod Record
pub mod Rows
pub mod Steps
pub mod Claims
pub mod Missed
pub mod Failure
use hermes_crypto_lab.Base.{Result, ok, err}
use hermes_crypto_lab.State.{Program}
use hermes_crypto_lab.PaperRun.Act.{System, Action}
use Tables.{ForwardTables}

pub record World (F : Type 0) : Type 0 where
  pub system : System F
  pub forward : ForwardTables

module _ {F : Type 0} where
  -- Code that changes the account alone, and a transaction on the tables of the experiment.
  abbrev pub placed : {A : Type 0} → World F → System F × Result A → World F × Result A
  placed w (s, r) = (record w { system = s }, r)

  unfoldable pub in_system : {A : Type 0} → Action F A → Program (World F) A
  in_system act w = placed w (act w.system)

  abbrev pub filed : World F → Result ForwardTables → World F × Result (Unit {0})
  filed w (err e) = (w, err e)
  filed w (ok t) = (record w { forward = t }, ok tt)

  unfoldable pub on_forward : (ForwardTables → Result ForwardTables) → Program (World F) (Unit {0})
  on_forward operation w = filed w (operation w.forward)
