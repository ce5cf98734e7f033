-- ===== src/Tests/Weekly.antt =====
-- Weekly calls on small examples.
use hermes_crypto_lab.Base.{◌*◌, ◌+◌, ◌≡◌, ◌≢◌, ◌≤◌, refl, ap, arith, String, none, true, false, ok}
use hermes_crypto_lab.Base.Int.{ℤ}
use hermes_crypto_lab.Time.{aware, minute_ns, day_ns, normalize, weekday}
use hermes_crypto_lab.Schedule.{scheduled_key}
use hermes_crypto_lab.Store.{execution_protocol_version}
use hermes_crypto_lab.Forward.{World}
use hermes_crypto_lab.Forward.Tables.{only}
use hermes_crypto_lab.Forward.Rows.{Grows}
use hermes_crypto_lab.RunPaper.{WeeklyCall, captured, stopped, refused, unfetched, weekly_call}
use hermes_crypto_lab.RunPaper.Outside.{weekly_call-outside}
use hermes_crypto_lab.RunPaper.Unfetched.{Unclaimed, weekly_call-Unclaimed}
use hermes_crypto_lab.Tests.Fixed.{fixed}
use hermes_crypto_lab.Tests.Runs.{setting, start}
use hermes_crypto_lab.Tests.Windows.{
  world, no_rows, setting-IsSchedule, letters, letters_distinct, one_active, no_rows-IsFiled,
}

abbrev pub in_time : WeeklyCall
in_time = record {
  dry_run = false;
  start = 0;
  now = 10 * minute_ns;
  capture = refused "" true;
  fetch = unfetched "" true;
  run_id = "w1";
  incident_id = "i2";
  new_id = letters;
  later_id = letters;
}

-- The Tuesday two weeks later.
abbrev on_tuesday : WeeklyCall
on_tuesday = record in_time { now = 15 * day_ns }

no_key : scheduled_key setting.schedule (15 * day_ns) ≡ ok none
unfolding scheduled_key weekday
no_key = refl

begun : normalize 0 + 7 * day_ns ≤ normalize (15 * day_ns)
unfolding normalize
begun = omega arith

weekly_call-outside_example :
    (w' : World ℤ) × (text : String) × (weekly_call fixed setting on_tuesday world
      ≡ (w', ok (stopped text)))
    × (w'.system ≡ start)
    × Grows no_rows w'.forward
weekly_call-outside_example =
    weekly_call-outside fixed setting on_tuesday setting-IsSchedule (omega arith) world "e1"
      letters_distinct (ap only one_active) no_rows-IsFiled no_key begun

-- A call that has its provenance and no market data.
abbrev without_market : WeeklyCall
without_market = record in_time {
  capture = captured (record {
    git_commit = "";
    git_dirty = false;
    hardening_manifest_sha256 = "";
    execution_protocol_version = execution_protocol_version;
    captured_at_utc = aware 0;
  });
}

not_refused : (m : String) → without_market.capture ≢ refused m false
not_refused m e = cc e

weekly_call-Unclaimed_example : Unclaimed world (weekly_call fixed setting without_market world).0
weekly_call-Unclaimed_example =
    weekly_call-Unclaimed fixed setting without_market world "" true refl not_refused refl
