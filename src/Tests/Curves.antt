-- ===== src/Tests/Curves.antt =====
-- A portfolio of three ranked assets, and an equity curve with one recovery.
use hermes_crypto_lab.Base.{
  ◌≡◌, ◌*◌, refl, String, some, false, List, [], ◌∷◌, ok, arith, ℕ, take, keep_if, Result, err,
}
use hermes_crypto_lab.Base.Int.{ℤ, pos, ◌+ℤ◌, ◌-ℤ◌}
use hermes_crypto_lab.Decimal.{dec_leb}
use hermes_crypto_lab.Time.{day_ns}
use hermes_crypto_lab.Portfolio.{
  Limits, usable, select, inverse_total, capped, sum_if, scale_altcoins, limit_altcoins, with_cash,
  weigh, build_target_weights,
}
use hermes_crypto_lab.Portfolio.Selection.{IsPortfolio, build_target_weights-IsPortfolio}
use hermes_crypto_lab.Metrics.{Row, with_span, advance, track, maximum_recovery_duration}
use hermes_crypto_lab.Metrics.Recovery.{longest_span, maximum_recovery_duration-longest_span}
use hermes_crypto_lab.Tests.Fixed.{fixed}

-- Every asset has a volatility of 50 percent and a cap of 40 percent.
abbrev limits : Limits ℤ
limits = record {
  realized_volatility = λ s. some (pos 5_000);
  asset_caps = λ s. some (pos 4_000);
  altcoins = λ s. false;
  max_altcoin_weight = pos 10_000;
}

abbrev ranked : List String
ranked = "BTC" ∷ "ETH" ∷ "SOL" ∷ []

abbrev weights_or : List (String × ℤ) → Result (List (String × ℤ)) → List (String × ℤ)
weights_or w (ok w') = w'
weights_or w (err e) = w

abbrev weights : List (String × ℤ)
weights = weights_or [] (build_target_weights fixed limits ranked (pos 2))

builds : build_target_weights fixed limits ranked (pos 2) ≡ ok weights
unfolding build_target_weights weigh with_cash limit_altcoins scale_altcoins sum_if capped
    inverse_total select dec_leb ◌+ℤ◌ ◌-ℤ◌
builds = refl

-- 40 percent each, and the rest in cash.
two_assets : weights ≡ ("BTC", pos 4_000) ∷ ("ETH", pos 4_000) ∷ ("CASH", pos 2_000) ∷ []
unfolding build_target_weights weigh with_cash limit_altcoins scale_altcoins sum_if capped
    inverse_total select dec_leb ◌+ℤ◌ ◌-ℤ◌
two_assets = refl

build_target_weights-IsPortfolio_example :
    IsPortfolio fixed limits (take 2 (keep_if (usable fixed limits) ranked)) weights
build_target_weights-IsPortfolio_example =
    build_target_weights-IsPortfolio fixed limits ranked 2 weights builds

abbrev row : ℕ → ℕ → Row ℤ
row day value = record { timestamp = day * day_ns; value = pos value }

-- A peak on day 1, reached again on day 4, and a fall on day 5.
abbrev curve : List (Row ℤ)
curve = row 1 110 ∷ row 2 100 ∷ row 3 105 ∷ row 4 120 ∷ row 5 90 ∷ []

three_days : maximum_recovery_duration fixed (row 0 100) curve ≡ 3
unfolding maximum_recovery_duration track advance with_span
three_days = refl

maximum_recovery_duration-longest_span_example :
    maximum_recovery_duration fixed (row 0 100) curve
    ≡ longest_span fixed (pos 100) (0 * day_ns) false curve
maximum_recovery_duration-longest_span_example =
    maximum_recovery_duration-longest_span fixed (row 0 100) curve
      (omega arith, (omega arith, (omega arith, (omega arith, (omega arith, tt)))))
