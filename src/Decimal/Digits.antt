-- ===== src/Decimal/Digits.antt =====
-- The number of decimal digits of a coefficient, `len(value.as_tuple().digits)`.
use native.Mathlib.Nat.{
  pow-suc, pow-zero, add-zero, add-suc, mul_assoc, mul_comm, one-le-pow, pow-le-pow_right,
  mul-le-mul_right, mul-lt-mul_of_pos_right,
}
use hermes_crypto_lab.Base.{
  ℕ, zero, suc, ◌+◌, ◌-◌, leb, leb→le, not-leb→lt, ◌*◌, ◌/◌, ◌^◌, ◌≤◌, ◌<◌, ◌≡◌, arith, ltb,
  if◌then◌else◌, Bool-cases, inl, inr, ltb→lt, lt→ltb, not-ltb→le,
}

count_digits : ℕ → ℕ → ℕ
count_digits zero n = 1
count_digits (suc fuel) n =
    let rest = count_digits fuel (n / 10) in if ltb n 10 then 1 else suc rest

-- Zero is written with one digit. A number has no more digits than its value, so it is its own
-- fuel.
unfoldable pub num_digits : ℕ → ℕ
unfolding count_digits
num_digits n = count_digits n n

pub pow-add : (b m n : ℕ) → b ^ (m + n) ≡ b ^ m * b ^ n
pow-add b m zero = rw (add-zero, pow-zero) (omega arith)
pow-add b m (suc n) =
    rw (add-suc m n, pow-suc b (m + n), pow-add b m n, pow-suc b n) (mul_assoc (b ^ m) (b ^ n) b)

pub ten-pow-suc : (n : ℕ) → 10 ^ suc n ≡ 10 * 10 ^ n
ten-pow-suc n = rw (pow-suc 10 n) (mul_comm (10 ^ n) 10)

pub ten-pow-pos : (n : ℕ) → 0 < 10 ^ n
ten-pow-pos n = one-le-pow n 10 (omega arith)

pos-count_digits : (fuel n : ℕ) → 1 ≤ count_digits fuel n
unfolding count_digits
pos-count_digits zero n = omega arith
pos-count_digits (suc f) n = ground arith

-- Enough fuel is given: the number is below the power of ten of its digits.
count_digits_above : (fuel n : ℕ) → n ≤ fuel → n < 10 ^ count_digits fuel n
unfolding count_digits
count_digits_above zero n h = omega arith
count_digits_above (suc f) n h = elim (Bool-cases (ltb n 10)) [
  | inl small ↦ rw small (omega (arith, ltb→lt n 10 small))
  | inr large ↦ rw large (
      omega (
        arith,
        not-ltb→le n 10 large,
        ten-pow-suc (count_digits f (n / 10)),
        count_digits_above f (n / 10) (omega (arith, not-ltb→le n 10 large)),
      ))
]

-- A number below a power of ten has no more digits than the power.
count_digits_below : (fuel k n : ℕ) → n < 10 ^ suc k → count_digits fuel n ≤ suc k
unfolding count_digits
count_digits_below zero k n h = omega arith
count_digits_below (suc f) zero n h = rw (lt→ltb n 10 (omega arith)) (omega arith)
count_digits_below (suc f) (suc k) n h = elim (Bool-cases (ltb n 10)) [
  | inl small ↦ rw small (omega arith)
  | inr large ↦
      rw large (omega (arith, count_digits_below f k (n / 10) (omega (arith, ten-pow-suc (suc k)))))
]

pub pos-num_digits : (n : ℕ) → 1 ≤ num_digits n
unfolding num_digits
pos-num_digits n = pos-count_digits n n

pub num_digits_above : (n : ℕ) → n < 10 ^ num_digits n
unfolding num_digits
num_digits_above n = count_digits_above n n (omega arith)

pub digits_le : (k n : ℕ) → 1 ≤ k → n < 10 ^ k → num_digits n ≤ k
unfolding num_digits
digits_le zero n h below = absurd (omega arith)
digits_le (suc k) n h below = count_digits_below n k n below

product-lt : {a b m n : ℕ} → a < m → b < n → a * b < m * n
product-lt {a} {b} {m} {n} p q = grind arith

-- A product has no more digits than its factors have together.
pub num_digits-mul : (a b : ℕ) → num_digits (a * b) ≤ num_digits a + num_digits b
num_digits-mul a b =
    let da = num_digits a in
    let db = num_digits b in
    let below : a * b < 10 ^ (da + db) =
      rw (pow-add 10 da db) (product-lt (num_digits_above a) (num_digits_above b)) in
    digits_le (da + db) (a * b) (omega (arith, pos-num_digits a)) below

-- A positive number is no less than the power of ten below its digits.
pub num_digits_low : (n : ℕ) → 0 < n → 10 ^ (num_digits n - 1) ≤ n
num_digits_low n positive = elim (Bool-cases (ltb n (10 ^ (num_digits n - 1)))) [
  | inr enough ↦ not-ltb→le n (10 ^ (num_digits n - 1)) enough
  | inl short ↦ elim (Bool-cases (ltb 1 (num_digits n))) [
    | inl several ↦ absurd (
        omega (
          arith,
          ltb→lt 1 (num_digits n) several,
          digits_le (num_digits n - 1) n (omega (arith, ltb→lt 1 (num_digits n) several))
              (ltb→lt n (10 ^ (num_digits n - 1)) short),
        ))
    | inr one ↦ single (num_digits n) (pos-num_digits n) (not-ltb→le 1 (num_digits n) one)
  ]
]
  where
    single : (k : ℕ) → 1 ≤ k → k ≤ 1 → 10 ^ (k - 1) ≤ n
    single zero p q = absurd (omega arith)
    single (suc zero) p q = omega arith
    single (suc (suc k)) p q = absurd (omega arith)

-- The order of two scaled numbers bounds the digits of the smaller.
pub num_digits-shift :
    (x y j k : ℕ) → 0 < x → x * 10 ^ j ≤ y * 10 ^ k → num_digits x + j ≤ num_digits y + k
num_digits-shift x y j k positive le =
    elim (Bool-cases (leb (num_digits x + j) (num_digits y + k))) [
      | inl good ↦ leb→le _ _ good
      | inr bad ↦ absurd (too_far (not-leb→lt _ _ bad))
    ]
  where
    too_far : num_digits y + k < num_digits x + j → ⊥
    too_far more =
        let dx = num_digits x in
        let dy = num_digits y in
        let top : y * 10 ^ k < 10 ^ (dy + k) =
          rw (pow-add 10 dy k) (mul-lt-mul_of_pos_right (num_digits_above y) (ten-pow-pos k)) in
        let mid : 10 ^ (dy + k) ≤ 10 ^ ((dx - 1) + j) =
          pow-le-pow_right (omega arith) (omega (arith, pos-num_digits x)) in
        let low : 10 ^ ((dx - 1) + j) ≤ x * 10 ^ j =
          rw (pow-add 10 (dx - 1) j) (mul-le-mul_right (10 ^ j) (num_digits_low x positive)) in
        omega arith
