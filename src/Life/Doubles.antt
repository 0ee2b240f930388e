-- ===== src/Life/Doubles.antt =====
-- Operations on `double` for the runs of src/client.c: whole numbers, with the logarithm to the base 2.
use native.Mathlib.Nat.{mul-div-le, mul-le-mul_left, pow-succ', div-one}
use libpomelo.Common.{
  ℕ, zero, suc, ◌+◌, ◌*◌, ◌/◌, ◌^◌, ◌<◌, ◌≤◌, ◌≡◌, refl, ap, ◌∙◌, arith, if◌then◌else◌, ltb,
}
use libpomelo.Reconnect.{Floats, log_incr}
use libpomelo.Life.Delays.{IsRounding}

-- The number of halvings down to 1. The fuel is any number that is not below the argument.
unfoldable pub log_2 : ℕ → ℕ → ℕ
log_2 zero x = 0
log_2 (suc fuel) x = let rest = log_2 fuel (x / 2) in if ltb x 2 then 0 else suc rest

abbrev pub whole_floats : Floats ℕ
whole_floats = record {
  of_int = λ n. n;
  plus = λ x y. x + y;
  divide = λ x y. x / y;
  log = λ x. log_2 x x;
  truncate = λ x. x;
  to_int = λ x. x;
}

log_incr_run : log_incr whole_floats 2 30 ≡ 4
unfolding log_2
log_incr_run = refl

log_step : (fuel x k : ℕ) → suc k ≤ log_2 (suc fuel) x → (2 ≤ x) × (k ≤ log_2 fuel (x / 2))
unfolding log_2
log_step fuel x k = ground arith

half_least : (x : ℕ) → 2 ≤ x → 0 < x / 2
half_least x h = omega arith

power-log_2 : (fuel x k : ℕ) → 0 < x → k ≤ log_2 fuel x → 2 ^ k ≤ x
unfolding log_2
power-log_2 fuel x zero pos h = pos
power-log_2 zero x (suc k) pos h = absurd (omega arith)
power-log_2 (suc fuel) x (suc k) pos h =
    let (big, rest) = log_step fuel x k h in
    let below : 2 ^ k ≤ x / 2 = power-log_2 fuel (x / 2) k (half_least x big) rest in
    let twice : 2 * 2 ^ k ≤ 2 * (x / 2) = mul-le-mul_left 2 below in
    rw (pow-succ' 2 k) (omega (arith, twice, mul-div-le x 2))

-- The power that the logarithm of a whole number bounds.
power-log : (x k : ℕ) → 0 < k → k ≤ log_2 x x → 2 ^ k ≤ x
unfolding log_2
power-log zero k pos h = absurd (omega arith)
power-log (suc x) k pos h = power-log_2 (suc x) (suc x) k (omega arith) h

log_2_lem : log_2 2 2 ≡ 1
unfolding log_2
log_2_lem = refl

whole_log : (k x n : ℕ) → n ≡ 1 → k ≤ x / n → k ≤ x
whole_log k x n one h = let e : x / n ≡ x = ap (λ z. x / z) one ∙ div-one x in omega (arith, e)

pub whole_floats-IsRounding : IsRounding whole_floats
whole_floats-IsRounding = record {
  next = λ m d k d_pos small h. omega arith;
  cast = λ x k pos h. h;
  power = λ m d k d_pos small pos h.
      let least : k ≤ log_2 (m / d) (m / d) =
        whole_log k (log_2 (m / d) (m / d)) (log_2 2 2) log_2_lem h in
      let bound : d * 2 ^ k ≤ d * (m / d) = mul-le-mul_left d (power-log (m / d) k pos least) in
      omega (arith, bound, mul-div-le m d);
}
