-- ===== src/Reconnect/Delay.antt =====
-- The delays of src/client.c without exponential backoff.
use libpomelo.Common.{
  ℕ, ◌+◌, ◌*◌, ◌/◌, ◌%◌, ◌^◌, ◌≤◌, ◌<◌, ◌≡◌, ◌∙◌, true, false, min, arith, lt_or_le, inl, inr,
  ltb-true, leb-true, leb-false, ==_false,
}
use native.Mathlib.Nat.{div-add-mod, mod-lt, mul-le-mul_left, one-le-mul}
use libpomelo.Common.Outcome.{ok}
use libpomelo.Reconnect.{Backoff, linear_incr, raw_delay, capped, client_reconnect}

below_incr : (n d m : ℕ) → n < m / d + 1 → d * n ≤ m
below_incr n d m h =
    let le : n ≤ m / d = omega arith in omega (arith, div-add-mod m d, mul-le-mul_left d le)

from_incr : (n d m : ℕ) → 0 < d → m / d + 1 ≤ n → m ≤ d * n
from_incr n d m pos h = omega (arith, div-add-mod m d, mod-lt m pos, mul-le-mul_left d h)

pub capped-min : (b : Backoff) (raw : ℕ) → capped b raw ≡ min raw b.reconnect_delay_max
capped-min b raw = ground arith

-- The delay with its maximum is the one that grows with the attempts, up to the maximum.
raw_linear :
    (b : Backoff) (n : ℕ)
    → b.enable_exp_backoff ≡ false
    → 0 < b.reconnect_delay
    → b.max_reconnects_incr ≡ linear_incr b.reconnect_delay b.reconnect_delay_max
    → b.reconnect_delay_max < 2 ^ 31
    → (raw : ℕ) × (raw_delay b n ≡ ok raw)
      × (capped b raw ≡ min (b.reconnect_delay * n) b.reconnect_delay_max)
raw_linear b n linear pos incr small = elim (lt_or_le n b.max_reconnects_incr) [
  | inl early ↦
      let fits = below_incr n b.reconnect_delay b.reconnect_delay_max (omega arith) in
      (
        b.reconnect_delay * n,
        rw (
          leb-false b.max_reconnects_incr n early,
          linear,
          ltb-true (b.reconnect_delay * n) (2 ^ 31) (omega arith),
        ),
        capped-min b (b.reconnect_delay * n),
      )
  | inr late ↦
      let reached = from_incr n b.reconnect_delay b.reconnect_delay_max pos (omega arith) in
      (
        b.reconnect_delay_max,
        rw (leb-true b.max_reconnects_incr n late),
        capped-min b b.reconnect_delay_max ∙ omega arith,
      )
]

pub jitter : (rand d : ℕ) → 0 < d → rand % d + d < 2 * d
jitter rand d pos = omega (arith, mod-lt rand pos)

-- Without exponential backoff, the delay before the n-th attempt is d = min (delay * n) maximum plus
-- the rest of rand by d, whichever of the two bounds ends its growth, and no `int` overflows: if the
-- delay is positive, the maximum is positive and at most 1073 seconds, and the number of
-- attempts is an `int`.
pub client_reconnect-linear :
    (b : Backoff) (rand : ℕ)
    → b.enable_exp_backoff ≡ false
    → 0 < b.reconnect_delay
    → 0 < b.reconnect_delay_max
    → b.max_reconnects_incr ≡ linear_incr b.reconnect_delay b.reconnect_delay_max
    → b.reconnect_delay_max ≤ 1073
    → b.reconnects + 1 < 2 ^ 31
    → client_reconnect rand b ≡ (
        let d = min (b.reconnect_delay * (b.reconnects + 1)) b.reconnect_delay_max in
        ok (record b { reconnecting = true; reconnects = b.reconnects + 1 }, (rand % d + d) * 1000))
unfolding client_reconnect
client_reconnect-linear b rand linear pos max_pos incr small count =
    let n : ℕ = b.reconnects + 1 in
    let d : ℕ = min (b.reconnect_delay * n) b.reconnect_delay_max in
    let (raw, raws, cap) = raw_linear b n linear pos incr (omega arith) in
    let n_pos : 1 ≤ n = omega arith in
    let d_pos : 0 < d = omega (arith, one-le-mul pos n_pos) in
    rw (
      ltb-true n (2 ^ 31) count,
      raws,
      cap,
      ==_false d 0 (λ e. absurd (omega arith)),
      ltb-true (rand % d + d) (2 ^ 31) (omega (arith, jitter rand d d_pos)),
      ltb-true ((rand % d + d) * 1000) (2 ^ 31) (omega (arith, jitter rand d d_pos)),
    )
