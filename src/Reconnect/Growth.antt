-- ===== src/Reconnect/Growth.antt =====
-- The delays of src/client.c, whichever way they grow.
use libpomelo.Common.{
  ℕ, ◌+◌, ◌*◌, ◌%◌, ◌^◌, ◌≤◌, ◌<◌, ◌≡◌, true, false, min, refl, arith, inl, inr, ◌⊎◌,
}
use native.Mathlib.Nat.{one-le-mul}
use libpomelo.Common.Outcome.{ok}
use libpomelo.Reconnect.{Backoff, linear_incr, client_reconnect}
use libpomelo.Reconnect.Delay.{client_reconnect-linear, jitter}
use libpomelo.Reconnect.Exponential.{
  exp_delay, exp_delay-le, exp_delay-pos, client_reconnect-exponential,
}

-- `max_reconnects_incr` is as `pc_client_new_with_reconnect` sets it without exponential backoff; or no
-- delay that doubles is above the maximum before that many attempts, which are counted from 1.
abbrev pub Grows : Backoff → Type 0
Grows b =
    ((b.enable_exp_backoff ≡ false)
      × (b.max_reconnects_incr ≡ linear_incr b.reconnect_delay b.reconnect_delay_max))
    ⊎ ((b.enable_exp_backoff ≡ true)
        × ((k : ℕ)
            → 0 < k
            → k < b.max_reconnects_incr
            → b.reconnect_delay * 2 ^ k ≤ b.reconnect_delay_max))

-- Positive delays of at most 1073 seconds that grow so.
pub record IsBackoff (b : Backoff) : Type 0 where
  pub grows : Grows b
  pub delay_pos : 0 < b.reconnect_delay
  pub max_pos : 0 < b.reconnect_delay_max
  pub max_small : b.reconnect_delay_max ≤ 1073

-- The milliseconds of a delay d in seconds that is positive and at most max.
within :
    (rand d max ms : ℕ)
    → 0 < d
    → d ≤ max
    → ms ≡ (rand % d + d) * 1000
    → (1000 ≤ ms) × (ms < 2000 * max)
within rand d max ms pos most e =
    let early = jitter rand d pos in (omega (arith, e), omega (arith, e, early))

-- The start of an attempt is defined and counts it, and the timer is started with at least a second
-- and less than twice the maximum.
pub client_reconnect-ok :
    (b : Backoff) (rand : ℕ)
    → IsBackoff b
    → b.reconnects + 1 < 2 ^ 31
    → (ms : ℕ) × (client_reconnect rand b
        ≡ ok (record b { reconnecting = true; reconnects = b.reconnects + 1 }, ms))
      × (1000 ≤ ms)
      × (ms < 2000 * b.reconnect_delay_max)
client_reconnect-ok b rand h count = elim h.grows [
  | inl (linear, incr) ↦
      let n : ℕ = b.reconnects + 1 in
      let d : ℕ = min (b.reconnect_delay * n) b.reconnect_delay_max in
      let n_pos : 1 ≤ n = omega arith in
      let pos : 0 < d =
        (let p = h.delay_pos in let q = h.max_pos in omega (arith, one-le-mul p n_pos)) in
      let e = client_reconnect-linear b rand linear h.delay_pos h.max_pos incr h.max_small count in
      let (least, most) = within rand d b.reconnect_delay_max _ pos (omega arith) refl in
      (_, e, least, most)
  | inr (doubles, bound) ↦
      let n : ℕ = b.reconnects + 1 in
      let n_pos : 0 < n = omega arith in
      let d : ℕ = exp_delay b n in
      let e =
        client_reconnect-exponential b rand doubles h.delay_pos h.max_pos bound h.max_small count in
      let (least, most) =
        within rand d b.reconnect_delay_max _ (exp_delay-pos b n h.delay_pos h.max_pos)
          (exp_delay-le b n n_pos bound) refl in
      (_, e, least, most)
]
