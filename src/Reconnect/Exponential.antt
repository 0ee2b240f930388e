-- ===== src/Reconnect/Exponential.antt =====
-- The delays of src/client.c with exponential backoff.
use libpomelo.Common.{
  ℕ, ◌+◌, ◌*◌, ◌%◌, ◌^◌, ◌≤◌, ◌<◌, ◌≡◌, true, arith, lt_or_le, inl, inr, ltb-true, leb-true,
  leb-false, ltb-false, ==_false, refl, if◌then◌else◌, ltb,
}
use native.Mathlib.Nat.{pow-le-pow_right, mul-le-mul_left, one-le-pow, one-le-mul}
use libpomelo.Common.Outcome.{ok}
use libpomelo.Reconnect.{Backoff, raw_delay, capped, client_reconnect}
use libpomelo.Reconnect.Delay.{jitter}

-- The delay before the n-th attempt, without the part that is left to chance.
abbrev pub exp_delay : Backoff → ℕ → ℕ
exp_delay b n =
    if ltb n b.max_reconnects_incr then b.reconnect_delay * 2 ^ n else b.reconnect_delay_max

-- A shift by so much is defined.
few : (d max n : ℕ) → 0 < d → max ≤ 1073 → d * 2 ^ n ≤ max → n < 32
few d max n pos small fits = elim (lt_or_le n 32) [
  | inl early ↦ early
  | inr late ↦
      let big : 2 ^ 32 ≤ 2 ^ n = pow-le-pow_right (omega arith) late in
      absurd (omega (arith, mul-le-mul_left d big, big))
]

-- The delay with its maximum is the one that doubles with the attempts, up to the maximum.
raw_exponential :
    (b : Backoff) (n : ℕ)
    → 0 < n
    → b.enable_exp_backoff ≡ true
    → 0 < b.reconnect_delay
    → ((k : ℕ)
        → 0 < k
        → k < b.max_reconnects_incr
        → b.reconnect_delay * 2 ^ k ≤ b.reconnect_delay_max)
    → b.reconnect_delay_max ≤ 1073
    → (raw_delay b n ≡ ok (exp_delay b n))
      × (capped b (exp_delay b n) ≡ exp_delay b n)
      × (exp_delay b n ≤ b.reconnect_delay_max)
raw_exponential b n counted doubles pos bound small = elim (lt_or_le n b.max_reconnects_incr) [
  | inl early ↦
      let fits = bound n counted early in
      let short = few b.reconnect_delay b.reconnect_delay_max n pos small fits in
      rw
        (
          leb-false b.max_reconnects_incr n early,
          ltb-true n b.max_reconnects_incr early,
          doubles,
          ltb-true n 32 short,
          ltb-true (b.reconnect_delay * 2 ^ n) (2 ^ 31) (omega arith),
          ltb-false b.reconnect_delay_max (b.reconnect_delay * 2 ^ n) fits,
        )
        (refl, refl, fits)
  | inr late ↦
      rw
        (
          leb-true b.max_reconnects_incr n late,
          ltb-false n b.max_reconnects_incr late,
          ltb-false b.reconnect_delay_max b.reconnect_delay_max (omega arith),
        )
        (refl, refl, omega arith)
]

pub exp_delay-le :
    (b : Backoff) (n : ℕ)
    → 0 < n
    → ((k : ℕ)
        → 0 < k
        → k < b.max_reconnects_incr
        → b.reconnect_delay * 2 ^ k ≤ b.reconnect_delay_max)
    → exp_delay b n ≤ b.reconnect_delay_max
exp_delay-le b n counted bound = elim (lt_or_le n b.max_reconnects_incr) [
  | inl early ↦ rw (ltb-true n b.max_reconnects_incr early) (bound n counted early)
  | inr late ↦ rw (ltb-false n b.max_reconnects_incr late) (omega arith)
]

pub exp_delay-pos :
    (b : Backoff) (n : ℕ) → 0 < b.reconnect_delay → 0 < b.reconnect_delay_max → 0 < exp_delay b n
exp_delay-pos b n pos max_pos = elim (lt_or_le n b.max_reconnects_incr) [
  | inl early ↦
      rw (ltb-true n b.max_reconnects_incr early) (one-le-mul pos (one-le-pow n 2 (omega arith)))
  | inr late ↦ rw (ltb-false n b.max_reconnects_incr late) max_pos
]

-- With exponential backoff, the delay before the n-th attempt is d = delay * 2 ^ n for an n below
-- `max_reconnects_incr` and the maximum from there on, plus the rest of rand by d, and neither the
-- shift nor an `int` overflows: if the delay is positive, the maximum is positive and at most 1073
-- seconds, no delay below `max_reconnects_incr` is above the maximum, and the number of attempts is
-- an `int`.
pub client_reconnect-exponential :
    (b : Backoff) (rand : ℕ)
    → b.enable_exp_backoff ≡ true
    → 0 < b.reconnect_delay
    → 0 < b.reconnect_delay_max
    → ((k : ℕ)
        → 0 < k
        → k < b.max_reconnects_incr
        → b.reconnect_delay * 2 ^ k ≤ b.reconnect_delay_max)
    → b.reconnect_delay_max ≤ 1073
    → b.reconnects + 1 < 2 ^ 31
    → client_reconnect rand b ≡ (
        let d = exp_delay b (b.reconnects + 1) in
        ok (record b { reconnecting = true; reconnects = b.reconnects + 1 }, (rand % d + d) * 1000))
unfolding client_reconnect
client_reconnect-exponential b rand doubles pos max_pos bound small count =
    let n : ℕ = b.reconnects + 1 in
    let d : ℕ = exp_delay b n in
    let (raws, cap, most) = raw_exponential b n (omega arith) doubles pos bound small in
    let d_pos : 0 < d = exp_delay-pos b n pos max_pos in
    rw (
      ltb-true n (2 ^ 31) count,
      raws,
      cap,
      ==_false d 0 (λ e. absurd (omega arith)),
      ltb-true (rand % d + d) (2 ^ 31) (omega (arith, jitter rand d d_pos)),
      ltb-true ((rand % d + d) * 1000) (2 ^ 31) (omega (arith, jitter rand d d_pos)),
    )
