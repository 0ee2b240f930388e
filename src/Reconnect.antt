-- ===== src/Reconnect.antt =====
-- src/client.c: when the client tries to connect again. A number of the C type `int` is one below
-- 2 ^ 31; a sum, product or shift that leaves that range is undefined. `rand` is the result of
-- `rand()`, which is not negative.
pub mod Delay
pub mod Exponential
pub mod Growth
mod Tests
use libpomelo.Common.{ℕ, ◌+◌, ◌*◌, ◌/◌, ◌%◌, ◌^◌, Bool, true, ltb, leb, ◌==◌, not, if◌then◌else◌}
use libpomelo.Common.Outcome.{Outcome, ok, ◌>>=◌, defined}

-- The fields of `pc_client_s` for the delays, which are in seconds.
pub record Backoff : Type 0 where
  pub reconnecting : Bool
  pub reconnects : ℕ
  pub reconnect_delay : ℕ
  pub reconnect_delay_max : ℕ
  pub enable_exp_backoff : Bool
  pub max_reconnects_incr : ℕ

-- `max_reconnects_incr` of `pc_client_new_with_reconnect` without exponential backoff.
abbrev pub linear_incr : ℕ → ℕ → ℕ
linear_incr delay delay_max = delay_max / delay + 1

-- The C type `double` and what the code uses of it: a number from an `int`, the operations, the `log` of
-- the mathematics library, and the cast to `int`, once as the `double` that it becomes again (`truncate`)
-- and once as a number, 0 for a negative one (`to_int`).
pub record Floats (D : Type 0) : Type 0 where
  pub of_int : ℕ → D
  pub plus : D → D → D
  pub divide : D → D → D
  pub log : D → D
  pub truncate : D → D
  pub to_int : D → ℕ

-- `max_reconnects_incr` with exponential backoff: `(int)log(1.0 * max / delay) / log(2.0) + 1`. The cast
-- binds before the division. Every comparison in the code takes a negative one like 0.
abbrev pub log_incr : {D : Type 0} → Floats D → ℕ → ℕ → ℕ
log_incr floats delay delay_max =
    let ratio = floats.divide (floats.of_int delay_max) (floats.of_int delay) in
    floats.to_int (
      floats.plus
        (floats.divide (floats.truncate (floats.log ratio)) (floats.log (floats.of_int 2)))
        (floats.of_int 1))

-- An `int`.
abbrev pub int_of : ℕ → Outcome ℕ
int_of n = defined (ltb n (2 ^ 31)) (ok n)

-- The delay before the test of the maximum.
abbrev pub raw_delay : Backoff → ℕ → Outcome ℕ
raw_delay b reconnects =
    if leb b.max_reconnects_incr reconnects
    then ok b.reconnect_delay_max
    else if b.enable_exp_backoff
    then defined (ltb reconnects 32) (int_of (b.reconnect_delay * 2 ^ reconnects))
    else int_of (b.reconnect_delay * reconnects)

abbrev pub capped : Backoff → ℕ → ℕ
capped b delay = if ltb b.reconnect_delay_max delay then b.reconnect_delay_max else delay

-- `pc__client_reconnect`, behind the reset: the state, and the milliseconds that the timer is
-- started with.
unfoldable pub client_reconnect : ℕ → Backoff → Outcome (Backoff × ℕ)
client_reconnect rand b = int_of (b.reconnects + 1) >>= (λ reconnects.
    raw_delay b reconnects >>= (λ raw.
      let delay = capped b raw in
      defined (not (delay == 0)) (
        int_of (rand % delay + delay) >>= (λ delay'.
          int_of (delay' * 1000)
          >>= (λ ms. ok (record b { reconnecting = true; reconnects = reconnects }, ms))))))
