-- ===== src/Reconnect/Tests.antt =====
-- Runs of the delays of src/client.c, and the theorem at a concrete input.
use native.Mathlib.Nat.{pow-le-pow_right}
use libpomelo.Common.{ℕ, ◌^◌, ◌<◌, ◌≤◌, ◌+◌, ◌*◌, ◌%◌, ◌≡◌, refl, true, false, min, arith}
use libpomelo.Common.Outcome.{ok, fault}
use libpomelo.Reconnect.{Backoff, client_reconnect}
use libpomelo.Reconnect.Delay.{client_reconnect-linear}
use libpomelo.Reconnect.Exponential.{exp_delay, client_reconnect-exponential}

-- Two seconds more for each attempt, up to 30.
abbrev patient : Backoff
patient = record {
  reconnecting = false;
  reconnects = 3;
  reconnect_delay = 2;
  reconnect_delay_max = 30;
  enable_exp_backoff = false;
  max_reconnects_incr = 16;
}

patient_run :
    client_reconnect 13 patient ≡ ok (record patient { reconnecting = true; reconnects = 4 }, 13000)
unfolding client_reconnect
patient_run = refl

-- A maximum of 2147484 seconds overflows where the seconds become milliseconds.
weeks_run :
    client_reconnect 0 (record patient { reconnects = 99; reconnect_delay_max = 2147484 }) ≡ fault
unfolding client_reconnect
weeks_run = refl

client_reconnect-linear_run : client_reconnect 13 patient ≡ (
    let d = min (2 * (3 + 1)) 30 in
    ok (record patient { reconnecting = true; reconnects = 3 + 1 }, (13 % d + d) * 1000))
client_reconnect-linear_run =
    client_reconnect-linear patient 13 refl (omega arith) (omega arith) refl (omega arith)
      (omega arith)

-- A delay that doubles from 2 seconds up to 30.
abbrev doubling : Backoff
doubling = record patient { reconnects = 2; enable_exp_backoff = true; max_reconnects_incr = 3 }

doubling_run :
    client_reconnect 13 (record doubling { reconnects = 1 })
    ≡ ok (record doubling { reconnecting = true; reconnects = 2 }, 13000)
unfolding client_reconnect
doubling_run = refl

doubling_fits : (k : ℕ) → 0 < k → k < 3 → 2 * 2 ^ k ≤ 30
doubling_fits k counted low =
    let most : k ≤ 2 = omega arith in
    let small : 2 ^ k ≤ 2 ^ 2 = pow-le-pow_right (omega arith) most in omega arith

client_reconnect-exponential_run : client_reconnect 13 doubling ≡ (
    let d = exp_delay doubling (2 + 1) in
    ok (record doubling { reconnecting = true; reconnects = 2 + 1 }, (13 % d + d) * 1000))
client_reconnect-exponential_run =
    client_reconnect-exponential doubling 13 refl (omega arith) (omega arith) doubling_fits
      (omega arith) (omega arith)
