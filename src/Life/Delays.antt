-- ===== src/Life/Delays.antt =====
-- The delays of the clients that `pc_client_new_with_reconnect` of src/client.c makes.
use libpomelo.Common.{
  Option, List, ℕ, ◌+◌, ◌*◌, ◌/◌, ◌^◌, ◌<◌, ◌≤◌, ◌≡◌, refl, ap, ◌∙◌, Bool, true, false, not, ◌||◌,
  some, inl, inr, arith, ltb-true,
}
use native.Mathlib.Nat.{div-le_self}
use libpomelo.Common.Outcome.{ok, ◌>>=◌}
use libpomelo.Reconnect.{Backoff, Floats, linear_incr, log_incr, client_reconnect}
use libpomelo.Reconnect.Growth.{IsBackoff, client_reconnect-ok}
use libpomelo.Client.{Client}
use libpomelo.Client.Drops.{if-else}
use libpomelo.Client.Linked.{IsLinked}
use libpomelo.Listeners.{Listeners}
use libpomelo.Life.{
  Making, is_positive, incr_of, reconnecting_client, with_reconnect, client_new,
  client_new_with_reconnect,
}
use libpomelo.Life.Made.{client_new-IsMade, made-IsLinked}

positive-true : (n : ℕ) → 0 < n → n < 2 ^ 31 → is_positive n ≡ true
positive-true n pos small = rw (ltb-true 0 n pos, ltb-true n (2 ^ 31) small) refl

-- What C says of these operations, as far as the code relies on it: a cast to `int` does not enlarge a
-- positive number; and for the ratio of two `int`s, with a numerator of at most 1073, which rounding leaves
-- apart from whole numbers, adding 1 adds at most 1 to the whole part, and the quotient of two logarithms
-- bounds a power of 2.
pub record IsRounding {D : Type 0} (floats : Floats D) : Type 0 where
  pub cast :
      (x : D) (k : ℕ)
      → 0 < k
      → k ≤ floats.to_int (floats.divide (floats.truncate x) (floats.log (floats.of_int 2)))
      → k ≤ floats.to_int (floats.divide x (floats.log (floats.of_int 2)))
  pub next :
      (m d k : ℕ)
      → 0 < d
      → m ≤ 1073
      → (let ratio = floats.divide (floats.of_int m) (floats.of_int d) in
          let whole = floats.truncate (floats.log ratio) in
          k
          < floats.to_int
              (floats.plus (floats.divide whole (floats.log (floats.of_int 2))) (floats.of_int 1)))
      → (let ratio = floats.divide (floats.of_int m) (floats.of_int d) in
          let whole = floats.truncate (floats.log ratio) in
          k ≤ floats.to_int (floats.divide whole (floats.log (floats.of_int 2))))
  pub power :
      (m d k : ℕ)
      → 0 < d
      → m ≤ 1073
      → 0 < k
      → (let ratio = floats.divide (floats.of_int m) (floats.of_int d) in
          k ≤ floats.to_int (floats.divide (floats.log ratio) (floats.log (floats.of_int 2))))
      → d * 2 ^ k ≤ m

-- No delay that doubles is above the maximum before the number of attempts that the code computes.
log_incr-doubles :
    {D : Type 0} (floats : Floats D) (delay delay_max : ℕ)
    → IsRounding floats
    → 0 < delay
    → delay_max ≤ 1073
    → (k : ℕ) → 0 < k
    → k < log_incr floats delay delay_max
    → delay * 2 ^ k ≤ delay_max
log_incr-doubles floats delay delay_max rounds pos small k counted low =
    rounds.power delay_max delay k pos small counted
      (rounds.cast _ k counted (rounds.next delay_max delay k pos small low))

-- The bound on the attempts is an `int`, and the delays grow as it says.
incr_of-ok :
    {D : Type 0} (floats : Floats D) (b : Backoff) (delay delay_max : ℕ) (exp_backoff : Bool)
    → 0 < delay
    → 0 < delay_max
    → delay_max ≤ 1073
    → IsRounding floats
    → (n : ℕ) × (incr_of floats delay delay_max exp_backoff ≡ ok n)
      × IsBackoff (record b {
        reconnect_delay = delay;
        reconnect_delay_max = delay_max;
        enable_exp_backoff = exp_backoff;
        max_reconnects_incr = n;
      })
incr_of-ok floats b delay delay_max true pos max_pos small rounds = (
  log_incr floats delay delay_max,
  refl,
  record {
    grows = inr (refl, log_incr-doubles floats delay delay_max rounds pos small);
    delay_pos = pos;
    max_pos = max_pos;
    max_small = small;
  },
)
incr_of-ok floats b delay delay_max false pos max_pos small rounds = (
  linear_incr delay delay_max,
  (let few : delay_max / delay + 1 < 2 ^ 31 = omega (arith, div-le_self delay_max delay) in
      rw (ltb-true (delay_max / delay + 1) (2 ^ 31) few) refl),
  record { grows = inl (refl, refl); delay_pos = pos; max_pos = max_pos; max_small = small },
)

-- A client that was made to connect again with positive delays, with the maximum at most 1073 seconds,
-- is linked and reconnects; its delays grow so that none is above the maximum before the number of
-- attempts that the code computes; and each of its attempts, up to the greatest `int`, is defined and
-- starts the timer with at least one second and less than twice the maximum, with exponential backoff
-- or without; if the operations on `double` that this number is computed with round as they should.
pub with_reconnect-delays :
    (malloc : ℕ → Bool) (signed_char : Bool) {D : Type 0} (floats : Floats D) {J : Type 0}
    (files : List ℕ → Option J) (env : Making) (delay delay_max : ℕ) (exp_backoff : Bool)
    (c : Client J) (ls : Listeners)
    → client_new malloc files env ≡ ok (c, ls)
    → 0 < delay
    → delay < 2 ^ 31
    → 0 < delay_max
    → delay_max ≤ 1073
    → IsRounding floats
    → (c₁ : Client J) × (client_new_with_reconnect malloc floats files env delay delay_max
          exp_backoff
        ≡ ok (some (c₁, ls)))
      × IsLinked c₁
      × (c₁.enable_reconnect ≡ true)
      × IsBackoff c₁.backoff
      × ((rand n : ℕ)
          → n + 1 < 2 ^ 31
          → (ms : ℕ) × (client_reconnect rand (record c₁.backoff { reconnects = n })
              ≡ ok (record c₁.backoff { reconnecting = true; reconnects = n + 1 }, ms))
            × (1000 ≤ ms)
            × (ms < 2000 * delay_max))
unfolding client_new_with_reconnect
with_reconnect-delays malloc signed_char floats {J} files env delay delay_max exp_backoff c ls made
      pos fits max_pos small rounds =
    let linked =
      made-IsLinked signed_char (c, ls)
        (client_new-IsMade signed_char malloc files env (c, ls) made) in
    let (n, incr, delays) =
      incr_of-ok floats c.backoff delay delay_max exp_backoff pos max_pos small rounds in
    let good : (not (is_positive delay) || not (is_positive delay_max)) ≡ false =
      rw (positive-true delay pos fits, positive-true delay_max max_pos (omega arith)) refl in
    (
      reconnecting_client malloc floats files delay delay_max exp_backoff n c,
      ap (λ m. m >>= with_reconnect malloc floats files delay delay_max exp_backoff) made
          ∙ if-else _ _ _ good
          ∙ ap
              (λ m. m >>= (λ k. ok (
                some
                  (reconnecting_client malloc floats files delay delay_max exp_backoff k c, ls))))
              incr,
      linked,
      refl,
      record { grows = delays.grows; delay_pos = pos; max_pos = max_pos; max_small = small },
      λ rand k count.
          client_reconnect-ok _ rand
            (record { grows = delays.grows; delay_pos = pos; max_pos = max_pos; max_small = small })
            count,
    )
