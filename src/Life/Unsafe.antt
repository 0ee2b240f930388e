-- ===== src/Life/Unsafe.antt =====
-- What goes wrong in `pc_client_destroy` of src/client.c.
use libpomelo.Common.{ℕ, ◌≡◌, ap, false}
use libpomelo.Common.Outcome.{Outcome, ok}
use libpomelo.Client.{armed, Client, is_disconnecting}
use libpomelo.Client.Drops.{if-then}
use libpomelo.Client.Linked.{is_apart}
use libpomelo.Client.Retries.{IsWaiting, IsReady, stop-Waits}
use libpomelo.Client.Stop.{client_stop}
use libpomelo.Listeners.{Listeners}
use libpomelo.Life.{client_clear, client_destroy}

module _ {J : Type 0} where
  -- A client that waits for its timer is cleared at once, whatever its worker thread would do.
  destroy-IsWaiting :
      (worker : Client J → Outcome (Client J)) (c : Client J) (ls : Listeners)
      → IsWaiting c
      → (client_destroy worker (c, ls) ≡ ok (client_clear (c, ls)))
        × ((client_clear (c, ls)).0.reconnect_timer ≡ armed)
  unfolding client_destroy client_clear
  destroy-IsWaiting worker c ls h = (if-then _ _ _ (ap is_apart h.new), h.timer_armed)

  -- A client that lost its connection and waits to connect again has the state of one that was never
  -- started: if it can be destroyed then, it is cleared without a disconnect and without waiting for
  -- its worker thread, whatever that would do, while the timer of its next attempt is running.
  pub destroy-running :
      (rand : ℕ → ℕ) (worker : Client J → Outcome (Client J)) (n : ℕ) (c : Client J)
      (ls : Listeners)
      → IsReady n c
      → is_disconnecting c.state ≡ false
      → c.backoff.reconnecting ≡ false
      → (c₁ : Client J) × (client_stop rand c ≡ ok c₁)
        × (client_destroy worker (c₁, ls) ≡ ok (client_clear (c₁, ls)))
        × ((client_clear (c₁, ls)).0.reconnect_timer ≡ armed)
  destroy-running rand worker n c ls h alive idle_now =
      let (c₁, stopped, (waits, room, counted)) = stop-Waits rand n c h alive idle_now in
      let (cleared, runs) = destroy-IsWaiting worker c₁ ls waits in (c₁, stopped, cleared, runs)
