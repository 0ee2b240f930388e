-- ===== src/Listeners.antt =====
-- The listeners of a client: src/client.c and src/listener.c, with the map of src/map.c. A queue is the
-- list of the callbacks of its listeners from the head's `next` on; the map has pointers to the heads
-- of the queues, which are numbered. A callback is a number.
pub mod Heard
pub mod Added
mod Tests
use libpomelo.Common.{
  ℕ, ◌+◌, Bool, true, false, Option, none, some, List, [], ◌∷◌, ◌++◌, ◌==◌, if◌then◌else◌,
}
use libpomelo.Common.Outcome.{Outcome, ok, err, fault, stuck, ◌>>=◌, checked}
use libpomelo.HashMap.{Map, map_set, map_get, map_del}
use libpomelo.Client.{State, closed}

-- `client->listeners`, the queues by the numbers of their heads, and the next number.
pub record Listeners : Type 0 where
  pub map : Map ℕ
  pub heads : ℕ → List ℕ
  pub next_head : ℕ

abbrev pub with_head : (ℕ → List ℕ) → ℕ → List ℕ → ℕ → List ℕ
with_head heads h queue i = if h == i then queue else heads i

abbrev pub is_closed : State → Bool
is_closed closed = true
is_closed _ = false

-- The first listener with the callback is taken out: the loop of `pc_remove_listener`.
abbrev pub remove_first : ℕ → List ℕ → List ℕ
remove_first cb [] = []
remove_first cb (x ∷ xs) = if x == cb then xs else x ∷ remove_first cb xs

-- The calls of `pc_add_listener` that may fail: `pc_listener_new` and the allocation of a head.
module _ (malloc : ℕ → Bool) (signed_char : Bool) (fuel : ℕ) where
  -- The result of `pc_map_set` is not read.
  abbrev pub set_head : Listeners → Outcome (Map ℕ) → Outcome Listeners
  set_head ls (ok m) = ok (record ls { map = m })
  set_head ls err = ok ls
  set_head ls fault = fault
  set_head ls stuck = stuck

  abbrev pub add_at : ℕ → List ℕ → ℕ → Listeners → Option ℕ → Outcome Listeners
  add_at head_size event cb ls (some h) =
      ok (record ls { heads = with_head ls.heads h (ls.heads h ++ cb ∷ []) })
  add_at head_size event cb ls none = checked (malloc head_size) (
      set_head
        (record ls {
          heads = with_head ls.heads ls.next_head (cb ∷ []);
          next_head = ls.next_head + 1;
        })
        (map_set malloc signed_char fuel ls.map event ls.next_head >>= (λ (m, old). ok m)))

  -- `pc_add_listener`, with the sizes of a listener and of a head.
  unfoldable pub add_listener : State → List ℕ → ℕ → Listeners → Outcome Listeners
  add_listener state event cb ls =
      if is_closed state
      then err
      else checked (malloc 24) (map_get signed_char ls.map event >>= add_at 16 event cb ls)

module _ (signed_char : Bool) where
  abbrev pub drop_empty : List ℕ → List ℕ → Listeners → Outcome Listeners
  drop_empty event [] ls =
      map_del signed_char ls.map event >>= (λ (m, old). ok (record ls { map = m }))
  drop_empty event (cb ∷ cbs) ls = ok ls

  abbrev pub remove_at : List ℕ → ℕ → Listeners → Option ℕ → Outcome Listeners
  remove_at event cb ls none = ok ls
  remove_at event cb ls (some h) =
      let queue = remove_first cb (ls.heads h) in
      drop_empty event queue (record ls { heads = with_head ls.heads h queue })

  -- `pc_remove_listener`
  unfoldable pub remove_listener : List ℕ → ℕ → Listeners → Outcome Listeners
  remove_listener event cb ls = map_get signed_char ls.map event >>= remove_at event cb ls

  abbrev pub called_at : Listeners → Option ℕ → List ℕ
  called_at ls none = []
  called_at ls (some h) = ls.heads h

  -- `pc_emit_event`: the callbacks that are called, in order.
  unfoldable pub emit_event : List ℕ → Listeners → Outcome (List ℕ)
  emit_event event ls = map_get signed_char ls.map event >>= (λ h. ok (called_at ls h))
