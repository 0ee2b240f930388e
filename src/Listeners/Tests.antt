-- ===== src/Listeners/Tests.antt =====
-- Runs of the listeners, and the theorems at concrete inputs.
use libpomelo.Common.{
  false, ℕ, ◌≡◌, ◌∙◌, sym, subst, refl, Bool, true, none, some, List, [], ◌∷◌, ◌++◌, replicate, set,
  if◌then◌else◌, arith,
}
use libpomelo.Common.Bytes.{same_str}
use libpomelo.Common.Outcome.{Outcome, ok}
use libpomelo.HashMap.{map_init, map_set, set_loop, hash, find, map_get}
use libpomelo.HashMap.Whole.{map_init-view}
use libpomelo.Client.{working}
use libpomelo.Listeners.{
  Listeners, with_head, remove_first, add_listener, remove_listener, emit_event,
}
use libpomelo.Listeners.Heard.{IsListeners, TakesFirst, heard, remove_listener-heard}
use libpomelo.Listeners.Added.{HasMemory, add_listener-heard}

abbrev plenty : ℕ → Bool
plenty n = true

-- "hi"
abbrev hi : List ℕ
hi = 104 ∷ 105 ∷ []

abbrev no_listeners : Listeners
no_listeners = record {
  map = record { capacity = 256; buckets = replicate 256 [] };
  heads = λ h. [];
  next_head = 0;
}

no_map_lem : map_init plenty 256 ≡ ok no_listeners.map
unfolding map_init
no_map_lem = refl

no_listeners-IsListeners : IsListeners true no_listeners
no_listeners-IsListeners =
    let (is_map, low, high, empty) = map_init-view plenty true 256 no_listeners.map no_map_lem in
    record {
      is_map = is_map;
      own = λ k j h e e'. let q : none ≡ some h = sym (empty k) ∙ e in cc;
      made = λ k h e. let q : none ≡ some h = sym (empty k) ∙ e in cc;
    }

hi-HasMemory : HasMemory plenty true 5 hi no_listeners
unfolding hash
hi-HasMemory = record {
  listener = refl;
  head = refl;
  pair = refl;
  key = refl;
  enough = omega arith;
}

add_listener-heard_example :
    (ls : Listeners) × (add_listener plenty true 5 working hi 3 no_listeners ≡ ok ls)
    × IsListeners true ls
    × ((j : List ℕ)
        → heard true ls j ≡ (
            if same_str hi j
            then heard true no_listeners j ++ 3 ∷ []
            else heard true no_listeners j))
add_listener-heard_example =
    add_listener-heard plenty true 5 working hi 3 no_listeners refl no_listeners-IsListeners
      hi-HasMemory

abbrev one_listener : Listeners
one_listener = record {
  map = record {
    capacity = 256;
    buckets = set (replicate 256 []) 209 (record { key = hi; value = 0 } ∷ []);
  };
  heads = with_head no_listeners.heads 0 (3 ∷ []);
  next_head = 1;
}

one_run : add_listener plenty true 5 working hi 3 no_listeners ≡ ok one_listener
unfolding add_listener map_get map_set set_loop hash find
one_run = refl

emit_run : emit_event true hi one_listener ≡ ok (3 ∷ [])
unfolding emit_event map_get hash find
emit_run = refl

same_listeners : {a b : Listeners} {r : Outcome Listeners} → r ≡ ok a → r ≡ ok b → a ≡ b
same_listeners e f = cc

one_listener-IsListeners : IsListeners true one_listener
one_listener-IsListeners =
    let (ls, e, v, heard₁) =
      add_listener-heard plenty true 5 working hi 3 no_listeners refl no_listeners-IsListeners
        hi-HasMemory in
    subst (IsListeners true) (same_listeners e one_run) v

remove_listener-heard_example :
    (ls : Listeners) × (remove_listener true hi 3 one_listener ≡ ok ls)
    × IsListeners true ls
    × TakesFirst 3 (heard true one_listener hi) (heard true ls hi)
    × ((j : List ℕ) → same_str hi j ≡ false → heard true ls j ≡ heard true one_listener j)
remove_listener-heard_example =
    remove_listener-heard true hi 3 one_listener one_listener-IsListeners

-- Only the first of two is taken.
remove_first_run : remove_first 3 (5 ∷ 3 ∷ 4 ∷ 3 ∷ []) ≡ 5 ∷ 4 ∷ 3 ∷ []
remove_first_run = refl
