-- ===== src/Listeners/Added.antt =====
-- The adding of a listener, against those of its event that are heard: src/client.c.
use libpomelo.Common.{
  ℕ, ◌+◌, ◌<◌, ◌≡◌, ◌≢◌, refl, sym, ◌∙◌, ap, subst, Bool, true, false, Bool-cases, Option, none,
  some, List, [], ◌∷◌, ◌++◌, inl, inr, ==_true, ==_false, if◌then◌else◌, length, arith,
}
use libpomelo.Common.Bytes.{same_str, same_str→eq}
use libpomelo.Common.Outcome.{Outcome, ok, checked, ◌>>=◌}
use libpomelo.HashMap.{Map, Pair, find}
use libpomelo.HashMap.View.{IsMap, view, queue_of, map_get-view}
use libpomelo.HashMap.Writes.{Settles, absent, map_set-view}
use libpomelo.Client.{State}
use libpomelo.Client.Drops.{if-then, if-else}
use libpomelo.Listeners.Heard.{IsListeners, heard, heard-some, rewritten-IsListeners}
use libpomelo.Listeners.{Listeners, with_head, is_closed, set_head, add_at, add_listener, called_at}

new-Settles : (q : List (Pair ℕ)) (k : List ℕ) → find k q ≡ none → Settles k q none
new-Settles q k e = absent e

given : {A : Type 0} (b : Bool) (m : Outcome A) → b ≡ true → checked b m ≡ m
given b m e = rw e refl

-- What `pc_add_listener` allocates, with the fuel for the loop of `pc_map_set`: any number above the length
-- of the queue in the map by two.
pub record HasMemory (malloc : ℕ → Bool) (signed_char : Bool) (fuel : ℕ) (event : List ℕ)
    (ls : Listeners) : Type 0 where
  pub listener : malloc 24 ≡ true
  pub head : malloc 16 ≡ true
  pub pair : malloc 32 ≡ true
  pub key : malloc (length event + 1) ≡ true
  pub enough : length (queue_of signed_char ls.map event) + 1 < fuel

module _ (malloc : ℕ → Bool) (signed_char : Bool) (fuel : ℕ) where
  abbrev Adds : List ℕ → ℕ → Listeners → Outcome Listeners → Type 0
  Adds event cb ls m =
      (ls₁ : Listeners) × (m ≡ ok ls₁)
      × IsListeners signed_char ls₁
      × ((j : List ℕ)
          → heard signed_char ls₁ j ≡ (
              if same_str event j
              then heard signed_char ls j ++ cb ∷ []
              else heard signed_char ls j))

  untouched :
      (event : List ℕ) (cb : ℕ) (ls : Listeners)
      → IsListeners signed_char ls
      → (j : List ℕ) (o : Option ℕ) → view signed_char ls.map j ≡ o
      → called_at signed_char (record ls { heads = with_head ls.heads ls.next_head (cb ∷ []) }) o
        ≡ called_at signed_char ls o
  untouched event cb ls v j none q = refl
  untouched event cb ls v j (some h) q = if-else _ _ _ (
      ==_false ls.next_head h
        (λ r. let low : h < ls.next_head = v.made j h q in absurd (omega arith)))

  -- The listeners with a queue for one more event.
  more :
      (event : List ℕ) (cb : ℕ) (ls : Listeners) (m : Map ℕ)
      → view signed_char ls.map event ≡ none
      → IsListeners signed_char ls
      → IsMap m
      → ((j : List ℕ)
          → view signed_char m j
            ≡ (if same_str event j then some ls.next_head else view signed_char ls.map j))
      → let ls₁ : Listeners = record {
        map = m;
        heads = with_head ls.heads ls.next_head (cb ∷ []);
        next_head = ls.next_head + 1;
      } in
        IsListeners signed_char ls₁
        × ((j : List ℕ)
            → heard signed_char ls₁ j ≡ (
                if same_str event j
                then heard signed_char ls j ++ cb ∷ []
                else heard signed_char ls j))
  more event cb ls m e v is_map reads =
      let n : ℕ = ls.next_head in
      let ls₁ : Listeners = record {
        map = m;
        heads = with_head ls.heads n (cb ∷ []);
        next_head = n + 1;
      } in
      let new_head : (j : List ℕ) → same_str event j ≡ true → view signed_char m j ≡ some n =
        λ j same. reads j ∙ if-then _ _ _ same in
      let old_head : (j : List ℕ)
          → same_str event j ≡ false
          → view signed_char m j ≡ view signed_char ls.map j =
        λ j other. reads j ∙ if-else _ _ _ other in
      let fresh : (j : List ℕ) → same_str event j ≡ false → view signed_char m j ≢ some n =
        λ j other q.
          let low : n < n = v.made j n (sym (old_head j other) ∙ q) in
          absurd (omega (arith, low)) in
      let below : (j : List ℕ) (h : ℕ)
          → same_str event j ≡ true
          → view signed_char m j ≡ some h
          → n ≡ h =
        λ j h same q. let r : some n ≡ some h = sym (new_head j same) ∙ q in cc r in
      (
        record {
          is_map = is_map;
          own = λ k j h q q'. elim (Bool-cases (same_str event k)) [
            | inl same ↦ elim (Bool-cases (same_str event j)) [
              | inl same' ↦ sym (same_str→eq event k same) ∙ same_str→eq event j same'
              | inr other ↦ absurd (fresh j other (q' ∙ ap some (sym (below k h same q))))
            ]
            | inr other ↦ elim (Bool-cases (same_str event j)) [
              | inl same' ↦ absurd (fresh k other (q ∙ ap some (sym (below j h same' q'))))
              | inr other' ↦ v.own k j h (sym (old_head k other) ∙ q) (sym (old_head j other') ∙ q')
            ]
          ];
          made = λ k h q. elim (Bool-cases (same_str event k)) [
            | inl same ↦ let r : n ≡ h = below k h same q in omega arith
            | inr other ↦ let low : h < n = v.made k h (sym (old_head k other) ∙ q) in omega arith
          ];
        },
        λ j. elim (Bool-cases (same_str event j)) [
          | inl same ↦
              ap (called_at signed_char ls₁) (new_head j same)
              ∙ if-then _ _ _ (==_true n n refl)
              ∙ ap (λ l. l ++ cb ∷ [])
                  (sym (
                    ap (called_at signed_char ls)
                      (subst (λ k. view signed_char ls.map k ≡ none) (same_str→eq event j same) e)))
              ∙ sym (if-then _ _ _ same)
          | inr other ↦
              ap (called_at signed_char ls₁) (old_head j other)
              ∙ untouched event cb ls v j (view signed_char ls.map j) refl
              ∙ sym (if-else _ _ _ other)
        ],
      )

  added_at :
      (event : List ℕ) (cb : ℕ) (ls : Listeners) (p : Option ℕ)
      → view signed_char ls.map event ≡ p
      → IsListeners signed_char ls
      → HasMemory malloc signed_char fuel event ls
      → Adds event cb ls (add_at malloc signed_char fuel 16 event cb ls p)
  unfolding view
  added_at event cb ls (some h) e v mem = (
    _,
    refl,
    rewritten-IsListeners signed_char ls (with_head ls.heads h (ls.heads h ++ cb ∷ [])) v,
    heard-some signed_char ls event h (λ l. l ++ cb ∷ []) v e,
  )
  added_at event cb ls none e v mem =
      let (m, set_ok, is_map, reads) =
        map_set-view malloc signed_char v.is_map event ls.next_head fuel
          (new-Settles (queue_of signed_char ls.map event) event e) mem.enough mem.pair mem.key in
      let ls₀ : Listeners = record ls {
        heads = with_head ls.heads ls.next_head (cb ∷ []);
        next_head = ls.next_head + 1;
      } in
      let (v₁, heard₁) = more event cb ls m e v is_map reads in
      (
        record ls₀ { map = m },
        given _ _ mem.head
            ∙ ap (λ o. set_head malloc signed_char fuel ls₀ (o >>= (λ (m', old). ok m'))) set_ok,
        v₁,
        heard₁,
      )

  -- `pc_add_listener` puts the callback behind those of its event, and leaves those of every other
  -- event, if the client is not closed and memory is given. The queues stay apart.
  pub add_listener-heard :
      (state : State) (event : List ℕ) (cb : ℕ) (ls : Listeners)
      → is_closed state ≡ false
      → IsListeners signed_char ls
      → HasMemory malloc signed_char fuel event ls
      → (ls₁ : Listeners) × (add_listener malloc signed_char fuel state event cb ls ≡ ok ls₁)
        × IsListeners signed_char ls₁
        × ((j : List ℕ)
            → heard signed_char ls₁ j ≡ (
                if same_str event j
                then heard signed_char ls j ++ cb ∷ []
                else heard signed_char ls j))
  unfolding add_listener
  add_listener-heard state event cb ls is_open v mem =
      let (ls₁, e, v₁, heard₁) = added_at event cb ls (view signed_char ls.map event) refl v mem in
      (
        ls₁,
        if-else _ _ _ is_open
            ∙ given _ _ mem.listener
            ∙ ap (λ o. o >>= add_at malloc signed_char fuel 16 event cb ls)
                (map_get-view signed_char v.is_map event)
            ∙ e,
        v₁,
        heard₁,
      )
