-- ===== src/Listeners/Heard.antt =====
-- What the listeners of src/client.c mean: for each event, the callbacks in the order of their adding.
use libpomelo.Common.{
  ◌≢◌, ◌⊎◌, ◌++◌, All, eq_or_ne, ℕ, ◌<◌, ◌≡◌, refl, sym, ◌∙◌, ap, subst, Bool, true, false,
  Bool-cases, Option, none, some, List, [], ◌∷◌, inl, inr, ==_true, ==_false, if◌then◌else◌,
}
use libpomelo.Common.Bytes.{same_str, same_str_refl, same_str→eq}
use libpomelo.Common.Outcome.{Outcome, ok, ◌>>=◌}
use libpomelo.HashMap.{Map}
use libpomelo.HashMap.View.{IsMap, view, map_get-view}
use libpomelo.HashMap.Writes.{map_del-view}
use libpomelo.Client.Drops.{if-then, if-else}
use libpomelo.Listeners.{
  Listeners, with_head, remove_first, drop_empty, remove_at, remove_listener, called_at, emit_event,
}

-- No listener has the callback.
abbrev pub Lacks : ℕ → List ℕ → Type 0
Lacks cb = All (λ x. x ≢ cb)

-- The first listener with the callback is missing, and no other; or there was none.
abbrev pub TakesFirst : ℕ → List ℕ → List ℕ → Type 0
TakesFirst cb old left =
    (Lacks cb old × (left ≡ old))
    ⊎ ((before : List ℕ) × (after : List ℕ) × (old ≡ before ++ (cb ∷ after))
        × Lacks cb before
        × (left ≡ before ++ after))

remove_first-TakesFirst : (cb : ℕ) (xs : List ℕ) → TakesFirst cb xs (remove_first cb xs)
remove_first-TakesFirst cb [] = inl (tt, refl)
remove_first-TakesFirst cb (x ∷ xs) = elim (eq_or_ne x cb) [
  | inl same ↦ rw (==_true x cb same) (inr ([], xs, ap (λ z. z ∷ xs) same, tt, refl))
  | inr ne ↦ rw (==_false x cb ne) (elim (remove_first-TakesFirst cb xs) [
    | inl (lacks, kept) ↦ inl ((ne, lacks), ap (λ z. x ∷ z) kept)
    | inr (before, after, split, lacks, left) ↦
        inr (x ∷ before, after, ap (λ z. x ∷ z) split, (ne, lacks), ap (λ z. x ∷ z) left)
  ])
]

module _ (signed_char : Bool) where
  -- Each event has a queue of its own, which was made before.
  pub record IsListeners (ls : Listeners) : Type 0 where
    pub is_map : IsMap ls.map
    pub own :
        (k j : List ℕ) (h : ℕ)
        → view signed_char ls.map k ≡ some h
        → view signed_char ls.map j ≡ some h
        → k ≡ j
    pub made : (k : List ℕ) (h : ℕ) → view signed_char ls.map k ≡ some h → h < ls.next_head

  -- The callbacks of an event.
  abbrev pub heard : Listeners → List ℕ → List ℕ
  heard ls event = called_at signed_char ls (view signed_char ls.map event)

  -- `pc_emit_event` calls the callbacks of the event.
  pub emit_event-heard :
      (event : List ℕ) (ls : Listeners)
      → IsListeners ls
      → emit_event signed_char event ls ≡ ok (heard ls event)
  unfolding emit_event
  emit_event-heard event ls h =
      ap (λ o. o >>= (λ p. ok (called_at signed_char ls p)))
        (map_get-view signed_char h.is_map event)

  -- Another queue for the head of one event.
  rewritten :
      (ls : Listeners) (event : List ℕ) (h : ℕ) (queue : List ℕ)
      → IsListeners ls
      → view signed_char ls.map event ≡ some h
      → (j : List ℕ)
      → heard (record ls { heads = with_head ls.heads h queue }) j
        ≡ (if same_str event j then queue else heard ls j)
  rewritten ls event h queue v e j = elim (Bool-cases (same_str event j)) [
    | inl same ↦
        let eq : event ≡ j = same_str→eq event j same in
        let found : view signed_char ls.map j ≡ some h =
          subst (λ k. view signed_char ls.map k ≡ some h) eq e in
        ap (called_at signed_char (record ls { heads = with_head ls.heads h queue })) found
        ∙ if-then _ _ _ (==_true h h refl)
        ∙ sym (if-then _ _ _ same)
    | inr other ↦ left_alone (view signed_char ls.map j) refl other ∙ sym (if-else _ _ _ other)
  ]
    where
      left_alone :
          (o : Option ℕ)
          → view signed_char ls.map j ≡ o
          → same_str event j ≡ false
          → called_at signed_char (record ls { heads = with_head ls.heads h queue }) o
            ≡ called_at signed_char ls o
      left_alone none f other = refl
      left_alone (some i) f other = if-else _ _ _ (
          ==_false h i (λ q.
            let eq : event ≡ j =
              v.own event j h e (subst (λ z. view signed_char ls.map j ≡ some z) (sym q) f) in
            let t : same_str event j ≡ true =
              subst (λ k. same_str event k ≡ true) eq (same_str_refl event) in
            cc))

  pub rewritten-IsListeners :
      (ls : Listeners) (heads : ℕ → List ℕ)
      → IsListeners ls
      → IsListeners (record ls { heads = heads })
  rewritten-IsListeners ls heads v = record { is_map = v.is_map; own = v.own; made = v.made }

  -- What the queue of an event becomes where it is there.
  pub heard-some :
      (ls : Listeners) (event : List ℕ) (h : ℕ) (f : List ℕ → List ℕ)
      → IsListeners ls
      → view signed_char ls.map event ≡ some h
      → (j : List ℕ)
      → heard (record ls { heads = with_head ls.heads h (f (ls.heads h)) }) j
        ≡ (if same_str event j then f (heard ls j) else heard ls j)
  heard-some ls event h f v e j = elim (Bool-cases (same_str event j)) [
    | inl same ↦
        let found : heard ls j ≡ ls.heads h =
          ap (called_at signed_char ls)
            (subst (λ k. view signed_char ls.map k ≡ some h) (same_str→eq event j same) e) in
        rewritten ls event h (f (ls.heads h)) v e j
        ∙ if-then _ _ _ same
        ∙ ap f (sym found)
        ∙ sym (if-then _ _ _ same)
    | inr other ↦
        rewritten ls event h (f (ls.heads h)) v e j
        ∙ if-else _ _ _ other
        ∙ sym (if-else _ _ _ other)
  ]

  heard-none :
      (ls : Listeners) (event : List ℕ) (f : List ℕ → List ℕ)
      → f [] ≡ []
      → view signed_char ls.map event ≡ none
      → (j : List ℕ) → heard ls j ≡ (if same_str event j then f (heard ls j) else heard ls j)
  heard-none ls event f empty e j = elim (Bool-cases (same_str event j)) [
    | inl same ↦
        let found : heard ls j ≡ [] =
          ap (called_at signed_char ls)
            (subst (λ k. view signed_char ls.map k ≡ none) (same_str→eq event j same) e) in
        found ∙ sym empty ∙ ap f (sym found) ∙ sym (if-then _ _ _ same)
    | inr other ↦ sym (if-else _ _ _ other)
  ]

  -- A map from which the event was taken out.
  dropped :
      (ls : Listeners) (m : Map ℕ) (event : List ℕ)
      → IsListeners ls
      → heard ls event ≡ []
      → IsMap m
      → ((j : List ℕ)
          → view signed_char m j ≡ (if same_str event j then none else view signed_char ls.map j))
      → IsListeners (record ls { map = m })
        × ((j : List ℕ) → heard (record ls { map = m }) j ≡ heard ls j)
  dropped ls m event v empty is_map reads =
      let kept : (j : List ℕ) (h : ℕ)
          → view signed_char m j ≡ some h
          → view signed_char ls.map j ≡ some h =
        λ j h e. elim (Bool-cases (same_str event j)) [
          | inl same ↦ let gone : none ≡ some h = sym (reads j ∙ if-then _ _ _ same) ∙ e in cc
          | inr other ↦ sym (reads j ∙ if-else _ _ _ other) ∙ e
        ] in
      (
        record {
          is_map = is_map;
          own = λ k j h e e'. v.own k j h (kept k h e) (kept j h e');
          made = λ k h e. v.made k h (kept k h e);
        },
        λ j. elim (Bool-cases (same_str event j)) [
          | inl same ↦
              ap (called_at signed_char ls) (reads j ∙ if-then _ _ _ same)
              ∙ sym empty
              ∙ ap (heard ls) (same_str→eq event j same)
          | inr other ↦ ap (called_at signed_char ls) (reads j ∙ if-else _ _ _ other)
        ],
      )

  abbrev Removes : List ℕ → ℕ → Listeners → Outcome Listeners → Type 0
  Removes event cb ls m =
      (ls₁ : Listeners) × (m ≡ ok ls₁)
      × IsListeners ls₁
      × ((j : List ℕ)
          → heard ls₁ j ≡ (if same_str event j then remove_first cb (heard ls j) else heard ls j))

  removed_at :
      (event : List ℕ) (cb : ℕ) (ls : Listeners) (p : Option ℕ)
      → view signed_char ls.map event ≡ p
      → IsListeners ls
      → Removes event cb ls (remove_at signed_char event cb ls p)
  removed_at event cb ls none e v = (ls, refl, v, heard-none ls event (remove_first cb) refl e)
  removed_at event cb ls (some h) e v = rest (remove_first cb (ls.heads h)) refl
    where
      rest :
          (queue : List ℕ)
          → remove_first cb (ls.heads h) ≡ queue
          → Removes event cb ls (
              drop_empty signed_char event queue
                (record ls { heads = with_head ls.heads h (remove_first cb (ls.heads h)) }))
      rest (x ∷ xs) q = (
        _,
        refl,
        rewritten-IsListeners ls (with_head ls.heads h (remove_first cb (ls.heads h))) v,
        heard-some ls event h (remove_first cb) v e,
      )
      rest [] q =
          let ls₁ : Listeners = record ls {
            heads = with_head ls.heads h (remove_first cb (ls.heads h));
          } in
          let v₁ =
            rewritten-IsListeners ls (with_head ls.heads h (remove_first cb (ls.heads h))) v in
          let (m, deleted, is_map, reads) = map_del-view signed_char v.is_map event in
          let empty : heard ls₁ event ≡ [] =
            ap (called_at signed_char ls₁) e ∙ if-then _ _ _ (==_true h h refl) ∙ q in
          let (v₂, same₂) = dropped ls₁ m event v₁ empty is_map reads in
          (
            record ls₁ { map = m },
            ap (λ o. o >>= (λ (m', old). ok (record ls₁ { map = m' }))) deleted,
            v₂,
            λ j. same₂ j ∙ heard-some ls event h (remove_first cb) v e j,
          )

  -- `pc_remove_listener` takes the first listener with the callback from those of its event: either no
  -- listener of the event has the callback, and all stay, or they are some without it, one with it, and the
  -- rest, and the some and the rest stay, in their order. Those of every other event stay as they are. The
  -- queues were apart before, and are so afterwards.
  pub remove_listener-heard :
      (event : List ℕ) (cb : ℕ) (ls : Listeners)
      → IsListeners ls
      → (ls₁ : Listeners) × (remove_listener signed_char event cb ls ≡ ok ls₁)
        × IsListeners ls₁
        × TakesFirst cb (heard ls event) (heard ls₁ event)
        × ((j : List ℕ) → same_str event j ≡ false → heard ls₁ j ≡ heard ls j)
  unfolding remove_listener
  remove_listener-heard event cb ls v =
      let (ls₁, e, v₁, heard₁) = removed_at event cb ls (view signed_char ls.map event) refl v in
      (
        ls₁,
        ap (λ o. o >>= remove_at signed_char event cb ls) (map_get-view signed_char v.is_map event)
            ∙ e,
        v₁,
        subst (TakesFirst cb (heard ls event))
            (sym (heard₁ event ∙ if-then _ _ _ (same_str_refl event)))
            (remove_first-TakesFirst cb (heard ls event)),
        λ j other. heard₁ j ∙ if-else _ _ _ other,
      )
