-- ===== src/HashMap/SetLoop.antt =====
-- The loop of `pc_map_set` in src/map.c, which ends for some queues and not for others.
use libpomelo.Common.{
  ℕ, zero, suc, ◌+◌, ◌<◌, ◌≡◌, refl, sym, ◌∙◌, ap, subst, Option, none, some, List, [], ◌∷◌, ◌++◌,
  if◌then◌else◌, length, arith, ◌≢◌, Bool-cases, inl, inr, length-append, append-nil, append_assoc,
}
use libpomelo.Common.Bytes.{same_str, same_str_iff}
use libpomelo.Common.Outcome.{ok, stuck}
use libpomelo.HashMap.{Pair, find, at, detached, set_loop}

pub same_str_comm : (a b : List ℕ) → same_str a b ≡ same_str b a
same_str_comm a b = ground (arith, same_str_iff a b, same_str_iff b a)

module _ {ℓ} {V : Type ℓ} (k : List ℕ) where
  -- A queue without the key is passed over, and nothing is taken out.
  pub set_loop-absent :
      (before after : List (Pair V)) (fuel : ℕ)
      → length after < fuel
      → find k after ≡ none
      → set_loop fuel k (at before after none) ≡ ok (before ++ after, none)
  unfolding set_loop find
  set_loop-absent before [] zero h e = absurd (omega arith)
  set_loop-absent before [] (suc fuel) h e = rw append-nil
  set_loop-absent before (x ∷ after) zero h e = absurd (omega arith)
  set_loop-absent before (x ∷ after) (suc fuel) h e = elim (Bool-cases (same_str k x.key)) [
    | inl same ↦ absurd (cc (rw same at e))
    | inr other ↦
        rw (same_str_comm x.key k, other)
          (set_loop-absent (before ++ x ∷ []) after fuel (omega arith) (rw other at e)
            ∙ ap (λ z. ok (z, none)) (append_assoc before (x ∷ []) after))
  ]

  -- The only pair of a queue is taken out, and the empty queue ends the loop.
  pub set_loop-single :
      (e : Pair V) (fuel : ℕ)
      → e.key ≡ k
      → 1 < fuel
      → set_loop fuel k (at [] (e ∷ []) none) ≡ ok ([], some e)
  unfolding set_loop
  set_loop-single e zero same h = absurd (omega arith)
  set_loop-single e (suc zero) same h = absurd (omega arith)
  set_loop-single e (suc (suc fuel)) same h =
      subst
        (λ b.
          set_loop (suc fuel) k (if b then detached e [] else at (e ∷ []) [] none)
          ≡ ok ([], some e))
        (sym ((same_str_iff e.key k).1 same)) refl

  detached-stuck :
      (fuel : ℕ) (e : Pair V) (xs : List (Pair V))
      → 0 < length xs
      → set_loop fuel k (detached e xs) ≡ stuck
  unfolding set_loop
  detached-stuck zero e xs h = refl
  detached-stuck (suc fuel) e [] h = absurd (omega arith)
  detached-stuck (suc fuel) e (x ∷ xs) h = detached-stuck fuel e (x ∷ xs) h

  -- A pair that is taken out of a queue with others leads the loop back to itself, for ever.
  pub set_loop-present :
      (fuel : ℕ) (before after : List (Pair V)) (old : Option (Pair V))
      → find k after ≢ none
      → 1 < length before + length after
      → set_loop fuel k (at before after old) ≡ stuck
  unfolding set_loop find
  set_loop-present zero before after old e h = refl
  set_loop-present (suc fuel) before [] old e h = absurd (e refl)
  set_loop-present (suc fuel) before (x ∷ after) old e h = elim (Bool-cases (same_str k x.key)) [
    | inl same ↦
        rw (same_str_comm x.key k, same)
          (detached-stuck fuel x (before ++ after) (omega (arith, length-append before after)))
    | inr other ↦
        rw (same_str_comm x.key k, other)
          (set_loop-present fuel (before ++ x ∷ []) after none (λ q. e (rw other q))
            (omega (arith, length-append before (x ∷ []))))
  ]
