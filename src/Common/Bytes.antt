-- ===== src/Common/Bytes.antt =====
-- C strings as lists of bytes, without the final 0.
use Prim.Native.Nat.{ℕ, ◌+◌, ◌-◌, ◌^◌}
use mathlib.Core.Path.{◌≡◌, refl}
use mathlib.Core.Logic.{◌↔◌}
use mathlib.Core.Bool.{Bool, true, false, ◌&&◌}
use mathlib.Core.List.{List, [], ◌∷◌}
use native.Mathlib.Omega.{arith}
use libpomelo.Common.Tests.{◌==◌, leb, if◌then◌else◌}

-- A `char` read as a `size_t`: one that is signed is extended by its sign.
abbrev pub size_of_char : Bool → ℕ → ℕ
size_of_char signed_char b = if signed_char && leb 128 b then 2 ^ 64 - 256 + b else b

-- `!strcmp(a, b)`
abbrev pub same_str : List ℕ → List ℕ → Bool
same_str [] [] = true
same_str [] (b ∷ bs) = false
same_str (a ∷ as') [] = false
same_str (a ∷ as') (b ∷ bs) = a == b && same_str as' bs

pub same_str→eq : (a b : List ℕ) → same_str a b ≡ true → a ≡ b
same_str→eq [] [] h = refl
same_str→eq [] (b ∷ bs) h = cc
same_str→eq (a ∷ as') [] h = cc
same_str→eq (a ∷ as') (b ∷ bs) h = ground (arith, same_str→eq as' bs)

pub same_str_refl : (a : List ℕ) → same_str a a ≡ true
same_str_refl [] = refl
same_str_refl (a ∷ as') = ground (arith, same_str_refl as')

pub same_str_iff : (a b : List ℕ) → (same_str a b ≡ true) ↔ (a ≡ b)
same_str_iff a b = (same_str→eq a b, λ e. cc (e, same_str_refl a))
