-- ===== src/Common/Groups.antt =====
-- Numbers in groups of seven bits, as src/message.c and src/pb-encode.c write them.
use Prim.Native.Nat.{ℕ, zero, suc, ◌+◌, ◌*◌, ◌/◌, ◌%◌, ◌^◌, ◌≤◌}
use mathlib.Core.Path.{◌≡◌, ap}
use mathlib.Core.List.{List, [], ◌∷◌}
use native.Mathlib.Nat.{div-add-mod}
use native.Mathlib.Numerals.{towards_suc}
use native.Mathlib.Omega.{arith}
use libpomelo.Common.Tests.{ltb, if◌then◌else◌}
use libpomelo.Common.Lists.{length}

-- The groups of seven bits of a number, the lowest first, each but the last with its top bit set.
unfoldable pub groups : ℕ → ℕ → List ℕ
groups zero id = id ∷ []
groups (suc k) id =
    let rest = groups k (id / 128) in if ltb id 128 then id ∷ [] else (id % 128 + 128) ∷ rest

pub length-groups : (k id : ℕ) → (1 ≤ length (groups k id)) × (length (groups k id) ≤ k + 1)
unfolding groups
length-groups zero id = omega arith
length-groups (suc k) id = ground (arith, length-groups k (id / 128))

pub shift_seven : (i : ℕ) → 2 ^ (7 * (i + 1)) ≡ 128 * 2 ^ (7 * i)
shift_seven i =
    let e : 7 * (i + 1) ≡ 7 * i + 7 = omega arith in rw e (simp towards_suc (omega arith))

pub split_group : (id p q : ℕ) → q ≡ 128 * p → id * p ≡ id % 128 * p + id / 128 * q
split_group id p q e =
    omega (arith, ap (λ (t : ℕ). t * p) (div-add-mod id 128), ap (λ (t : ℕ). id / 128 * t) e)
