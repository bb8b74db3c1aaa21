-- ===== src/Common/Bits.antt =====
-- `&` with a mask of low ones is a remainder, at every width.
use Prim.Native.Nat.{
  ℕ, zero, suc, ◌+◌, ◌-◌, ◌*◌, ◌/◌, ◌%◌, ◌^◌, ◌≤◌, ◌<◌, min, bit_and, digits, bit_and-bitwise,
}
use mathlib.Core.Path.{◌≡◌, refl, ap, ◌∙◌}
use native.Mathlib.Nat.{
  pow-suc, one-le-pow, div-add-mod, mul-add-mod_self_left, mod-eq_of_lt, mod-lt,
}
use native.Mathlib.Omega.{arith}

-- The native `&` is defined by its binary digits; the fuel of that definition does not matter.
and_on : ℕ → ℕ → ℕ → ℕ
and_on = digits (λ _. zero) min

and_on_fuel : (f g a b : ℕ) → a ≤ f → a ≤ g → and_on f a b ≡ and_on g a b
unfolding and_on
and_on_fuel zero zero a b p q = refl
and_on_fuel zero (suc g) zero b p q = refl
and_on_fuel zero (suc g) (suc a) b p q = absurd (omega arith)
and_on_fuel (suc f) zero zero b p q = refl
and_on_fuel (suc f) zero (suc a) b p q = absurd (omega arith)
and_on_fuel (suc f) (suc g) zero b p q = refl
and_on_fuel (suc f) (suc g) (suc a) b p q =
    omega (arith, and_on_fuel f g (suc a / 2) (b / 2) (omega arith) (omega arith))

bit_and-digit : (a b : ℕ) → bit_and a b ≡ bit_and (a / 2) (b / 2) * 2 + min (a % 2) (b % 2)
unfolding and_on
bit_and-digit zero b = omega (arith, bit_and-bitwise 0 b, bit_and-bitwise 0 (b / 2))
bit_and-digit (suc a) b = omega (
  arith,
  bit_and-bitwise (suc a) b,
  bit_and-bitwise (suc a / 2) (b / 2),
  and_on_fuel a (suc a / 2) (suc a / 2) (b / 2) (omega arith) (omega arith),
)

bit_and-nothing : (f a : ℕ) → a ≤ f → bit_and a 0 ≡ 0
bit_and-nothing f zero h = refl
bit_and-nothing zero (suc a) h = absurd (omega arith)
bit_and-nothing (suc f) (suc a) h =
    omega (arith, bit_and-digit (suc a) 0, bit_and-nothing f (suc a / 2) (omega arith))

-- The last binary digit of a remainder by `2 * m`.
mod-double : (m a : ℕ) → 0 < m → a % (2 * m) ≡ a / 2 % m * 2 + a % 2
mod-double m a h =
    ap (λ (t : ℕ). t % (2 * m)) split
    ∙ mul-add-mod_self_left (2 * m) (a / 2 / m) (a / 2 % m * 2 + a % 2)
    ∙ mod-eq_of_lt (omega (arith, mod-lt (a / 2) h))
  where
    split : a ≡ 2 * m * (a / 2 / m) + (a / 2 % m * 2 + a % 2)
    split = omega (arith, div-add-mod (a / 2) m)

pub bit_and-mask : (k a : ℕ) → bit_and a (2 ^ k - 1) ≡ a % 2 ^ k
bit_and-mask zero a = omega (arith, bit_and-nothing a a (omega arith))
bit_and-mask (suc k) a = omega (
  arith,
  pow-suc 2 k,
  one-le-pow k 2,
  bit_and-digit a (2 ^ suc k - 1),
  halved,
  bit_and-mask k (a / 2),
  mod-double (2 ^ k) a (omega (arith, one-le-pow k 2)),
  ap (λ (t : ℕ). a % t) doubled,
)
  where
    doubled : 2 ^ suc k ≡ 2 * 2 ^ k
    doubled = omega (arith, pow-suc 2 k)

    halved : bit_and (a / 2) ((2 ^ suc k - 1) / 2) ≡ bit_and (a / 2) (2 ^ k - 1)
    halved = ap (bit_and (a / 2)) (omega (arith, pow-suc 2 k, one-le-pow k 2))
