-- ===== src/Prelude/Bits.antt =====
-- `|` of a shifted word and a word that fits below the shift is their sum.
use Prim.Native.Nat.{
  ℕ, zero, suc, ◌+◌, ◌*◌, ◌/◌, ◌^◌, ◌≤◌, ◌<◌, max, bit_or, digits, bit_or-bitwise,
}
use mathlib.Core.Path.{◌≡◌, refl, ap, ◌∙◌}
use native.Mathlib.Nat.{pow-suc, le_refl}
use native.Mathlib.Omega.{arith}

-- The binary digits that `bit_or` stands for, with `n` rounds at most.
abbrev or_digits : ℕ → ℕ → ℕ → ℕ
or_digits n a b = digits (λ y. y) max n a b

halve_shift : (q k : ℕ) → q * 2 ^ suc k ≡ 2 * (q * 2 ^ k)
halve_shift q k = omega (arith, ap (λ (t : ℕ). q * t) (pow-suc 2 k))

-- One induction on the rounds: the shift falls by one with each digit, down to none.
or_digits-disjoint : (n k q a r : ℕ) → a ≡ q * 2 ^ k → a ≤ n → r < 2 ^ k → or_digits n a r ≡ a + r
or_digits-disjoint zero k q zero r e h fits = omega arith
or_digits-disjoint zero k q (suc a) r e h fits = absurd (omega arith)
or_digits-disjoint (suc n) k q zero r e h fits = omega arith
or_digits-disjoint (suc n) zero q (suc a) r e h fits = omega (
  arith,
  or_digits-disjoint n 0 (suc a / 2) (suc a / 2) (r / 2) (omega arith) (omega arith) (omega arith),
)
or_digits-disjoint (suc n) (suc k) q (suc a) r e h fits = omega (
  arith,
  or_digits-disjoint n k q (suc a / 2) (r / 2) (omega (arith, halve_shift q k)) (omega arith)
      (omega (arith, pow-suc 2 k)),
  halve_shift q k,
)

pub bit_or-disjoint : (k q r : ℕ) → r < 2 ^ k → bit_or (q * 2 ^ k) r ≡ q * 2 ^ k + r
bit_or-disjoint k q r fits =
    bit_or-bitwise (q * 2 ^ k) r ∙ or_digits-disjoint _ k q (q * 2 ^ k) r refl (le_refl _) fits
