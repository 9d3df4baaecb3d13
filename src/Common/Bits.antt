-- ===== src/Common/Bits.antt =====
-- The bit operations that the program uses, as arithmetic: masks of one byte by a table of all its
-- values, and `|` of numbers that share no bit by induction on the shift.
use Prim.Native.Nat.{
  ℕ, zero, suc, ◌+◌, ◌*◌, ◌/◌, ◌%◌, ◌^◌, ◌≤◌, ◌<◌, max, bit_and, bit_or, digits, bit_or-bitwise,
}
use mathlib.Core.Path.{◌≡◌, refl, ap, ◌∙◌}
use mathlib.Core.Bool.{Bool, true, ◌&&◌}
use native.Mathlib.Nat.{pow-suc}
use native.Mathlib.Omega.{arith}
use ledger_embedded_app.Common.Tests.{◌==◌, ==_iff}

pub tables_agree : (ℕ → ℕ) → (ℕ → ℕ) → ℕ → Bool
tables_agree f g zero = true
tables_agree f g (suc b) = tables_agree f g b && (f b == g b)

pub eq_by_table : (f g : ℕ → ℕ) (n : ℕ) → tables_agree f g n ≡ true → (b : ℕ) → b < n → f b ≡ g b
unfolding tables_agree
eq_by_table f g zero h b below = absurd (omega arith)
eq_by_table f g (suc n) h b below = ground (arith, eq_by_table f g n _ b, ==_iff (f n) (g n))

pub bit_and-0x7f : (b : ℕ) → b < 256 → bit_and b 0x7f ≡ b % 128
unfolding tables_agree
bit_and-0x7f = eq_by_table _ _ 256 refl

pub bit_and-0x80 : (b : ℕ) → b < 256 → bit_and b 0x80 ≡ b / 128 * 128
unfolding tables_agree
bit_and-0x80 = eq_by_table _ _ 256 refl

pub bit_and-1 : (b : ℕ) → b < 256 → bit_and b 1 ≡ b % 2
unfolding tables_agree
bit_and-1 = eq_by_table _ _ 256 refl

pub bit_and-2 : (b : ℕ) → b < 256 → bit_and b 2 ≡ b / 2 % 2 * 2
unfolding tables_agree
bit_and-2 = eq_by_table _ _ 256 refl

pub bit_and-0xe0 : (b : ℕ) → b < 256 → bit_and b 0xe0 ≡ b / 32 * 32
unfolding tables_agree
bit_and-0xe0 = eq_by_table _ _ 256 refl

pub bit_and-0xf0 : (b : ℕ) → b < 256 → bit_and b 0xf0 ≡ b / 16 * 16
unfolding tables_agree
bit_and-0xf0 = eq_by_table _ _ 256 refl

pub bit_and-0xf8 : (b : ℕ) → b < 256 → bit_and b 0xf8 ≡ b / 8 * 8
unfolding tables_agree
bit_and-0xf8 = eq_by_table _ _ 256 refl

pub bit_and-0xfe : (b : ℕ) → b < 256 → bit_and b 0xfe ≡ b / 2 * 2
unfolding tables_agree
bit_and-0xfe = eq_by_table _ _ 256 refl

pub bit_and-0xc0 : (b : ℕ) → b < 256 → bit_and b 0xc0 ≡ b / 64 * 64
unfolding tables_agree
bit_and-0xc0 = eq_by_table _ _ 256 refl

-- The sum stands at every fuel of `digits` that is enough for `a`, so the induction is on the fuel.
digits-max_lem :
    (n k x a v : ℕ) → a ≡ x * 2 ^ k → a ≤ n → v < 2 ^ k → digits (λ b. b) max n a v ≡ a + v
digits-max_lem zero k x zero v e fuel small = omega arith
digits-max_lem (suc n) k x zero v e fuel small = omega arith
digits-max_lem zero k x (suc a) v e fuel small = absurd (omega arith)
digits-max_lem (suc n) zero x (suc a) v e fuel small = omega (
  arith,
  digits-max_lem n zero (suc a / 2) (suc a / 2) (v / 2) (omega arith) (omega arith) (omega arith),
)
digits-max_lem (suc n) (suc k) x (suc a) v e fuel small =
    let twice : x * 2 ^ suc k ≡ 2 * (x * 2 ^ k) =
      omega (arith, ap (λ (t : ℕ). x * t) (pow-suc 2 k)) in
    omega (
      arith,
      digits-max_lem n k x (suc a / 2) (v / 2) (omega (arith, twice)) (omega arith)
          (omega (arith, pow-suc 2 k)),
      twice,
    )

-- `(x << k) | v` is a sum where `v` has at most `k` bits.
pub bit_or-shift : (k x v : ℕ) → v < 2 ^ k → bit_or (x * 2 ^ k) v ≡ x * 2 ^ k + v
bit_or-shift k x v small =
    bit_or-bitwise (x * 2 ^ k) v
    ∙ digits-max_lem (x * 2 ^ k) k x (x * 2 ^ k) v refl (omega arith) small
