-- ===== src/Swap.antt =====
-- src/swap/swap_utils.c: the amounts that the exchange application hands over.
use native.Mathlib.Nat.{pow-suc, pow-succ', pow-le-pow_right, add-mul, mul_assoc}
use ledger_embedded_app.Common.{
  ℕ, zero, suc, ◌+◌, ◌*◌, ◌%◌, ◌^◌, ◌≤◌, ◌<◌, bit_or, ◌≡◌, refl, ap, ◌∙◌, ◌⊎◌, inl, inr, Option,
  none, some, List, [], ◌∷◌, arith, ltb, if◌then◌else◌, ltb→lt, le→leb, Bool-cases, length, take,
  All, length-take, Outcome, ◌>>=◌, done,
}
use ledger_embedded_app.Common.Bits.{bit_or-shift}
use ledger_embedded_app.Parser.{Pointer, load}

-- The loop over the bytes that are left. `<<=` keeps the 64 bits of `value`.
unfoldable pub value_loop : ℕ → List ℕ → ℕ
value_loop value [] = value
value_loop value (b ∷ bytes) = value_loop (bit_or (value * 2 ^ 8 % 2 ^ 64) b) bytes

-- None where the code returns false, and else what it leaves in `result`.
unfoldable pub swap_str_to_u64 : Pointer → ℕ → Outcome (Option ℕ)
swap_str_to_u64 src n =
    if ltb 8 n then done none else (do bytes ← load n src; done (some (value_loop 0 bytes)))

-- The number that bytes spell, highest byte first.
abbrev pub be_value : List ℕ → ℕ
be_value [] = 0
be_value (b ∷ bytes) = b * 256 ^ length bytes + be_value bytes

power-fits : (k : ℕ) → k ≤ 7 → 256 * 256 ^ k ≤ 2 ^ 64
power-fits k l = omega (arith, pow-le-pow_right {n = 256} (omega arith) {i = k} {j = 7} l)

distributes : (v b p : ℕ) → (v * 256 + b) * p ≡ v * (256 * p) + b * p
distributes v b p = omega (arith, add-mul (v * 256) b p, mul_assoc v 256 p)

value_loop_lem :
    (k value : ℕ) (bytes : List ℕ)
    → value < 256 ^ k
    → k + length bytes ≤ 8
    → All (λ b. b < 256) bytes
    → value_loop value bytes ≡ value * 256 ^ length bytes + be_value bytes
unfolding value_loop
value_loop_lem k value [] small fits all = omega arith
value_loop_lem k value (b ∷ bytes) small fits all =
    let no_wrap : value * 256 % 2 ^ 64 ≡ value * 256 = omega (arith, power-fits k (omega arith)) in
    let next : bit_or (value * 256 % 2 ^ 64) b ≡ value * 256 + b =
      ap (λ x. bit_or x b) no_wrap ∙ bit_or-shift 8 value b (all.0) in
    ap (λ x. value_loop x bytes) next
    ∙ value_loop_lem (suc k) (value * 256 + b) bytes (omega (arith, pow-suc 256 k)) (omega arith)
        (all.1)
    ∙ omega (
      arith,
      distributes value b (256 ^ length bytes),
      ap (λ (x : ℕ). value * x) (pow-succ' 256 (length bytes)),
    )

from_zero :
    (bytes : List ℕ)
    → length bytes ≤ 8
    → All (λ b. b < 256) bytes
    → value_loop 0 bytes ≡ be_value bytes
from_zero bytes l all = omega (arith, value_loop_lem 0 0 bytes (omega arith) (omega arith) all)

All-take : (n : ℕ) (xs : List ℕ) → All (λ b. b < 256) xs → All (λ b. b < 256) (take n xs)
All-take zero xs k = tt
All-take (suc n) [] k = tt
All-take (suc n) (x ∷ xs) k = (k.0, All-take n xs (k.1))

-- `swap_str_to_u64` reads an amount of at most eight bytes as the number that they spell, highest
-- byte first, and refuses a longer one.
pub swap_str_to_u64_lem :
    (src : Pointer) (n : ℕ)
    → n ≤ length src
    → All (λ b. b < 256) src
    → ((n ≤ 8) × (swap_str_to_u64 src n ≡ done (some (be_value (take n src)))))
      ⊎ ((8 < n) × (swap_str_to_u64 src n ≡ done none))
unfolding swap_str_to_u64
swap_str_to_u64_lem src n there all = elim (Bool-cases (ltb 8 n)) [
  | inl long ↦ inr (ltb→lt 8 n long, rw long refl)
  | inr short ↦ inl (
    ground arith,
    rw short (
        rw (le→leb n (length src) there) (
          ap (λ v. done (some v))
            (from_zero (take n src) (ground (arith, length-take n src)) (All-take n src all)))),
  )
]
