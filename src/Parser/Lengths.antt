-- ===== src/Parser/Lengths.antt =====
-- The variable-length `parse_length` of librenec/parser.c against the format that it reads.
use ledger_embedded_app.Common.{
  ℕ, ◌+◌, ◌*◌, ◌/◌, ◌%◌, ◌^◌, ◌<◌, ◌≡◌, ◌∙◌, ap, List, [], ◌∷◌, ◌++◌, arith, done, ltb,
  if◌then◌else◌, lt→ltb, le→ltb, bit_and,
}
use ledger_embedded_app.Common.Bits.{bit_and-0x7f, bit_and-0x80, bit_or-shift}
use ledger_embedded_app.Parser.{parse_length, parse_length_second, parse_length_third}
use ledger_embedded_app.Parser.Steps.{view, parse_u8-view}
use native.Mathlib.Decide.{dec_lt}

-- A length below 2 ^ 21: seven bits a byte, lowest first, the top bit set on all bytes but the last.
abbrev pub length_bytes : ℕ → List ℕ
length_bytes n =
    if ltb n 128
    then n ∷ []
    else if ltb n 16384
    then (n % 128 + 128) ∷ n / 128 ∷ []
    else (n % 128 + 128) ∷ (n / 128 % 128 + 128) ∷ n / 16384 ∷ []

-- The bits of a byte that counts, and the one that says whether another byte follows.
last_byte : (b : ℕ) → b < 128 → (bit_and b 0x7f ≡ b) × (bit_and b 0x80 ≡ 0)
last_byte b h = omega (arith, bit_and-0x7f b, bit_and-0x80 b)

inner_byte : (g : ℕ) → g < 128 → (bit_and (g + 128) 0x7f ≡ g) × (bit_and (g + 128) 0x80 ≡ 128)
inner_byte g h = omega (arith, bit_and-0x7f (g + 128), bit_and-0x80 (g + 128))

one_byte :
    (n : ℕ) (xs rest : List ℕ)
    → n < 128
    → parse_length (view (n ∷ xs) rest) ≡ done (n, view xs rest)
unfolding parse_length
one_byte n xs rest h = rw (parse_u8-view n xs rest) (rw ((last_byte n h).1, (last_byte n h).0))

two_bytes :
    (g m : ℕ) (xs rest : List ℕ)
    → g < 128
    → m < 128
    → parse_length (view ((g + 128) ∷ m ∷ xs) rest) ≡ done (m * 128 + g, view xs rest)
unfolding parse_length parse_length_second
two_bytes g m xs rest hg hm = rw (parse_u8-view (g + 128) (m ∷ xs) rest) (
    rw ((inner_byte g hg).1, (inner_byte g hg).0, parse_u8-view m xs rest)
      (rw ((last_byte m hm).1, (last_byte m hm).0, bit_or-shift 7 m g hg)))

three_bytes :
    (g m t : ℕ) (xs rest : List ℕ)
    → g < 128
    → m < 128
    → t < 128
    → parse_length (view ((g + 128) ∷ (m + 128) ∷ t ∷ xs) rest)
      ≡ done (t * 16384 + (m * 128 + g), view xs rest)
unfolding parse_length parse_length_second parse_length_third
three_bytes g m t xs rest hg hm ht = rw (parse_u8-view (g + 128) ((m + 128) ∷ t ∷ xs) rest) (
    rw ((inner_byte g hg).1, (inner_byte g hg).0, parse_u8-view (m + 128) (t ∷ xs) rest)
      (rw ((inner_byte m hm).1, (inner_byte m hm).0, parse_u8-view t xs rest, bit_or-shift 7 m g hg)
        (rw ((last_byte t ht).0, bit_or-shift 14 t (m * 128 + g) (omega arith)))))

-- `parse_length` reads back every length below 2 ^ 21 from its one to three bytes, whatever follows
-- these, and takes exactly them.
pub parse_length-length_bytes :
    (n : ℕ) (xs rest : List ℕ)
    → n < 2 ^ 21
    → parse_length (view (length_bytes n ++ xs) rest) ≡ done (n, view xs rest)
parse_length-length_bytes n xs rest h = elim (dec_lt n 128) [
  | yes small ↦ rw (lt→ltb n 128 small) (one_byte n xs rest small)
  | no big ↦ rw (le→ltb n 128 (omega arith)) (elim (dec_lt n 16384) [
    | yes small ↦ rw (lt→ltb n 16384 small) (
        two_bytes (n % 128) (n / 128) xs rest (omega arith) (omega arith)
        ∙ ap (λ v. done (v, view xs rest)) (omega arith))
    | no big ↦ rw (le→ltb n 16384 (omega arith)) (
        three_bytes (n % 128) (n / 128 % 128) (n / 16384) xs rest (omega arith) (omega arith)
          (omega arith)
        ∙ ap (λ v. done (v, view xs rest)) (omega arith))
  ])
]
