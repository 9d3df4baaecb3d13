-- ===== src/Offchain/Encoding.antt =====
-- UTF-8 as the encoding of code points, and its arithmetic: what the tests of `is_data_utf8` say of
-- the bytes that they look at.
use ledger_embedded_app.Common.{
  ℕ, ◌+◌, ◌-◌, ◌*◌, ◌/◌, ◌%◌, ◌≤◌, ◌<◌, bit_and, ◌≡◌, ◌⊎◌, false, ◌&&◌, ◌||◌, some, List, [], ◌∷◌,
  arith, ltb, ◌==◌, if◌then◌else◌,
}
use ledger_embedded_app.Common.Bits.{
  bit_and-0xe0, bit_and-0xf0, bit_and-0xf8, bit_and-0xfe, bit_and-0xc0,
}
use ledger_embedded_app.Offchain.{is_not_continuation, two_bytes, three_bytes, four_bytes, sequence}

-- The bytes of a code point.
abbrev pub encode : ℕ → List ℕ
encode c =
    if ltb c 0x80
    then c ∷ []
    else if ltb c 0x800
    then (0xc0 + c / 64) ∷ (0x80 + c % 64) ∷ []
    else if ltb c 0x10000
    then (0xe0 + c / 4096) ∷ (0x80 + c / 64 % 64) ∷ (0x80 + c % 64) ∷ []
    else (0xf0 + c / 262144) ∷ (0x80 + c / 4096 % 64) ∷ (0x80 + c / 64 % 64) ∷ (0x80 + c % 64) ∷ []

-- A code point that is no surrogate, and neither U+FFFE nor U+FFFF.
abbrev pub IsText : ℕ → Type 0
IsText c = (c < 0x110000) × ((c < 0xd800) ⊎ (0xe000 ≤ c)) × ((c < 0xfffe) ⊎ (0x10000 ≤ c))

continuation : (b : ℕ) → b < 256 → is_not_continuation b ≡ false → (128 ≤ b) × (b < 192)
continuation b l h = ground (arith, bit_and-0xc0 b l)

pub two_sound :
    (a b : ℕ)
    → a < 256
    → b < 256
    → bit_and a 0xe0 ≡ 0xc0
    → (is_not_continuation b || (bit_and a 0xfe == 0xc0)) ≡ false
    → (194 ≤ a) × (a < 224) × (128 ≤ b) × (b < 192)
two_sound a b la lb h t = ground (arith, bit_and-0xc0 b lb, bit_and-0xfe a la, bit_and-0xe0 a la)

pub three_sound :
    (a b c : ℕ)
    → a < 256
    → b < 256
    → c < 256
    → bit_and a 0xf0 ≡ 0xe0
    → (is_not_continuation b
        || is_not_continuation c
        || (a == 0xe0 && bit_and b 0xe0 == 0x80)
        || (a == 0xed && bit_and b 0xe0 == 0xa0)
        || (a == 0xef && b == 0xbf && bit_and c 0xfe == 0xbe))
      ≡ false
    → let v = (a - 224) * 4096 + ((b - 128) * 64 + (c - 128)) in
      (224 ≤ a) × (a < 240) × (128 ≤ b) × (b < 192) × (128 ≤ c) × (c < 192) × (0x800 ≤ v) × IsText v
three_sound a b c la lb lc h t = ground (
  arith,
  bit_and-0xc0 b lb,
  bit_and-0xc0 c lc,
  bit_and-0xfe c lc,
  bit_and-0xe0 b lb,
  bit_and-0xf0 a la,
)

pub four_sound :
    (a b c d : ℕ)
    → a < 256
    → b < 256
    → c < 256
    → d < 256
    → bit_and a 0xf8 ≡ 0xf0
    → (is_not_continuation b
        || is_not_continuation c
        || is_not_continuation d
        || (a == 0xf0 && bit_and b 0xf0 == 0x80)
        || (a == 0xf4 && ltb 0x8f b)
        || ltb 0xf4 a)
      ≡ false
    → let v = (a - 240) * 262144 + ((b - 128) * 4096 + ((c - 128) * 64 + (d - 128))) in
      (240 ≤ a)
      × (128 ≤ b)
      × (b < 192)
      × (128 ≤ c)
      × (c < 192)
      × (128 ≤ d)
      × (d < 192)
      × (0x10000 ≤ v)
      × (v < 0x110000)
four_sound a b c d la lb lc ld h t = ground (
  arith,
  bit_and-0xc0 b lb,
  bit_and-0xc0 c lc,
  bit_and-0xc0 d ld,
  bit_and-0xf0 b lb,
  bit_and-0xf8 a la,
)

pub encode-two :
    (a b : ℕ)
    → 194 ≤ a
    → a < 224
    → 128 ≤ b
    → b < 192
    → encode ((a - 192) * 64 + (b - 128)) ≡ a ∷ b ∷ []
encode-two a b l1 l2 l3 l4 = ground arith

pub encode-three :
    (a b c : ℕ)
    → 224 ≤ a
    → a < 240
    → 128 ≤ b
    → b < 192
    → 128 ≤ c
    → c < 192
    → 0x800 ≤ (a - 224) * 4096 + ((b - 128) * 64 + (c - 128))
    → encode ((a - 224) * 4096 + ((b - 128) * 64 + (c - 128))) ≡ a ∷ b ∷ c ∷ []
encode-three a b c l1 l2 l3 l4 l5 l6 l7 = ground arith

pub encode-four :
    (a b c d : ℕ)
    → 240 ≤ a
    → 128 ≤ b
    → b < 192
    → 128 ≤ c
    → c < 192
    → 128 ≤ d
    → d < 192
    → 0x10000 ≤ (a - 240) * 262144 + ((b - 128) * 4096 + ((c - 128) * 64 + (d - 128)))
    → encode ((a - 240) * 262144 + ((b - 128) * 4096 + ((c - 128) * 64 + (d - 128))))
      ≡ a ∷ b ∷ c ∷ d ∷ []
encode-four a b c d l1 l2 l3 l4 l5 l6 l7 l8 = ground arith

pub two_complete :
    (a b : ℕ) (rest : List ℕ)
    → 194 ≤ a
    → a < 224
    → 128 ≤ b
    → b < 192
    → sequence a (b ∷ rest) ≡ some 2
unfolding sequence two_bytes
two_complete a b rest l1 l2 l3 l4 = ground (
  arith,
  bit_and-0xc0 b (omega arith),
  bit_and-0xe0 a (omega arith),
  bit_and-0xfe a (omega arith),
)

pub three_complete :
    (p a b c : ℕ) (rest : List ℕ)
    → IsText p
    → 0x800 ≤ p
    → p ≡ (a - 224) * 4096 + ((b - 128) * 64 + (c - 128))
    → 224 ≤ a
    → a < 240
    → 128 ≤ b
    → b < 192
    → 128 ≤ c
    → c < 192
    → sequence a (b ∷ c ∷ rest) ≡ some 3
unfolding sequence three_bytes
three_complete p a b c rest k l e l1 l2 l3 l4 l5 l6 = ground (
  arith,
  bit_and-0xc0 b (omega arith),
  bit_and-0xc0 c (omega arith),
  bit_and-0xe0 a (omega arith),
  bit_and-0xe0 b (omega arith),
  bit_and-0xf0 a (omega arith),
  bit_and-0xfe c (omega arith),
)

pub four_complete :
    (p a b c d : ℕ) (rest : List ℕ)
    → p < 0x110000
    → 0x10000 ≤ p
    → p ≡ (a - 240) * 262144 + ((b - 128) * 4096 + ((c - 128) * 64 + (d - 128)))
    → 240 ≤ a
    → a < 248
    → 128 ≤ b
    → b < 192
    → 128 ≤ c
    → c < 192
    → 128 ≤ d
    → d < 192
    → sequence a (b ∷ c ∷ d ∷ rest) ≡ some 4
unfolding sequence four_bytes
four_complete p a b c d rest k l e l1 l2 l3 l4 l5 l6 l7 l8 = ground (
  arith,
  bit_and-0xc0 b (omega arith),
  bit_and-0xc0 c (omega arith),
  bit_and-0xc0 d (omega arith),
  bit_and-0xe0 a (omega arith),
  bit_and-0xf0 a (omega arith),
  bit_and-0xf0 b (omega arith),
  bit_and-0xf8 a (omega arith),
)
