-- ===== src/Offchain/Sequences.antt =====
-- One round of `is_data_utf8`: the code point that it steps over.
use ledger_embedded_app.Common.{
  ℕ, ◌+◌, ◌-◌, ◌*◌, ◌/◌, ◌%◌, ◌≤◌, ◌<◌, bit_and, ◌≡◌, refl, inl, inr, ◌&&◌, ◌||◌, some, List, [],
  ◌∷◌, ◌++◌, arith, ltb, ◌==◌, ltb→lt, ==_iff, Bool-cases, length, drop, All,
}
use ledger_embedded_app.Offchain.{is_not_continuation, two_bytes, three_bytes, four_bytes, sequence}
use ledger_embedded_app.Offchain.Encoding.{
  encode, IsText, two_sound, three_sound, four_sound, encode-two, encode-three, encode-four,
  two_complete, three_complete, four_complete,
}

abbrev pub AreBytes : List ℕ → Type 0
AreBytes bytes = All (λ b. b < 256) bytes

-- What the bytes begin with: a code point of a text, in so many bytes as are stepped over.
pub record Starts (bytes : List ℕ) (n : ℕ) : Type 0 where
  pub point : ℕ
  pub is_text : IsText point
  pub spelled : bytes ≡ encode point ++ drop n bytes
  pub progress : 0 < n

Starts-intro :
    (c n : ℕ) (front bytes : List ℕ)
    → IsText c
    → encode c ≡ front
    → bytes ≡ front ++ drop n bytes
    → 0 < n
    → Starts bytes n
Starts-intro c n front bytes k e s p = record {
  point = c;
  is_text = k;
  spelled = rw e s;
  progress = p;
}

pub some-inj : {n m : ℕ} → some n ≡ some m → n ≡ m
some-inj e = cc

two-Starts :
    (a n : ℕ) (bytes : List ℕ)
    → a < 256
    → AreBytes bytes
    → bit_and a 0xe0 ≡ 0xc0
    → two_bytes a bytes ≡ some n
    → Starts (a ∷ bytes) n
unfolding two_bytes
two-Starts a n [] la k h e = absurd cc
two-Starts a n (b ∷ bytes) la k h e =
    elim (Bool-cases (is_not_continuation b || (bit_and a 0xfe == 0xc0))) [
      | inl bad ↦ absurd (cc (rw bad at e))
      | inr good ↦
          let m : 2 ≡ n = some-inj (rw good at e) in
          let (l1, l2, l3, l4) = two_sound a b la (k.0) h good in
          rw (← m) (
            Starts-intro ((a - 192) * 64 + (b - 128)) 2 (a ∷ b ∷ []) (a ∷ b ∷ bytes)
              (omega arith, inl (omega arith), inl (omega arith)) (encode-two a b l1 l2 l3 l4) refl
              (omega arith))
    ]

three-Starts :
    (a n : ℕ) (bytes : List ℕ)
    → a < 256
    → AreBytes bytes
    → bit_and a 0xf0 ≡ 0xe0
    → three_bytes a bytes ≡ some n
    → Starts (a ∷ bytes) n
unfolding three_bytes
three-Starts a n [] la k h e = absurd cc
three-Starts a n (b ∷ []) la k h e = absurd cc
three-Starts a n (b ∷ c ∷ bytes) la k h e =
    elim (Bool-cases (
      is_not_continuation b
      || is_not_continuation c
      || (a == 0xe0 && bit_and b 0xe0 == 0x80)
      || (a == 0xed && bit_and b 0xe0 == 0xa0)
      || (a == 0xef && b == 0xbf && bit_and c 0xfe == 0xbe))) [
        | inl bad ↦ absurd (cc (rw bad at e))
        | inr good ↦
            let m : 3 ≡ n = some-inj (rw good at e) in
            let (l1, l2, l3, l4, l5, l6, l7, text) = three_sound a b c la (k.0) (k.1.0) h good in
            rw (← m) (
              Starts-intro ((a - 224) * 4096 + ((b - 128) * 64 + (c - 128))) 3 (a ∷ b ∷ c ∷ [])
                (a ∷ b ∷ c ∷ bytes) text (encode-three a b c l1 l2 l3 l4 l5 l6 l7) refl
                (omega arith))
      ]

four-Starts :
    (a n : ℕ) (bytes : List ℕ)
    → a < 256
    → AreBytes bytes
    → bit_and a 0xf8 ≡ 0xf0
    → four_bytes a bytes ≡ some n
    → Starts (a ∷ bytes) n
unfolding four_bytes
four-Starts a n [] la k h e = absurd cc
four-Starts a n (b ∷ []) la k h e = absurd cc
four-Starts a n (b ∷ c ∷ []) la k h e = absurd cc
four-Starts a n (b ∷ c ∷ d ∷ bytes) la k h e =
    elim (Bool-cases (
      is_not_continuation b
      || is_not_continuation c
      || is_not_continuation d
      || (a == 0xf0 && bit_and b 0xf0 == 0x80)
      || (a == 0xf4 && ltb 0x8f b)
      || ltb 0xf4 a)) [
        | inl bad ↦ absurd (cc (rw bad at e))
        | inr good ↦
            let m : 4 ≡ n = some-inj (rw good at e) in
            let (l1, l2, l3, l4, l5, l6, l7, l8, l9) =
              four_sound a b c d la (k.0) (k.1.0) (k.1.1.0) h good in
            rw (← m) (
              Starts-intro ((a - 240) * 262144 + ((b - 128) * 4096 + ((c - 128) * 64 + (d - 128))))
                4 (a ∷ b ∷ c ∷ d ∷ []) (a ∷ b ∷ c ∷ d ∷ bytes)
                (l9, inr (omega arith), inr (omega arith))
                (encode-four a b c d l1 l2 l3 l4 l5 l6 l7 l8) refl (omega arith))
      ]

pub sequence-Starts :
    (a n : ℕ) (bytes : List ℕ)
    → a < 256
    → AreBytes bytes
    → sequence a bytes ≡ some n
    → Starts (a ∷ bytes) n
unfolding sequence
sequence-Starts a n bytes la k e = elim (Bool-cases (ltb a 0x80)) [
  | inl one ↦
      let m : 1 ≡ n = some-inj (rw one at e) in
      rw (← m) (
        Starts-intro a 1 (a ∷ []) (a ∷ bytes) (ground arith, inl (ground arith), inl (ground arith))
          (rw one refl) refl (omega arith))
  | inr f1 ↦ elim (Bool-cases (bit_and a 0xe0 == 0xc0)) [
    | inl two ↦ two-Starts a n bytes la k ((==_iff _ 0xc0).0 two) (rw (f1, two) at e)
    | inr f2 ↦ elim (Bool-cases (bit_and a 0xf0 == 0xe0)) [
      | inl three ↦ three-Starts a n bytes la k ((==_iff _ 0xe0).0 three) (rw (f1, f2, three) at e)
      | inr f3 ↦ elim (Bool-cases (bit_and a 0xf8 == 0xf0)) [
        | inl four ↦
            four-Starts a n bytes la k ((==_iff _ 0xf0).0 four) (rw (f1, f2, f3, four) at e)
        | inr f4 ↦ absurd (cc (rw (f1, f2, f3, f4) at e))
      ]
    ]
  ]
]

-- The code finds every code point of a text.
pub encode-sequence :
    (c : ℕ) (rest : List ℕ)
    → IsText c
    → (a : ℕ) × (tail : List ℕ) × (encode c ++ rest ≡ a ∷ tail)
      × (sequence a tail ≡ some (length (encode c)))
      × (drop (length (encode c)) (a ∷ tail) ≡ rest)
unfolding sequence two_bytes three_bytes four_bytes
encode-sequence c rest k = elim (Bool-cases (ltb c 0x80)) [
  | inl one ↦ rw one (c, rest, refl, ground arith, refl)
  | inr f1 ↦
      let low : 0x80 ≤ c = ground arith in
      elim (Bool-cases (ltb c 0x800)) [
        | inl two ↦
            let high : c < 0x800 = ltb→lt c 0x800 two in
            rw (f1, two)
              (
                192 + c / 64,
                (128 + c % 64) ∷ rest,
                refl,
                two_complete (192 + c / 64) (128 + c % 64) rest (omega arith) (omega arith)
                    (omega arith) (omega arith),
                refl,
              )
        | inr f2 ↦
            let low : 0x800 ≤ c = ground arith in
            elim (Bool-cases (ltb c 0x10000)) [
              | inl three ↦
                  let high : c < 0x10000 = ltb→lt c 0x10000 three in
                  rw (f1, f2, three)
                    (
                      224 + c / 4096,
                      (128 + c / 64 % 64) ∷ (128 + c % 64) ∷ rest,
                      refl,
                      three_complete c (224 + c / 4096) (128 + c / 64 % 64) (128 + c % 64) rest k
                          low (omega arith) (omega arith) (omega arith) (omega arith) (omega arith)
                          (omega arith) (omega arith),
                      refl,
                    )
              | inr f3 ↦
                  let low : 0x10000 ≤ c = ground arith in
                  rw (f1, f2, f3)
                    (
                      240 + c / 262144,
                      (128 + c / 4096 % 64) ∷ (128 + c / 64 % 64) ∷ (128 + c % 64) ∷ rest,
                      refl,
                      four_complete c (240 + c / 262144) (128 + c / 4096 % 64) (128 + c / 64 % 64)
                          (128 + c % 64) rest (k.0) low (omega arith) (omega arith) (omega arith)
                          (omega arith) (omega arith) (omega arith) (omega arith) (omega arith)
                          (omega arith),
                      refl,
                    )
            ]
      ]
]
