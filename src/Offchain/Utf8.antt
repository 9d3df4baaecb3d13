-- ===== src/Offchain/Utf8.antt =====
-- `is_data_utf8` against UTF-8 as it is defined: the encoding of code points.
use ledger_embedded_app.Common.{
  ℕ, zero, suc, ◌≤◌, ◌≡◌, refl, sym, ap, ◌∙◌, ◌↔◌, ◌⊎◌, inl, inr, Bool, true, false, some, List, [],
  ◌∷◌, ◌++◌, arith, Option-cases, length, drop, All, length-drop,
}
use ledger_embedded_app.Offchain.{sequence, utf8_loop, is_data_utf8}
use ledger_embedded_app.Offchain.Encoding.{encode, IsText}
use ledger_embedded_app.Offchain.Sequences.{AreBytes, some-inj, sequence-Starts, encode-sequence}

-- The code points of a text, one after the other.
abbrev pub encode_all : List ℕ → List ℕ
encode_all [] = []
encode_all (c ∷ cs) = encode c ++ encode_all cs

abbrev pub IsEncoded : List ℕ → Type 0
IsEncoded bytes = (cs : List ℕ) × All IsText cs × (bytes ≡ encode_all cs)

-- A text goes on behind its first code point, which the code finds.
text-sequence :
    (a : ℕ) (bytes : List ℕ)
    → IsEncoded (a ∷ bytes)
    → (n : ℕ) × (sequence a bytes ≡ some n) × IsEncoded (drop n (a ∷ bytes))
text-sequence a bytes ([], ts, e) = absurd cc
text-sequence a bytes (c ∷ cs, ts, e) =
    let (a', tail, e1, e2, e3) = encode-sequence c (encode_all cs) (ts.0) in
    let head : a ≡ a' = cc in
    let same : bytes ≡ tail = cc in
    (length (encode c), rw (head, same) e2, (cs, ts.1, rw (head, same) e3))

pub AreBytes-drop : (n : ℕ) (xs : List ℕ) → AreBytes xs → AreBytes (drop n xs)
AreBytes-drop zero xs k = k
AreBytes-drop (suc n) [] k = k
AreBytes-drop (suc n) (x ∷ xs) k = AreBytes-drop n xs (k.1)

-- How the loop ends.
Decides : ℕ → List ℕ → Type 0
Decides fuel bytes =
    ((utf8_loop fuel bytes ≡ some true) × IsEncoded bytes)
    ⊎ ((utf8_loop fuel bytes ≡ some false) × ¬ IsEncoded bytes)

loop-Decides :
    (fuel : ℕ) (bytes : List ℕ) → length bytes ≤ fuel → AreBytes bytes → Decides fuel bytes
unfolding Decides utf8_loop
loop-Decides zero [] l k = inl (refl, ([], tt, refl))
loop-Decides (suc fuel) [] l k = inl (refl, ([], tt, refl))
loop-Decides zero (a ∷ bytes) l k = absurd (omega arith)
loop-Decides (suc fuel) (a ∷ bytes) l k = elim (Option-cases (sequence a bytes)) [
  | inl none_there ↦ inr (
    rw (none_there, utf8_loop) refl,
    λ t. let (n, e, _) = text-sequence a bytes t in absurd (cc (sym none_there ∙ e)),
  )
  | inr (n, e) ↦
      let st = sequence-Starts a n bytes (k.0) (k.1) e in
      let rest = drop n (a ∷ bytes) in
      let go =
        loop-Decides fuel rest (omega (arith, st.progress, length-drop n (a ∷ bytes)))
          (AreBytes-drop n (a ∷ bytes) k) in
      elim go [
        | inl (d, (cs, ts, s)) ↦ inl (
          rw (e, utf8_loop) d,
          (st.point ∷ cs, (st.is_text, ts), st.spelled ∙ ap (λ r. encode st.point ++ r) s),
        )
        | inr (d, nothing) ↦ inr (
          rw (e, utf8_loop) d,
          λ t.
              let (m, e', u) = text-sequence a bytes t in
              let same : m ≡ n = some-inj (sym e' ∙ e) in nothing (rw (← same) u),
        )
      ]
]

-- `is_data_utf8` ends on any bytes, and is true of exactly those that encode code points, none of
-- which is a surrogate, U+FFFE or U+FFFF.
pub is_data_utf8_lem :
    (bytes : List ℕ)
    → AreBytes bytes
    → (b : Bool) × (is_data_utf8 bytes ≡ some b) × ((b ≡ true) ↔ IsEncoded bytes)
unfolding is_data_utf8 Decides
is_data_utf8_lem bytes k = elim (loop-Decides (length bytes) bytes (omega arith) k) [
  | inl (e, text) ↦ (true, e, (λ _. text, λ _. refl))
  | inr (e, nothing) ↦ (false, e, (λ z. absurd (cc z), λ t. absurd (nothing t)))
]
