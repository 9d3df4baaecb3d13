-- ===== src/Offchain/Ascii.antt =====
-- `is_data_ascii` on its bytes.
use ledger_embedded_app.Common.{
  ℕ, ◌≤◌, ◌≡◌, inl, inr, true, ◌||◌, List, [], ◌∷◌, arith, ltb, Bool-cases, All,
}
use ledger_embedded_app.Offchain.{is_data_ascii}

abbrev pub IsPrintable : ℕ → Type 0
IsPrintable b = (0x20 ≤ b) × (b ≤ 0x7e)

pub is_data_ascii→All : (bytes : List ℕ) → is_data_ascii bytes ≡ true → All IsPrintable bytes
unfolding is_data_ascii
is_data_ascii→All [] e = tt
is_data_ascii→All (b ∷ bytes) e = elim (Bool-cases (ltb b 0x20 || ltb 0x7e b)) [
  | inl bad ↦ absurd (cc (rw bad at e))
  | inr good ↦ ((ground arith, ground arith), is_data_ascii→All bytes (rw good at e))
]
