-- ===== src/Apdu/Paths.antt =====
-- `read_derivation_path` of src/utils.c stays inside its data.
use ledger_embedded_app.Common.{
  ℕ, zero, suc, ◌+◌, ◌*◌, ◌≤◌, ◌≡◌, refl, List, [], ◌∷◌, Option, none, some, length, arith, Outcome,
  done, bail, lt→ltb, le→ltb, suc-==-zero,
}
use ledger_embedded_app.Parser.{Pointer}
use ledger_embedded_app.Apdu.{read_derivation_path, read_indices, read_u32_be}
use ledger_embedded_app.Apdu.Valid.{DataFits}
use native.Mathlib.Decide.{dec_lt}

-- A path that is read: one to five indices, out of data that is there.
pub data PathEnds (ptr : Option Pointer) (size : ℕ) : Outcome (List ℕ) → Type 0 where
  path_read :
      {path : List ℕ} (buffer : Pointer)
      → ptr ≡ some buffer
      → 1 ≤ length path
      → length path ≤ 5
      → 1 + 4 * length path ≤ size
      → PathEnds ptr size (done path)
  refused : {e : ℕ} → PathEnds ptr size (bail e)

read_indices_ok :
    (n : ℕ) (bs : Pointer)
    → 4 * n ≤ length bs
    → (path : List ℕ) × (read_indices n bs ≡ done path) × (length path ≡ n)
unfolding read_indices
read_indices_ok zero bs h = ([], refl, refl)
read_indices_ok (suc n) [] h = absurd (omega arith)
read_indices_ok (suc n) (a ∷ []) h = absurd (omega arith)
read_indices_ok (suc n) (a ∷ b ∷ []) h = absurd (omega arith)
read_indices_ok (suc n) (a ∷ b ∷ c ∷ []) h = absurd (omega arith)
read_indices_ok (suc n) (a ∷ b ∷ c ∷ d ∷ bs) h =
    let (path, e, l) = read_indices_ok n bs (omega arith) in
    (read_u32_be a b c d ∷ path, rw e, omega arith)

read_path_from :
    (buffer : Pointer) (size : ℕ)
    → size ≤ length buffer
    → PathEnds (some buffer) size (read_derivation_path (some buffer) size)
unfolding read_derivation_path
read_path_from buffer zero f = refused
read_path_from [] (suc size) f = absurd (omega arith)
read_path_from (len ∷ bs) (suc size) f = rw (suc-==-zero size) (elim (dec_lt len 1) [
  | yes small ↦ rw (lt→ltb len 1 small) refused
  | no big ↦ rw (le→ltb len 1 (omega arith)) (elim (dec_lt 5 len) [
    | yes over ↦ rw (lt→ltb 5 len over) refused
    | no within ↦ rw (le→ltb 5 len (omega arith)) (elim (dec_lt (suc size) (1 + 4 * len)) [
      | yes short ↦ rw (lt→ltb (suc size) (1 + 4 * len) short) refused
      | no enough ↦
          let (path, e, l) = read_indices_ok len bs (omega arith) in
          rw (le→ltb (suc size) (1 + 4 * len) (omega arith), e)
            (path_read (len ∷ bs) refl (omega arith) (omega arith) (omega arith))
    ])
  ])
])

-- On data that is there, the path is read inside it, or refused.
pub read_derivation_path_ends :
    (ptr : Option Pointer) (size : ℕ)
    → DataFits ptr size
    → PathEnds ptr size (read_derivation_path ptr size)
read_derivation_path_ends none size f = unfold read_derivation_path in refused
read_derivation_path_ends (some buffer) size f = read_path_from buffer size f
