-- ===== src/Instruction/Accounts.antt =====
-- The accounts of an instruction: what `instruction_validate` accepts, and what the iterator gives.
use ledger_embedded_app.Common.{
  ℕ, zero, suc, ◌+◌, ◌-◌, ◌*◌, ◌%◌, ◌≤◌, ◌<◌, ◌≡◌, ◌↔◌, refl, ◌∙◌, ap, List, [], ◌∷◌, length, drop,
  take, All, get_elem?, some, arith, Outcome, done, bail, fault, lt→ltb, length-drop, leb,
  Bool-cases, ◌⊎◌, inl, inr,
}
use ledger_embedded_app.Parser.{Pointer, Instruction, MessageHeader}
use ledger_embedded_app.Parser.Safety.Messages.{InstructionFits, HeaderFits}
use ledger_embedded_app.Instruction.{
  pubkey_at, validate_accounts, instruction_validate, InstructionAccountsIterator,
  instruction_accounts_iterator_init, instruction_accounts_iterator_next,
  instruction_accounts_iterator_remaining,
}
use mathlib.Core.List.{map}

validate_accounts_sound :
    (left : ℕ) (accounts : Pointer) (n : ℕ)
    → validate_accounts left accounts n ≡ done tt
    → All (λ a. a < n) (take left accounts)
unfolding validate_accounts
validate_accounts_sound zero accounts n h = tt
validate_accounts_sound (suc left) [] n h = tt
validate_accounts_sound (suc left) (a ∷ accounts) n h =
    ground (arith, validate_accounts_sound left accounts n)

validate_accounts_complete :
    (left : ℕ) (accounts : Pointer) (n : ℕ)
    → left ≤ length accounts
    → All (λ a. a < n) (take left accounts)
    → validate_accounts left accounts n ≡ done tt
unfolding validate_accounts
validate_accounts_complete zero accounts n l h = refl
validate_accounts_complete (suc left) [] n l h = absurd (omega arith)
validate_accounts_complete (suc left) (a ∷ accounts) n l h =
    ground (arith, validate_accounts_complete left accounts n)

-- Where an instruction's account indices are there to read, `instruction_validate` succeeds exactly
-- when the program's index and every account index are below the number of account keys.
pub instruction_validate_iff :
    (ix : Instruction) (h : MessageHeader)
    → ix.accounts_length ≤ length ix.accounts
    → (instruction_validate ix h ≡ done tt) ↔ (
        (ix.program_id_index < h.pubkeys_header.pubkeys_length)
        × All (λ a. a < h.pubkeys_header.pubkeys_length) (take ix.accounts_length ix.accounts))
unfolding instruction_validate
instruction_validate_iff ix h l = (
  λ e. (ground arith, validate_accounts_sound ix.accounts_length ix.accounts n (ground arith)),
  λ (i, a). ground (arith, validate_accounts_complete ix.accounts_length ix.accounts n),
)
  where
    n : ℕ
    n = h.pubkeys_header.pubkeys_length

validate_accounts-cases :
    (left : ℕ) (accounts : Pointer) (n : ℕ)
    → left ≤ length accounts
    → (validate_accounts left accounts n ≡ done tt) ⊎ (validate_accounts left accounts n ≡ bail 1)
unfolding validate_accounts
validate_accounts-cases zero accounts n l = inl refl
validate_accounts-cases (suc left) [] n l = absurd (omega arith)
validate_accounts-cases (suc left) (a ∷ accounts) n l = elim (Bool-cases (leb n a)) [
  | inl past ↦ inr (rw past refl)
  | inr before ↦ rw before (validate_accounts-cases left accounts n (omega arith))
]

pub instruction_validate-cases :
    (ix : Instruction) (h : MessageHeader)
    → ix.accounts_length ≤ length ix.accounts
    → (instruction_validate ix h ≡ done tt) ⊎ (instruction_validate ix h ≡ bail 1)
unfolding instruction_validate
instruction_validate-cases ix h l =
    elim (Bool-cases (leb h.pubkeys_header.pubkeys_length ix.program_id_index)) [
      | inl past ↦ inr (rw past refl)
      | inr before ↦
          rw before (
            validate_accounts-cases ix.accounts_length ix.accounts h.pubkeys_header.pubkeys_length
              l)
    ]

get_elem?-drop :
    (k : ℕ) (xs : Pointer) {y : ℕ} {ys : Pointer}
    → drop k xs ≡ y ∷ ys
    → (get_elem? xs k ≡ some y) × (drop (suc k) xs ≡ ys)
get_elem?-drop zero [] e = cc
get_elem?-drop zero (x ∷ xs) e = ground arith
get_elem?-drop (suc k) [] e = cc
get_elem?-drop (suc k) (x ∷ xs) e = get_elem?-drop k xs e

-- `n` calls of the iterator, one after the other, with what each gives.
pub next_n : ℕ → InstructionAccountsIterator → Outcome (List Pointer × InstructionAccountsIterator)
next_n zero it = done ([], it)
next_n (suc n) it = elim (instruction_accounts_iterator_next it) [
  | done (ptr, it') ↦ elim (next_n n it') [
    | done (ptrs, it'') ↦ done (ptr ∷ ptrs, it'')
    | bail e ↦ bail e
    | fault ↦ fault
  ]
  | bail e ↦ bail e
  | fault ↦ fault
]

-- The iterator at position `k`.
abbrev pub at_position : ℕ → InstructionAccountsIterator → InstructionAccountsIterator
at_position k it = record it { current_instruction_account = k }

next-some :
    (it : InstructionAccountsIterator) {y : ℕ} {ys : Pointer}
    → it.current_instruction_account < it.instruction_accounts_length
    → drop it.current_instruction_account it.instruction_accounts ≡ y ∷ ys
    → instruction_accounts_iterator_next it
      ≡ done (
        pubkey_at it.message_header_pubkeys y,
        at_position (it.current_instruction_account + 1) it,
      )
unfolding instruction_accounts_iterator_next
next-some it l e =
    rw (lt→ltb it.current_instruction_account it.instruction_accounts_length l)
      (rw (get_elem?-drop it.current_instruction_account it.instruction_accounts e).0)

next_n_from :
    (xs : Pointer) (n : ℕ) (it : InstructionAccountsIterator)
    → n ≤ length xs
    → drop it.current_instruction_account it.instruction_accounts ≡ xs
    → it.current_instruction_account + n ≤ it.instruction_accounts_length
    → next_n n it
      ≡ done (
        map (pubkey_at it.message_header_pubkeys) (take n xs),
        at_position (it.current_instruction_account + n) it,
      )
unfolding next_n
next_n_from xs zero it l e b = ap (λ k. done ([], at_position k it)) (omega arith)
next_n_from [] (suc n) it l e b = absurd (omega arith)
next_n_from (x ∷ xs) (suc n) it l e b =
    let it' : InstructionAccountsIterator = at_position (it.current_instruction_account + 1) it in
    let step : it.current_instruction_account + 1 ≡ suc it.current_instruction_account =
      omega arith in
    let behind : drop (it.current_instruction_account + 1) it.instruction_accounts ≡ xs =
      ap (λ k. drop k it.instruction_accounts) step
      ∙ (get_elem?-drop it.current_instruction_account it.instruction_accounts e).1 in
    rw (next-some it (omega arith) e, next_n)
      (rw (next_n_from xs n it' (omega arith) behind (omega arith), next_n)
        (ap
          (λ k. done (map (pubkey_at it.message_header_pubkeys) (x ∷ take n xs), at_position k it))
          (omega arith)))

-- On an instruction that `instruction_validate` accepts, behind a header whose account keys are
-- there, the iterator gives for its first `n` calls the keys that the first `n` account indices
-- name, in order, for every `n` up to the number of accounts modulo 256; each of these keys has its
-- 32 bytes to read, no call faults, and the call after the last of them answers 1.
pub iterator_gives_accounts :
    (ix : Instruction) (h : MessageHeader) (n : ℕ)
    → InstructionFits ix
    → HeaderFits h
    → instruction_validate ix h ≡ done tt
    → n ≤ ix.accounts_length % 256
    → let it = instruction_accounts_iterator_init h ix in
      (next_n n it ≡ done (map (pubkey_at h.pubkeys) (take n ix.accounts), at_position n it))
      × All (λ ptr. 32 ≤ length ptr) (map (pubkey_at h.pubkeys) (take n ix.accounts))
      × (instruction_accounts_iterator_remaining (at_position n it) ≡ ix.accounts_length % 256 - n)
      × (instruction_accounts_iterator_next (at_position (ix.accounts_length % 256) it) ≡ bail 1)
unfolding instruction_accounts_iterator_init
iterator_gives_accounts ix h n fi fh v b = (
  next_n_from ix.accounts n it (omega arith) refl (omega arith)
      ∙ ap (λ k. done (map (pubkey_at h.pubkeys) (take n ix.accounts), at_position k it))
          (omega arith),
  keys_there n ix.accounts_length ix.accounts (omega arith) indices,
  unfold instruction_accounts_iterator_remaining in ground arith,
  unfold instruction_accounts_iterator_next in ground arith,
)
  where
    it : InstructionAccountsIterator
    it = instruction_accounts_iterator_init h ix

    indices : All (λ a. a < h.pubkeys_header.pubkeys_length) (take ix.accounts_length ix.accounts)
    indices = ((instruction_validate_iff ix h fi.accounts_in).0 v).1

    keys_there :
        (n m : ℕ) (xs : Pointer)
        → n ≤ m
        → All (λ a. a < h.pubkeys_header.pubkeys_length) (take m xs)
        → All (λ ptr. 32 ≤ length ptr) (map (pubkey_at h.pubkeys) (take n xs))
    keys_there zero m xs l a = tt
    keys_there (suc n) m [] l a = tt
    keys_there (suc n) zero (x ∷ xs) l a = absurd (omega arith)
    keys_there (suc n) (suc m) (x ∷ xs) l a =
        (grind (arith, length-drop (x * 32) h.pubkeys), keys_there n m xs (omega arith) a.1)
