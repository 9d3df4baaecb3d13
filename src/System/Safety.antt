-- ===== src/System/Safety.antt =====
-- Memory safety of `parse_system_instructions`: on an instruction that `instruction_validate` accepts
-- it ends with an info whose keys are there to read, or with a nonzero code.
use ledger_embedded_app.Common.{ℕ, ◌≡◌, done, get_elem?, Option-cases, inl, inr}
use ledger_embedded_app.Parser.{Parser, Instruction, MessageHeader}
use ledger_embedded_app.Parser.Safety.{IsWithin, parse_u32_safe}
use ledger_embedded_app.Parser.Safety.Messages.{InstructionFits, HeaderFits}
use ledger_embedded_app.Instruction.{instruction_validate, instruction_accounts_iterator_init}
use ledger_embedded_app.System.{
  SystemInfo, transfer_info, create_account_info, create_account_with_seed_info, advance_nonce_info,
  initialize_nonce_info, withdraw_nonce_info, authorize_nonce_info, allocate_info, assign_info,
  allocate_with_seed_info, create_account, assign, transfer, create_account_with_seed,
  advance_nonce_account, withdraw_nonce_account, initialize_nonce_account, authorize_nonce_account,
  allocate, allocate_with_seed, assign_with_seed, SystemInstructionKind, system_kind,
  parse_system_of_kind, parse_system_instructions, parse_system_instruction_kind, system_kinds,
  parse_system_transfer_instruction, parse_system_create_account_instruction,
  parse_system_create_account_with_seed_instruction, parse_system_advance_nonce_account_instruction,
  parse_system_initialize_nonce_account_instruction,
  parse_system_withdraw_nonce_account_instruction, parse_system_authorize_nonce_account_instruction,
  parse_system_allocate_instruction, parse_system_assign_instruction,
  parse_system_allocate_with_seed_instruction,
}
use ledger_embedded_app.Instruction.Safety.{
  IsFine, fine, refused, IsFine-bind, Ends-IsFine, IsKey, IsString, IteratorFits, next-IsFine,
  init-IteratorFits, parse_pubkey-IsFine, parse_u64-IsFine, parse_sized_string-IsFine,
}

-- What an info points to is there to read.
abbrev pub InfoFits : SystemInfo → Type 0
InfoFits (transfer_info i) = IsKey i.from × IsKey i.to
InfoFits (create_account_info i) = IsKey i.from × IsKey i.to
InfoFits (create_account_with_seed_info i) =
    IsKey i.from × IsKey i.to × IsKey i.base × IsString i.seed
InfoFits (advance_nonce_info i) = IsKey i.account × IsKey i.authority
InfoFits (initialize_nonce_info i) = IsKey i.account × IsKey i.authority
InfoFits (withdraw_nonce_info i) = IsKey i.account × IsKey i.authority × IsKey i.to
InfoFits (authorize_nonce_info i) = IsKey i.account × IsKey i.authority × IsKey i.new_authority
InfoFits (allocate_info i) = IsKey i.account
InfoFits (assign_info i) = IsKey i.account × IsKey i.program_id
InfoFits (allocate_with_seed_info i) =
    IsKey i.account × IsKey i.base × IsString i.seed × IsKey i.program_id

module _ (p : Parser) (ix : Instruction) (h : MessageHeader) (w : IsWithin p)
    (start : IteratorFits (instruction_accounts_iterator_init h ix)) where
  transfer-IsFine : IsFine InfoFits (parse_system_of_kind transfer p ix h)
  unfolding parse_system_of_kind parse_system_transfer_instruction
  transfer-IsFine =
      IsFine-bind
        (IsFine-bind (next-IsFine _ start) λ (a1, it1) (k_from, f1).
          IsFine-bind (next-IsFine it1 f1) λ (a2, it2) (k_to, f2).
            IsFine-bind (parse_u64-IsFine p w) λ (v3, q3) (_, w3). fine (k_from, k_to))
        λ _ fits. fine fits

  create_account-IsFine : IsFine InfoFits (parse_system_of_kind create_account p ix h)
  unfolding parse_system_of_kind parse_system_create_account_instruction
  create_account-IsFine =
      IsFine-bind
        (IsFine-bind (next-IsFine _ start) λ (a1, it1) (k_from, f1).
          IsFine-bind (next-IsFine it1 f1) λ (a2, it2) (k_to, f2).
            IsFine-bind (parse_u64-IsFine p w) λ (v3, q3) (_, w3). fine (k_from, k_to))
        λ _ fits. fine fits

  create_account_with_seed-IsFine :
      IsFine InfoFits (parse_system_of_kind create_account_with_seed p ix h)
  unfolding parse_system_of_kind parse_system_create_account_with_seed_instruction
  create_account_with_seed-IsFine =
      IsFine-bind
        (IsFine-bind (next-IsFine _ start) λ (a1, it1) (k_from, f1).
          IsFine-bind (next-IsFine it1 f1) λ (a2, it2) (k_to, f2).
            IsFine-bind (parse_pubkey-IsFine p w) λ (v3, q3) (k_base, w3).
              IsFine-bind (parse_sized_string-IsFine q3 w3) λ (v4, q4) (k_seed, w4).
                IsFine-bind (parse_u64-IsFine q4 w4)
                  λ (v5, q5) (_, w5). fine (k_from, k_to, k_base, k_seed))
        λ _ fits. fine fits

  advance_nonce-IsFine : IsFine InfoFits (parse_system_of_kind advance_nonce_account p ix h)
  unfolding parse_system_of_kind parse_system_advance_nonce_account_instruction
  advance_nonce-IsFine =
      IsFine-bind
        (IsFine-bind (next-IsFine _ start) λ (a1, it1) (k_account, f1).
          IsFine-bind (next-IsFine it1 f1) λ (_, it2) (_, f2).
            IsFine-bind (next-IsFine it2 f2)
              λ (a3, it3) (k_authority, f3). fine (k_account, k_authority))
        λ _ fits. fine fits

  initialize_nonce-IsFine : IsFine InfoFits (parse_system_of_kind initialize_nonce_account p ix h)
  unfolding parse_system_of_kind parse_system_initialize_nonce_account_instruction
  initialize_nonce-IsFine =
      IsFine-bind
        (IsFine-bind (next-IsFine _ start) λ (a1, it1) (k_account, f1).
          IsFine-bind (next-IsFine it1 f1) λ (_, it2) (_, f2).
            IsFine-bind (next-IsFine it2 f2) λ (_, it3) (_, f3).
              IsFine-bind (parse_pubkey-IsFine p w)
                λ (v4, q4) (k_authority, w4). fine (k_account, k_authority))
        λ _ fits. fine fits

  withdraw_nonce-IsFine : IsFine InfoFits (parse_system_of_kind withdraw_nonce_account p ix h)
  unfolding parse_system_of_kind parse_system_withdraw_nonce_account_instruction
  withdraw_nonce-IsFine =
      IsFine-bind
        (IsFine-bind (next-IsFine _ start) λ (a1, it1) (k_account, f1).
          IsFine-bind (next-IsFine it1 f1) λ (a2, it2) (k_to, f2).
            IsFine-bind (next-IsFine it2 f2) λ (_, it3) (_, f3).
              IsFine-bind (next-IsFine it3 f3) λ (_, it4) (_, f4).
                IsFine-bind (next-IsFine it4 f4) λ (a5, it5) (k_authority, f5).
                  IsFine-bind (parse_u64-IsFine p w)
                    λ (v6, q6) (_, w6). fine (k_account, k_authority, k_to))
        λ _ fits. fine fits

  authorize_nonce-IsFine : IsFine InfoFits (parse_system_of_kind authorize_nonce_account p ix h)
  unfolding parse_system_of_kind parse_system_authorize_nonce_account_instruction
  authorize_nonce-IsFine =
      IsFine-bind
        (IsFine-bind (next-IsFine _ start) λ (a1, it1) (k_account, f1).
          IsFine-bind (next-IsFine it1 f1) λ (a2, it2) (k_authority, f2).
            IsFine-bind (parse_pubkey-IsFine p w)
              λ (v3, q3) (k_new_authority, w3). fine (k_account, k_authority, k_new_authority))
        λ _ fits. fine fits

  allocate-IsFine : IsFine InfoFits (parse_system_of_kind allocate p ix h)
  unfolding parse_system_of_kind parse_system_allocate_instruction
  allocate-IsFine =
      IsFine-bind
        (IsFine-bind (next-IsFine _ start) λ (a1, it1) (k_account, f1).
          IsFine-bind (parse_u64-IsFine p w) λ (v2, q2) (_, w2). fine k_account)
        λ _ fits. fine fits

  assign-IsFine : IsFine InfoFits (parse_system_of_kind assign p ix h)
  unfolding parse_system_of_kind parse_system_assign_instruction
  assign-IsFine =
      IsFine-bind
        (IsFine-bind (next-IsFine _ start) λ (a1, it1) (k_account, f1).
          IsFine-bind (parse_pubkey-IsFine p w)
            λ (v2, q2) (k_program_id, w2). fine (k_account, k_program_id))
        λ _ fits. fine fits

  allocate_with_seed-IsFine : IsFine InfoFits (parse_system_of_kind allocate_with_seed p ix h)
  unfolding parse_system_of_kind parse_system_allocate_with_seed_instruction
  allocate_with_seed-IsFine =
      IsFine-bind
        (IsFine-bind (next-IsFine _ start) λ (a1, it1) (k_account, f1).
          IsFine-bind (next-IsFine it1 f1) λ (_, it2) (_, f2).
            IsFine-bind (parse_pubkey-IsFine p w) λ (v3, q3) (k_base, w3).
              IsFine-bind (parse_sized_string-IsFine q3 w3) λ (v4, q4) (k_seed, w4).
                IsFine-bind (parse_u64-IsFine q4 w4) λ (v5, q5) (_, w5).
                  IsFine-bind (parse_pubkey-IsFine q5 w5)
                    λ (v6, q6) (k_program_id, w6). fine (k_account, k_base, k_seed, k_program_id))
        λ _ fits. fine fits

  of_kind-IsFine :
      (kind : SystemInstructionKind) → IsFine InfoFits (parse_system_of_kind kind p ix h)
  unfolding parse_system_of_kind
  of_kind-IsFine create_account = create_account-IsFine
  of_kind-IsFine assign = assign-IsFine
  of_kind-IsFine transfer = transfer-IsFine
  of_kind-IsFine create_account_with_seed = create_account_with_seed-IsFine
  of_kind-IsFine advance_nonce_account = advance_nonce-IsFine
  of_kind-IsFine withdraw_nonce_account = withdraw_nonce-IsFine
  of_kind-IsFine initialize_nonce_account = initialize_nonce-IsFine
  of_kind-IsFine authorize_nonce_account = authorize_nonce-IsFine
  of_kind-IsFine allocate = allocate-IsFine
  of_kind-IsFine allocate_with_seed = allocate_with_seed-IsFine
  of_kind-IsFine assign_with_seed = refused (λ e. cc)

system_kind-IsFine : (n : ℕ) → IsFine (λ k. Unit {0}) (system_kind n)
unfolding system_kind
system_kind-IsFine n = elim (Option-cases (get_elem? system_kinds n)) [
  | inl e ↦ rw e (refused (λ e. cc))
  | inr (k, e) ↦ rw e (fine tt)
]

kind-IsFine :
    (p : Parser)
    → IsWithin p
    → IsFine (λ r. Unit {0} × IsWithin (r.1)) (parse_system_instruction_kind p)
unfolding parse_system_instruction_kind
kind-IsFine p w =
    IsFine-bind (Ends-IsFine w (parse_u32_safe p w))
      λ (n, q) (_, wq). IsFine-bind (system_kind-IsFine n) λ k _. fine (tt, wq)

-- On an instruction whose bytes are there and that `instruction_validate` accepts, behind a header
-- whose account keys are there, `parse_system_instructions` accesses nothing that is not there: it
-- answers with a nonzero code, or gives an info whose every key has 32 bytes to read and whose every
-- seed has the bytes that its length announces.
pub parse_system_instructions_safe :
    (ix : Instruction) (h : MessageHeader)
    → InstructionFits ix
    → HeaderFits h
    → instruction_validate ix h ≡ done tt
    → IsFine InfoFits (parse_system_instructions ix h)
unfolding parse_system_instructions
parse_system_instructions_safe ix h fi fh v =
    let p : Parser = record { buffer = ix.data_bytes; buffer_length = ix.data_length } in
    IsFine-bind (kind-IsFine p (fi.data_in))
      λ (k, q) (_, wq). of_kind-IsFine q ix h wq (init-IteratorFits ix h fi fh v) k
