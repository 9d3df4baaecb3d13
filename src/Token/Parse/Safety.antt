-- ===== src/Token/Parse/Safety.antt =====
-- Memory safety of `parse_rpl_token_instructions`.
use ledger_embedded_app.Common.{ℕ, ◌≡◌, if◌then◌else◌, done, bail, Bool-cases, inl, inr, ◌==◌, ltb}
use ledger_embedded_app.Parser.{
  Parser, Instruction, MessageHeader, OptionTag, option_none, option_some,
}
use ledger_embedded_app.Parser.Safety.{IsWithin}
use ledger_embedded_app.Parser.Safety.Messages.{InstructionFits, HeaderFits}
use ledger_embedded_app.Instruction.{
  InstructionAccountsIterator, instruction_validate, instruction_accounts_iterator_init,
  instruction_accounts_iterator_remaining,
}
use ledger_embedded_app.Instruction.Safety.{
  IsFine, fine, refused, IsFine-bind, IsKey, IsKeyOrNull, IteratorFits, next-IsFine,
  init-IteratorFits, parse_pubkey-IsFine, parse_u64-IsFine, parse_u8-IsFine, parse_option-IsFine,
  enumerator-IsFine,
}
use ledger_embedded_app.Token.{
  RplTokenInfo, RplTokenInstructionKind, token_kinds, token_authority_types, token_max_signers,
  RplTokenSign, single, multi, initialize_mint, initialize_account, initialize_multisig, transfer,
  approve, revoke, set_authority, mint_to, burn, close_account, freeze_account, thaw_account,
  transfer_checked, approve_checked, mint_to_checked, burn_checked, initialize_account2,
  sync_native, initialize_mint_info, initialize_account_info, initialize_account2_info,
  initialize_multisig_info, transfer_info, approve_info, revoke_info, set_owner_info, mint_to_info,
  burn_info, close_account_info, freeze_account_info, thaw_account_info, sync_native_info,
}
use ledger_embedded_app.Token.Parse.{
  is_deprecated, parse_rpl_token_instruction_kind, parse_pubkey_of, account_with_owner,
  parse_rpl_token_multisigners, multisig_of, sign_single, sign_multi, parse_rpl_token_sign,
  parse_token_authority_type, parse_rpl_token_of_kind, parse_rpl_token_instructions,
  parse_initialize_mint_rpl_token_instruction, parse_initialize_account_rpl_token_instruction,
  parse_initialize_multisig_rpl_token_instruction, parse_transfer_rpl_token_instruction,
  parse_approve_rpl_token_instruction, parse_revoke_rpl_token_instruction,
  parse_set_authority_rpl_token_instruction, parse_mint_to_rpl_token_instruction,
  parse_burn_rpl_token_instruction, parse_close_account_rpl_token_instruction,
  parse_freeze_account_rpl_token_instruction, parse_thaw_account_rpl_token_instruction,
  parse_sync_native_rpl_token_instruction,
}

abbrev pub SignFits : RplTokenSign → Type 0
SignFits (single signer) = IsKey signer
SignFits (multi account signers) = IsKey account × IsKey signers.first

-- What an info points to is there to read.
abbrev pub TokenInfoFits : RplTokenInfo → Type 0
TokenInfoFits (initialize_mint_info i) =
    IsKey i.mint_account × IsKey i.mint_authority × IsKeyOrNull i.freeze_authority
TokenInfoFits (initialize_account_info i) =
    IsKey i.token_account × IsKey i.mint_account × IsKey i.owner
TokenInfoFits (initialize_account2_info i) =
    IsKey i.token_account × IsKey i.mint_account × IsKey i.owner
TokenInfoFits (initialize_multisig_info i) = IsKey i.multisig_account × IsKey i.signers.first
TokenInfoFits (transfer_info i) =
    IsKey i.src_account × IsKey i.dest_account × IsKey i.mint_account × SignFits i.sign
TokenInfoFits (approve_info i) =
    IsKey i.token_account × IsKey i.delegate × IsKey i.mint_account × SignFits i.sign
TokenInfoFits (revoke_info i) = IsKey i.token_account × SignFits i.sign
TokenInfoFits (set_owner_info i) = IsKey i.account × IsKeyOrNull i.new_authority × SignFits i.sign
TokenInfoFits (mint_to_info i) = IsKey i.mint_account × IsKey i.token_account × SignFits i.sign
TokenInfoFits (burn_info i) = IsKey i.token_account × IsKey i.mint_account × SignFits i.sign
TokenInfoFits (close_account_info i) =
    IsKey i.token_account × IsKey i.dest_account × SignFits i.sign
TokenInfoFits (freeze_account_info i) =
    IsKey i.token_account × IsKey i.mint_account × SignFits i.sign
TokenInfoFits (thaw_account_info i) = IsKey i.token_account × IsKey i.mint_account × SignFits i.sign
TokenInfoFits (sync_native_info i) = IsKey i.token_account

parse_rpl_token_instruction_kind-IsFine :
    (p : Parser)
    → IsWithin p
    → IsFine (λ r. Unit {0} × IsWithin (r.1)) (parse_rpl_token_instruction_kind p)
unfolding parse_rpl_token_instruction_kind
parse_rpl_token_instruction_kind-IsFine p w = IsFine-bind (parse_u8-IsFine p w) λ (n, q) (_, wq).
    IsFine-bind (enumerator-IsFine token_kinds n) λ k _. elim (Bool-cases (is_deprecated k)) [
      | inl old ↦ rw old (refused (λ e. cc))
      | inr new ↦ rw new (fine (tt, wq))
    ]

parse_token_authority_type-IsFine :
    (p : Parser)
    → IsWithin p
    → IsFine (λ r. Unit {0} × IsWithin (r.1)) (parse_token_authority_type p)
unfolding parse_token_authority_type
parse_token_authority_type-IsFine p w =
    IsFine-bind (parse_u8-IsFine p w)
      λ (n, q) (_, wq). IsFine-bind (enumerator-IsFine token_authority_types n) λ k _. fine (tt, wq)

parse_pubkey_of-IsFine :
    (tag : OptionTag) (p : Parser)
    → IsWithin p
    → IsFine (λ r. IsKeyOrNull (r.0) × IsWithin (r.1)) (parse_pubkey_of tag p)
unfolding parse_pubkey_of
parse_pubkey_of-IsFine option_none p w = fine (tt, w)
parse_pubkey_of-IsFine option_some p w =
    IsFine-bind (parse_pubkey-IsFine p w) λ (_, q) (k, wq). fine (k, wq)

parse_rpl_token_multisigners-IsFine :
    (it : InstructionAccountsIterator)
    → IteratorFits it
    → IsFine (λ r. IsKey (r.0.first) × IteratorFits (r.1)) (parse_rpl_token_multisigners it)
unfolding parse_rpl_token_multisigners
parse_rpl_token_multisigners-IsFine it f =
    elim (Bool-cases (ltb token_max_signers (instruction_accounts_iterator_remaining it))) [
      | inl many ↦ rw many (refused (λ e. cc))
      | inr few ↦ rw few (IsFine-bind (next-IsFine it f) λ (_, it1) (k, f1). fine (k, f1))
    ]

sign_single-IsFine :
    (it : InstructionAccountsIterator)
    → IteratorFits it
    → IsFine (λ r. SignFits (r.0) × IteratorFits (r.1)) (sign_single it)
unfolding sign_single
sign_single-IsFine it f = IsFine-bind (next-IsFine it f) λ (_, it1) (k, f1). fine (k, f1)

sign_multi-IsFine :
    (it : InstructionAccountsIterator)
    → IteratorFits it
    → IsFine (λ r. SignFits (r.0) × IteratorFits (r.1)) (sign_multi it)
unfolding sign_multi
sign_multi-IsFine it f = IsFine-bind (next-IsFine it f) λ (_, it1) (k, f1).
    IsFine-bind (parse_rpl_token_multisigners-IsFine it1 f1) λ (_, it2) (k2, f2). fine ((k, k2), f2)

parse_rpl_token_sign-IsFine :
    (it : InstructionAccountsIterator)
    → IteratorFits it
    → IsFine (λ r. SignFits (r.0) × IteratorFits (r.1)) (parse_rpl_token_sign it)
unfolding parse_rpl_token_sign
parse_rpl_token_sign-IsFine it f =
    let n = instruction_accounts_iterator_remaining it in
    elim (Bool-cases (n == 0)) [
      | inl e ↦ rw e (refused (λ e. cc))
      | inr e0 ↦ elim (Bool-cases (n == 1)) [
        | inl e ↦ rw (e0, e) (sign_single-IsFine it f)
        | inr e ↦ rw (e0, e) (sign_multi-IsFine it f)
      ]
    ]

module _ (p : Parser) (ix : Instruction) (h : MessageHeader) (w : IsWithin p)
    (start : IteratorFits (instruction_accounts_iterator_init h ix)) where
  initialize_mint-IsFine : IsFine TokenInfoFits (parse_rpl_token_of_kind initialize_mint p ix h)
  unfolding parse_rpl_token_of_kind parse_initialize_mint_rpl_token_instruction
  initialize_mint-IsFine =
      IsFine-bind
        (IsFine-bind (parse_u8-IsFine p w) λ (_, q1) (_, w1).
          IsFine-bind (parse_pubkey-IsFine q1 w1) λ (_, q2) (k_a, w2).
            IsFine-bind (parse_option-IsFine q2 w2) λ (tag, q3) (_, w3).
              IsFine-bind (parse_pubkey_of-IsFine tag q3 w3) λ (_, q4) (k_f, w4).
                IsFine-bind (next-IsFine _ start) λ (_, it5) (k_m, f5).
                  IsFine-bind (next-IsFine it5 f5) λ (_, it6) (_, f6). fine (k_m, k_a, k_f))
        λ _ fits. fine fits

  account_with_owner-IsFine :
      IsFine
        (λ i. IsKey i.token_account × IsKey i.mint_account × IsKey i.owner)
        (account_with_owner ix h)
  unfolding account_with_owner
  account_with_owner-IsFine =
      (IsFine-bind (next-IsFine _ start) λ (_, it1) (k_t, f1).
        IsFine-bind (next-IsFine it1 f1) λ (_, it2) (k_m, f2).
          IsFine-bind (next-IsFine it2 f2) λ (_, it3) (k_o, f3).
            IsFine-bind (next-IsFine it3 f3) λ (_, it4) (_, f4). fine (k_t, k_m, k_o))

  initialize_account-IsFine :
      IsFine TokenInfoFits (parse_rpl_token_of_kind initialize_account p ix h)
  unfolding parse_rpl_token_of_kind parse_initialize_account_rpl_token_instruction
  initialize_account-IsFine = elim (Bool-cases (ix.accounts_length == 4)) [
    | inl four ↦ rw four (IsFine-bind account_with_owner-IsFine λ _ fits. fine fits)
    | inr other ↦ rw other (refused (λ e. cc))
  ]

  initialize_account2-IsFine :
      IsFine TokenInfoFits (parse_rpl_token_of_kind initialize_account2 p ix h)
  unfolding parse_rpl_token_of_kind parse_initialize_account_rpl_token_instruction
  initialize_account2-IsFine =
      IsFine-bind
        (IsFine-bind (next-IsFine _ start) λ (_, it1) (k_t, f1).
          IsFine-bind (next-IsFine it1 f1) λ (_, it2) (k_m, f2).
            IsFine-bind (next-IsFine it2 f2) λ (_, it3) (_, f3).
              IsFine-bind (parse_pubkey-IsFine p w) λ (_, q4) (k_o, w4). fine (k_t, k_m, k_o))
        λ _ fits. fine fits

  multisig_of-IsFine :
      (m : ℕ) → IsFine (λ i. IsKey i.multisig_account × IsKey i.signers.first) (multisig_of m ix h)
  unfolding multisig_of
  multisig_of-IsFine m =
      (IsFine-bind (next-IsFine _ start) λ (_, it1) (k_a, f1).
        IsFine-bind (next-IsFine it1 f1) λ (_, it2) (_, f2).
          IsFine-bind (parse_rpl_token_multisigners-IsFine it2 f2)
            λ (_, it3) (k_f, f3). fine (k_a, k_f))

  initialize_multisig-IsFine :
      IsFine TokenInfoFits (parse_rpl_token_of_kind initialize_multisig p ix h)
  unfolding parse_rpl_token_of_kind parse_initialize_multisig_rpl_token_instruction
  initialize_multisig-IsFine =
      IsFine-bind (IsFine-bind (parse_u8-IsFine p w) λ (m, q) _. small_multisig m)
        λ _ fits. fine fits
    where
      small_multisig :
          (m : ℕ)
          → IsFine
              (λ i. IsKey i.multisig_account × IsKey i.signers.first)
              (if ltb token_max_signers m then bail 1 else multisig_of m ix h)
      small_multisig m = elim (Bool-cases (ltb token_max_signers m)) [
        | inl many ↦ rw many (refused (λ e. cc))
        | inr few ↦ rw few (multisig_of-IsFine m)
      ]

  transfer_checked-IsFine : IsFine TokenInfoFits (parse_rpl_token_of_kind transfer_checked p ix h)
  unfolding parse_rpl_token_of_kind parse_transfer_rpl_token_instruction
  transfer_checked-IsFine =
      IsFine-bind
        (IsFine-bind (parse_u64-IsFine p w) λ (_, q1) (_, w1).
          IsFine-bind (parse_u8-IsFine q1 w1) λ (_, q2) (_, w2).
            IsFine-bind (next-IsFine _ start) λ (_, it3) (k_s, f3).
              IsFine-bind (next-IsFine it3 f3) λ (_, it4) (k_m, f4).
                IsFine-bind (next-IsFine it4 f4) λ (_, it5) (k_d, f5).
                  IsFine-bind (parse_rpl_token_sign-IsFine it5 f5)
                    λ (_, it6) (k_sign, f6). fine (k_s, k_d, k_m, k_sign))
        λ _ fits. fine fits

  approve_checked-IsFine : IsFine TokenInfoFits (parse_rpl_token_of_kind approve_checked p ix h)
  unfolding parse_rpl_token_of_kind parse_approve_rpl_token_instruction
  approve_checked-IsFine =
      IsFine-bind
        (IsFine-bind (parse_u64-IsFine p w) λ (_, q1) (_, w1).
          IsFine-bind (parse_u8-IsFine q1 w1) λ (_, q2) (_, w2).
            IsFine-bind (next-IsFine _ start) λ (_, it3) (k_t, f3).
              IsFine-bind (next-IsFine it3 f3) λ (_, it4) (k_m, f4).
                IsFine-bind (next-IsFine it4 f4) λ (_, it5) (k_d, f5).
                  IsFine-bind (parse_rpl_token_sign-IsFine it5 f5)
                    λ (_, it6) (k_sign, f6). fine (k_t, k_d, k_m, k_sign))
        λ _ fits. fine fits

  revoke-IsFine : IsFine TokenInfoFits (parse_rpl_token_of_kind revoke p ix h)
  unfolding parse_rpl_token_of_kind parse_revoke_rpl_token_instruction
  revoke-IsFine =
      IsFine-bind
        (IsFine-bind (next-IsFine _ start) λ (_, it1) (k_t, f1).
          IsFine-bind (parse_rpl_token_sign-IsFine it1 f1)
            λ (_, it2) (k_sign, f2). fine (k_t, k_sign))
        λ _ fits. fine fits

  set_authority-IsFine : IsFine TokenInfoFits (parse_rpl_token_of_kind set_authority p ix h)
  unfolding parse_rpl_token_of_kind parse_set_authority_rpl_token_instruction
  set_authority-IsFine =
      IsFine-bind
        (IsFine-bind (next-IsFine _ start) λ (_, it1) (k_a, f1).
          IsFine-bind (parse_token_authority_type-IsFine p w) λ (_, q2) (_, w2).
            IsFine-bind (parse_option-IsFine q2 w2) λ (tag, q3) (_, w3).
              IsFine-bind (parse_pubkey_of-IsFine tag q3 w3) λ (_, q4) (k_n, w4).
                IsFine-bind (parse_rpl_token_sign-IsFine it1 f1)
                  λ (_, it5) (k_sign, f5). fine (k_a, k_n, k_sign))
        λ _ fits. fine fits

  mint_to_checked-IsFine : IsFine TokenInfoFits (parse_rpl_token_of_kind mint_to_checked p ix h)
  unfolding parse_rpl_token_of_kind parse_mint_to_rpl_token_instruction
  mint_to_checked-IsFine =
      IsFine-bind
        (IsFine-bind (parse_u64-IsFine p w) λ (_, q1) (_, w1).
          IsFine-bind (parse_u8-IsFine q1 w1) λ (_, q2) (_, w2).
            IsFine-bind (next-IsFine _ start) λ (_, it3) (k_m, f3).
              IsFine-bind (next-IsFine it3 f3) λ (_, it4) (k_t, f4).
                IsFine-bind (parse_rpl_token_sign-IsFine it4 f4)
                  λ (_, it5) (k_sign, f5). fine (k_m, k_t, k_sign))
        λ _ fits. fine fits

  burn_checked-IsFine : IsFine TokenInfoFits (parse_rpl_token_of_kind burn_checked p ix h)
  unfolding parse_rpl_token_of_kind parse_burn_rpl_token_instruction
  burn_checked-IsFine =
      IsFine-bind
        (IsFine-bind (parse_u64-IsFine p w) λ (_, q1) (_, w1).
          IsFine-bind (parse_u8-IsFine q1 w1) λ (_, q2) (_, w2).
            IsFine-bind (next-IsFine _ start) λ (_, it3) (k_t, f3).
              IsFine-bind (next-IsFine it3 f3) λ (_, it4) (k_m, f4).
                IsFine-bind (parse_rpl_token_sign-IsFine it4 f4)
                  λ (_, it5) (k_sign, f5). fine (k_t, k_m, k_sign))
        λ _ fits. fine fits

  close_account-IsFine : IsFine TokenInfoFits (parse_rpl_token_of_kind close_account p ix h)
  unfolding parse_rpl_token_of_kind parse_close_account_rpl_token_instruction
  close_account-IsFine =
      IsFine-bind
        (IsFine-bind (next-IsFine _ start) λ (_, it1) (k_t, f1).
          IsFine-bind (next-IsFine it1 f1) λ (_, it2) (k_o, f2).
            IsFine-bind (parse_rpl_token_sign-IsFine it2 f2)
              λ (_, it3) (k_sign, f3). fine (k_t, k_o, k_sign))
        λ _ fits. fine fits

  freeze_account-IsFine : IsFine TokenInfoFits (parse_rpl_token_of_kind freeze_account p ix h)
  unfolding parse_rpl_token_of_kind parse_freeze_account_rpl_token_instruction
  freeze_account-IsFine =
      IsFine-bind
        (IsFine-bind (next-IsFine _ start) λ (_, it1) (k_t, f1).
          IsFine-bind (next-IsFine it1 f1) λ (_, it2) (k_o, f2).
            IsFine-bind (parse_rpl_token_sign-IsFine it2 f2)
              λ (_, it3) (k_sign, f3). fine (k_t, k_o, k_sign))
        λ _ fits. fine fits

  thaw_account-IsFine : IsFine TokenInfoFits (parse_rpl_token_of_kind thaw_account p ix h)
  unfolding parse_rpl_token_of_kind parse_thaw_account_rpl_token_instruction
  thaw_account-IsFine =
      IsFine-bind
        (IsFine-bind (next-IsFine _ start) λ (_, it1) (k_t, f1).
          IsFine-bind (next-IsFine it1 f1) λ (_, it2) (k_o, f2).
            IsFine-bind (parse_rpl_token_sign-IsFine it2 f2)
              λ (_, it3) (k_sign, f3). fine (k_t, k_o, k_sign))
        λ _ fits. fine fits

  sync_native-IsFine : IsFine TokenInfoFits (parse_rpl_token_of_kind sync_native p ix h)
  unfolding parse_rpl_token_of_kind parse_sync_native_rpl_token_instruction
  sync_native-IsFine =
      IsFine-bind (IsFine-bind (next-IsFine _ start) λ (_, it1) (k_t, f1). fine k_t)
        λ _ fits. fine fits

  of_kind-IsFine :
      (kind : RplTokenInstructionKind) → IsFine TokenInfoFits (parse_rpl_token_of_kind kind p ix h)
  unfolding parse_rpl_token_of_kind
  of_kind-IsFine initialize_mint = initialize_mint-IsFine
  of_kind-IsFine initialize_account = initialize_account-IsFine
  of_kind-IsFine initialize_multisig = initialize_multisig-IsFine
  of_kind-IsFine transfer = refused (λ e. cc)
  of_kind-IsFine approve = refused (λ e. cc)
  of_kind-IsFine revoke = revoke-IsFine
  of_kind-IsFine set_authority = set_authority-IsFine
  of_kind-IsFine mint_to = refused (λ e. cc)
  of_kind-IsFine burn = refused (λ e. cc)
  of_kind-IsFine close_account = close_account-IsFine
  of_kind-IsFine freeze_account = freeze_account-IsFine
  of_kind-IsFine thaw_account = thaw_account-IsFine
  of_kind-IsFine transfer_checked = transfer_checked-IsFine
  of_kind-IsFine approve_checked = approve_checked-IsFine
  of_kind-IsFine mint_to_checked = mint_to_checked-IsFine
  of_kind-IsFine burn_checked = burn_checked-IsFine
  of_kind-IsFine initialize_account2 = initialize_account2-IsFine
  of_kind-IsFine sync_native = sync_native-IsFine

-- On an instruction whose bytes are there and that `instruction_validate` accepts, behind a header
-- whose account keys are there, `parse_rpl_token_instructions` accesses nothing that is not there: it
-- answers with a nonzero code, or gives an info whose every key has 32 bytes to read, a key that may
-- be null if it is not.
pub parse_rpl_token_instructions_safe :
    (ix : Instruction) (h : MessageHeader)
    → InstructionFits ix
    → HeaderFits h
    → instruction_validate ix h ≡ done tt
    → IsFine TokenInfoFits (parse_rpl_token_instructions ix h)
unfolding parse_rpl_token_instructions
parse_rpl_token_instructions_safe ix h fi fh v =
    let p : Parser = record { buffer = ix.data_bytes; buffer_length = ix.data_length } in
    IsFine-bind (parse_rpl_token_instruction_kind-IsFine p (fi.data_in))
      λ (k, q) (_, wq). of_kind-IsFine q ix h wq (init-IteratorFits ix h fi fh v) k
