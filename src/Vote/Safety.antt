-- ===== src/Vote/Safety.antt =====
-- Memory safety of `parse_vote_instructions`.
use ledger_embedded_app.Common.{◌≡◌, done, inl, inr, Bool-cases, ◌==◌, ◌+◌}
use ledger_embedded_app.Parser.{Parser, Instruction, MessageHeader, pubkey_size}
use ledger_embedded_app.Parser.Safety.{IsWithin}
use ledger_embedded_app.Parser.Safety.Messages.{InstructionFits, HeaderFits}
use ledger_embedded_app.Instruction.{
  instruction_validate, InstructionAccountsIterator, instruction_accounts_iterator_init,
}
use ledger_embedded_app.Instruction.Safety.{
  IsFine, fine, refused, IsFine-bind, IsKey, IteratorFits, next-IsFine, init-IteratorFits,
  parse_pubkey-IsFine, parse_u64-IsFine, parse_u8-IsFine, parse_u32-IsFine, enumerator-IsFine,
}
use ledger_embedded_app.Vote.{
  VoteInfo, initialize_info, withdraw_info, authorize_info, authorize_checked_info,
  update_validator_id_info, update_commission_info, VoteInstructionKind, vote_initialize,
  vote_authorize, vote_vote, vote_withdraw, vote_update_validator_id, vote_update_commission,
  vote_switch_vote, vote_authorize_checked, vote_kinds, vote_authorizes,
  parse_vote_instruction_kind, parse_vote_authorize, parse_vote_initialize_instruction,
  parse_vote_withdraw_instruction, parse_vote_authorize_instruction,
  parse_vote_authorize_checked_instruction, parse_new_validator_id,
  parse_vote_update_validator_id_instruction, parse_vote_update_commission_instruction,
  parse_vote_of_kind, parse_vote_instructions,
}

-- What an info points to is there to read.
abbrev pub VoteInfoFits : VoteInfo → Type 0
VoteInfoFits (initialize_info i) =
    IsKey i.account
    × IsKey i.vote_init.validator_id
    × IsKey i.vote_init.vote_authority
    × IsKey i.vote_init.withdraw_authority
VoteInfoFits (withdraw_info i) = IsKey i.account × IsKey i.authority × IsKey i.to
VoteInfoFits (authorize_info i) = IsKey i.account × IsKey i.authority × IsKey i.new_authority
VoteInfoFits (authorize_checked_info i) =
    IsKey i.account × IsKey i.authority × IsKey i.new_authority
VoteInfoFits (update_validator_id_info i) =
    IsKey i.account × IsKey i.authority × IsKey i.new_validator_id
VoteInfoFits (update_commission_info i) = IsKey i.account × IsKey i.authority

parse_vote_instruction_kind-IsFine :
    (p : Parser)
    → IsWithin p
    → IsFine (λ r. Unit {0} × IsWithin (r.1)) (parse_vote_instruction_kind p)
unfolding parse_vote_instruction_kind
parse_vote_instruction_kind-IsFine p w =
    IsFine-bind (parse_u32-IsFine p w)
      λ (n, q) (_, wq). IsFine-bind (enumerator-IsFine vote_kinds n) λ k _. fine (tt, wq)

parse_vote_authorize-IsFine :
    (p : Parser) → IsWithin p → IsFine (λ r. Unit {0} × IsWithin (r.1)) (parse_vote_authorize p)
unfolding parse_vote_authorize
parse_vote_authorize-IsFine p w =
    IsFine-bind (parse_u32-IsFine p w)
      λ (n, q) (_, wq). IsFine-bind (enumerator-IsFine vote_authorizes n) λ k _. fine (tt, wq)

parse_new_validator_id-IsFine :
    (p : Parser) (ix : Instruction) (it : InstructionAccountsIterator)
    → IsWithin p
    → IteratorFits it
    → IsFine (λ r. IsKey (r.0) × IteratorFits (r.1)) (parse_new_validator_id p ix it)
unfolding parse_new_validator_id
parse_new_validator_id-IsFine p ix it w f = elim (Bool-cases (ix.data_length == 4)) [
  | inl new ↦ rw new (next-IsFine it f)
  | inr old ↦ elim (Bool-cases (ix.data_length == 4 + pubkey_size)) [
    | inl fits ↦
        rw (old, fits)
          (IsFine-bind (parse_pubkey-IsFine p w)
            λ (k, q) (kk, _). IsFine-bind (next-IsFine it f) λ (_, it1) (_, f1). fine (kk, f1))
    | inr other ↦ rw (old, other) (refused (λ e. cc))
  ]
]

module _ (p : Parser) (ix : Instruction) (h : MessageHeader) (w : IsWithin p)
    (start : IteratorFits (instruction_accounts_iterator_init h ix)) where
  initialize-IsFine : IsFine VoteInfoFits (parse_vote_of_kind vote_initialize p ix h)
  unfolding parse_vote_of_kind parse_vote_initialize_instruction
  initialize-IsFine =
      IsFine-bind
        (IsFine-bind (next-IsFine _ start) λ (_, it1) (k_account, f1).
          IsFine-bind (next-IsFine it1 f1) λ (_, it2) (_, f2).
            IsFine-bind (next-IsFine it2 f2) λ (_, it3) (_, f3).
              IsFine-bind (parse_pubkey-IsFine p w) λ (_, q4) (k_v, w4).
                IsFine-bind (parse_pubkey-IsFine q4 w4) λ (_, q5) (k_a, w5).
                  IsFine-bind (parse_pubkey-IsFine q5 w5) λ (_, q6) (k_w, w6).
                    IsFine-bind (parse_u8-IsFine q6 w6)
                      λ (_, q7) (_, w7). fine (k_account, k_v, k_a, k_w))
        λ _ fits. fine fits

  withdraw-IsFine : IsFine VoteInfoFits (parse_vote_of_kind vote_withdraw p ix h)
  unfolding parse_vote_of_kind parse_vote_withdraw_instruction
  withdraw-IsFine =
      IsFine-bind
        (IsFine-bind (next-IsFine _ start) λ (_, it1) (k_account, f1).
          IsFine-bind (next-IsFine it1 f1) λ (_, it2) (k_to, f2).
            IsFine-bind (next-IsFine it2 f2) λ (_, it3) (k_authority, f3).
              IsFine-bind (parse_u64-IsFine p w)
                λ (_, q4) (_, w4). fine (k_account, k_authority, k_to))
        λ _ fits. fine fits

  authorize-IsFine : IsFine VoteInfoFits (parse_vote_of_kind vote_authorize p ix h)
  unfolding parse_vote_of_kind parse_vote_authorize_instruction
  authorize-IsFine =
      IsFine-bind
        (IsFine-bind (next-IsFine _ start) λ (_, it1) (k_account, f1).
          IsFine-bind (next-IsFine it1 f1) λ (_, it2) (_, f2).
            IsFine-bind (next-IsFine it2 f2) λ (_, it3) (k_authority, f3).
              IsFine-bind (parse_pubkey-IsFine p w) λ (_, q4) (k_new, w4).
                IsFine-bind (parse_vote_authorize-IsFine q4 w4)
                  λ (_, q5) (_, w5). fine (k_account, k_authority, k_new))
        λ _ fits. fine fits

  authorize_checked-IsFine : IsFine VoteInfoFits (parse_vote_of_kind vote_authorize_checked p ix h)
  unfolding parse_vote_of_kind parse_vote_authorize_checked_instruction
  authorize_checked-IsFine =
      IsFine-bind
        (IsFine-bind (next-IsFine _ start) λ (_, it1) (k_account, f1).
          IsFine-bind (next-IsFine it1 f1) λ (_, it2) (_, f2).
            IsFine-bind (next-IsFine it2 f2) λ (_, it3) (k_authority, f3).
              IsFine-bind (next-IsFine it3 f3) λ (_, it4) (k_new, f4).
                IsFine-bind (parse_vote_authorize-IsFine p w)
                  λ (_, q5) (_, w5). fine (k_account, k_authority, k_new))
        λ _ fits. fine fits

  update_validator_id-IsFine :
      IsFine VoteInfoFits (parse_vote_of_kind vote_update_validator_id p ix h)
  unfolding parse_vote_of_kind parse_vote_update_validator_id_instruction
  update_validator_id-IsFine =
      IsFine-bind
        (IsFine-bind (next-IsFine _ start) λ (_, it1) (k_account, f1).
          IsFine-bind (parse_new_validator_id-IsFine p ix it1 w f1) λ (_, it2) (k_new, f2).
            IsFine-bind (next-IsFine it2 f2)
              λ (_, it3) (k_authority, f3). fine (k_account, k_authority, k_new))
        λ _ fits. fine fits

  update_commission-IsFine : IsFine VoteInfoFits (parse_vote_of_kind vote_update_commission p ix h)
  unfolding parse_vote_of_kind parse_vote_update_commission_instruction
  update_commission-IsFine =
      IsFine-bind
        (IsFine-bind (next-IsFine _ start) λ (_, it1) (k_account, f1).
          IsFine-bind (next-IsFine it1 f1) λ (_, it2) (k_authority, f2).
            IsFine-bind (parse_u8-IsFine p w) λ (_, q3) (_, w3). fine (k_account, k_authority))
        λ _ fits. fine fits

  of_kind-IsFine :
      (kind : VoteInstructionKind) → IsFine VoteInfoFits (parse_vote_of_kind kind p ix h)
  unfolding parse_vote_of_kind
  of_kind-IsFine vote_initialize = initialize-IsFine
  of_kind-IsFine vote_withdraw = withdraw-IsFine
  of_kind-IsFine vote_authorize = authorize-IsFine
  of_kind-IsFine vote_authorize_checked = authorize_checked-IsFine
  of_kind-IsFine vote_update_validator_id = update_validator_id-IsFine
  of_kind-IsFine vote_update_commission = update_commission-IsFine
  of_kind-IsFine vote_vote = refused (λ e. cc)
  of_kind-IsFine vote_switch_vote = refused (λ e. cc)

-- On an instruction whose bytes are there and that `instruction_validate` accepts, behind a header
-- whose account keys are there, `parse_vote_instructions` accesses nothing that is not there: it
-- answers with a nonzero code, or gives an info whose every key has 32 bytes to read.
pub parse_vote_instructions_safe :
    (ix : Instruction) (h : MessageHeader)
    → InstructionFits ix
    → HeaderFits h
    → instruction_validate ix h ≡ done tt
    → IsFine VoteInfoFits (parse_vote_instructions ix h)
unfolding parse_vote_instructions
parse_vote_instructions_safe ix h fi fh v =
    let p : Parser = record { buffer = ix.data_bytes; buffer_length = ix.data_length } in
    IsFine-bind (parse_vote_instruction_kind-IsFine p (fi.data_in))
      λ (k, q) (_, wq). of_kind-IsFine q ix h wq (init-IteratorFits ix h fi fh v) k
