-- ===== src/Vote.antt =====
-- The parsers of librenec/vote_instruction.c with vote_instruction.h: the instructions of the vote
-- program.
pub mod Print
pub mod Safety
pub mod Shown
pub mod Kinds
use ledger_embedded_app.Common.{
  ℕ, ◌+◌, List, [], ◌∷◌, Option, none, some, get_elem?, Outcome, done, bail, ◌>>=◌, ◌==◌,
  if◌then◌else◌,
}
use ledger_embedded_app.Parser.{
  Pointer, Parser, Instruction, MessageHeader, parse_u8, parse_u32, parse_u64, parse_pubkey,
  pubkey_size,
}
use ledger_embedded_app.Instruction.{
  InstructionAccountsIterator, instruction_accounts_iterator_init,
  instruction_accounts_iterator_next, enumerator,
}

pub data VoteInstructionKind : Type 0 where
  vote_initialize vote_authorize vote_vote vote_withdraw : VoteInstructionKind
  vote_update_validator_id vote_update_commission vote_switch_vote : VoteInstructionKind
  vote_authorize_checked : VoteInstructionKind

pub record VoteInitData : Type 0 where
  pub validator_id : Pointer
  pub vote_authority : Pointer
  pub withdraw_authority : Pointer
  pub commission : ℕ

pub record VoteInitializeInfo : Type 0 where
  pub account : Pointer
  pub vote_init : VoteInitData

pub record VoteWithdrawInfo : Type 0 where
  pub account : Pointer
  pub authority : Pointer
  pub to : Pointer
  pub lamports : ℕ

pub data VoteAuthorize : Type 0 where
  voter withdrawer : VoteAuthorize

pub record VoteAuthorizeInfo : Type 0 where
  pub account : Pointer
  pub authority : Pointer
  pub new_authority : Pointer
  pub authorize : VoteAuthorize

pub record VoteUpdateValidatorIdInfo : Type 0 where
  pub account : Pointer
  pub authority : Pointer
  pub new_validator_id : Pointer

pub record VoteUpdateCommissionInfo : Type 0 where
  pub account : Pointer
  pub authority : Pointer
  pub commission : ℕ

-- The union, tagged by its kind.
pub data VoteInfo : Type 0 where
  initialize_info : VoteInitializeInfo → VoteInfo
  withdraw_info : VoteWithdrawInfo → VoteInfo
  authorize_info authorize_checked_info : VoteAuthorizeInfo → VoteInfo
  update_validator_id_info : VoteUpdateValidatorIdInfo → VoteInfo
  update_commission_info : VoteUpdateCommissionInfo → VoteInfo

-- The enumerators by their numbers, which count from 0.
abbrev pub vote_kinds : List VoteInstructionKind
vote_kinds =
    vote_initialize ∷ vote_authorize ∷ vote_vote ∷ vote_withdraw ∷ vote_update_validator_id
    ∷ vote_update_commission ∷ vote_switch_vote ∷ vote_authorize_checked ∷ []

abbrev pub vote_authorizes : List VoteAuthorize
vote_authorizes = voter ∷ withdrawer ∷ []

parse_vote_instruction_kind : Parser → Outcome (VoteInstructionKind × Parser)
parse_vote_instruction_kind parser = do
  (maybe_kind, parser) ← parse_u32 parser
  kind ← enumerator vote_kinds maybe_kind
  done (kind, parser)

parse_vote_authorize : Parser → Outcome (VoteAuthorize × Parser)
parse_vote_authorize parser = do
  (maybe_authorize, parser) ← parse_u32 parser
  authorize ← enumerator vote_authorizes maybe_authorize
  done (authorize, parser)

parse_vote_initialize_instruction :
    Parser → Instruction → MessageHeader → Outcome VoteInitializeInfo
parse_vote_initialize_instruction parser instruction header = do
  (account, it) ←
      instruction_accounts_iterator_next (instruction_accounts_iterator_init header instruction)
  (_, it) ← instruction_accounts_iterator_next it
  (_, it) ← instruction_accounts_iterator_next it
  (validator_id, parser) ← parse_pubkey parser
  (vote_authority, parser) ← parse_pubkey parser
  (withdraw_authority, parser) ← parse_pubkey parser
  (commission, parser) ← parse_u8 parser
  done (record {
    account = account;
    vote_init = record {
      validator_id = validator_id;
      vote_authority = vote_authority;
      withdraw_authority = withdraw_authority;
      commission = commission;
    };
  })

parse_vote_withdraw_instruction : Parser → Instruction → MessageHeader → Outcome VoteWithdrawInfo
parse_vote_withdraw_instruction parser instruction header = do
  (account, it) ←
      instruction_accounts_iterator_next (instruction_accounts_iterator_init header instruction)
  (to, it) ← instruction_accounts_iterator_next it
  (authority, it) ← instruction_accounts_iterator_next it
  (lamports, parser) ← parse_u64 parser
  done (record { account = account; authority = authority; to = to; lamports = lamports })

parse_vote_authorize_instruction : Parser → Instruction → MessageHeader → Outcome VoteAuthorizeInfo
parse_vote_authorize_instruction parser instruction header = do
  (account, it) ←
      instruction_accounts_iterator_next (instruction_accounts_iterator_init header instruction)
  (_, it) ← instruction_accounts_iterator_next it
  (authority, it) ← instruction_accounts_iterator_next it
  (new_authority, parser) ← parse_pubkey parser
  (authorize, parser) ← parse_vote_authorize parser
  done (record {
    account = account;
    authority = authority;
    new_authority = new_authority;
    authorize = authorize;
  })

parse_vote_authorize_checked_instruction :
    Parser → Instruction → MessageHeader → Outcome VoteAuthorizeInfo
parse_vote_authorize_checked_instruction parser instruction header = do
  (account, it) ←
      instruction_accounts_iterator_next (instruction_accounts_iterator_init header instruction)
  (_, it) ← instruction_accounts_iterator_next it
  (authority, it) ← instruction_accounts_iterator_next it
  (new_authority, it) ← instruction_accounts_iterator_next it
  (authorize, parser) ← parse_vote_authorize parser
  done (record {
    account = account;
    authority = authority;
    new_authority = new_authority;
    authorize = authorize;
  })

-- The new identity: by the length of the data, an account or an argument, which a sysvar follows.
parse_new_validator_id :
    Parser
    → Instruction
    → InstructionAccountsIterator
    → Outcome (Pointer × InstructionAccountsIterator)
parse_new_validator_id parser instruction it =
    if instruction.data_length == 4
    then instruction_accounts_iterator_next it
    else if instruction.data_length == 4 + pubkey_size
    then (parse_pubkey parser >>= λ (new_validator_id, parser).
        instruction_accounts_iterator_next it >>= λ (_, it). done (new_validator_id, it))
    else bail 1

parse_vote_update_validator_id_instruction :
    Parser → Instruction → MessageHeader → Outcome VoteUpdateValidatorIdInfo
parse_vote_update_validator_id_instruction parser instruction header = do
  (account, it) ←
      instruction_accounts_iterator_next (instruction_accounts_iterator_init header instruction)
  (new_validator_id, it) ← parse_new_validator_id parser instruction it
  (authority, it) ← instruction_accounts_iterator_next it
  done (record { account = account; authority = authority; new_validator_id = new_validator_id })

parse_vote_update_commission_instruction :
    Parser → Instruction → MessageHeader → Outcome VoteUpdateCommissionInfo
parse_vote_update_commission_instruction parser instruction header = do
  (account, it) ←
      instruction_accounts_iterator_next (instruction_accounts_iterator_init header instruction)
  (authority, it) ← instruction_accounts_iterator_next it
  (commission, parser) ← parse_u8 parser
  done (record { account = account; authority = authority; commission = commission })

abbrev as_vote : {Info : Type 0} → (Info → VoteInfo) → Outcome Info → Outcome VoteInfo
as_vote f o = do info ← o; done (f info)

parse_vote_of_kind : VoteInstructionKind → Parser → Instruction → MessageHeader → Outcome VoteInfo
parse_vote_of_kind vote_initialize p ix h =
    as_vote initialize_info (parse_vote_initialize_instruction p ix h)
parse_vote_of_kind vote_withdraw p ix h =
    as_vote withdraw_info (parse_vote_withdraw_instruction p ix h)
parse_vote_of_kind vote_authorize p ix h =
    as_vote authorize_info (parse_vote_authorize_instruction p ix h)
parse_vote_of_kind vote_authorize_checked p ix h =
    as_vote authorize_checked_info (parse_vote_authorize_checked_instruction p ix h)
parse_vote_of_kind vote_update_validator_id p ix h =
    as_vote update_validator_id_info (parse_vote_update_validator_id_instruction p ix h)
parse_vote_of_kind vote_update_commission p ix h =
    as_vote update_commission_info (parse_vote_update_commission_instruction p ix h)
parse_vote_of_kind vote_vote p ix h = bail 1
parse_vote_of_kind vote_switch_vote p ix h = bail 1

pub parse_vote_instructions : Instruction → MessageHeader → Outcome VoteInfo
parse_vote_instructions instruction header = do
  (kind, parser) ←
      parse_vote_instruction_kind
        (record { buffer = instruction.data_bytes; buffer_length = instruction.data_length })
  parse_vote_of_kind kind parser instruction header
