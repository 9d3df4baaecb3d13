-- ===== src/Stake/Parse.antt =====
-- The parsers of librenec/stake_instruction.c. An info is all zero before it is parsed: message.c clears
-- the infos, so that what a parser leaves out is zero or null.
pub mod Safety
use ledger_embedded_app.Common.{
  ℕ, Bool, true, false, if◌then◌else◌, List, [], Option, none, some, Outcome, done, bail, ◌>>=◌,
}
use ledger_embedded_app.Parser.{
  Pointer, Parser, Instruction, MessageHeader, OptionTag, option_none, option_some, parse_u32,
  parse_u64, parse_i64, parse_pubkey, parse_option,
}
use ledger_embedded_app.Instruction.{
  InstructionAccountsIterator, instruction_accounts_iterator_init,
  instruction_accounts_iterator_next, enumerator, optional_account,
}
use ledger_embedded_app.Stake.{
  StakeInstructionKind, stake_initialize, stake_authorize, stake_delegate, stake_split,
  stake_withdraw, stake_deactivate, stake_set_lockup, stake_merge, stake_authorize_with_seed,
  stake_initialize_checked, stake_authorize_checked, stake_authorize_checked_with_seed,
  stake_set_lockup_checked, StakeDelegateInfo, StakeLockup, stake_lockup_has_none,
  stake_lockup_has_all, StakeInitializeInfo, StakeWithdrawInfo, StakeAuthorize, StakeAuthorizeInfo,
  StakeDeactivateInfo, StakeSetLockupInfo, StakeSplitInfo, StakeMergeInfo, StakeInfo, delegate_info,
  initialize_info, initialize_checked_info, withdraw_info, authorize_info, authorize_checked_info,
  deactivate_info, set_lockup_info, set_lockup_checked_info, split_info, merge_info, stake_kinds,
  stake_authorizes,
}

parse_stake_instruction_kind : Parser → Outcome (StakeInstructionKind × Parser)
parse_stake_instruction_kind parser = do
  (maybe_kind, parser) ← parse_u32 parser
  kind ← enumerator stake_kinds maybe_kind
  done (kind, parser)

parse_stake_authorize : Parser → Outcome (StakeAuthorize × Parser)
parse_stake_authorize parser = do
  (maybe_authorize, parser) ← parse_u32 parser
  authorize ← enumerator stake_authorizes maybe_authorize
  done (authorize, parser)

parse_delegate_stake_instruction : Instruction → MessageHeader → Outcome StakeDelegateInfo
parse_delegate_stake_instruction instruction header = do
  (stake_pubkey, it) ←
      instruction_accounts_iterator_next (instruction_accounts_iterator_init header instruction)
  (vote_pubkey, it) ← instruction_accounts_iterator_next it
  (_, it) ← instruction_accounts_iterator_next it
  (_, it) ← instruction_accounts_iterator_next it
  (_, it) ← instruction_accounts_iterator_next it
  (authorized_pubkey, it) ← instruction_accounts_iterator_next it
  done (record {
    stake_pubkey = stake_pubkey;
    vote_pubkey = vote_pubkey;
    authorized_pubkey = authorized_pubkey;
  })

parse_stake_initialize_instruction :
    Parser → Instruction → MessageHeader → Outcome StakeInitializeInfo
parse_stake_initialize_instruction parser instruction header = do
  (account, it) ←
      instruction_accounts_iterator_next (instruction_accounts_iterator_init header instruction)
  (_, it) ← instruction_accounts_iterator_next it
  (stake_authority, parser) ← parse_pubkey parser
  (withdraw_authority, parser) ← parse_pubkey parser
  (unix_timestamp, parser) ← parse_i64 parser
  (epoch, parser) ← parse_u64 parser
  (custodian, parser) ← parse_pubkey parser
  done (record {
    account = account;
    stake_authority = stake_authority;
    withdraw_authority = withdraw_authority;
    lockup = record {
      present = stake_lockup_has_all;
      unix_timestamp = unix_timestamp;
      epoch = epoch;
      custodian = custodian;
    };
  })

abbrev pub zero_lockup : StakeLockup
zero_lockup = record {
  present = stake_lockup_has_none;
  unix_timestamp = 0;
  epoch = 0;
  custodian = [];
}

parse_stake_initialize_checked_instruction :
    Parser → Instruction → MessageHeader → Outcome StakeInitializeInfo
parse_stake_initialize_checked_instruction parser instruction header = do
  (account, it) ←
      instruction_accounts_iterator_next (instruction_accounts_iterator_init header instruction)
  (_, it) ← instruction_accounts_iterator_next it
  (stake_authority, it) ← instruction_accounts_iterator_next it
  (withdraw_authority, it) ← instruction_accounts_iterator_next it
  done (record {
    account = account;
    stake_authority = stake_authority;
    withdraw_authority = withdraw_authority;
    lockup = zero_lockup;
  })

parse_stake_withdraw_instruction : Parser → Instruction → MessageHeader → Outcome StakeWithdrawInfo
parse_stake_withdraw_instruction parser instruction header = do
  (account, it) ←
      instruction_accounts_iterator_next (instruction_accounts_iterator_init header instruction)
  (to, it) ← instruction_accounts_iterator_next it
  (_, it) ← instruction_accounts_iterator_next it
  (_, it) ← instruction_accounts_iterator_next it
  (authority, it) ← instruction_accounts_iterator_next it
  (lamports, parser) ← parse_u64 parser
  done (record { account = account; authority = authority; to = to; lamports = lamports })

parse_stake_authorize_instruction :
    Parser → Instruction → MessageHeader → Outcome StakeAuthorizeInfo
parse_stake_authorize_instruction parser instruction header = do
  (account, it) ←
      instruction_accounts_iterator_next (instruction_accounts_iterator_init header instruction)
  (_, it) ← instruction_accounts_iterator_next it
  (authority, it) ← instruction_accounts_iterator_next it
  (custodian, it) ← optional_account it
  (new_authority, parser) ← parse_pubkey parser
  (authorize, parser) ← parse_stake_authorize parser
  done (record {
    account = account;
    authority = authority;
    new_authority = new_authority;
    custodian = custodian;
    authorize = authorize;
  })

parse_stake_authorize_checked_instruction :
    Parser → Instruction → MessageHeader → Outcome StakeAuthorizeInfo
parse_stake_authorize_checked_instruction parser instruction header = do
  (account, it) ←
      instruction_accounts_iterator_next (instruction_accounts_iterator_init header instruction)
  (_, it) ← instruction_accounts_iterator_next it
  (authority, it) ← instruction_accounts_iterator_next it
  (new_authority, it) ← instruction_accounts_iterator_next it
  (custodian, it) ← optional_account it
  (authorize, parser) ← parse_stake_authorize parser
  done (record {
    account = account;
    authority = authority;
    new_authority = new_authority;
    custodian = custodian;
    authorize = authorize;
  })

parse_stake_deactivate_instruction :
    Parser → Instruction → MessageHeader → Outcome StakeDeactivateInfo
parse_stake_deactivate_instruction parser instruction header = do
  (account, it) ←
      instruction_accounts_iterator_next (instruction_accounts_iterator_init header instruction)
  (_, it) ← instruction_accounts_iterator_next it
  (authority, it) ← instruction_accounts_iterator_next it
  done (record { account = account; authority = authority })

-- The three optional arguments: with each of them, the lockup as it is from there on.
parse_lockup_timestamp : OptionTag → Parser → StakeLockup → Outcome (StakeLockup × Parser)
parse_lockup_timestamp option_none parser lockup = done (lockup, parser)
parse_lockup_timestamp option_some parser lockup = do
  (unix_timestamp, parser) ← parse_i64 parser
  let present = record lockup.present { has_timestamp = true }
  done (record lockup { present = present; unix_timestamp = unix_timestamp }, parser)

parse_lockup_epoch : OptionTag → Parser → StakeLockup → Outcome (StakeLockup × Parser)
parse_lockup_epoch option_none parser lockup = done (lockup, parser)
parse_lockup_epoch option_some parser lockup = do
  (epoch, parser) ← parse_u64 parser
  let present = record lockup.present { has_epoch = true }
  done (record lockup { present = present; epoch = epoch }, parser)

parse_lockup_custodian : OptionTag → Parser → StakeLockup → Outcome (StakeLockup × Parser)
parse_lockup_custodian option_none parser lockup = done (lockup, parser)
parse_lockup_custodian option_some parser lockup = do
  (custodian, parser) ← parse_pubkey parser
  let present = record lockup.present { has_custodian = true }
  done (record lockup { present = present; custodian = custodian }, parser)

parse_stake_lockupargs : Parser → Bool → Outcome (StakeLockup × Parser)
parse_stake_lockupargs parser parse_custodian = do
  (option, parser) ← parse_option parser
  (lockup, parser) ← parse_lockup_timestamp option parser zero_lockup
  (option, parser) ← parse_option parser
  (lockup, parser) ← parse_lockup_epoch option parser lockup
  if parse_custodian
      then (do (option, parser) ← parse_option parser; parse_lockup_custodian option parser lockup)
      else done (lockup, parser)

parse_stake_set_lockup_instruction :
    Parser → Instruction → MessageHeader → Outcome StakeSetLockupInfo
parse_stake_set_lockup_instruction parser instruction header = do
  (account, it) ←
      instruction_accounts_iterator_next (instruction_accounts_iterator_init header instruction)
  (custodian, it) ← instruction_accounts_iterator_next it
  (lockup, parser) ← parse_stake_lockupargs parser true
  done (record { account = account; custodian = custodian; lockup = lockup })

-- A custodian that an account names.
abbrev pub with_custodian : Option Pointer → StakeLockup → StakeLockup
with_custodian none lockup = lockup
with_custodian (some custodian) lockup = record lockup {
  present = record lockup.present { has_custodian = true };
  custodian = custodian;
}

parse_stake_set_lockup_checked_instruction :
    Parser → Instruction → MessageHeader → Outcome StakeSetLockupInfo
parse_stake_set_lockup_checked_instruction parser instruction header = do
  (account, it) ←
      instruction_accounts_iterator_next (instruction_accounts_iterator_init header instruction)
  (custodian, it) ← instruction_accounts_iterator_next it
  (lockup, parser) ← parse_stake_lockupargs parser false
  (new_custodian, it) ← optional_account it
  done (record {
    account = account;
    custodian = custodian;
    lockup = with_custodian new_custodian lockup;
  })

parse_stake_split_instruction : Parser → Instruction → MessageHeader → Outcome StakeSplitInfo
parse_stake_split_instruction parser instruction header = do
  (account, it) ←
      instruction_accounts_iterator_next (instruction_accounts_iterator_init header instruction)
  (split_account, it) ← instruction_accounts_iterator_next it
  (authority, it) ← instruction_accounts_iterator_next it
  (lamports, parser) ← parse_u64 parser
  done (record {
    account = account;
    authority = authority;
    split_account = split_account;
    lamports = lamports;
  })

parse_stake_merge_instruction : Instruction → MessageHeader → Outcome StakeMergeInfo
parse_stake_merge_instruction instruction header = do
  (destination, it) ←
      instruction_accounts_iterator_next (instruction_accounts_iterator_init header instruction)
  (source, it) ← instruction_accounts_iterator_next it
  (_, it) ← instruction_accounts_iterator_next it
  (_, it) ← instruction_accounts_iterator_next it
  (authority, it) ← instruction_accounts_iterator_next it
  done (record { destination = destination; source = source; authority = authority })

abbrev as_stake : {Info : Type 0} → (Info → StakeInfo) → Outcome Info → Outcome StakeInfo
as_stake f o = do info ← o; done (f info)

parse_stake_of_kind :
    StakeInstructionKind → Parser → Instruction → MessageHeader → Outcome StakeInfo
parse_stake_of_kind stake_delegate p ix h =
    as_stake delegate_info (parse_delegate_stake_instruction ix h)
parse_stake_of_kind stake_initialize p ix h =
    as_stake initialize_info (parse_stake_initialize_instruction p ix h)
parse_stake_of_kind stake_initialize_checked p ix h =
    as_stake initialize_checked_info (parse_stake_initialize_checked_instruction p ix h)
parse_stake_of_kind stake_withdraw p ix h =
    as_stake withdraw_info (parse_stake_withdraw_instruction p ix h)
parse_stake_of_kind stake_authorize p ix h =
    as_stake authorize_info (parse_stake_authorize_instruction p ix h)
parse_stake_of_kind stake_authorize_checked p ix h =
    as_stake authorize_checked_info (parse_stake_authorize_checked_instruction p ix h)
parse_stake_of_kind stake_deactivate p ix h =
    as_stake deactivate_info (parse_stake_deactivate_instruction p ix h)
parse_stake_of_kind stake_set_lockup p ix h =
    as_stake set_lockup_info (parse_stake_set_lockup_instruction p ix h)
parse_stake_of_kind stake_set_lockup_checked p ix h =
    as_stake set_lockup_checked_info (parse_stake_set_lockup_checked_instruction p ix h)
parse_stake_of_kind stake_split p ix h = as_stake split_info (parse_stake_split_instruction p ix h)
parse_stake_of_kind stake_merge p ix h = as_stake merge_info (parse_stake_merge_instruction ix h)
parse_stake_of_kind stake_authorize_with_seed p ix h = bail 1
parse_stake_of_kind stake_authorize_checked_with_seed p ix h = bail 1

pub parse_stake_instructions : Instruction → MessageHeader → Outcome StakeInfo
parse_stake_instructions instruction header = do
  (kind, parser) ←
      parse_stake_instruction_kind
        (record { buffer = instruction.data_bytes; buffer_length = instruction.data_length })
  parse_stake_of_kind kind parser instruction header
