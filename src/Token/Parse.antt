-- ===== src/Token/Parse.antt =====
-- The parsers of librenec/rpl_token_instruction.c.
pub mod Safety
use ledger_embedded_app.Common.{
  ℕ, ◌%◌, Bool, true, false, if◌then◌else◌, ltb, ◌==◌, List, Option, none, some, Outcome, done,
  bail, ◌>>=◌,
}
use ledger_embedded_app.Parser.{
  Pointer, Parser, Instruction, MessageHeader, OptionTag, option_none, option_some, parse_u8,
  parse_u64, parse_pubkey, parse_option,
}
use ledger_embedded_app.Instruction.{
  InstructionAccountsIterator, instruction_accounts_iterator_init,
  instruction_accounts_iterator_next, instruction_accounts_iterator_remaining, enumerator,
}
use ledger_embedded_app.Token.{
  RplTokenInstructionKind, token_kinds, TokenAuthorityType, token_authority_types,
  token_max_signers, RplTokenMultisigners, RplTokenSign, single, multi, RplTokenInitializeMintInfo,
  RplTokenInitializeAccountInfo, RplTokenInitializeMultisigInfo, RplTokenTransferInfo,
  RplTokenApproveInfo, RplTokenRevokeInfo, RplTokenSetAuthorityInfo, RplTokenMintToInfo,
  RplTokenBurnInfo, RplTokenCloseAccountInfo, RplTokenFreezeAccountInfo, RplTokenThawAccountInfo,
  RplTokenSyncNativeInfo, RplTokenInfo, initialize_mint, initialize_account, initialize_multisig,
  transfer, approve, revoke, set_authority, mint_to, burn, close_account, freeze_account,
  thaw_account, transfer_checked, approve_checked, mint_to_checked, burn_checked,
  initialize_account2, sync_native, initialize_mint_info, initialize_account_info,
  initialize_account2_info, initialize_multisig_info, transfer_info, approve_info, revoke_info,
  set_owner_info, mint_to_info, burn_info, close_account_info, freeze_account_info,
  thaw_account_info, sync_native_info,
}

abbrev pub is_deprecated : RplTokenInstructionKind → Bool
is_deprecated transfer = true
is_deprecated approve = true
is_deprecated mint_to = true
is_deprecated burn = true
is_deprecated _ = false

parse_rpl_token_instruction_kind : Parser → Outcome (RplTokenInstructionKind × Parser)
parse_rpl_token_instruction_kind parser = do
  (maybe_kind, parser) ← parse_u8 parser
  kind ← enumerator token_kinds maybe_kind
  if is_deprecated kind then bail 1 else done (kind, parser)

-- The key behind an option, or null.
parse_pubkey_of : OptionTag → Parser → Outcome (Option Pointer × Parser)
parse_pubkey_of option_none parser = done (none, parser)
parse_pubkey_of option_some parser = do (key, parser) ← parse_pubkey parser; done (some key, parser)

parse_initialize_mint_rpl_token_instruction :
    Parser → Instruction → MessageHeader → Outcome RplTokenInitializeMintInfo
parse_initialize_mint_rpl_token_instruction parser instruction header = do
  (decimals, parser) ← parse_u8 parser
  (mint_authority, parser) ← parse_pubkey parser
  (option, parser) ← parse_option parser
  (freeze_authority, parser) ← parse_pubkey_of option parser
  (mint_account, it) ←
      instruction_accounts_iterator_next (instruction_accounts_iterator_init header instruction)
  (_, it) ← instruction_accounts_iterator_next it
  done (record {
    mint_account = mint_account;
    mint_authority = mint_authority;
    freeze_authority = freeze_authority;
    decimals = decimals;
  })

-- With the owner among the accounts, and with the owner in the data.
account_with_owner : Instruction → MessageHeader → Outcome RplTokenInitializeAccountInfo
account_with_owner instruction header = do
  (token_account, it) ←
      instruction_accounts_iterator_next (instruction_accounts_iterator_init header instruction)
  (mint_account, it) ← instruction_accounts_iterator_next it
  (owner, it) ← instruction_accounts_iterator_next it
  (_, it) ← instruction_accounts_iterator_next it
  done (record { token_account = token_account; mint_account = mint_account; owner = owner })

parse_initialize_account_rpl_token_instruction :
    Parser → Instruction → MessageHeader → Bool → Outcome RplTokenInitializeAccountInfo
parse_initialize_account_rpl_token_instruction parser instruction header true =
    if instruction.accounts_length == 4 then account_with_owner instruction header else bail 1
parse_initialize_account_rpl_token_instruction parser instruction header false = do
  (token_account, it) ←
      instruction_accounts_iterator_next (instruction_accounts_iterator_init header instruction)
  (mint_account, it) ← instruction_accounts_iterator_next it
  (_, it) ← instruction_accounts_iterator_next it
  (owner, parser) ← parse_pubkey parser
  done (record { token_account = token_account; mint_account = mint_account; owner = owner })

parse_rpl_token_multisigners :
    InstructionAccountsIterator → Outcome (RplTokenMultisigners × InstructionAccountsIterator)
parse_rpl_token_multisigners it =
    let n = instruction_accounts_iterator_remaining it in
    if ltb token_max_signers n
    then bail 1
    else (instruction_accounts_iterator_next it >>= λ (first, it).
        done (record { first = first; count = n % 256 }, it))

multisig_of : ℕ → Instruction → MessageHeader → Outcome RplTokenInitializeMultisigInfo
multisig_of m instruction header = do
  (multisig_account, it) ←
      instruction_accounts_iterator_next (instruction_accounts_iterator_init header instruction)
  (_, it) ← instruction_accounts_iterator_next it
  (signers, it) ← parse_rpl_token_multisigners it
  done (record { multisig_account = multisig_account; signers = signers; m = m })

parse_initialize_multisig_rpl_token_instruction :
    Parser → Instruction → MessageHeader → Outcome RplTokenInitializeMultisigInfo
parse_initialize_multisig_rpl_token_instruction parser instruction header = do
  (m, parser) ← parse_u8 parser
  if ltb token_max_signers m then bail 1 else multisig_of m instruction header

sign_single : InstructionAccountsIterator → Outcome (RplTokenSign × InstructionAccountsIterator)
sign_single it = do (signer, it) ← instruction_accounts_iterator_next it; done (single signer, it)

sign_multi : InstructionAccountsIterator → Outcome (RplTokenSign × InstructionAccountsIterator)
sign_multi it = do
  (account, it) ← instruction_accounts_iterator_next it
  (signers, it) ← parse_rpl_token_multisigners it
  done (multi account signers, it)

parse_rpl_token_sign :
    InstructionAccountsIterator → Outcome (RplTokenSign × InstructionAccountsIterator)
parse_rpl_token_sign it =
    let n = instruction_accounts_iterator_remaining it in
    if n == 0 then bail 1 else if n == 1 then sign_single it else sign_multi it

parse_transfer_rpl_token_instruction :
    Parser → Instruction → MessageHeader → Outcome RplTokenTransferInfo
parse_transfer_rpl_token_instruction parser instruction header = do
  (amount, parser) ← parse_u64 parser
  (decimals, parser) ← parse_u8 parser
  (src_account, it) ←
      instruction_accounts_iterator_next (instruction_accounts_iterator_init header instruction)
  (mint_account, it) ← instruction_accounts_iterator_next it
  (dest_account, it) ← instruction_accounts_iterator_next it
  (sign, it) ← parse_rpl_token_sign it
  done (record {
    src_account = src_account;
    dest_account = dest_account;
    mint_account = mint_account;
    sign = sign;
    body = record { amount = amount; decimals = decimals };
  })

parse_approve_rpl_token_instruction :
    Parser → Instruction → MessageHeader → Outcome RplTokenApproveInfo
parse_approve_rpl_token_instruction parser instruction header = do
  (amount, parser) ← parse_u64 parser
  (decimals, parser) ← parse_u8 parser
  (token_account, it) ←
      instruction_accounts_iterator_next (instruction_accounts_iterator_init header instruction)
  (mint_account, it) ← instruction_accounts_iterator_next it
  (delegate, it) ← instruction_accounts_iterator_next it
  (sign, it) ← parse_rpl_token_sign it
  done (record {
    token_account = token_account;
    delegate = delegate;
    mint_account = mint_account;
    sign = sign;
    body = record { amount = amount; decimals = decimals };
  })

parse_revoke_rpl_token_instruction : Instruction → MessageHeader → Outcome RplTokenRevokeInfo
parse_revoke_rpl_token_instruction instruction header = do
  (token_account, it) ←
      instruction_accounts_iterator_next (instruction_accounts_iterator_init header instruction)
  (sign, it) ← parse_rpl_token_sign it
  done (record { token_account = token_account; sign = sign })

parse_token_authority_type : Parser → Outcome (TokenAuthorityType × Parser)
parse_token_authority_type parser = do
  (maybe_type, parser) ← parse_u8 parser
  auth_type ← enumerator token_authority_types maybe_type
  done (auth_type, parser)

parse_set_authority_rpl_token_instruction :
    Parser → Instruction → MessageHeader → Outcome RplTokenSetAuthorityInfo
parse_set_authority_rpl_token_instruction parser instruction header = do
  (account, it) ←
      instruction_accounts_iterator_next (instruction_accounts_iterator_init header instruction)
  (authority_type, parser) ← parse_token_authority_type parser
  (option, parser) ← parse_option parser
  (new_authority, parser) ← parse_pubkey_of option parser
  (sign, it) ← parse_rpl_token_sign it
  done (record {
    account = account;
    new_authority = new_authority;
    authority_type = authority_type;
    sign = sign;
  })

parse_mint_to_rpl_token_instruction :
    Parser → Instruction → MessageHeader → Outcome RplTokenMintToInfo
parse_mint_to_rpl_token_instruction parser instruction header = do
  (amount, parser) ← parse_u64 parser
  (decimals, parser) ← parse_u8 parser
  (mint_account, it) ←
      instruction_accounts_iterator_next (instruction_accounts_iterator_init header instruction)
  (token_account, it) ← instruction_accounts_iterator_next it
  (sign, it) ← parse_rpl_token_sign it
  done (record {
    mint_account = mint_account;
    token_account = token_account;
    sign = sign;
    body = record { amount = amount; decimals = decimals };
  })

parse_burn_rpl_token_instruction : Parser → Instruction → MessageHeader → Outcome RplTokenBurnInfo
parse_burn_rpl_token_instruction parser instruction header = do
  (amount, parser) ← parse_u64 parser
  (decimals, parser) ← parse_u8 parser
  (token_account, it) ←
      instruction_accounts_iterator_next (instruction_accounts_iterator_init header instruction)
  (mint_account, it) ← instruction_accounts_iterator_next it
  (sign, it) ← parse_rpl_token_sign it
  done (record {
    token_account = token_account;
    mint_account = mint_account;
    sign = sign;
    body = record { amount = amount; decimals = decimals };
  })

parse_close_account_rpl_token_instruction :
    Instruction → MessageHeader → Outcome RplTokenCloseAccountInfo
parse_close_account_rpl_token_instruction instruction header = do
  (token_account, it) ←
      instruction_accounts_iterator_next (instruction_accounts_iterator_init header instruction)
  (dest_account, it) ← instruction_accounts_iterator_next it
  (sign, it) ← parse_rpl_token_sign it
  done (record { token_account = token_account; dest_account = dest_account; sign = sign })

parse_freeze_account_rpl_token_instruction :
    Instruction → MessageHeader → Outcome RplTokenFreezeAccountInfo
parse_freeze_account_rpl_token_instruction instruction header = do
  (token_account, it) ←
      instruction_accounts_iterator_next (instruction_accounts_iterator_init header instruction)
  (mint_account, it) ← instruction_accounts_iterator_next it
  (sign, it) ← parse_rpl_token_sign it
  done (record { token_account = token_account; mint_account = mint_account; sign = sign })

parse_thaw_account_rpl_token_instruction :
    Instruction → MessageHeader → Outcome RplTokenThawAccountInfo
parse_thaw_account_rpl_token_instruction instruction header = do
  (token_account, it) ←
      instruction_accounts_iterator_next (instruction_accounts_iterator_init header instruction)
  (mint_account, it) ← instruction_accounts_iterator_next it
  (sign, it) ← parse_rpl_token_sign it
  done (record { token_account = token_account; mint_account = mint_account; sign = sign })

parse_sync_native_rpl_token_instruction :
    Instruction → MessageHeader → Outcome RplTokenSyncNativeInfo
parse_sync_native_rpl_token_instruction instruction header = do
  (token_account, it) ←
      instruction_accounts_iterator_next (instruction_accounts_iterator_init header instruction)
  done (record { token_account = token_account })

abbrev as_token : {Info : Type 0} → (Info → RplTokenInfo) → Outcome Info → Outcome RplTokenInfo
as_token f o = do info ← o; done (f info)

parse_rpl_token_of_kind :
    RplTokenInstructionKind → Parser → Instruction → MessageHeader → Outcome RplTokenInfo
parse_rpl_token_of_kind initialize_mint p ix h =
    as_token initialize_mint_info (parse_initialize_mint_rpl_token_instruction p ix h)
parse_rpl_token_of_kind initialize_account p ix h =
    as_token initialize_account_info (parse_initialize_account_rpl_token_instruction p ix h true)
parse_rpl_token_of_kind initialize_account2 p ix h =
    as_token initialize_account2_info (parse_initialize_account_rpl_token_instruction p ix h false)
parse_rpl_token_of_kind initialize_multisig p ix h =
    as_token initialize_multisig_info (parse_initialize_multisig_rpl_token_instruction p ix h)
parse_rpl_token_of_kind revoke p ix h =
    as_token revoke_info (parse_revoke_rpl_token_instruction ix h)
parse_rpl_token_of_kind set_authority p ix h =
    as_token set_owner_info (parse_set_authority_rpl_token_instruction p ix h)
parse_rpl_token_of_kind close_account p ix h =
    as_token close_account_info (parse_close_account_rpl_token_instruction ix h)
parse_rpl_token_of_kind freeze_account p ix h =
    as_token freeze_account_info (parse_freeze_account_rpl_token_instruction ix h)
parse_rpl_token_of_kind thaw_account p ix h =
    as_token thaw_account_info (parse_thaw_account_rpl_token_instruction ix h)
parse_rpl_token_of_kind transfer_checked p ix h =
    as_token transfer_info (parse_transfer_rpl_token_instruction p ix h)
parse_rpl_token_of_kind approve_checked p ix h =
    as_token approve_info (parse_approve_rpl_token_instruction p ix h)
parse_rpl_token_of_kind mint_to_checked p ix h =
    as_token mint_to_info (parse_mint_to_rpl_token_instruction p ix h)
parse_rpl_token_of_kind burn_checked p ix h =
    as_token burn_info (parse_burn_rpl_token_instruction p ix h)
parse_rpl_token_of_kind sync_native p ix h =
    as_token sync_native_info (parse_sync_native_rpl_token_instruction ix h)
parse_rpl_token_of_kind transfer p ix h = bail 1
parse_rpl_token_of_kind approve p ix h = bail 1
parse_rpl_token_of_kind mint_to p ix h = bail 1
parse_rpl_token_of_kind burn p ix h = bail 1

pub parse_rpl_token_instructions : Instruction → MessageHeader → Outcome RplTokenInfo
parse_rpl_token_instructions instruction header = do
  (kind, parser) ←
      parse_rpl_token_instruction_kind
        (record { buffer = instruction.data_bytes; buffer_length = instruction.data_length })
  parse_rpl_token_of_kind kind parser instruction header
