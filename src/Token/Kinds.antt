-- ===== src/Token/Kinds.antt =====
-- The tag of RplTokenInfo and the members of its union, which a caller reads by the tag that it has compared.
use ledger_embedded_app.Common.{ℕ, Bool, true, ◌≡◌, refl, ◌==◌, Outcome, done, fault}
use ledger_embedded_app.Instruction.Safety.{IsKey}
use ledger_embedded_app.Instruction.Unions.{Gives}
use ledger_embedded_app.Token.{
  RplTokenInstructionKind, RplTokenInfo, RplTokenInitializeAccountInfo, RplTokenInitializeMintInfo,
  RplTokenInitializeMultisigInfo, RplTokenTransferInfo, initialize_mint, initialize_account,
  initialize_multisig, transfer, approve, revoke, set_authority, mint_to, burn, close_account,
  freeze_account, thaw_account, transfer_checked, approve_checked, mint_to_checked, burn_checked,
  initialize_account2, sync_native, initialize_mint_info, initialize_account_info,
  initialize_account2_info, initialize_multisig_info, transfer_info, approve_info, revoke_info,
  set_owner_info, mint_to_info, burn_info, close_account_info, freeze_account_info,
  thaw_account_info, sync_native_info,
}
use ledger_embedded_app.Token.Parse.Safety.{TokenInfoFits, SignFits}

-- The number of an enumerator.
abbrev pub token_number : RplTokenInstructionKind → ℕ
token_number initialize_mint = 0
token_number initialize_account = 1
token_number initialize_multisig = 2
token_number transfer = 3
token_number approve = 4
token_number revoke = 5
token_number set_authority = 6
token_number mint_to = 7
token_number burn = 8
token_number close_account = 9
token_number freeze_account = 10
token_number thaw_account = 11
token_number transfer_checked = 12
token_number approve_checked = 13
token_number mint_to_checked = 14
token_number burn_checked = 15
token_number initialize_account2 = 16
token_number sync_native = 17

-- `kind` of the union
abbrev pub token_kind_of : RplTokenInfo → RplTokenInstructionKind
token_kind_of (initialize_mint_info i) = initialize_mint
token_kind_of (initialize_account_info i) = initialize_account
token_kind_of (initialize_account2_info i) = initialize_account2
token_kind_of (initialize_multisig_info i) = initialize_multisig
token_kind_of (transfer_info i) = transfer_checked
token_kind_of (approve_info i) = approve_checked
token_kind_of (revoke_info i) = revoke
token_kind_of (set_owner_info i) = set_authority
token_kind_of (mint_to_info i) = mint_to_checked
token_kind_of (burn_info i) = burn_checked
token_kind_of (close_account_info i) = close_account
token_kind_of (freeze_account_info i) = freeze_account
token_kind_of (thaw_account_info i) = thaw_account
token_kind_of (sync_native_info i) = sync_native

abbrev pub is_token_kind : RplTokenInstructionKind → RplTokenInfo → Bool
is_token_kind kind info = token_number kind == token_number (token_kind_of info)

-- The member `initialize_mint`. A read under another tag is a fault.
unfoldable pub token_initialize_mint_of : RplTokenInfo → Outcome RplTokenInitializeMintInfo
token_initialize_mint_of (initialize_mint_info i) = done i
token_initialize_mint_of _ = fault

-- The member `initialize_account`. A read under another tag is a fault.
unfoldable pub token_initialize_account_of : RplTokenInfo → Outcome RplTokenInitializeAccountInfo
token_initialize_account_of (initialize_account_info i) = done i
token_initialize_account_of (initialize_account2_info i) = done i
token_initialize_account_of _ = fault

-- The member `initialize_multisig`. A read under another tag is a fault.
unfoldable pub token_initialize_multisig_of : RplTokenInfo → Outcome RplTokenInitializeMultisigInfo
token_initialize_multisig_of (initialize_multisig_info i) = done i
token_initialize_multisig_of _ = fault

-- The member `transfer`. A read under another tag is a fault.
unfoldable pub token_transfer_of : RplTokenInfo → Outcome RplTokenTransferInfo
token_transfer_of (transfer_info i) = done i
token_transfer_of _ = fault

pub token_initialize_mint_of-initialize_mint :
    (info : RplTokenInfo)
    → TokenInfoFits info
    → is_token_kind initialize_mint info ≡ true
    → Gives (λ i. Unit {0}) (token_initialize_mint_of info)
unfolding token_initialize_mint_of
token_initialize_mint_of-initialize_mint (initialize_mint_info i) k e = record {
  value = i;
  gives = refl;
  fits = tt;
}
token_initialize_mint_of-initialize_mint _ k e = absurd cc

pub token_initialize_account_of-initialize_account :
    (info : RplTokenInfo)
    → TokenInfoFits info
    → is_token_kind initialize_account info ≡ true
    → Gives (λ i. Unit {0}) (token_initialize_account_of info)
unfolding token_initialize_account_of
token_initialize_account_of-initialize_account (initialize_account_info i) k e = record {
  value = i;
  gives = refl;
  fits = tt;
}
token_initialize_account_of-initialize_account _ k e = absurd cc

pub token_initialize_account_of-initialize_account2 :
    (info : RplTokenInfo)
    → TokenInfoFits info
    → is_token_kind initialize_account2 info ≡ true
    → Gives (λ i. Unit {0}) (token_initialize_account_of info)
unfolding token_initialize_account_of
token_initialize_account_of-initialize_account2 (initialize_account2_info i) k e = record {
  value = i;
  gives = refl;
  fits = tt;
}
token_initialize_account_of-initialize_account2 _ k e = absurd cc

pub token_initialize_multisig_of-initialize_multisig :
    (info : RplTokenInfo)
    → TokenInfoFits info
    → is_token_kind initialize_multisig info ≡ true
    → Gives (λ i. Unit {0}) (token_initialize_multisig_of info)
unfolding token_initialize_multisig_of
token_initialize_multisig_of-initialize_multisig (initialize_multisig_info i) k e = record {
  value = i;
  gives = refl;
  fits = tt;
}
token_initialize_multisig_of-initialize_multisig _ k e = absurd cc

pub token_transfer_of-transfer_checked :
    (info : RplTokenInfo)
    → TokenInfoFits info
    → is_token_kind transfer_checked info ≡ true
    → Gives (λ i. IsKey i.mint_account × SignFits i.sign) (token_transfer_of info)
unfolding token_transfer_of
token_transfer_of-transfer_checked (transfer_info i) k e = record {
  value = i;
  gives = refl;
  fits = (k.2, k.3);
}
token_transfer_of-transfer_checked _ k e = absurd cc
