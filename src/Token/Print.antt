-- ===== src/Token/Print.antt =====
-- The printers of librenec/rpl_token_instruction.c.
use ledger_embedded_app.Common.{
  ℕ, ◌+◌, ◌%◌, Bool, true, false, if◌then◌else◌, ltb, List, [], ◌∷◌, ◌++◌, Option, none, some,
  Outcome, done, bail, fault, ◌>>=◌, codes,
}
use ledger_embedded_app.Parser.{Pointer}
use ledger_embedded_app.Summary.{SummaryValue, token_amount, u64, pubkey, string}
use ledger_embedded_app.Printing.{
  PrintConfig, Printer, primary, general, general_authority, when, titled,
}
use ledger_embedded_app.Token.{
  token_max_signers, RplTokenSign, single, multi, RplTokenCheckedBody, TokenAuthorityType,
  mint_tokens, freeze_authority_type, account_owner, close_authority_type, get_token_symbol,
  RplTokenInfo, RplTokenInitializeMintInfo, RplTokenInitializeAccountInfo,
  RplTokenInitializeMultisigInfo, RplTokenTransferInfo, RplTokenApproveInfo, RplTokenRevokeInfo,
  RplTokenSetAuthorityInfo, RplTokenMintToInfo, RplTokenBurnInfo, RplTokenCloseAccountInfo,
  RplTokenFreezeAccountInfo, RplTokenThawAccountInfo, RplTokenSyncNativeInfo, initialize_mint_info,
  initialize_account_info, initialize_account2_info, initialize_multisig_info, transfer_info,
  approve_info, revoke_info, set_owner_info, mint_to_info, burn_info, close_account_info,
  freeze_account_info, thaw_account_info, sync_native_info,
}

-- `M_OF_N_MAX_LEN`
abbrev pub m_of_n_max_len : ℕ
m_of_n_max_len = 9

-- The digits of a number up to 19, as the code writes them.
abbrev pub count_digits : ℕ → List ℕ
count_digits n = (if ltb 9 n then codes "1" else []) ++ ((48 + n % 10) ∷ [])

-- What is written before the terminating NUL.
unfoldable pub print_m_of_n_string : ℕ → ℕ → ℕ → Outcome (List ℕ)
print_m_of_n_string m n buflen =
    if ltb token_max_signers n
    then bail 1
    else if ltb n m
    then bail 1
    else if ltb buflen m_of_n_max_len
    then bail 1
    else done (count_digits m ++ (codes " of " ++ count_digits n))

-- `summary_item_set_multisig_m_of_n` on a general item, which is left unset where there is no string.
unfoldable pub general_multisig_m_of_n : ℕ → ℕ → Printer
general_multisig_m_of_n m n s = elim (print_m_of_n_string m n m_of_n_max_len) [
  | done m_of_n ↦ general (codes "Required signers") (string m_of_n) s
  | bail e ↦ done s
  | fault ↦ fault
]

-- The item is asked for before it is known whether the signer is shown.
unfoldable pub print_rpl_token_sign : RplTokenSign → PrintConfig → Printer
print_rpl_token_sign (single signer) config s = general_authority (codes "Owner") signer config s
print_rpl_token_sign (multi account signers) config s = do
  s ← general (codes "Owner") (pubkey account) s
  general (codes "Signers") (u64 signers.count) s

-- A key that may be null, shown where it is not.
abbrev pub general_key : List ℕ → Option Pointer → Printer
general_key title none s = done s
general_key title (some key) s = general title (pubkey key) s

unfoldable pub print_rpl_token_initialize_mint_info :
    Option (List ℕ) → RplTokenInitializeMintInfo → PrintConfig → Printer
print_rpl_token_initialize_mint_info primary_title info config s = do
  s ← titled primary_title (pubkey info.mint_account) s
  s ← general (codes "Mint authority") (pubkey info.mint_authority) s
  s ← general (codes "Decimals") (u64 info.decimals) s
  general_key (codes "Freeze authority") info.freeze_authority s

unfoldable pub print_rpl_token_initialize_account_info :
    Option (List ℕ) → RplTokenInitializeAccountInfo → PrintConfig → Printer
print_rpl_token_initialize_account_info primary_title info config s = do
  s ← titled primary_title (pubkey info.token_account) s
  s ← general (codes "Owner") (pubkey info.owner) s
  general (codes "Mint") (pubkey info.mint_account) s

unfoldable pub print_rpl_token_initialize_multisig_info :
    Option (List ℕ) → RplTokenInitializeMultisigInfo → PrintConfig → Printer
print_rpl_token_initialize_multisig_info primary_title info config s = do
  s ← titled primary_title (pubkey info.multisig_account) s
  general_multisig_m_of_n info.m info.signers.count s

-- The value of `summary_item_set_token_amount`, with the symbol of the mint.
abbrev pub tokens : Pointer → RplTokenCheckedBody → Outcome SummaryValue
tokens mint_account body = do
  symbol ← get_token_symbol mint_account
  done (token_amount (record { value = body.amount; symbol = symbol; decimals = body.decimals }))

abbrev pub transfer_item : Bool → SummaryValue → Printer
transfer_item true value = primary (codes "Transfer tokens") value
transfer_item false value = general (codes "Transfer tokens") value

unfoldable pub print_rpl_token_transfer_info : RplTokenTransferInfo → PrintConfig → Bool → Printer
print_rpl_token_transfer_info info config is_primary s = do
  value ← tokens info.mint_account info.body
  s ← transfer_item is_primary value s
  s ← general (codes "From") (pubkey info.src_account) s
  s ← general (codes "To") (pubkey info.dest_account) s
  print_rpl_token_sign info.sign config s

unfoldable pub print_rpl_token_approve_info : RplTokenApproveInfo → PrintConfig → Printer
print_rpl_token_approve_info info config s = do
  s ← primary (codes "Approve delegate") (pubkey info.delegate) s
  value ← tokens info.mint_account info.body
  s ← general (codes "Allowance") value s
  s ← general (codes "From") (pubkey info.token_account) s
  print_rpl_token_sign info.sign config s

unfoldable pub print_rpl_token_revoke_info : RplTokenRevokeInfo → PrintConfig → Printer
print_rpl_token_revoke_info info config s = do
  s ← primary (codes "Revoke delegate") (pubkey info.token_account) s
  print_rpl_token_sign info.sign config s

unfoldable pub stringify_token_authority_type : TokenAuthorityType → List ℕ
stringify_token_authority_type mint_tokens = codes "Mint tokens"
stringify_token_authority_type freeze_authority_type = codes "Freeze account"
stringify_token_authority_type account_owner = codes "Owner"
stringify_token_authority_type close_authority_type = codes "Close acct"

abbrev pub set_authority_title : Option Pointer → List ℕ
set_authority_title none = codes "Clear authority"
set_authority_title (some key) = codes "Set authority"

unfoldable pub print_rpl_token_set_authority_info : RplTokenSetAuthorityInfo → PrintConfig → Printer
print_rpl_token_set_authority_info info config s = do
  s ← primary (set_authority_title info.new_authority) (pubkey info.account) s
  s ← general (codes "Type") (string (stringify_token_authority_type info.authority_type)) s
  s ← general_key (codes "Authority") info.new_authority s
  print_rpl_token_sign info.sign config s

unfoldable pub print_rpl_token_mint_to_info : RplTokenMintToInfo → PrintConfig → Printer
print_rpl_token_mint_to_info info config s = do
  value ← tokens info.mint_account info.body
  s ← primary (codes "Mint tokens") value s
  s ← when config.expert_mode (general (codes "From") (pubkey info.mint_account)) s
  s ← general (codes "To") (pubkey info.token_account) s
  print_rpl_token_sign info.sign config s

unfoldable pub print_rpl_token_burn_info : RplTokenBurnInfo → PrintConfig → Printer
print_rpl_token_burn_info info config s = do
  value ← tokens info.mint_account info.body
  s ← primary (codes "Burn tokens") value s
  s ← general (codes "From") (pubkey info.token_account) s
  print_rpl_token_sign info.sign config s

unfoldable pub print_rpl_token_close_account_info : RplTokenCloseAccountInfo → PrintConfig → Printer
print_rpl_token_close_account_info info config s = do
  s ← primary (codes "Close acct") (pubkey info.token_account) s
  s ← general (codes "Withdraw to") (pubkey info.dest_account) s
  print_rpl_token_sign info.sign config s

unfoldable pub print_rpl_token_freeze_account_info :
    RplTokenFreezeAccountInfo → PrintConfig → Printer
print_rpl_token_freeze_account_info info config s = do
  s ← primary (codes "Freeze acct") (pubkey info.token_account) s
  s ← when config.expert_mode (general (codes "Mint") (pubkey info.mint_account)) s
  print_rpl_token_sign info.sign config s

unfoldable pub print_rpl_token_thaw_account_info : RplTokenThawAccountInfo → PrintConfig → Printer
print_rpl_token_thaw_account_info info config s = do
  s ← primary (codes "Thaw acct") (pubkey info.token_account) s
  s ← when config.expert_mode (general (codes "Mint") (pubkey info.mint_account)) s
  print_rpl_token_sign info.sign config s

unfoldable pub print_rpl_token_sync_native_info : RplTokenSyncNativeInfo → PrintConfig → Printer
print_rpl_token_sync_native_info info config s =
    primary (codes "Sync native acct") (pubkey info.token_account) s

unfoldable pub print_rpl_token_info : RplTokenInfo → PrintConfig → Printer
print_rpl_token_info (initialize_mint_info i) config =
    print_rpl_token_initialize_mint_info (some (codes "Init mint")) i config
print_rpl_token_info (initialize_account_info i) config =
    print_rpl_token_initialize_account_info (some (codes "Init acct")) i config
print_rpl_token_info (initialize_account2_info i) config =
    print_rpl_token_initialize_account_info (some (codes "Init acct")) i config
print_rpl_token_info (initialize_multisig_info i) config =
    print_rpl_token_initialize_multisig_info (some (codes "Init multisig")) i config
print_rpl_token_info (revoke_info i) config = print_rpl_token_revoke_info i config
print_rpl_token_info (set_owner_info i) config = print_rpl_token_set_authority_info i config
print_rpl_token_info (close_account_info i) config = print_rpl_token_close_account_info i config
print_rpl_token_info (freeze_account_info i) config = print_rpl_token_freeze_account_info i config
print_rpl_token_info (thaw_account_info i) config = print_rpl_token_thaw_account_info i config
print_rpl_token_info (transfer_info i) config = print_rpl_token_transfer_info i config true
print_rpl_token_info (approve_info i) config = print_rpl_token_approve_info i config
print_rpl_token_info (mint_to_info i) config = print_rpl_token_mint_to_info i config
print_rpl_token_info (burn_info i) config = print_rpl_token_burn_info i config
print_rpl_token_info (sync_native_info i) config = print_rpl_token_sync_native_info i config
