-- ===== src/System/Print.antt =====
-- The printers of librenec/system_instruction.c: they fill the transaction summary.
use ledger_embedded_app.Common.{ℕ, List, Option, none, some, done, ◌>>=◌, codes}
use ledger_embedded_app.Summary.{
  amount, u64, pubkey, sized_string, set_in, transaction_summary_nonce_account_item,
  transaction_summary_nonce_authority_item,
}
use ledger_embedded_app.Printing.{
  PrintConfig, Printer, primary, general, general_authority, when, titled,
}
use ledger_embedded_app.System.{
  SystemTransferInfo, SystemCreateAccountInfo, SystemCreateAccountWithSeedInfo,
  SystemAdvanceNonceInfo, SystemInitializeNonceInfo, SystemWithdrawNonceInfo,
  SystemAuthorizeNonceInfo, SystemAllocateInfo, SystemAssignInfo, SystemAllocateWithSeedInfo,
  SystemInfo, transfer_info, create_account_info, create_account_with_seed_info, advance_nonce_info,
  initialize_nonce_info, withdraw_nonce_info, authorize_nonce_info, allocate_info, assign_info,
  allocate_with_seed_info,
}

unfoldable pub print_system_transfer_info : SystemTransferInfo → PrintConfig → Printer
print_system_transfer_info info config s = do
  s ← primary (codes "Transfer") (amount info.lamports) s
  s ← general_authority (codes "Sender") info.from config s
  general (codes "Recipient") (pubkey info.to) s

unfoldable pub print_system_advance_nonce_account : SystemAdvanceNonceInfo → PrintConfig → Printer
print_system_advance_nonce_account info config s = do
  s ← primary (codes "Advance nonce") (pubkey info.account) s
  general_authority (codes "Authorized by") info.authority config s

unfoldable pub print_system_withdraw_nonce_info : SystemWithdrawNonceInfo → PrintConfig → Printer
print_system_withdraw_nonce_info info config s = do
  s ← primary (codes "Nonce withdraw") (amount info.lamports) s
  s ← general (codes "From") (pubkey info.account) s
  s ← general (codes "To") (pubkey info.to) s
  general_authority (codes "Authorized by") info.authority config s

unfoldable pub print_system_authorize_nonce_info : SystemAuthorizeNonceInfo → PrintConfig → Printer
print_system_authorize_nonce_info info config s = do
  s ← primary (codes "Set nonce auth") (pubkey info.account) s
  s ← general (codes "New authority") (pubkey info.new_authority) s
  general_authority (codes "Authorized by") info.authority config s

unfoldable pub print_system_allocate_info : SystemAllocateInfo → PrintConfig → Printer
print_system_allocate_info info config s = do
  s ← primary (codes "Allocate acct") (pubkey info.account) s
  general (codes "Data size") (u64 info.space) s

unfoldable pub print_system_assign_info : SystemAssignInfo → PrintConfig → Printer
print_system_assign_info info config s = do
  s ← primary (codes "Assign acct") (pubkey info.account) s
  general (codes "To program") (pubkey info.program_id) s

unfoldable pub print_system_create_account_info :
    Option (List ℕ) → SystemCreateAccountInfo → PrintConfig → Printer
print_system_create_account_info primary_title info config s = do
  s ← titled primary_title (pubkey info.to) s
  s ← general (codes "Deposit") (amount info.lamports) s
  general_authority (codes "From") info.from config s

unfoldable pub print_system_create_account_with_seed_info :
    Option (List ℕ) → SystemCreateAccountWithSeedInfo → PrintConfig → Printer
print_system_create_account_with_seed_info primary_title info config s = do
  s ← titled primary_title (pubkey info.to) s
  s ← general (codes "Deposit") (amount info.lamports) s
  s ← general_authority (codes "From") info.from config s
  s ← when config.expert_mode (general (codes "Base") (pubkey info.base)) s
  when config.expert_mode (general (codes "Seed") (sized_string info.seed)) s

unfoldable pub print_system_initialize_nonce_info :
    Option (List ℕ) → SystemInitializeNonceInfo → PrintConfig → Printer
print_system_initialize_nonce_info primary_title info config s = do
  s ← titled primary_title (pubkey info.account) s
  general (codes "New authority") (pubkey info.authority) s

-- The title that the caller passes is tested for null and not used.
unfoldable pub print_system_allocate_with_seed_info :
    Option (List ℕ) → SystemAllocateWithSeedInfo → PrintConfig → Printer
print_system_allocate_with_seed_info primary_title info config s = do
  s ← elim primary_title [
    | none ↦ done s
    | some title ↦ primary (codes "Allocate acct") (pubkey info.account) s
  ]
  s ← general (codes "Data size") (u64 info.space) s
  s ← when config.expert_mode (general (codes "Base") (pubkey info.base)) s
  when config.expert_mode (general (codes "Seed") (sized_string info.seed)) s

abbrev create_account_title : List ℕ
create_account_title = codes "Create account"

-- The case of SystemAssignWithSeed is no case here: no info has that kind.
unfoldable pub print_system_info : SystemInfo → PrintConfig → Printer
print_system_info (transfer_info i) config = print_system_transfer_info i config
print_system_info (advance_nonce_info i) config = print_system_advance_nonce_account i config
print_system_info (create_account_info i) config =
    print_system_create_account_info (some create_account_title) i config
print_system_info (create_account_with_seed_info i) config =
    print_system_create_account_with_seed_info (some create_account_title) i config
print_system_info (initialize_nonce_info i) config =
    print_system_initialize_nonce_info (some (codes "Init nonce acct")) i config
print_system_info (withdraw_nonce_info i) config = print_system_withdraw_nonce_info i config
print_system_info (authorize_nonce_info i) config = print_system_authorize_nonce_info i config
print_system_info (assign_info i) config = print_system_assign_info i config
print_system_info (allocate_info i) config = print_system_allocate_info i config
print_system_info (allocate_with_seed_info i) config =
    print_system_allocate_with_seed_info (some (codes "Allocate acct")) i config

-- It is called on an advance-nonce info, whatever the tag of the union.
unfoldable pub print_system_nonced_transaction_sentinel :
    SystemAdvanceNonceInfo → PrintConfig → Printer
print_system_nonced_transaction_sentinel info config = when config.expert_mode λ s. do
  s ←
      set_in (transaction_summary_nonce_account_item s)
        (record { title = codes "Nonce account"; content = pubkey info.account }) s
  set_in (transaction_summary_nonce_authority_item s)
      (record { title = codes "Nonce authority"; content = pubkey info.authority }) s
