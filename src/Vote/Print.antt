-- ===== src/Vote/Print.antt =====
-- The printers of librenec/vote_instruction.c.
use ledger_embedded_app.Common.{List, ℕ, Option, some, ◌>>=◌, codes}
use ledger_embedded_app.Summary.{amount, u64, pubkey}
use ledger_embedded_app.Printing.{PrintConfig, Printer, primary, general, general_authority, titled}
use ledger_embedded_app.Vote.{
  VoteInitializeInfo, VoteWithdrawInfo, VoteAuthorizeInfo, VoteAuthorize, voter, withdrawer,
  VoteUpdateValidatorIdInfo, VoteUpdateCommissionInfo, VoteInfo, initialize_info, withdraw_info,
  authorize_info, authorize_checked_info, update_validator_id_info, update_commission_info,
}

unfoldable pub print_vote_withdraw_info : VoteWithdrawInfo → PrintConfig → Printer
print_vote_withdraw_info info config s = do
  s ← primary (codes "Vote withdraw") (amount info.lamports) s
  s ← general (codes "From") (pubkey info.account) s
  s ← general (codes "To") (pubkey info.to) s
  general_authority (codes "Authorized by") info.authority config s

abbrev pub new_authority_title : VoteAuthorize → List ℕ
new_authority_title voter = codes "New vote auth"
new_authority_title withdrawer = codes "New withdraw auth"

unfoldable pub print_vote_authorize_info : VoteAuthorizeInfo → PrintConfig → Printer
print_vote_authorize_info info config s = do
  s ← primary (codes "Set vote auth") (pubkey info.account) s
  s ← general (new_authority_title info.authorize) (pubkey info.new_authority) s
  general_authority (codes "Authorized by") info.authority config s

unfoldable pub print_vote_update_validator_id_info :
    VoteUpdateValidatorIdInfo → PrintConfig → Printer
print_vote_update_validator_id_info info config s = do
  s ← primary (codes "Update validator") (pubkey info.account) s
  s ← general (codes "New validator ID") (pubkey info.new_validator_id) s
  general_authority (codes "Authorized by") info.authority config s

unfoldable pub print_vote_update_commission_info : VoteUpdateCommissionInfo → PrintConfig → Printer
print_vote_update_commission_info info config s = do
  s ← primary (codes "Update commission") (pubkey info.account) s
  s ← general (codes "Commission") (u64 info.commission) s
  general_authority (codes "Authorized by") info.authority config s

unfoldable pub print_vote_initialize_info :
    Option (List ℕ) → VoteInitializeInfo → PrintConfig → Printer
print_vote_initialize_info primary_title info config s = do
  s ← titled primary_title (pubkey info.account) s
  s ← general (codes "Validator ID") (pubkey info.vote_init.validator_id) s
  s ← general (codes "New vote auth") (pubkey info.vote_init.vote_authority) s
  s ← general (codes "New withdraw auth") (pubkey info.vote_init.withdraw_authority) s
  general (codes "Commission") (u64 info.vote_init.commission) s

unfoldable pub print_vote_info : VoteInfo → PrintConfig → Printer
print_vote_info (initialize_info i) config =
    print_vote_initialize_info (some (codes "Init vote acct")) i config
print_vote_info (withdraw_info i) config = print_vote_withdraw_info i config
print_vote_info (authorize_info i) config = print_vote_authorize_info i config
print_vote_info (authorize_checked_info i) config = print_vote_authorize_info i config
print_vote_info (update_validator_id_info i) config = print_vote_update_validator_id_info i config
print_vote_info (update_commission_info i) config = print_vote_update_commission_info i config
