-- ===== src/Stake/Print.antt =====
-- The printers of librenec/stake_instruction.c.
use ledger_embedded_app.Common.{
  ℕ, ◌^◌, Bool, ◌&&◌, ◌||◌, List, Option, none, some, ◌>>=◌, done, ltb, if◌then◌else◌, codes,
}
use ledger_embedded_app.Parser.{Pointer, pubkeys_equal}
use ledger_embedded_app.Summary.{amount, u64, timestamp, pubkey, string}
use ledger_embedded_app.Printing.{
  PrintConfig, Printer, primary, general, general_authority, when, titled,
}
use ledger_embedded_app.Stake.{
  StakeDelegateInfo, StakeLockup, StakeInitializeInfo, StakeWithdrawInfo, StakeAuthorize, staker,
  withdrawer, StakeAuthorizeInfo, StakeDeactivateInfo, StakeSetLockupInfo, StakeSplitInfo,
  StakeMergeInfo, StakeInfo, delegate_info, initialize_info, initialize_checked_info, withdraw_info,
  authorize_info, authorize_checked_info, deactivate_info, set_lockup_info, set_lockup_checked_info,
  split_info, merge_info,
}

unfoldable pub print_delegate_stake_info :
    Option (List ℕ) → StakeDelegateInfo → PrintConfig → Printer
print_delegate_stake_info primary_title info config s = do
  s ← titled primary_title (pubkey info.stake_pubkey) s
  s ← general_authority (codes "Authorized by") info.authorized_pubkey config s
  general (codes "Vote account") (pubkey info.vote_pubkey) s

unfoldable pub print_stake_withdraw_info : StakeWithdrawInfo → PrintConfig → Printer
print_stake_withdraw_info info config s = do
  s ← primary (codes "Stake withdraw") (amount info.lamports) s
  s ← general (codes "From") (pubkey info.account) s
  s ← general (codes "To") (pubkey info.to) s
  general_authority (codes "Authorized by") info.authority config s

abbrev pub new_stake_authority_title : StakeAuthorize → List ℕ
new_stake_authority_title staker = codes "New stake auth"
new_stake_authority_title withdrawer = codes "New withdraw auth"

-- A custodian is shown where there is one and its key is to be shown.
abbrev pub optional_custodian : Option Pointer → PrintConfig → Printer
optional_custodian none config s = done s
optional_custodian (some key) config s = general_authority (codes "Custodian") key config s

unfoldable pub print_stake_authorize_info : StakeAuthorizeInfo → PrintConfig → Printer
print_stake_authorize_info info config s = do
  s ← primary (codes "Set stake auth") (pubkey info.account) s
  s ← general (new_stake_authority_title info.authorize) (pubkey info.new_authority) s
  s ← general_authority (codes "Authorized by") info.authority config s
  optional_custodian info.custodian config s

unfoldable pub print_stake_deactivate_info : StakeDeactivateInfo → PrintConfig → Printer
print_stake_deactivate_info info config s = do
  s ← primary (codes "Deactivate stake") (pubkey info.account) s
  general_authority (codes "Authorized by") info.authority config s

unfoldable pub print_stake_set_lockup_info : StakeSetLockupInfo → PrintConfig → Printer
print_stake_set_lockup_info info config s = do
  s ← primary (codes "Set lockup") (pubkey info.account) s
  let present = info.lockup.present
  s ← when present.has_timestamp (general (codes "Time") (timestamp info.lockup.unix_timestamp)) s
  s ← when present.has_epoch (general (codes "Epoch") (u64 info.lockup.epoch)) s
  s ← when present.has_custodian (general (codes "New authority") (pubkey info.lockup.custodian)) s
  general_authority (codes "Authorized by") info.custodian config s

unfoldable pub print_stake_split_info1 : StakeSplitInfo → PrintConfig → Printer
print_stake_split_info1 info config s = do
  s ← primary (codes "Split stake") (amount info.lamports) s
  s ← general (codes "From") (pubkey info.account) s
  general (codes "To") (pubkey info.split_account) s

unfoldable pub print_stake_split_info2 : StakeSplitInfo → PrintConfig → Printer
print_stake_split_info2 info config s =
    general_authority (codes "Authorized by") info.authority config s

unfoldable pub print_stake_split_info : StakeSplitInfo → PrintConfig → Printer
print_stake_split_info info config s = do
  s ← print_stake_split_info1 info config s
  print_stake_split_info2 info config s

unfoldable pub print_stake_merge_info : StakeMergeInfo → PrintConfig → Printer
print_stake_merge_info info config s = do
  s ← primary (codes "Merge") (pubkey info.source) s
  s ← general (codes "Into") (pubkey info.destination) s
  general_authority (codes "Authorized by") info.authority config s

abbrev pub new_authorities : Bool → StakeInitializeInfo → Printer
new_authorities one_authority info s =
    if one_authority then general (codes "New authority") (pubkey info.stake_authority) s else (do
      s ← general (codes "New stake auth") (pubkey info.stake_authority) s
      general (codes "New withdraw auth") (pubkey info.withdraw_authority) s)

-- `v > 0` for an int64_t
abbrev pub positive_i64 : ℕ → Bool
positive_i64 v = ltb 0 v && ltb v (2 ^ 63)

abbrev pub print_lockup : StakeLockup → PrintConfig → Printer
print_lockup lockup config s =
    let has_time = positive_i64 lockup.unix_timestamp in
    let has_epoch = ltb 0 lockup.epoch in
    if has_time || has_epoch
    then (do
      s ← when has_time (general (codes "Lockup time") (timestamp lockup.unix_timestamp)) s
      s ← when has_epoch (general (codes "Lockup epoch") (u64 lockup.epoch)) s
      general (codes "Lockup authority") (pubkey lockup.custodian) s)
    else when config.expert_mode (general (codes "Lockup") (string (codes "None"))) s

unfoldable pub print_stake_initialize_info :
    Option (List ℕ) → StakeInitializeInfo → PrintConfig → Printer
print_stake_initialize_info primary_title info config s = do
  one_authority ← pubkeys_equal info.withdraw_authority info.stake_authority
  s ← titled primary_title (pubkey info.account) s
  s ← new_authorities one_authority info s
  print_lockup info.lockup config s

unfoldable pub print_stake_info : StakeInfo → PrintConfig → Printer
print_stake_info (delegate_info i) config =
    print_delegate_stake_info (some (codes "Delegate from")) i config
print_stake_info (initialize_info i) config =
    print_stake_initialize_info (some (codes "Init stake acct")) i config
print_stake_info (initialize_checked_info i) config =
    print_stake_initialize_info (some (codes "Init stake acct")) i config
print_stake_info (withdraw_info i) config = print_stake_withdraw_info i config
print_stake_info (authorize_info i) config = print_stake_authorize_info i config
print_stake_info (authorize_checked_info i) config = print_stake_authorize_info i config
print_stake_info (deactivate_info i) config = print_stake_deactivate_info i config
print_stake_info (set_lockup_info i) config = print_stake_set_lockup_info i config
print_stake_info (set_lockup_checked_info i) config = print_stake_set_lockup_info i config
print_stake_info (split_info i) config = print_stake_split_info i config
print_stake_info (merge_info i) config = print_stake_merge_info i config
