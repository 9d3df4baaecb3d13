-- ===== src/Transaction/Print.antt =====
-- The combined printers of librenec/transaction_printers.c.
use ledger_embedded_app.Common.{
  ℕ, Bool, true, false, not, if◌then◌else◌, ◌==◌, List, length, none, Outcome, done, bail, ◌>>=◌,
  codes,
}
use ledger_embedded_app.Parser.{Pointer, SizedString}
use ledger_embedded_app.Summary.{amount, u64, pubkey, sized_string}
use ledger_embedded_app.Printing.{PrintConfig, Printer, primary, general, general_authority, when}
use ledger_embedded_app.System.Kinds.{
  system_create_account_of, system_create_account_with_seed_of, system_initialize_nonce_of,
  system_allocate_with_seed_of,
}
use ledger_embedded_app.System.Print.{
  print_system_create_account_info, print_system_create_account_with_seed_info,
  print_system_initialize_nonce_info,
}
use ledger_embedded_app.Stake.{StakeAuthorize, staker, withdrawer, StakeAuthorizeInfo}
use ledger_embedded_app.Stake.Kinds.{
  stake_initialize_of, stake_delegate_of, stake_authorize_of, stake_split_of,
}
use ledger_embedded_app.Stake.Print.{
  print_stake_initialize_info, print_delegate_stake_info, print_stake_split_info1,
  print_stake_split_info2,
}
use ledger_embedded_app.Vote
use ledger_embedded_app.Vote.{VoteAuthorize, VoteAuthorizeInfo}
use ledger_embedded_app.Vote.Kinds.{vote_initialize_of, vote_authorize_of}
use ledger_embedded_app.Vote.Print.{print_vote_initialize_info}
use ledger_embedded_app.Token.Kinds.{
  token_initialize_mint_of, token_initialize_account_of, token_initialize_multisig_of,
  token_transfer_of,
}
use ledger_embedded_app.Token.Print.{
  general_key, general_multisig_m_of_n, print_rpl_token_transfer_info,
}
use ledger_embedded_app.AssociatedToken.{print_rpl_associated_token_account_create_info}
use ledger_embedded_app.Transaction.{
  InstructionInfo, info_at, associated_of, token_of, stake_of, system_of, vote_of,
}

-- A printer of several infos.
abbrev pub InfosPrinter : Type 0
InfosPrinter = PrintConfig → List InstructionInfo → Printer

-- A member of a member of an info, such as `infos[0]->system.create_account`.
abbrev pub member :
    {P A : Type 0}
    → List InstructionInfo
    → ℕ
    → (InstructionInfo → Outcome P)
    → (P → Outcome A)
    → Outcome A
member infos i program field = do info ← info_at infos i; union ← program info; field union

-- Whether two pointers are the same. They point into the same message, and a pointer is the bytes from
-- there to its end.
abbrev pub same_pointer : Pointer → Pointer → Bool
same_pointer a b = length a == length b

unfoldable pub print_create_stake_account : InfosPrinter
print_create_stake_account config infos s = do
  ca_info ← member infos 0 system_of system_create_account_of
  info ← member infos 1 stake_of stake_initialize_of
  s ← primary (codes "Create stake acct") (pubkey ca_info.to) s
  s ← print_system_create_account_info none ca_info config s
  print_stake_initialize_info none info config s

unfoldable pub print_create_stake_account_with_seed : InfosPrinter
print_create_stake_account_with_seed config infos s = do
  ca_info ← member infos 0 system_of system_create_account_with_seed_of
  info ← member infos 1 stake_of stake_initialize_of
  s ← primary (codes "Create stake acct") (pubkey ca_info.to) s
  s ← print_system_create_account_with_seed_info none ca_info config s
  print_stake_initialize_info none info config s

unfoldable pub print_create_stake_account_and_delegate : InfosPrinter
print_create_stake_account_and_delegate config infos s = do
  ca_info ← member infos 0 system_of system_create_account_of
  si_info ← member infos 1 stake_of stake_initialize_of
  sd_info ← member infos 2 stake_of stake_delegate_of
  s ← primary (codes "Delegate from") (pubkey ca_info.to) s
  s ← print_system_create_account_info none ca_info config s
  s ← print_stake_initialize_info none si_info config s
  print_delegate_stake_info none sd_info config s

unfoldable pub print_create_stake_account_with_seed_and_delegate : InfosPrinter
print_create_stake_account_with_seed_and_delegate config infos s = do
  ca_info ← member infos 0 system_of system_create_account_with_seed_of
  si_info ← member infos 1 stake_of stake_initialize_of
  sd_info ← member infos 2 stake_of stake_delegate_of
  s ← primary (codes "Delegate from") (pubkey ca_info.to) s
  s ← print_system_create_account_with_seed_info none ca_info config s
  s ← print_stake_initialize_info none si_info config s
  print_delegate_stake_info none sd_info config s

-- The base and the seed of the instruction that the flag `legacy` says.
abbrev pub base_and_seed : List InstructionInfo → Bool → Outcome (Pointer × SizedString)
base_and_seed infos true = do
  aws_info ← member infos 0 system_of system_allocate_with_seed_of
  done (aws_info.base, aws_info.seed)
base_and_seed infos false = do
  cws_info ← member infos 0 system_of system_create_account_with_seed_of
  done (cws_info.base, cws_info.seed)

abbrev pub print_base_and_seed : Pointer → SizedString → PrintConfig → Printer
print_base_and_seed base seed config s = do
  s ← when config.expert_mode (general (codes "Base") (pubkey base)) s
  when config.expert_mode (general (codes "Seed") (sized_string seed)) s

unfoldable pub print_stake_split_with_seed : Bool → InfosPrinter
print_stake_split_with_seed legacy config infos s = do
  from ← base_and_seed infos legacy
  ss_info ← member infos 1 stake_of stake_split_of
  s ← print_stake_split_info1 ss_info config s
  s ← print_base_and_seed (from.0) (from.1) config s
  print_stake_split_info2 ss_info config s

-- New authorities, in one item where the pointers to them are the same.
abbrev pub new_authorities_of : List ℕ → Pointer → Pointer → Printer
new_authorities_of title first second s =
    if same_pointer first second then general (codes "New authorities") (pubkey first) s else (do
      s ← general title (pubkey first) s
      general (codes "New withdraw auth") (pubkey second) s)

abbrev pub is_staker : StakeAuthorize → Bool
is_staker staker = true
is_staker withdrawer = false

abbrev pub stake_authorities : StakeAuthorizeInfo → StakeAuthorizeInfo → PrintConfig → Printer
stake_authorities staker_info withdrawer_info config s = do
  s ← primary (codes "Set stake auth") (pubkey staker_info.account) s
  s ←
      new_authorities_of (codes "New stake auth") staker_info.new_authority
        withdrawer_info.new_authority s
  s ← general_key (codes "Custodian") withdrawer_info.custodian s
  general_authority (codes "Authorized by") withdrawer_info.authority config s

unfoldable pub print_stake_authorize_both : InfosPrinter
print_stake_authorize_both config infos s = do
  staker_info ← member infos 0 stake_of stake_authorize_of
  withdrawer_info ← member infos 1 stake_of stake_authorize_of
  if not (is_staker staker_info.authorize)
      then bail 1
      else if is_staker withdrawer_info.authorize
      then bail 1
      else stake_authorities staker_info withdrawer_info config s

unfoldable pub print_create_nonce_account : InfosPrinter
print_create_nonce_account config infos s = do
  ca_info ← member infos 0 system_of system_create_account_of
  info ← member infos 1 system_of system_initialize_nonce_of
  s ← primary (codes "Create nonce acct") (pubkey ca_info.to) s
  s ← print_system_create_account_info none ca_info config s
  print_system_initialize_nonce_info none info config s

unfoldable pub print_create_nonce_account_with_seed : InfosPrinter
print_create_nonce_account_with_seed config infos s = do
  ca_info ← member infos 0 system_of system_create_account_with_seed_of
  info ← member infos 1 system_of system_initialize_nonce_of
  s ← primary (codes "Create nonce acct") (pubkey ca_info.to) s
  s ← print_system_create_account_with_seed_info none ca_info config s
  print_system_initialize_nonce_info none info config s

unfoldable pub print_create_vote_account : InfosPrinter
print_create_vote_account config infos s = do
  ca_info ← member infos 0 system_of system_create_account_of
  info ← member infos 1 vote_of vote_initialize_of
  s ← primary (codes "Create vote acct") (pubkey ca_info.to) s
  s ← print_system_create_account_info none ca_info config s
  print_vote_initialize_info none info config s

unfoldable pub print_create_vote_account_with_seed : InfosPrinter
print_create_vote_account_with_seed config infos s = do
  ca_info ← member infos 0 system_of system_create_account_with_seed_of
  info ← member infos 1 vote_of vote_initialize_of
  s ← primary (codes "Create vote acct") (pubkey ca_info.to) s
  s ← print_system_create_account_with_seed_info none ca_info config s
  print_vote_initialize_info none info config s

abbrev pub is_voter : VoteAuthorize → Bool
is_voter Vote.voter = true
is_voter Vote.withdrawer = false

abbrev pub vote_authorities : VoteAuthorizeInfo → VoteAuthorizeInfo → PrintConfig → Printer
vote_authorities voter_info withdrawer_info config s = do
  s ← primary (codes "Set vote auth") (pubkey voter_info.account) s
  s ←
      new_authorities_of (codes "New vote auth") voter_info.new_authority
        withdrawer_info.new_authority s
  general_authority (codes "Authorized by") withdrawer_info.authority config s

unfoldable pub print_vote_authorize_both : InfosPrinter
print_vote_authorize_both config infos s = do
  voter_info ← member infos 0 vote_of vote_authorize_of
  withdrawer_info ← member infos 1 vote_of vote_authorize_of
  if not (is_voter voter_info.authorize)
      then bail 1
      else if is_voter withdrawer_info.authorize
      then bail 1
      else vote_authorities voter_info withdrawer_info config s

unfoldable pub print_rpl_token_create_mint : InfosPrinter
print_rpl_token_create_mint config infos s = do
  ca_info ← member infos 0 system_of system_create_account_of
  im_info ← member infos 1 token_of token_initialize_mint_of
  s ← primary (codes "Create token mint") (pubkey im_info.mint_account) s
  s ← general (codes "Mint authority") (pubkey im_info.mint_authority) s
  s ← general (codes "Mint decimals") (u64 im_info.decimals) s
  s ← general_key (codes "Freeze authority") im_info.freeze_authority s
  s ← general_authority (codes "Funded by") ca_info.from config s
  general (codes "Funded with") (amount ca_info.lamports) s

unfoldable pub print_rpl_token_create_account : InfosPrinter
print_rpl_token_create_account config infos s = do
  ca_info ← member infos 0 system_of system_create_account_of
  ia_info ← member infos 1 token_of token_initialize_account_of
  s ← primary (codes "Create token acct") (pubkey ia_info.token_account) s
  s ← general (codes "From mint") (pubkey ia_info.mint_account) s
  s ← general (codes "Owned by") (pubkey ia_info.owner) s
  s ← general_authority (codes "Funded by") ca_info.from config s
  general (codes "Funded with") (amount ca_info.lamports) s

unfoldable pub print_rpl_token_create_multisig : InfosPrinter
print_rpl_token_create_multisig config infos s = do
  ca_info ← member infos 0 system_of system_create_account_of
  im_info ← member infos 1 token_of token_initialize_multisig_of
  s ← primary (codes "Create multisig") (pubkey im_info.multisig_account) s
  s ← general_multisig_m_of_n im_info.m im_info.signers.count s
  s ← general_authority (codes "Funded by") ca_info.from config s
  general (codes "Funded with") (amount ca_info.lamports) s

unfoldable pub print_rpl_associated_token_account_create_with_transfer : InfosPrinter
print_rpl_associated_token_account_create_with_transfer config infos s = do
  c_info ← member infos 0 associated_of (λ i. done i.create)
  t_info ← member infos 1 token_of token_transfer_of
  s ← print_rpl_associated_token_account_create_info c_info config s
  print_rpl_token_transfer_info t_info config false s
