-- ===== src/Transaction/Cases.antt =====
-- Which combinations of instructions are shown, and how: the briefs of
-- librenec/transaction_printers.c, `print_transaction_nonce_processed` and `print_transaction`.
use ledger_embedded_app.Common.{
  ℕ, Bool, true, false, if◌then◌else◌, List, [], ◌∷◌, length, Outcome, done, bail, fault, ◌>>=◌,
}
use ledger_embedded_app.Summary.{TransactionSummary}
use ledger_embedded_app.Printing.{PrintConfig, Printer}
use ledger_embedded_app.System.{
  advance_nonce_account, allocate, allocate_with_seed, assign, create_account,
  create_account_with_seed, initialize_nonce_account,
}
use ledger_embedded_app.System.Kinds.{system_advance_nonce_of}
use ledger_embedded_app.System.Print.{print_system_info, print_system_nonced_transaction_sentinel}
use ledger_embedded_app.Stake.{
  stake_authorize, stake_authorize_checked, stake_delegate, stake_initialize,
  stake_initialize_checked, stake_split,
}
use ledger_embedded_app.Stake.Print.{print_stake_info}
use ledger_embedded_app.Vote.{vote_authorize, vote_authorize_checked, vote_initialize}
use ledger_embedded_app.Vote.Print.{print_vote_info}
use ledger_embedded_app.Token.{
  initialize_account, initialize_account2, initialize_mint, initialize_multisig, transfer_checked,
}
use ledger_embedded_app.Token.Print.{print_rpl_token_info}
use ledger_embedded_app.AssociatedToken.{print_rpl_associated_token_account_info}
use ledger_embedded_app.Transaction.{
  InstructionInfo, unknown_info, rpl_memo_info, associated_info, token_info, stake_info,
  system_info, vote_info, stake_of, system_of, InstructionBrief, associated_brief, token_brief,
  stake_brief, system_brief, vote_brief, instruction_info_matches_brief,
  instruction_infos_match_briefs, info_at,
}
use ledger_embedded_app.Transaction.Print.{
  InfosPrinter, member, print_create_nonce_account, print_create_nonce_account_with_seed,
  print_create_stake_account, print_create_stake_account_and_delegate,
  print_create_stake_account_with_seed, print_create_stake_account_with_seed_and_delegate,
  print_create_vote_account, print_create_vote_account_with_seed,
  print_rpl_associated_token_account_create_with_transfer, print_rpl_token_create_account,
  print_rpl_token_create_mint, print_rpl_token_create_multisig, print_stake_authorize_both,
  print_stake_split_with_seed, print_vote_authorize_both,
}

abbrev pub nonce_brief : InstructionBrief
nonce_brief = system_brief advance_nonce_account

abbrev pub create_stake_account_brief : List InstructionBrief
create_stake_account_brief = system_brief create_account ∷ stake_brief stake_initialize ∷ []

abbrev pub create_stake_account_checked_brief : List InstructionBrief
create_stake_account_checked_brief =
    system_brief create_account ∷ stake_brief stake_initialize_checked ∷ []

abbrev pub create_stake_account_with_seed_brief : List InstructionBrief
create_stake_account_with_seed_brief =
    system_brief create_account_with_seed ∷ stake_brief stake_initialize ∷ []

abbrev pub create_stake_account_with_seed_checked_brief : List InstructionBrief
create_stake_account_with_seed_checked_brief =
    system_brief create_account_with_seed ∷ stake_brief stake_initialize_checked ∷ []

abbrev pub create_nonce_account_brief : List InstructionBrief
create_nonce_account_brief =
    system_brief create_account ∷ system_brief initialize_nonce_account ∷ []

abbrev pub create_nonce_account_with_seed_brief : List InstructionBrief
create_nonce_account_with_seed_brief =
    system_brief create_account_with_seed ∷ system_brief initialize_nonce_account ∷ []

abbrev pub create_vote_account_brief : List InstructionBrief
create_vote_account_brief = system_brief create_account ∷ vote_brief vote_initialize ∷ []

abbrev pub create_vote_account_with_seed_brief : List InstructionBrief
create_vote_account_with_seed_brief =
    system_brief create_account_with_seed ∷ vote_brief vote_initialize ∷ []

abbrev pub stake_authorize_both_brief : List InstructionBrief
stake_authorize_both_brief = stake_brief stake_authorize ∷ stake_brief stake_authorize ∷ []

abbrev pub stake_authorize_checked_both_brief : List InstructionBrief
stake_authorize_checked_both_brief =
    stake_brief stake_authorize_checked ∷ stake_brief stake_authorize_checked ∷ []

abbrev pub vote_authorize_both_brief : List InstructionBrief
vote_authorize_both_brief = vote_brief vote_authorize ∷ vote_brief vote_authorize ∷ []

abbrev pub vote_authorize_checked_both_brief : List InstructionBrief
vote_authorize_checked_both_brief =
    vote_brief vote_authorize_checked ∷ vote_brief vote_authorize_checked ∷ []

abbrev pub stake_split_with_seed_v1_1_brief : List InstructionBrief
stake_split_with_seed_v1_1_brief = system_brief allocate_with_seed ∷ stake_brief stake_split ∷ []

abbrev pub stake_split_v1_2_brief : List InstructionBrief
stake_split_v1_2_brief = system_brief create_account ∷ stake_brief stake_split ∷ []

abbrev pub stake_split_with_seed_v1_2_brief : List InstructionBrief
stake_split_with_seed_v1_2_brief =
    system_brief create_account_with_seed ∷ stake_brief stake_split ∷ []

abbrev pub rpl_token_create_mint_brief : List InstructionBrief
rpl_token_create_mint_brief = system_brief create_account ∷ token_brief initialize_mint ∷ []

abbrev pub rpl_token_create_account_brief : List InstructionBrief
rpl_token_create_account_brief = system_brief create_account ∷ token_brief initialize_account ∷ []

abbrev pub rpl_token_create_account2_brief : List InstructionBrief
rpl_token_create_account2_brief = system_brief create_account ∷ token_brief initialize_account2 ∷ []

abbrev pub rpl_token_create_multisig_brief : List InstructionBrief
rpl_token_create_multisig_brief = system_brief create_account ∷ token_brief initialize_multisig ∷ []

abbrev pub rpl_associated_token_account_create_with_transfer_brief : List InstructionBrief
rpl_associated_token_account_create_with_transfer_brief =
    associated_brief ∷ token_brief transfer_checked ∷ []

abbrev pub create_stake_account_and_delegate_brief : List InstructionBrief
create_stake_account_and_delegate_brief =
    system_brief create_account ∷ stake_brief stake_initialize ∷ stake_brief stake_delegate ∷ []

abbrev pub create_stake_account_with_seed_and_delegate_brief : List InstructionBrief
create_stake_account_with_seed_and_delegate_brief =
    system_brief create_account_with_seed
    ∷ stake_brief stake_initialize
    ∷ stake_brief stake_delegate
    ∷ []

abbrev pub stake_split_v1_1_brief : List InstructionBrief
stake_split_v1_1_brief = system_brief allocate ∷ system_brief assign ∷ stake_brief stake_split ∷ []

-- The split instruction alone is shown: the ones before it add nothing to what is shown.
unfoldable pub print_stake_split_alone : ℕ → InfosPrinter
print_stake_split_alone i config infos s = do
  info ← info_at infos i
  stake ← stake_of info
  print_stake_info stake config s

-- An arm of a chain of conditions. Where one has two conditions joined by `||`, it is two arms.
pub record Arm : Type 0 where
  pub briefs : List InstructionBrief
  pub print : InfosPrinter

abbrev pub arms_of_two : List Arm
arms_of_two =
    record { briefs = create_stake_account_brief; print = print_create_stake_account }
    ∷ record { briefs = create_stake_account_checked_brief; print = print_create_stake_account }
    ∷ record {
      briefs = create_stake_account_with_seed_brief;
      print = print_create_stake_account_with_seed;
    }
    ∷ record {
      briefs = create_stake_account_with_seed_checked_brief;
      print = print_create_stake_account_with_seed;
    }
    ∷ record { briefs = create_nonce_account_brief; print = print_create_nonce_account }
    ∷ record {
      briefs = create_nonce_account_with_seed_brief;
      print = print_create_nonce_account_with_seed;
    }
    ∷ record { briefs = create_vote_account_brief; print = print_create_vote_account }
    ∷ record {
      briefs = create_vote_account_with_seed_brief;
      print = print_create_vote_account_with_seed;
    }
    ∷ record { briefs = stake_authorize_both_brief; print = print_stake_authorize_both }
    ∷ record { briefs = stake_authorize_checked_both_brief; print = print_stake_authorize_both }
    ∷ record { briefs = vote_authorize_both_brief; print = print_vote_authorize_both }
    ∷ record { briefs = vote_authorize_checked_both_brief; print = print_vote_authorize_both }
    ∷ record { briefs = stake_split_with_seed_v1_1_brief; print = print_stake_split_with_seed true }
    ∷ record { briefs = stake_split_v1_2_brief; print = print_stake_split_alone 1 }
    ∷ record {
      briefs = stake_split_with_seed_v1_2_brief;
      print = print_stake_split_with_seed false;
    }
    ∷ record { briefs = rpl_token_create_mint_brief; print = print_rpl_token_create_mint }
    ∷ record { briefs = rpl_token_create_account_brief; print = print_rpl_token_create_account }
    ∷ record { briefs = rpl_token_create_account2_brief; print = print_rpl_token_create_account }
    ∷ record { briefs = rpl_token_create_multisig_brief; print = print_rpl_token_create_multisig }
    ∷ record {
      briefs = rpl_associated_token_account_create_with_transfer_brief;
      print = print_rpl_associated_token_account_create_with_transfer;
    }
    ∷ []

abbrev pub arms_of_three : List Arm
arms_of_three =
    record {
      briefs = create_stake_account_and_delegate_brief;
      print = print_create_stake_account_and_delegate;
    }
    ∷ record {
      briefs = create_stake_account_with_seed_and_delegate_brief;
      print = print_create_stake_account_with_seed_and_delegate;
    }
    ∷ record { briefs = stake_split_v1_1_brief; print = print_stake_split_alone 2 }
    ∷ []

-- The chain: the first arm whose briefs the infos match is taken.
unfoldable pub first_match : List Arm → InfosPrinter
first_match [] config infos s = bail 1
first_match (arm ∷ arms) config infos s =
    let rest = first_match arms config infos s in
    instruction_infos_match_briefs infos arm.briefs (length infos) >>= λ matches.
    if matches then arm.print config infos s else rest

unfoldable pub print_alone : InstructionInfo → PrintConfig → Printer
print_alone (system_info i) config s = print_system_info i config s
print_alone (stake_info i) config s = print_stake_info i config s
print_alone (vote_info i) config s = print_vote_info i config s
print_alone (token_info i) config s = print_rpl_token_info i config s
print_alone (associated_info i) config s = print_rpl_associated_token_account_info i config s
print_alone rpl_memo_info config s = bail 1
print_alone unknown_info config s = bail 1

unfoldable pub print_transaction_nonce_processed : InfosPrinter
print_transaction_nonce_processed config [] s = bail 1
print_transaction_nonce_processed config (a ∷ []) s = print_alone a config s
print_transaction_nonce_processed config (a ∷ b ∷ []) s =
    first_match arms_of_two config (a ∷ b ∷ []) s
print_transaction_nonce_processed config (a ∷ b ∷ c ∷ []) s =
    first_match arms_of_three config (a ∷ b ∷ c ∷ []) s
print_transaction_nonce_processed config (a ∷ b ∷ c ∷ d ∷ infos) s = bail 1

-- The return value with the summary as it is left, from the summary before: a printer that returns
-- nonzero leaves it as it was.
abbrev pub concluded :
    TransactionSummary → Outcome TransactionSummary → Outcome (ℕ × TransactionSummary)
concluded s (done s') = done (0, s')
concluded s (bail e) = done (e, s)
concluded s fault = fault

-- The first info where there are others and it advances a nonce.
abbrev pub nonce_first : InstructionInfo → List InstructionInfo → Bool
nonce_first info [] = false
nonce_first info (_ ∷ _) = instruction_info_matches_brief info nonce_brief

-- What the sentinel shows stays in the summary where the rest then fails.
unfoldable pub print_transaction :
    PrintConfig → List InstructionInfo → TransactionSummary → Outcome (ℕ × TransactionSummary)
print_transaction config [] s = concluded s (print_transaction_nonce_processed config [] s)
print_transaction config (info ∷ infos) s =
    if nonce_first info infos
    then (do
      nonce_info ← member (info ∷ infos) 0 system_of system_advance_nonce_of
      s ← print_system_nonced_transaction_sentinel nonce_info config s
      concluded s (print_transaction_nonce_processed config infos s))
    else concluded s (print_transaction_nonce_processed config (info ∷ infos) s)
