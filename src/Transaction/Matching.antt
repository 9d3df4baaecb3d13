-- ===== src/Transaction/Matching.antt =====
-- An info that matches a brief has the member that the printers then read.
use ledger_embedded_app.Common.{◌≡◌, refl, true, done, ◌>>=◌}
use ledger_embedded_app.Instruction.Safety.{IsKey}
use ledger_embedded_app.Instruction.Unions.{Gives}
use ledger_embedded_app.System.{
  advance_nonce_account, allocate_with_seed, create_account, create_account_with_seed,
  initialize_nonce_account,
}
use ledger_embedded_app.System.Kinds.{
  system_advance_nonce_of, system_advance_nonce_of-advance_nonce_account,
  system_allocate_with_seed_of, system_allocate_with_seed_of-allocate_with_seed,
  system_create_account_of, system_create_account_of-create_account,
  system_create_account_with_seed_of, system_create_account_with_seed_of-create_account_with_seed,
  system_initialize_nonce_of, system_initialize_nonce_of-initialize_nonce_account,
}
use ledger_embedded_app.Stake.{
  stake_authorize, stake_authorize_checked, stake_delegate, stake_initialize,
  stake_initialize_checked, stake_split,
}
use ledger_embedded_app.Stake.Kinds.{
  stake_authorize_of, stake_authorize_of-stake_authorize,
  stake_authorize_of-stake_authorize_checked, stake_delegate_of, stake_delegate_of-stake_delegate,
  stake_initialize_of, stake_initialize_of-stake_initialize,
  stake_initialize_of-stake_initialize_checked, stake_split_of, stake_split_of-stake_split,
}
use ledger_embedded_app.Vote.{vote_authorize, vote_authorize_checked, vote_initialize}
use ledger_embedded_app.Vote.Kinds.{
  vote_authorize_of, vote_authorize_of-vote_authorize, vote_authorize_of-vote_authorize_checked,
  vote_initialize_of, vote_initialize_of-vote_initialize,
}
use ledger_embedded_app.Token.{
  initialize_account, initialize_account2, initialize_mint, initialize_multisig, transfer_checked,
}
use ledger_embedded_app.Token.Kinds.{
  token_initialize_account_of, token_initialize_account_of-initialize_account,
  token_initialize_account_of-initialize_account2, token_initialize_mint_of,
  token_initialize_mint_of-initialize_mint, token_initialize_multisig_of,
  token_initialize_multisig_of-initialize_multisig, token_transfer_of,
  token_transfer_of-transfer_checked,
}
use ledger_embedded_app.System.Safety.{InfoFits}
use ledger_embedded_app.Stake.Parse.Safety.{StakeInfoFits}
use ledger_embedded_app.Vote.Safety.{VoteInfoFits}
use ledger_embedded_app.Token.Parse.Safety.{TokenInfoFits, SignFits}
use ledger_embedded_app.AssociatedToken.{AssociatedInfoFits}
use ledger_embedded_app.Transaction.{
  InstructionInfo, unknown_info, rpl_memo_info, associated_info, token_info, stake_info,
  system_info, vote_info, associated_of, token_of, stake_of, system_of, vote_of, associated_brief,
  token_brief, stake_brief, system_brief, vote_brief, instruction_info_matches_brief,
}

-- What an info points to is there to read.
abbrev pub InstructionInfoFits : InstructionInfo → Type 0
InstructionInfoFits unknown_info = Unit {0}
InstructionInfoFits rpl_memo_info = Unit {0}
InstructionInfoFits (associated_info i) = AssociatedInfoFits i
InstructionInfoFits (token_info i) = TokenInfoFits i
InstructionInfoFits (stake_info i) = StakeInfoFits i
InstructionInfoFits (system_info i) = InfoFits i
InstructionInfoFits (vote_info i) = VoteInfoFits i

pub read-associated :
    (info : InstructionInfo)
    → instruction_info_matches_brief info associated_brief ≡ true
    → Gives (λ i. Unit {0}) (associated_of info >>= λ i. done i.create)
unfolding associated_of instruction_info_matches_brief
read-associated (associated_info i) e = record { value = i.create; gives = refl; fits = tt }
read-associated _ e = absurd cc

pub read-create_account :
    (info : InstructionInfo)
    → InstructionInfoFits info
    → instruction_info_matches_brief info (system_brief create_account) ≡ true
    → Gives (λ i. IsKey i.from) (system_of info >>= system_create_account_of)
unfolding system_of instruction_info_matches_brief
read-create_account (system_info i) f e = system_create_account_of-create_account i f e
read-create_account _ f e = absurd cc

pub read-create_account_with_seed :
    (info : InstructionInfo)
    → InstructionInfoFits info
    → instruction_info_matches_brief info (system_brief create_account_with_seed) ≡ true
    → Gives (λ i. IsKey i.from) (system_of info >>= system_create_account_with_seed_of)
unfolding system_of instruction_info_matches_brief
read-create_account_with_seed (system_info i) f e =
    system_create_account_with_seed_of-create_account_with_seed i f e
read-create_account_with_seed _ f e = absurd cc

pub read-initialize_nonce_account :
    (info : InstructionInfo)
    → InstructionInfoFits info
    → instruction_info_matches_brief info (system_brief initialize_nonce_account) ≡ true
    → Gives (λ i. Unit {0}) (system_of info >>= system_initialize_nonce_of)
unfolding system_of instruction_info_matches_brief
read-initialize_nonce_account (system_info i) f e =
    system_initialize_nonce_of-initialize_nonce_account i f e
read-initialize_nonce_account _ f e = absurd cc

pub read-advance_nonce_account :
    (info : InstructionInfo)
    → InstructionInfoFits info
    → instruction_info_matches_brief info (system_brief advance_nonce_account) ≡ true
    → Gives (λ i. Unit {0}) (system_of info >>= system_advance_nonce_of)
unfolding system_of instruction_info_matches_brief
read-advance_nonce_account (system_info i) f e = system_advance_nonce_of-advance_nonce_account i f e
read-advance_nonce_account _ f e = absurd cc

pub read-allocate_with_seed :
    (info : InstructionInfo)
    → InstructionInfoFits info
    → instruction_info_matches_brief info (system_brief allocate_with_seed) ≡ true
    → Gives (λ i. Unit {0}) (system_of info >>= system_allocate_with_seed_of)
unfolding system_of instruction_info_matches_brief
read-allocate_with_seed (system_info i) f e = system_allocate_with_seed_of-allocate_with_seed i f e
read-allocate_with_seed _ f e = absurd cc

pub read-stake_initialize :
    (info : InstructionInfo)
    → InstructionInfoFits info
    → instruction_info_matches_brief info (stake_brief stake_initialize) ≡ true
    → Gives
        (λ i. IsKey i.stake_authority × IsKey i.withdraw_authority)
        (stake_of info >>= stake_initialize_of)
unfolding stake_of instruction_info_matches_brief
read-stake_initialize (stake_info i) f e = stake_initialize_of-stake_initialize i f e
read-stake_initialize _ f e = absurd cc

pub read-stake_initialize_checked :
    (info : InstructionInfo)
    → InstructionInfoFits info
    → instruction_info_matches_brief info (stake_brief stake_initialize_checked) ≡ true
    → Gives
        (λ i. IsKey i.stake_authority × IsKey i.withdraw_authority)
        (stake_of info >>= stake_initialize_of)
unfolding stake_of instruction_info_matches_brief
read-stake_initialize_checked (stake_info i) f e =
    stake_initialize_of-stake_initialize_checked i f e
read-stake_initialize_checked _ f e = absurd cc

pub read-stake_delegate :
    (info : InstructionInfo)
    → InstructionInfoFits info
    → instruction_info_matches_brief info (stake_brief stake_delegate) ≡ true
    → Gives (λ i. IsKey i.authorized_pubkey) (stake_of info >>= stake_delegate_of)
unfolding stake_of instruction_info_matches_brief
read-stake_delegate (stake_info i) f e = stake_delegate_of-stake_delegate i f e
read-stake_delegate _ f e = absurd cc

pub read-stake_authorize :
    (info : InstructionInfo)
    → InstructionInfoFits info
    → instruction_info_matches_brief info (stake_brief stake_authorize) ≡ true
    → Gives (λ i. IsKey i.authority) (stake_of info >>= stake_authorize_of)
unfolding stake_of instruction_info_matches_brief
read-stake_authorize (stake_info i) f e = stake_authorize_of-stake_authorize i f e
read-stake_authorize _ f e = absurd cc

pub read-stake_authorize_checked :
    (info : InstructionInfo)
    → InstructionInfoFits info
    → instruction_info_matches_brief info (stake_brief stake_authorize_checked) ≡ true
    → Gives (λ i. IsKey i.authority) (stake_of info >>= stake_authorize_of)
unfolding stake_of instruction_info_matches_brief
read-stake_authorize_checked (stake_info i) f e = stake_authorize_of-stake_authorize_checked i f e
read-stake_authorize_checked _ f e = absurd cc

pub read-stake_split :
    (info : InstructionInfo)
    → InstructionInfoFits info
    → instruction_info_matches_brief info (stake_brief stake_split) ≡ true
    → Gives (λ i. IsKey i.authority) (stake_of info >>= stake_split_of)
unfolding stake_of instruction_info_matches_brief
read-stake_split (stake_info i) f e = stake_split_of-stake_split i f e
read-stake_split _ f e = absurd cc

pub read-vote_initialize :
    (info : InstructionInfo)
    → InstructionInfoFits info
    → instruction_info_matches_brief info (vote_brief vote_initialize) ≡ true
    → Gives (λ i. Unit {0}) (vote_of info >>= vote_initialize_of)
unfolding vote_of instruction_info_matches_brief
read-vote_initialize (vote_info i) f e = vote_initialize_of-vote_initialize i f e
read-vote_initialize _ f e = absurd cc

pub read-vote_authorize :
    (info : InstructionInfo)
    → InstructionInfoFits info
    → instruction_info_matches_brief info (vote_brief vote_authorize) ≡ true
    → Gives (λ i. IsKey i.authority) (vote_of info >>= vote_authorize_of)
unfolding vote_of instruction_info_matches_brief
read-vote_authorize (vote_info i) f e = vote_authorize_of-vote_authorize i f e
read-vote_authorize _ f e = absurd cc

pub read-vote_authorize_checked :
    (info : InstructionInfo)
    → InstructionInfoFits info
    → instruction_info_matches_brief info (vote_brief vote_authorize_checked) ≡ true
    → Gives (λ i. IsKey i.authority) (vote_of info >>= vote_authorize_of)
unfolding vote_of instruction_info_matches_brief
read-vote_authorize_checked (vote_info i) f e = vote_authorize_of-vote_authorize_checked i f e
read-vote_authorize_checked _ f e = absurd cc

pub read-initialize_mint :
    (info : InstructionInfo)
    → InstructionInfoFits info
    → instruction_info_matches_brief info (token_brief initialize_mint) ≡ true
    → Gives (λ i. Unit {0}) (token_of info >>= token_initialize_mint_of)
unfolding token_of instruction_info_matches_brief
read-initialize_mint (token_info i) f e = token_initialize_mint_of-initialize_mint i f e
read-initialize_mint _ f e = absurd cc

pub read-initialize_account :
    (info : InstructionInfo)
    → InstructionInfoFits info
    → instruction_info_matches_brief info (token_brief initialize_account) ≡ true
    → Gives (λ i. Unit {0}) (token_of info >>= token_initialize_account_of)
unfolding token_of instruction_info_matches_brief
read-initialize_account (token_info i) f e = token_initialize_account_of-initialize_account i f e
read-initialize_account _ f e = absurd cc

pub read-initialize_account2 :
    (info : InstructionInfo)
    → InstructionInfoFits info
    → instruction_info_matches_brief info (token_brief initialize_account2) ≡ true
    → Gives (λ i. Unit {0}) (token_of info >>= token_initialize_account_of)
unfolding token_of instruction_info_matches_brief
read-initialize_account2 (token_info i) f e = token_initialize_account_of-initialize_account2 i f e
read-initialize_account2 _ f e = absurd cc

pub read-initialize_multisig :
    (info : InstructionInfo)
    → InstructionInfoFits info
    → instruction_info_matches_brief info (token_brief initialize_multisig) ≡ true
    → Gives (λ i. Unit {0}) (token_of info >>= token_initialize_multisig_of)
unfolding token_of instruction_info_matches_brief
read-initialize_multisig (token_info i) f e = token_initialize_multisig_of-initialize_multisig i f e
read-initialize_multisig _ f e = absurd cc

pub read-transfer_checked :
    (info : InstructionInfo)
    → InstructionInfoFits info
    → instruction_info_matches_brief info (token_brief transfer_checked) ≡ true
    → Gives (λ i. IsKey i.mint_account × SignFits i.sign) (token_of info >>= token_transfer_of)
unfolding token_of instruction_info_matches_brief
read-transfer_checked (token_info i) f e = token_transfer_of-transfer_checked i f e
read-transfer_checked _ f e = absurd cc

-- The info of a split is one of the stake program.
pub read-stake :
    (info : InstructionInfo)
    → InstructionInfoFits info
    → instruction_info_matches_brief info (stake_brief stake_split) ≡ true
    → Gives StakeInfoFits (stake_of info)
unfolding stake_of instruction_info_matches_brief
read-stake (stake_info i) f e = record { value = i; gives = refl; fits = f }
read-stake _ f e = absurd cc
