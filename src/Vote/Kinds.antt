-- ===== src/Vote/Kinds.antt =====
-- The tag of VoteInfo and the members of its union, which a caller reads by the tag that it has compared.
use ledger_embedded_app.Common.{ℕ, Bool, true, ◌≡◌, refl, ◌==◌, Outcome, done, fault}
use ledger_embedded_app.Instruction.Safety.{IsKey}
use ledger_embedded_app.Instruction.Unions.{Gives}
use ledger_embedded_app.Vote.{
  VoteInstructionKind, VoteInfo, VoteAuthorizeInfo, VoteInitializeInfo, vote_initialize,
  vote_authorize, vote_vote, vote_withdraw, vote_update_validator_id, vote_update_commission,
  vote_switch_vote, vote_authorize_checked, initialize_info, withdraw_info, authorize_info,
  authorize_checked_info, update_validator_id_info, update_commission_info,
}
use ledger_embedded_app.Vote.Safety.{VoteInfoFits}

-- The number of an enumerator.
abbrev pub vote_number : VoteInstructionKind → ℕ
vote_number vote_initialize = 0
vote_number vote_authorize = 1
vote_number vote_vote = 2
vote_number vote_withdraw = 3
vote_number vote_update_validator_id = 4
vote_number vote_update_commission = 5
vote_number vote_switch_vote = 6
vote_number vote_authorize_checked = 7

-- `kind` of the union
abbrev pub vote_kind_of : VoteInfo → VoteInstructionKind
vote_kind_of (initialize_info i) = vote_initialize
vote_kind_of (withdraw_info i) = vote_withdraw
vote_kind_of (authorize_info i) = vote_authorize
vote_kind_of (authorize_checked_info i) = vote_authorize_checked
vote_kind_of (update_validator_id_info i) = vote_update_validator_id
vote_kind_of (update_commission_info i) = vote_update_commission

abbrev pub is_vote_kind : VoteInstructionKind → VoteInfo → Bool
is_vote_kind kind info = vote_number kind == vote_number (vote_kind_of info)

-- The member `initialize`. A read under another tag is a fault.
unfoldable pub vote_initialize_of : VoteInfo → Outcome VoteInitializeInfo
vote_initialize_of (initialize_info i) = done i
vote_initialize_of _ = fault

-- The member `authorize`. A read under another tag is a fault.
unfoldable pub vote_authorize_of : VoteInfo → Outcome VoteAuthorizeInfo
vote_authorize_of (authorize_info i) = done i
vote_authorize_of (authorize_checked_info i) = done i
vote_authorize_of _ = fault

pub vote_initialize_of-vote_initialize :
    (info : VoteInfo)
    → VoteInfoFits info
    → is_vote_kind vote_initialize info ≡ true
    → Gives (λ i. Unit {0}) (vote_initialize_of info)
unfolding vote_initialize_of
vote_initialize_of-vote_initialize (initialize_info i) k e = record {
  value = i;
  gives = refl;
  fits = tt;
}
vote_initialize_of-vote_initialize _ k e = absurd cc

pub vote_authorize_of-vote_authorize :
    (info : VoteInfo)
    → VoteInfoFits info
    → is_vote_kind vote_authorize info ≡ true
    → Gives (λ i. IsKey i.authority) (vote_authorize_of info)
unfolding vote_authorize_of
vote_authorize_of-vote_authorize (authorize_info i) k e = record {
  value = i;
  gives = refl;
  fits = k.1;
}
vote_authorize_of-vote_authorize _ k e = absurd cc

pub vote_authorize_of-vote_authorize_checked :
    (info : VoteInfo)
    → VoteInfoFits info
    → is_vote_kind vote_authorize_checked info ≡ true
    → Gives (λ i. IsKey i.authority) (vote_authorize_of info)
unfolding vote_authorize_of
vote_authorize_of-vote_authorize_checked (authorize_checked_info i) k e = record {
  value = i;
  gives = refl;
  fits = k.1;
}
vote_authorize_of-vote_authorize_checked _ k e = absurd cc
