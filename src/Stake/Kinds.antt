-- ===== src/Stake/Kinds.antt =====
-- The tag of StakeInfo and the members of its union, which a caller reads by the tag that it has compared.
use ledger_embedded_app.Common.{ℕ, Bool, true, ◌≡◌, refl, ◌==◌, Outcome, done, fault}
use ledger_embedded_app.Instruction.Safety.{IsKey}
use ledger_embedded_app.Instruction.Unions.{Gives}
use ledger_embedded_app.Stake.{
  StakeInstructionKind, StakeInfo, StakeAuthorizeInfo, StakeDelegateInfo, StakeInitializeInfo,
  StakeSplitInfo, stake_initialize, stake_authorize, stake_delegate, stake_split, stake_withdraw,
  stake_deactivate, stake_set_lockup, stake_merge, stake_authorize_with_seed,
  stake_initialize_checked, stake_authorize_checked, stake_authorize_checked_with_seed,
  stake_set_lockup_checked, delegate_info, initialize_info, initialize_checked_info, withdraw_info,
  authorize_info, authorize_checked_info, deactivate_info, set_lockup_info, set_lockup_checked_info,
  split_info, merge_info,
}
use ledger_embedded_app.Stake.Parse.Safety.{StakeInfoFits}

-- The number of an enumerator.
abbrev pub stake_number : StakeInstructionKind → ℕ
stake_number stake_initialize = 0
stake_number stake_authorize = 1
stake_number stake_delegate = 2
stake_number stake_split = 3
stake_number stake_withdraw = 4
stake_number stake_deactivate = 5
stake_number stake_set_lockup = 6
stake_number stake_merge = 7
stake_number stake_authorize_with_seed = 8
stake_number stake_initialize_checked = 9
stake_number stake_authorize_checked = 10
stake_number stake_authorize_checked_with_seed = 11
stake_number stake_set_lockup_checked = 12

-- `kind` of the union
abbrev pub stake_kind_of : StakeInfo → StakeInstructionKind
stake_kind_of (delegate_info i) = stake_delegate
stake_kind_of (initialize_info i) = stake_initialize
stake_kind_of (initialize_checked_info i) = stake_initialize_checked
stake_kind_of (withdraw_info i) = stake_withdraw
stake_kind_of (authorize_info i) = stake_authorize
stake_kind_of (authorize_checked_info i) = stake_authorize_checked
stake_kind_of (deactivate_info i) = stake_deactivate
stake_kind_of (set_lockup_info i) = stake_set_lockup
stake_kind_of (set_lockup_checked_info i) = stake_set_lockup_checked
stake_kind_of (split_info i) = stake_split
stake_kind_of (merge_info i) = stake_merge

abbrev pub is_stake_kind : StakeInstructionKind → StakeInfo → Bool
is_stake_kind kind info = stake_number kind == stake_number (stake_kind_of info)

-- The member `initialize`. A read under another tag is a fault.
unfoldable pub stake_initialize_of : StakeInfo → Outcome StakeInitializeInfo
stake_initialize_of (initialize_info i) = done i
stake_initialize_of (initialize_checked_info i) = done i
stake_initialize_of _ = fault

-- The member `delegate`. A read under another tag is a fault.
unfoldable pub stake_delegate_of : StakeInfo → Outcome StakeDelegateInfo
stake_delegate_of (delegate_info i) = done i
stake_delegate_of _ = fault

-- The member `authorize`. A read under another tag is a fault.
unfoldable pub stake_authorize_of : StakeInfo → Outcome StakeAuthorizeInfo
stake_authorize_of (authorize_info i) = done i
stake_authorize_of (authorize_checked_info i) = done i
stake_authorize_of _ = fault

-- The member `split`. A read under another tag is a fault.
unfoldable pub stake_split_of : StakeInfo → Outcome StakeSplitInfo
stake_split_of (split_info i) = done i
stake_split_of _ = fault

pub stake_initialize_of-stake_initialize :
    (info : StakeInfo)
    → StakeInfoFits info
    → is_stake_kind stake_initialize info ≡ true
    → Gives (λ i. IsKey i.stake_authority × IsKey i.withdraw_authority) (stake_initialize_of info)
unfolding stake_initialize_of
stake_initialize_of-stake_initialize (initialize_info i) k e = record {
  value = i;
  gives = refl;
  fits = (k.1, k.2);
}
stake_initialize_of-stake_initialize _ k e = absurd cc

pub stake_initialize_of-stake_initialize_checked :
    (info : StakeInfo)
    → StakeInfoFits info
    → is_stake_kind stake_initialize_checked info ≡ true
    → Gives (λ i. IsKey i.stake_authority × IsKey i.withdraw_authority) (stake_initialize_of info)
unfolding stake_initialize_of
stake_initialize_of-stake_initialize_checked (initialize_checked_info i) k e = record {
  value = i;
  gives = refl;
  fits = (k.1, k.2);
}
stake_initialize_of-stake_initialize_checked _ k e = absurd cc

pub stake_delegate_of-stake_delegate :
    (info : StakeInfo)
    → StakeInfoFits info
    → is_stake_kind stake_delegate info ≡ true
    → Gives (λ i. IsKey i.authorized_pubkey) (stake_delegate_of info)
unfolding stake_delegate_of
stake_delegate_of-stake_delegate (delegate_info i) k e = record {
  value = i;
  gives = refl;
  fits = k.2;
}
stake_delegate_of-stake_delegate _ k e = absurd cc

pub stake_authorize_of-stake_authorize :
    (info : StakeInfo)
    → StakeInfoFits info
    → is_stake_kind stake_authorize info ≡ true
    → Gives (λ i. IsKey i.authority) (stake_authorize_of info)
unfolding stake_authorize_of
stake_authorize_of-stake_authorize (authorize_info i) k e = record {
  value = i;
  gives = refl;
  fits = k.1;
}
stake_authorize_of-stake_authorize _ k e = absurd cc

pub stake_authorize_of-stake_authorize_checked :
    (info : StakeInfo)
    → StakeInfoFits info
    → is_stake_kind stake_authorize_checked info ≡ true
    → Gives (λ i. IsKey i.authority) (stake_authorize_of info)
unfolding stake_authorize_of
stake_authorize_of-stake_authorize_checked (authorize_checked_info i) k e = record {
  value = i;
  gives = refl;
  fits = k.1;
}
stake_authorize_of-stake_authorize_checked _ k e = absurd cc

pub stake_split_of-stake_split :
    (info : StakeInfo)
    → StakeInfoFits info
    → is_stake_kind stake_split info ≡ true
    → Gives (λ i. IsKey i.authority) (stake_split_of info)
unfolding stake_split_of
stake_split_of-stake_split (split_info i) k e = record { value = i; gives = refl; fits = k.1 }
stake_split_of-stake_split _ k e = absurd cc
