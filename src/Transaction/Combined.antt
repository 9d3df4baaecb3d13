-- ===== src/Transaction/Combined.antt =====
-- The other combined printers of librenec/transaction_printers.c: those of authorities, of splits and
-- of three infos.
use ledger_embedded_app.Common.{ℕ, refl, true, false, not, List, [], ◌∷◌, arith, ◌>>=◌}
use ledger_embedded_app.Parser.{Pointer, SizedString}
use ledger_embedded_app.Instruction.Safety.{IsKey}
use ledger_embedded_app.Instruction.Unions.{Gives}
use ledger_embedded_app.Summary.{kind_of, is_used}
use ledger_embedded_app.Printing.{PrintConfig}
use ledger_embedded_app.Printing.Room.{
  Prints, Shows, ConfigFits, general-Prints, when-Prints, then-Prints, general_authority-Prints,
  primary-Shows, Shows-then, Shows-weaken, Prints-weaken, if-Prints, ask-Shows, bails-Shows,
  if-Shows,
}
use ledger_embedded_app.System.Kinds.{
  system_create_account_of, system_create_account_with_seed_of, system_allocate_with_seed_of,
}
use ledger_embedded_app.System.Shown.{create_account-Prints, create_account_with_seed-Prints}
use ledger_embedded_app.Stake.{StakeAuthorizeInfo, StakeSplitInfo}
use ledger_embedded_app.Stake.Kinds.{
  stake_initialize_of, stake_delegate_of, stake_authorize_of, stake_split_of,
}
use ledger_embedded_app.Stake.Parse.Safety.{StakeInfoFits}
use ledger_embedded_app.Stake.Print.{print_stake_split_info1, print_stake_split_info2}
use ledger_embedded_app.Stake.Shown.{
  stake_initialize-Prints, stake_delegate-Prints, split1-Shows, split2-Prints,
  print_stake_info-Shows,
}
use ledger_embedded_app.Vote.{VoteAuthorizeInfo}
use ledger_embedded_app.Vote.Kinds.{vote_authorize_of}
use ledger_embedded_app.Token.Shown.{general_key-Prints}
use ledger_embedded_app.Transaction.{InstructionInfo, stake_of, system_of, vote_of, info_at}
use ledger_embedded_app.Transaction.Print.{
  same_pointer, print_create_stake_account_and_delegate,
  print_create_stake_account_with_seed_and_delegate, print_base_and_seed, base_and_seed,
  print_stake_split_with_seed, new_authorities_of, is_staker, stake_authorities,
  print_stake_authorize_both, is_voter, vote_authorities, print_vote_authorize_both,
}
use ledger_embedded_app.Transaction.Cases.{print_stake_split_alone}
use ledger_embedded_app.Printing.Yields.{Refusal}

module _ (config : PrintConfig) (f : ConfigFits config) where
  pub new_authorities_of-Prints :
      (title : List ℕ) (first second : Pointer)
      → Prints Refusal 2 (new_authorities_of title first second)
  new_authorities_of-Prints title first second =
      if-Prints (same_pointer first second) (Prints-weaken 2 (omega arith) (general-Prints _ _))
        (then-Prints (general-Prints _ _) (general-Prints _ _))

  pub stake_authorities-Shows :
      (i j : StakeAuthorizeInfo)
      → IsKey j.authority
      → Shows Refusal 11 (stake_authorities i j config)
  unfolding is_used kind_of
  stake_authorities-Shows i j k = Shows-weaken 11 (omega arith) (
      primary-Shows _ _ refl (
        then-Prints (new_authorities_of-Prints _ i.new_authority j.new_authority) (
          then-Prints (general_key-Prints _ j.custodian)
            (general_authority-Prints _ j.authority config f k))))

  pub vote_authorities-Shows :
      (i j : VoteAuthorizeInfo) → IsKey j.authority → Shows Refusal 11 (vote_authorities i j config)
  unfolding is_used kind_of
  vote_authorities-Shows i j k = Shows-weaken 11 (omega arith) (
      primary-Shows _ _ refl (
        then-Prints (new_authorities_of-Prints _ i.new_authority j.new_authority)
          (general_authority-Prints _ j.authority config f k)))

  pub base_and_seed-Prints :
      (base : Pointer) (seed : SizedString)
      → Prints Refusal 2 (print_base_and_seed base seed config)
  base_and_seed-Prints base seed =
      then-Prints (when-Prints config.expert_mode (general-Prints _ _))
        (when-Prints config.expert_mode (general-Prints _ _))

  pub split_with-Shows :
      (base : Pointer) (seed : SizedString) (i : StakeSplitInfo)
      → IsKey i.authority
      → Shows Refusal 11 (λ s. print_stake_split_info1 i config s >>= λ s.
          print_base_and_seed base seed config s >>= print_stake_split_info2 i config)
  split_with-Shows base seed i k = Shows-weaken 11 (omega arith) (
      Shows-then (split1-Shows config f i)
        (then-Prints (base_and_seed-Prints base seed) (split2-Prints config f i k)))

module _ (config : PrintConfig) (f : ConfigFits config) (a b : InstructionInfo) where
  pub stake_authorize_both-Shows :
      Gives (λ i. IsKey i.authority) (stake_of a >>= stake_authorize_of)
      → Gives (λ i. IsKey i.authority) (stake_of b >>= stake_authorize_of)
      → Shows Refusal 11 (print_stake_authorize_both config (a ∷ b ∷ []))
  unfolding print_stake_authorize_both info_at
  stake_authorize_both-Shows ga gb = ask-Shows _ ga.value ga.gives (
      ask-Shows _ gb.value gb.gives (
        if-Shows (not (is_staker ga.value.authorize)) (bails-Shows 11) (
          if-Shows (is_staker gb.value.authorize) (bails-Shows 11)
            (stake_authorities-Shows config f ga.value gb.value gb.fits))))

  pub vote_authorize_both-Shows :
      Gives (λ i. IsKey i.authority) (vote_of a >>= vote_authorize_of)
      → Gives (λ i. IsKey i.authority) (vote_of b >>= vote_authorize_of)
      → Shows Refusal 11 (print_vote_authorize_both config (a ∷ b ∷ []))
  unfolding print_vote_authorize_both info_at
  vote_authorize_both-Shows ga gb = ask-Shows _ ga.value ga.gives (
      ask-Shows _ gb.value gb.gives (
        if-Shows (not (is_voter ga.value.authorize)) (bails-Shows 11) (
          if-Shows (is_voter gb.value.authorize) (bails-Shows 11)
            (vote_authorities-Shows config f ga.value gb.value gb.fits))))

  pub split_with_seed_v1_1-Shows :
      Gives (λ i. Unit {0}) (system_of a >>= system_allocate_with_seed_of)
      → Gives (λ i. IsKey i.authority) (stake_of b >>= stake_split_of)
      → Shows Refusal 11 (print_stake_split_with_seed true config (a ∷ b ∷ []))
  unfolding print_stake_split_with_seed info_at
  split_with_seed_v1_1-Shows ga gb =
      ask-Shows {o = base_and_seed (a ∷ b ∷ []) true} _ (ga.value.base, ga.value.seed)
        (rw (ga.gives) refl)
        (ask-Shows _ gb.value gb.gives
          (split_with-Shows config f ga.value.base ga.value.seed gb.value gb.fits))

  pub split_with_seed_v1_2-Shows :
      Gives (λ i. IsKey i.from) (system_of a >>= system_create_account_with_seed_of)
      → Gives (λ i. IsKey i.authority) (stake_of b >>= stake_split_of)
      → Shows Refusal 11 (print_stake_split_with_seed false config (a ∷ b ∷ []))
  unfolding print_stake_split_with_seed info_at
  split_with_seed_v1_2-Shows ga gb =
      ask-Shows {o = base_and_seed (a ∷ b ∷ []) false} _ (ga.value.base, ga.value.seed)
        (rw (ga.gives) refl)
        (ask-Shows _ gb.value gb.gives
          (split_with-Shows config f ga.value.base ga.value.seed gb.value gb.fits))

  -- The split that is shown is the second info, and below the third.
  pub split_second-Shows :
      Gives StakeInfoFits (stake_of b)
      → Shows Refusal 11 (print_stake_split_alone 1 config (a ∷ b ∷ []))
  unfolding print_stake_split_alone info_at
  split_second-Shows gb =
      ask-Shows _ gb.value gb.gives
        (Shows-weaken 11 (omega arith) (print_stake_info-Shows config f gb.value gb.fits))

module _ (config : PrintConfig) (f : ConfigFits config) (a b c : InstructionInfo) where
  pub split_third-Shows :
      Gives StakeInfoFits (stake_of c)
      → Shows Refusal 11 (print_stake_split_alone 2 config (a ∷ b ∷ c ∷ []))
  unfolding print_stake_split_alone info_at
  split_third-Shows gc =
      ask-Shows _ gc.value gc.gives
        (Shows-weaken 11 (omega arith) (print_stake_info-Shows config f gc.value gc.fits))

  pub create_and_delegate-Shows :
      Gives (λ i. IsKey i.from) (system_of a >>= system_create_account_of)
      → Gives
          (λ i. IsKey i.stake_authority × IsKey i.withdraw_authority)
          (stake_of b >>= stake_initialize_of)
      → Gives (λ i. IsKey i.authorized_pubkey) (stake_of c >>= stake_delegate_of)
      → Shows Refusal 11 (print_create_stake_account_and_delegate config (a ∷ b ∷ c ∷ []))
  unfolding print_create_stake_account_and_delegate info_at is_used kind_of
  create_and_delegate-Shows ga gb gc = Shows-weaken 11 (omega arith) (
      ask-Shows _ ga.value ga.gives (
        ask-Shows _ gb.value gb.gives (
          ask-Shows _ gc.value gc.gives (
            primary-Shows _ _ refl (
              then-Prints (create_account-Prints config f ga.value ga.fits) (
                then-Prints (stake_initialize-Prints config f gb.value (gb.fits.0) (gb.fits.1))
                  (stake_delegate-Prints config f gc.value gc.fits)))))))

  pub create_with_seed_and_delegate-Shows :
      Gives (λ i. IsKey i.from) (system_of a >>= system_create_account_with_seed_of)
      → Gives
          (λ i. IsKey i.stake_authority × IsKey i.withdraw_authority)
          (stake_of b >>= stake_initialize_of)
      → Gives (λ i. IsKey i.authorized_pubkey) (stake_of c >>= stake_delegate_of)
      → Shows Refusal 11 (print_create_stake_account_with_seed_and_delegate config (a ∷ b ∷ c ∷ []))
  unfolding print_create_stake_account_with_seed_and_delegate info_at is_used kind_of
  create_with_seed_and_delegate-Shows ga gb gc = ask-Shows _ ga.value ga.gives (
      ask-Shows _ gb.value gb.gives (
        ask-Shows _ gc.value gc.gives (
          primary-Shows _ _ refl (
            then-Prints (create_account_with_seed-Prints config f ga.value ga.fits) (
              then-Prints (stake_initialize-Prints config f gb.value (gb.fits.0) (gb.fits.1))
                (stake_delegate-Prints config f gc.value gc.fits))))))
