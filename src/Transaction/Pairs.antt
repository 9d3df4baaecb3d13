-- ===== src/Transaction/Pairs.antt =====
-- Each combined printer of librenec/transaction_printers.c shows the infos that match its briefs.
use ledger_embedded_app.Common.{refl, [], ◌∷◌, arith, ◌>>=◌, done}
use ledger_embedded_app.Instruction.Safety.{IsKey}
use ledger_embedded_app.Instruction.Unions.{Gives}
use ledger_embedded_app.Summary.{kind_of, is_used}
use ledger_embedded_app.Printing.{PrintConfig}
use ledger_embedded_app.Printing.Room.{
  Shows, ConfigFits, general-Prints, then-Prints, general_authority-Prints, primary-Shows,
  Shows-then, Shows-weaken, ask-Shows,
}
use ledger_embedded_app.System.Kinds.{
  system_create_account_of, system_create_account_with_seed_of, system_initialize_nonce_of,
}
use ledger_embedded_app.System.Shown.{
  create_account-Prints, create_account_with_seed-Prints, initialize_nonce-Prints,
}
use ledger_embedded_app.Stake.Kinds.{stake_initialize_of}
use ledger_embedded_app.Stake.Shown.{stake_initialize-Prints}
use ledger_embedded_app.Vote.Kinds.{vote_initialize_of}
use ledger_embedded_app.Vote.Shown.{vote_initialize-Prints}
use ledger_embedded_app.Token.Kinds.{
  token_initialize_mint_of, token_initialize_account_of, token_initialize_multisig_of,
  token_transfer_of,
}
use ledger_embedded_app.Token.Parse.Safety.{SignFits}
use ledger_embedded_app.Token.Shown.{m_of_n-Prints, general_key-Prints, transfer-Prints}
use ledger_embedded_app.AssociatedToken.{create_associated-Shows}
use ledger_embedded_app.Transaction.{
  InstructionInfo, associated_of, token_of, stake_of, system_of, vote_of, info_at,
}
use ledger_embedded_app.Transaction.Print.{
  print_create_stake_account, print_create_stake_account_with_seed, print_create_nonce_account,
  print_create_nonce_account_with_seed, print_create_vote_account,
  print_create_vote_account_with_seed, print_rpl_token_create_mint, print_rpl_token_create_account,
  print_rpl_token_create_multisig, print_rpl_associated_token_account_create_with_transfer,
}
use ledger_embedded_app.Printing.Yields.{Refusal}

module _ (config : PrintConfig) (f : ConfigFits config) (a b : InstructionInfo) where
  pub create_stake_account-Shows :
      Gives (λ i. IsKey i.from) (system_of a >>= system_create_account_of)
      → Gives
          (λ i. IsKey i.stake_authority × IsKey i.withdraw_authority)
          (stake_of b >>= stake_initialize_of)
      → Shows Refusal 11 (print_create_stake_account config (a ∷ b ∷ []))
  unfolding print_create_stake_account info_at is_used kind_of
  create_stake_account-Shows ga gb = Shows-weaken 11 (omega arith) (
      ask-Shows _ ga.value ga.gives (
        ask-Shows _ gb.value gb.gives (
          primary-Shows _ _ refl (
            then-Prints (create_account-Prints config f ga.value ga.fits)
              (stake_initialize-Prints config f gb.value (gb.fits.0) (gb.fits.1))))))

  pub create_stake_account_with_seed-Shows :
      Gives (λ i. IsKey i.from) (system_of a >>= system_create_account_with_seed_of)
      → Gives
          (λ i. IsKey i.stake_authority × IsKey i.withdraw_authority)
          (stake_of b >>= stake_initialize_of)
      → Shows Refusal 11 (print_create_stake_account_with_seed config (a ∷ b ∷ []))
  unfolding print_create_stake_account_with_seed info_at is_used kind_of
  create_stake_account_with_seed-Shows ga gb = Shows-weaken 11 (omega arith) (
      ask-Shows _ ga.value ga.gives (
        ask-Shows _ gb.value gb.gives (
          primary-Shows _ _ refl (
            then-Prints (create_account_with_seed-Prints config f ga.value ga.fits)
              (stake_initialize-Prints config f gb.value (gb.fits.0) (gb.fits.1))))))

  pub create_nonce_account-Shows :
      Gives (λ i. IsKey i.from) (system_of a >>= system_create_account_of)
      → Gives (λ i. Unit {0}) (system_of b >>= system_initialize_nonce_of)
      → Shows Refusal 11 (print_create_nonce_account config (a ∷ b ∷ []))
  unfolding print_create_nonce_account info_at is_used kind_of
  create_nonce_account-Shows ga gb = Shows-weaken 11 (omega arith) (
      ask-Shows _ ga.value ga.gives (
        ask-Shows _ gb.value gb.gives (
          primary-Shows _ _ refl (
            then-Prints (create_account-Prints config f ga.value ga.fits)
              (initialize_nonce-Prints config f gb.value)))))

  pub create_nonce_account_with_seed-Shows :
      Gives (λ i. IsKey i.from) (system_of a >>= system_create_account_with_seed_of)
      → Gives (λ i. Unit {0}) (system_of b >>= system_initialize_nonce_of)
      → Shows Refusal 11 (print_create_nonce_account_with_seed config (a ∷ b ∷ []))
  unfolding print_create_nonce_account_with_seed info_at is_used kind_of
  create_nonce_account_with_seed-Shows ga gb = Shows-weaken 11 (omega arith) (
      ask-Shows _ ga.value ga.gives (
        ask-Shows _ gb.value gb.gives (
          primary-Shows _ _ refl (
            then-Prints (create_account_with_seed-Prints config f ga.value ga.fits)
              (initialize_nonce-Prints config f gb.value)))))

  pub create_vote_account-Shows :
      Gives (λ i. IsKey i.from) (system_of a >>= system_create_account_of)
      → Gives (λ i. Unit {0}) (vote_of b >>= vote_initialize_of)
      → Shows Refusal 11 (print_create_vote_account config (a ∷ b ∷ []))
  unfolding print_create_vote_account info_at is_used kind_of
  create_vote_account-Shows ga gb = Shows-weaken 11 (omega arith) (
      ask-Shows _ ga.value ga.gives (
        ask-Shows _ gb.value gb.gives (
          primary-Shows _ _ refl (
            then-Prints (create_account-Prints config f ga.value ga.fits)
              (vote_initialize-Prints config f gb.value)))))

  pub create_vote_account_with_seed-Shows :
      Gives (λ i. IsKey i.from) (system_of a >>= system_create_account_with_seed_of)
      → Gives (λ i. Unit {0}) (vote_of b >>= vote_initialize_of)
      → Shows Refusal 11 (print_create_vote_account_with_seed config (a ∷ b ∷ []))
  unfolding print_create_vote_account_with_seed info_at is_used kind_of
  create_vote_account_with_seed-Shows ga gb = Shows-weaken 11 (omega arith) (
      ask-Shows _ ga.value ga.gives (
        ask-Shows _ gb.value gb.gives (
          primary-Shows _ _ refl (
            then-Prints (create_account_with_seed-Prints config f ga.value ga.fits)
              (vote_initialize-Prints config f gb.value)))))

  pub create_mint-Shows :
      Gives (λ i. IsKey i.from) (system_of a >>= system_create_account_of)
      → Gives (λ i. Unit {0}) (token_of b >>= token_initialize_mint_of)
      → Shows Refusal 11 (print_rpl_token_create_mint config (a ∷ b ∷ []))
  unfolding print_rpl_token_create_mint info_at is_used kind_of
  create_mint-Shows ga gb = Shows-weaken 11 (omega arith) (
      ask-Shows _ ga.value ga.gives (
        ask-Shows _ gb.value gb.gives (
          primary-Shows _ _ refl (
            then-Prints (general-Prints _ _) (
              then-Prints (general-Prints _ _) (
                then-Prints (general_key-Prints _ gb.value.freeze_authority) (
                  then-Prints (general_authority-Prints _ ga.value.from config f ga.fits)
                    (general-Prints _ _))))))))

  pub create_token_account-Shows :
      Gives (λ i. IsKey i.from) (system_of a >>= system_create_account_of)
      → Gives (λ i. Unit {0}) (token_of b >>= token_initialize_account_of)
      → Shows Refusal 11 (print_rpl_token_create_account config (a ∷ b ∷ []))
  unfolding print_rpl_token_create_account info_at is_used kind_of
  create_token_account-Shows ga gb = Shows-weaken 11 (omega arith) (
      ask-Shows _ ga.value ga.gives (
        ask-Shows _ gb.value gb.gives (
          primary-Shows _ _ refl (
            then-Prints (general-Prints _ _) (
              then-Prints (general-Prints _ _) (
                then-Prints (general_authority-Prints _ ga.value.from config f ga.fits)
                  (general-Prints _ _)))))))

  pub create_multisig-Shows :
      Gives (λ i. IsKey i.from) (system_of a >>= system_create_account_of)
      → Gives (λ i. Unit {0}) (token_of b >>= token_initialize_multisig_of)
      → Shows Refusal 11 (print_rpl_token_create_multisig config (a ∷ b ∷ []))
  unfolding print_rpl_token_create_multisig info_at is_used kind_of
  create_multisig-Shows ga gb = Shows-weaken 11 (omega arith) (
      ask-Shows _ ga.value ga.gives (
        ask-Shows _ gb.value gb.gives (
          primary-Shows _ _ refl (
            then-Prints (m_of_n-Prints gb.value.m gb.value.signers.count) (
              then-Prints (general_authority-Prints _ ga.value.from config f ga.fits)
                (general-Prints _ _))))))

  pub create_with_transfer-Shows :
      Gives (λ i. Unit {0}) (associated_of a >>= λ i. done i.create)
      → Gives (λ i. IsKey i.mint_account × SignFits i.sign) (token_of b >>= token_transfer_of)
      → Shows Refusal 11
          (print_rpl_associated_token_account_create_with_transfer config (a ∷ b ∷ []))
  unfolding print_rpl_associated_token_account_create_with_transfer info_at
  create_with_transfer-Shows ga gb = Shows-weaken 11 (omega arith) (
      ask-Shows _ ga.value ga.gives (
        ask-Shows _ gb.value gb.gives (
          Shows-then (create_associated-Shows config ga.value)
            (transfer-Prints config f gb.value (gb.fits.0) (gb.fits.1)))))
