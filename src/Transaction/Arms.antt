-- ===== src/Transaction/Arms.antt =====
-- The choice among the printers of a transaction: each shows the infos that its briefs match.
use ledger_embedded_app.Common.{
  ◌≡◌, refl, ◌⊎◌, inl, inr, true, false, List, [], ◌∷◌, arith, Bool-cases, length, All, done,
}
use ledger_embedded_app.Printing.{PrintConfig}
use ledger_embedded_app.Printing.Room.{Shows, ConfigFits, Shows-weaken, ask-Shows, bails-Shows}
use ledger_embedded_app.System.Shown.{print_system_info-Shows}
use ledger_embedded_app.Stake.Shown.{print_stake_info-Shows}
use ledger_embedded_app.Vote.Shown.{print_vote_info-Shows}
use ledger_embedded_app.Token.Shown.{print_rpl_token_info-Shows}
use ledger_embedded_app.AssociatedToken.{
  print_rpl_associated_token_account_info, create_associated-Shows,
}
use ledger_embedded_app.Transaction.{
  InstructionInfo, InstructionBrief, instruction_info_matches_brief, instruction_infos_match_briefs,
  unknown_info, rpl_memo_info, associated_info, token_info, stake_info, system_info, vote_info,
}
use ledger_embedded_app.Transaction.Cases.{
  Arm, arms_of_two, arms_of_three, first_match, print_alone, print_transaction_nonce_processed,
}
use ledger_embedded_app.Transaction.Matching.{
  InstructionInfoFits, read-associated, read-create_account, read-create_account_with_seed,
  read-initialize_nonce_account, read-allocate_with_seed, read-stake_initialize,
  read-stake_initialize_checked, read-stake_delegate, read-stake_authorize,
  read-stake_authorize_checked, read-stake_split, read-vote_initialize, read-vote_authorize,
  read-vote_authorize_checked, read-initialize_mint, read-initialize_account,
  read-initialize_account2, read-initialize_multisig, read-transfer_checked, read-stake,
}
use ledger_embedded_app.Transaction.Pairs.{
  create_stake_account-Shows, create_stake_account_with_seed-Shows, create_nonce_account-Shows,
  create_nonce_account_with_seed-Shows, create_vote_account-Shows,
  create_vote_account_with_seed-Shows, create_mint-Shows, create_token_account-Shows,
  create_multisig-Shows, create_with_transfer-Shows,
}
use ledger_embedded_app.Transaction.Combined.{
  stake_authorize_both-Shows, vote_authorize_both-Shows, split_with_seed_v1_1-Shows,
  split_with_seed_v1_2-Shows, split_second-Shows, split_third-Shows, create_and_delegate-Shows,
  create_with_seed_and_delegate-Shows,
}
use ledger_embedded_app.Printing.Yields.{Refusal}

-- Infos that match briefs, one by one.
abbrev Matches : List InstructionInfo → List InstructionBrief → Type 0
Matches [] [] = Unit {0}
Matches (info ∷ infos) (brief ∷ briefs) =
    (instruction_info_matches_brief info brief ≡ true) × Matches infos briefs
Matches _ _ = ⊥

match_cases :
    (infos : List InstructionInfo) (briefs : List InstructionBrief)
    → length infos ≡ length briefs
    → (instruction_infos_match_briefs infos briefs (length infos) ≡ done false)
      ⊎ ((instruction_infos_match_briefs infos briefs (length infos) ≡ done true)
          × Matches infos briefs)
unfolding instruction_infos_match_briefs
match_cases [] [] e = inr (refl, tt)
match_cases [] (b ∷ briefs) e = absurd (omega arith)
match_cases (i ∷ infos) [] e = absurd (omega arith)
match_cases (i ∷ infos) (b ∷ briefs) e = elim (Bool-cases (instruction_info_matches_brief i b)) [
  | inr other ↦ inl (rw other refl)
  | inl same ↦ elim (match_cases infos briefs (omega arith)) [
    | inl none_left ↦ inl (rw same none_left)
    | inr (all, ms) ↦ inr (rw same all, (same, ms))
  ]
]

-- An arm whose briefs are as many as the infos, and which shows them where they match.
record ArmShows (config : PrintConfig) (infos : List InstructionInfo) (arm : Arm) : Type 0 where
  as_many : length infos ≡ length arm.briefs
  arm_shows : Matches infos arm.briefs → Shows Refusal 11 (arm.print config infos)

first_match-Shows :
    (config : PrintConfig) (infos : List InstructionInfo) (arms : List Arm)
    → All (ArmShows config infos) arms
    → Shows Refusal 11 (first_match arms config infos)
unfolding first_match
first_match-Shows config infos [] h = bails-Shows 11
first_match-Shows config infos (arm ∷ arms) h = elim (match_cases infos arm.briefs (h.0).as_many) [
  | inl other ↦ ask-Shows _ false other (first_match-Shows config infos arms (h.1))
  | inr (same, ms) ↦ ask-Shows _ true same ((h.0).arm_shows ms)
]

module _ (config : PrintConfig) (f : ConfigFits config) where
  two-Shows :
      (a b : InstructionInfo)
      → InstructionInfoFits a
      → InstructionInfoFits b
      → All (ArmShows config (a ∷ b ∷ [])) arms_of_two
  two-Shows a b fa fb = (
    record {
      as_many = refl;
      arm_shows = λ m.
          create_stake_account-Shows config f a b (read-create_account a fa (m.0))
            (read-stake_initialize b fb (m.1.0));
    },
    (
      record {
        as_many = refl;
        arm_shows = λ m.
            create_stake_account-Shows config f a b (read-create_account a fa (m.0))
              (read-stake_initialize_checked b fb (m.1.0));
      },
      (
        record {
          as_many = refl;
          arm_shows = λ m.
              create_stake_account_with_seed-Shows config f a b
                (read-create_account_with_seed a fa (m.0)) (read-stake_initialize b fb (m.1.0));
        },
        (
          record {
            as_many = refl;
            arm_shows = λ m.
                create_stake_account_with_seed-Shows config f a b
                  (read-create_account_with_seed a fa (m.0))
                  (read-stake_initialize_checked b fb (m.1.0));
          },
          (
            record {
              as_many = refl;
              arm_shows = λ m.
                  create_nonce_account-Shows config f a b (read-create_account a fa (m.0))
                    (read-initialize_nonce_account b fb (m.1.0));
            },
            (
              record {
                as_many = refl;
                arm_shows = λ m.
                    create_nonce_account_with_seed-Shows config f a b
                      (read-create_account_with_seed a fa (m.0))
                      (read-initialize_nonce_account b fb (m.1.0));
              },
              (
                record {
                  as_many = refl;
                  arm_shows = λ m.
                      create_vote_account-Shows config f a b (read-create_account a fa (m.0))
                        (read-vote_initialize b fb (m.1.0));
                },
                (
                  record {
                    as_many = refl;
                    arm_shows = λ m.
                        create_vote_account_with_seed-Shows config f a b
                          (read-create_account_with_seed a fa (m.0))
                          (read-vote_initialize b fb (m.1.0));
                  },
                  (
                    record {
                      as_many = refl;
                      arm_shows = λ m.
                          stake_authorize_both-Shows config f a b (read-stake_authorize a fa (m.0))
                            (read-stake_authorize b fb (m.1.0));
                    },
                    (
                      record {
                        as_many = refl;
                        arm_shows = λ m.
                            stake_authorize_both-Shows config f a b
                              (read-stake_authorize_checked a fa (m.0))
                              (read-stake_authorize_checked b fb (m.1.0));
                      },
                      (
                        record {
                          as_many = refl;
                          arm_shows = λ m.
                              vote_authorize_both-Shows config f a b
                                (read-vote_authorize a fa (m.0)) (read-vote_authorize b fb (m.1.0));
                        },
                        (
                          record {
                            as_many = refl;
                            arm_shows = λ m.
                                vote_authorize_both-Shows config f a b
                                  (read-vote_authorize_checked a fa (m.0))
                                  (read-vote_authorize_checked b fb (m.1.0));
                          },
                          (
                            record {
                              as_many = refl;
                              arm_shows = λ m.
                                  split_with_seed_v1_1-Shows config f a b
                                    (read-allocate_with_seed a fa (m.0))
                                    (read-stake_split b fb (m.1.0));
                            },
                            (
                              record {
                                as_many = refl;
                                arm_shows =
                                    λ m. split_second-Shows config f a b (read-stake b fb (m.1.0));
                              },
                              (
                                record {
                                  as_many = refl;
                                  arm_shows = λ m.
                                      split_with_seed_v1_2-Shows config f a b
                                        (read-create_account_with_seed a fa (m.0))
                                        (read-stake_split b fb (m.1.0));
                                },
                                (
                                  record {
                                    as_many = refl;
                                    arm_shows = λ m.
                                        create_mint-Shows config f a b
                                          (read-create_account a fa (m.0))
                                          (read-initialize_mint b fb (m.1.0));
                                  },
                                  (
                                    record {
                                      as_many = refl;
                                      arm_shows = λ m.
                                          create_token_account-Shows config f a b
                                            (read-create_account a fa (m.0))
                                            (read-initialize_account b fb (m.1.0));
                                    },
                                    (
                                      record {
                                        as_many = refl;
                                        arm_shows = λ m.
                                            create_token_account-Shows config f a b
                                              (read-create_account a fa (m.0))
                                              (read-initialize_account2 b fb (m.1.0));
                                      },
                                      (
                                        record {
                                          as_many = refl;
                                          arm_shows = λ m.
                                              create_multisig-Shows config f a b
                                                (read-create_account a fa (m.0))
                                                (read-initialize_multisig b fb (m.1.0));
                                        },
                                        (
                                          record {
                                            as_many = refl;
                                            arm_shows = λ m.
                                                create_with_transfer-Shows config f a b
                                                  (read-associated a (m.0))
                                                  (read-transfer_checked b fb (m.1.0));
                                          },
                                          tt,
                                        ),
                                      ),
                                    ),
                                  ),
                                ),
                              ),
                            ),
                          ),
                        ),
                      ),
                    ),
                  ),
                ),
              ),
            ),
          ),
        ),
      ),
    ),
  )

  three-Shows :
      (a b c : InstructionInfo)
      → InstructionInfoFits a
      → InstructionInfoFits b
      → InstructionInfoFits c
      → All (ArmShows config (a ∷ b ∷ c ∷ [])) arms_of_three
  three-Shows a b c fa fb fc = (
    record {
      as_many = refl;
      arm_shows = λ m.
          create_and_delegate-Shows config f a b c (read-create_account a fa (m.0))
            (read-stake_initialize b fb (m.1.0)) (read-stake_delegate c fc (m.1.1.0));
    },
    (
      record {
        as_many = refl;
        arm_shows = λ m.
            create_with_seed_and_delegate-Shows config f a b c
              (read-create_account_with_seed a fa (m.0)) (read-stake_initialize b fb (m.1.0))
              (read-stake_delegate c fc (m.1.1.0));
      },
      (
        record {
          as_many = refl;
          arm_shows = λ m. split_third-Shows config f a b c (read-stake c fc (m.1.1.0));
        },
        tt,
      ),
    ),
  )

  alone-Shows :
      (info : InstructionInfo)
      → InstructionInfoFits info
      → Shows Refusal 11 (print_alone info config)
  unfolding print_alone print_rpl_associated_token_account_info
  alone-Shows (system_info i) k =
      Shows-weaken 11 (omega arith) (print_system_info-Shows config f i k)
  alone-Shows (stake_info i) k = Shows-weaken 11 (omega arith) (print_stake_info-Shows config f i k)
  alone-Shows (vote_info i) k = Shows-weaken 11 (omega arith) (print_vote_info-Shows config f i k)
  alone-Shows (token_info i) k =
      Shows-weaken 11 (omega arith) (print_rpl_token_info-Shows config f i k)
  alone-Shows (associated_info i) k =
      Shows-weaken 11 (omega arith) (create_associated-Shows config i.create)
  alone-Shows rpl_memo_info k = bails-Shows 11
  alone-Shows unknown_info k = bails-Shows 11

  pub nonce_processed-Shows :
      (infos : List InstructionInfo)
      → All InstructionInfoFits infos
      → Shows Refusal 11 (print_transaction_nonce_processed config infos)
  unfolding print_transaction_nonce_processed
  nonce_processed-Shows [] k = bails-Shows 11
  nonce_processed-Shows (a ∷ []) k = alone-Shows a (k.0)
  nonce_processed-Shows (a ∷ b ∷ []) k =
      first_match-Shows config (a ∷ b ∷ []) arms_of_two (two-Shows a b (k.0) (k.1.0))
  nonce_processed-Shows (a ∷ b ∷ c ∷ []) k =
      first_match-Shows config (a ∷ b ∷ c ∷ []) arms_of_three
        (three-Shows a b c (k.0) (k.1.0) (k.1.1.0))
  nonce_processed-Shows (a ∷ b ∷ c ∷ d ∷ infos) k = bails-Shows 11
