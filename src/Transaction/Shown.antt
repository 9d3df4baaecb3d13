-- ===== src/Transaction/Shown.antt =====
-- What `print_transaction` shows of infos that are there to read, in whatever number and order.
use ledger_embedded_app.Common.{
  ℕ, ◌≡◌, refl, ap, ◌∙◌, ◌≢◌, ◌↔◌, inl, inr, true, false, List, [], ◌∷◌, arith, Bool-cases, All,
  Outcome, ◌>>=◌,
}
use ledger_embedded_app.Instruction.Safety.{IsFine, fine, refused}
use ledger_embedded_app.Instruction.Unions.{Gives}
use ledger_embedded_app.Summary.{
  kind_of, TransactionSummary, summary_item_set, transaction_summary_reset, is_used,
  is_summary_item_used, transaction_summary_nonce_account_item,
  transaction_summary_nonce_authority_item,
}
use ledger_embedded_app.Printing.{PrintConfig}
use ledger_embedded_app.Printing.Room.{Completes, ConfigFits}
use ledger_embedded_app.System.{SystemAdvanceNonceInfo}
use ledger_embedded_app.System.Print.{print_system_nonced_transaction_sentinel}
use ledger_embedded_app.Transaction.{InstructionInfo, instruction_info_matches_brief, info_at}
use ledger_embedded_app.Transaction.Cases.{
  nonce_brief, print_transaction_nonce_processed, concluded, print_transaction,
}
use ledger_embedded_app.Transaction.Matching.{InstructionInfoFits, read-advance_nonce_account}
use ledger_embedded_app.Transaction.Arms.{nonce_processed-Shows}
use ledger_embedded_app.Printing.Yields.{Yields-IsFine}

-- A return value, and the summary that is left with it: the primary item is set exactly where the
-- value is 0; where it is not, no general item is. The fee payer is never set.
pub record IsConcluded (r : ℕ × TransactionSummary) : Type 0 where
  pub zero_iff : (r.0 ≡ 0) ↔ (is_summary_item_used ((r.1).primary) ≡ true)
  pub untouched : r.0 ≢ 0 → (r.1).general ≡ transaction_summary_reset.general
  pub no_fee_payer : is_summary_item_used ((r.1).fee_payer) ≡ false

-- A summary that holds at most the nonce's items.
pub record IsFresh (s : TransactionSummary) : Type 0 where
  pub same_general : s.general ≡ transaction_summary_reset.general
  pub primary_free : is_summary_item_used s.primary ≡ false
  pub fee_payer_free : is_summary_item_used s.fee_payer ≡ false

pub concluded_lem :
    (s : TransactionSummary) {o : Outcome TransactionSummary}
    → IsFresh s
    → IsFine (Completes s 0) o
    → Gives IsConcluded (concluded s o)
concluded_lem s fr (fine {a} c) = record {
  value = (0, a);
  gives = refl;
  fits = record {
    zero_iff = (λ e. c.primary_set, λ e. refl);
    untouched = λ n. absurd (n refl);
    no_fee_payer = ap is_summary_item_used c.same_fee_payer ∙ fr.fee_payer_free;
  };
}
concluded_lem s fr (refused {e} n) = record {
  value = (e, s);
  gives = refl;
  fits = record {
    zero_iff = (λ z. absurd (n z), λ used. absurd (cc fr.primary_free));
    untouched = λ m. fr.same_general;
    no_fee_payer = fr.fee_payer_free;
  };
}

processed_lem :
    (config : PrintConfig) (infos : List InstructionInfo) (s : TransactionSummary)
    → ConfigFits config
    → All InstructionInfoFits infos
    → IsFresh s
    → Gives IsConcluded (concluded s (print_transaction_nonce_processed config infos s))
unfolding transaction_summary_reset is_used kind_of
processed_lem config infos s f k fr = concluded_lem s fr (
    Yields-IsFine (
      (nonce_processed-Shows config f infos k).shows s 0 (fr.primary_free)
        (rw (fr.same_general) (omega arith))))

pub reset-IsFresh : IsFresh transaction_summary_reset
unfolding transaction_summary_reset is_used kind_of
reset-IsFresh = record { same_general = refl; primary_free = refl; fee_payer_free = refl }

sentinel-Gives :
    (info : SystemAdvanceNonceInfo) (config : PrintConfig)
    → Gives IsFresh (print_system_nonced_transaction_sentinel info config transaction_summary_reset)
unfolding print_system_nonced_transaction_sentinel transaction_summary_reset is_used kind_of
    transaction_summary_nonce_account_item transaction_summary_nonce_authority_item summary_item_set
sentinel-Gives info config = elim (Bool-cases config.expert_mode) [
  | inl expert ↦ rw expert (record {
    value = _;
    gives = refl;
    fits = record { same_general = refl; primary_free = refl; fee_payer_free = refl };
  })
  | inr plain ↦ rw plain (record {
    value = _;
    gives = refl;
    fits = record { same_general = refl; primary_free = refl; fee_payer_free = refl };
  })
]

pub after :
    {A B : Type 0} {P : A → Type 0} {Q : B → Type 0} {o : Outcome A} {k : A → Outcome B}
    → Gives P o
    → ((a : A) → P a → Gives Q (k a))
    → Gives Q (o >>= k)
after {Q} {k} g h = rw (g.gives) (h g.value g.fits)

-- Where every info's pointers have their bytes to read and the signer's key is there, in either
-- display mode and whatever the infos are and however many: `print_transaction` on a fresh summary
-- ends, and accesses nothing that is not there; no setter is given a null pointer. It answers 0
-- exactly where the primary item is then set; where it answers another value, no general item is
-- set. The fee payer is left free.
pub print_transaction-Gives :
    (config : PrintConfig) (infos : List InstructionInfo)
    → ConfigFits config
    → All InstructionInfoFits infos
    → Gives IsConcluded (print_transaction config infos transaction_summary_reset)
unfolding print_transaction info_at
print_transaction-Gives config [] f k =
    processed_lem config [] transaction_summary_reset f k reset-IsFresh
print_transaction-Gives config (a ∷ []) f k =
    processed_lem config (a ∷ []) transaction_summary_reset f k reset-IsFresh
print_transaction-Gives config (a ∷ b ∷ infos) f k =
    elim (Bool-cases (instruction_info_matches_brief a nonce_brief)) [
      | inr other ↦
          rw other
            (processed_lem config (a ∷ b ∷ infos) transaction_summary_reset f k reset-IsFresh)
      | inl nonce ↦ rw nonce (
          after (read-advance_nonce_account a (k.0) nonce) λ info _.
            after (sentinel-Gives info config)
              λ s fr. processed_lem config (b ∷ infos) s f (k.1) fr)
    ]
