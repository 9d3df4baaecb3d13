-- ===== src/Tests/Summaries.antt =====
-- The transaction summary of a transfer, and the theorems about it.
use ledger_embedded_app.Common.{
  ℕ, ◌≡◌, refl, List, [], ◌∷◌, length, take, arith, true, some, done, bail, false, ◌≤◌, replicate,
  codes, ◌⊎◌,
}
use ledger_embedded_app.Summary.{
  TransactionSummary, SummaryItem, SummaryItemKind, amount, pubkey, fee_payer_slot, fee_payer_title,
  zero_item, max_transaction_summary_items, kind_amount, kind_pubkey, is_used, kind_of,
  transaction_summary_finalize, transaction_summary_find_item,
}
use ledger_embedded_app.Summary.Order.{finalize_and_find_item, finalize_bound}
use ledger_embedded_app.Summary.Filling.{fill, fill-finalize}

abbrev sender : List ℕ
sender = 1 ∷ 2 ∷ []

abbrev lamports : SummaryItem
lamports = record { title = codes "Transfer"; content = amount 42 }

abbrev recipient : SummaryItem
recipient = record { title = codes "Recipient"; content = pubkey (3 ∷ 4 ∷ []) }

abbrev transfer_summary : TransactionSummary
transfer_summary = record {
  primary = lamports;
  fee_payer = record { title = fee_payer_title; content = pubkey sender };
  nonce_account = zero_item;
  nonce_authority = zero_item;
  general = recipient ∷ replicate 10 zero_item;
}

finalize_and_find_item_example :
    (transaction_summary_finalize transfer_summary
      ≡ done (kind_amount ∷ kind_pubkey ∷ kind_pubkey ∷ []))
    × (transaction_summary_find_item 2 transfer_summary ≡ some fee_payer_slot)
unfolding is_used kind_of
finalize_and_find_item_example = finalize_and_find_item transfer_summary 2 refl refl

finalize_bound_example :
    ((is_used (kind_of lamports.content) ≡ false)
      × (transaction_summary_finalize transfer_summary ≡ bail 1))
    ⊎ ((ks : List SummaryItemKind) × (transaction_summary_finalize transfer_summary ≡ done ks)
        × (is_used (kind_of lamports.content) ≡ true)
        × (length ks ≤ max_transaction_summary_items))
finalize_bound_example = finalize_bound transfer_summary refl

fill-finalize_example :
    (s : TransactionSummary) × (fill (some sender) lamports (recipient ∷ []) ≡ done s)
    × (s.primary ≡ lamports)
    × (take 1 s.general ≡ recipient ∷ [])
    × (s.fee_payer ≡ record { title = codes "Fee payer"; content = pubkey sender })
    × (transaction_summary_finalize s ≡ done (kind_amount ∷ kind_pubkey ∷ kind_pubkey ∷ []))
unfolding is_used kind_of
fill-finalize_example =
    fill-finalize (some sender) lamports (recipient ∷ []) refl (refl, tt) (omega arith)
