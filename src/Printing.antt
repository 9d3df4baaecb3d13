-- ===== src/Printing.antt =====
-- librenec/print_config.c, and the patterns in which the printers of librenec fill the transaction
-- summary. A printer gives the summary as it leaves it. One that returns nonzero is a `bail`, and
-- leaves the summary that it was given: the tests on which librenec's printers fail stand before their
-- first write.
pub mod FeePayer
pub mod Room
pub mod Yields
use ledger_embedded_app.Common.{
  ℕ, Bool, true, false, not, List, Option, none, some, Outcome, done, bail, fault, ◌>>=◌,
  if◌then◌else◌,
}
use ledger_embedded_app.Parser.{Pointer, MessageHeader, pubkeys_equal}
use ledger_embedded_app.Summary.{
  TransactionSummary, SummaryItem, SummaryValue, pubkey, set_in, transaction_summary_primary_item,
  transaction_summary_general_item, transaction_summary_set_fee_payer_pubkey,
}

-- `signer_pubkey` is null where there is none.
pub record PrintConfig : Type 0 where
  pub header : MessageHeader
  pub expert_mode : Bool
  pub signer_pubkey : Option Pointer

unfoldable pub print_config_show_authority : PrintConfig → Pointer → Outcome Bool
print_config_show_authority config authority =
    if config.expert_mode then done true else elim config.signer_pubkey [
      | none ↦ fault
      | some signer ↦ do same ← pubkeys_equal signer authority; done (not same)
    ]

abbrev pub Printer : Type 0
Printer = TransactionSummary → Outcome TransactionSummary

-- `item = transaction_summary_primary_item(); summary_item_set_*(item, title, value);`
abbrev pub primary : List ℕ → SummaryValue → Printer
primary title value s =
    set_in (transaction_summary_primary_item s) (record { title = title; content = value }) s

-- `item = transaction_summary_general_item(); summary_item_set_*(item, title, value);`
abbrev pub general : List ℕ → SummaryValue → Printer
general title value s =
    set_in (transaction_summary_general_item s) (record { title = title; content = value }) s

-- The same under `if (print_config_show_authority(print_config, key))`.
abbrev pub general_authority : List ℕ → Pointer → PrintConfig → Printer
general_authority title key config s = do
  shown ← print_config_show_authority config key
  if shown then general title (pubkey key) s else done s

abbrev pub when : Bool → Printer → Printer
when c print s = if c then print s else done s

-- A `primary_title` is null where the caller shows a primary item of its own.
abbrev pub titled : Option (List ℕ) → SummaryValue → Printer
titled none value s = done s
titled (some title) value s = primary title value s

-- The summary after a call whose return value is not looked at, from the summary before it.
abbrev pub or_unchanged :
    TransactionSummary → Outcome TransactionSummary → Outcome TransactionSummary
or_unchanged s (done s') = done s'
or_unchanged s (bail e) = done s
or_unchanged s fault = fault

-- What `handle_sign_message_parse_message` does last, with the first account key.
unfoldable pub add_fee_payer : Pointer → PrintConfig → Printer
add_fee_payer fee_payer config s = do
  shown ← print_config_show_authority config fee_payer
  if shown then or_unchanged s (transaction_summary_set_fee_payer_pubkey fee_payer s) else done s
