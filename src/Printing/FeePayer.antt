-- ===== src/Printing/FeePayer.antt =====
-- The fee payer, which `handle_sign_message_parse_message` adds behind the items of the instructions.
use ledger_embedded_app.Common.{
  if◌then◌else◌, ℕ, ◌≡◌, ◌≢◌, ◌≤◌, refl, ap, Bool, true, false, not, ◌&&◌, Option, none, some, take,
  bytes_eq, Bool-cases, inl, inr, ◌⊎◌, Outcome, done, bail,
}
use ledger_embedded_app.Parser.{Pointer}
use ledger_embedded_app.Instruction.{pubkey_at}
use ledger_embedded_app.Instruction.Safety.{IsFine, fine, refused, IsKey}
use ledger_embedded_app.Summary.{
  TransactionSummary, is_summary_item_used, is_used, kind_of, zero_item, num_general_items, pubkey,
  fee_payer_slot, fee_payer_title, summary_item_set, transaction_summary_reset,
  transaction_summary_fee_payer_item, transaction_summary_set_fee_payer_pubkey,
}
use ledger_embedded_app.Summary.Filling.{payer_item}
use ledger_embedded_app.Printing.{PrintConfig, Printer, add_fee_payer}
use ledger_embedded_app.Printing.Yields.{Never, Yields-Gives}
use ledger_embedded_app.Printing.Room.{ConfigFits, Shows, Shows-fresh, show_authority_of}

-- The fee payer is shown where the mode is expert or its key is not the signer's.
abbrev pub shown_payer : Bool → (signer key : Pointer) → Option Pointer
shown_payer expert signer key =
    if not expert && bytes_eq (take 32 signer) (take 32 key) then none else some key

pub transaction_summary_set_fee_payer_pubkey_lem :
    (key : Pointer) (s : TransactionSummary)
    → is_summary_item_used s.fee_payer ≡ false
    → transaction_summary_set_fee_payer_pubkey key s
      ≡ done (summary_item_set fee_payer_slot fee_payer_title (pubkey key) s)
unfolding transaction_summary_set_fee_payer_pubkey transaction_summary_fee_payer_item
transaction_summary_set_fee_payer_pubkey_lem key s free =
    rw (free, transaction_summary_set_fee_payer_pubkey) refl

-- On a summary without a fee payer: nothing else of it changes.
pub add_fee_payer_lem :
    (key : Pointer) (config : PrintConfig) (f : ConfigFits config) (s : TransactionSummary)
    → IsKey key
    → s.fee_payer ≡ zero_item
    → add_fee_payer key config s
      ≡ done (record s { fee_payer = payer_item (shown_payer config.expert_mode f.signer key) })
unfolding add_fee_payer summary_item_set is_used kind_of
add_fee_payer_lem key config f s lk free =
    let free' : is_summary_item_used s.fee_payer ≡ false = rw free refl in
    rw (show_authority_of config f key lk)
      (elim (Bool-cases (not config.expert_mode && bytes_eq (take 32 f.signer) (take 32 key))) [
        | inl same ↦ rw same (ap (λ item. done (record s { fee_payer = item })) free)
        | inr other ↦ rw other (rw (transaction_summary_set_fee_payer_pubkey_lem key s free') refl)
      ])

-- `print` succeeds on a fresh summary, sets its primary item and leaves the fee payer free, which
-- `add_fee_payer` then sets to the first account key, unless the mode is not expert and it is the
-- signer's; it changes nothing else.
pub record IsShown (config : PrintConfig) (f : ConfigFits config) (print : Printer) : Type 0 where
  pub printed : TransactionSummary
  pub prints : print transaction_summary_reset ≡ done printed
  pub primary_set : is_summary_item_used printed.primary ≡ true
  pub fee_payer_free : printed.fee_payer ≡ zero_item
  pub adds_fee_payer :
      let payer = pubkey_at config.header.pubkeys 0 in
      add_fee_payer payer config printed
      ≡ done (record printed {
        fee_payer = payer_item (shown_payer config.expert_mode f.signer payer);
      })

pub Shows-IsShown :
    {print : Printer} (k : ℕ) (config : PrintConfig) (f : ConfigFits config)
    → IsKey (pubkey_at config.header.pubkeys 0)
    → k ≤ num_general_items
    → Shows Never k print
    → IsShown config f print
unfolding transaction_summary_reset
Shows-IsShown k config f lp l shows =
    let g = Yields-Gives (Shows-fresh k l shows) in
    record {
      printed = g.value;
      prints = g.gives;
      primary_set = (g.fits).primary_set;
      fee_payer_free = (g.fits).same_fee_payer;
      adds_fee_payer =
          add_fee_payer_lem (pubkey_at config.header.pubkeys 0) config f g.value lp
            (g.fits).same_fee_payer;
    }

-- An instruction that parses is shown; one that does not is refused.
pub IsFine-IsShown :
    {I : Type 0} {Q : I → Type 0} {o : Outcome I} (config : PrintConfig) (f : ConfigFits config)
    (print : I → Printer)
    → IsFine Q o
    → ((info : I) → Q info → IsShown config f (print info))
    → ((e : ℕ) × (e ≢ 0) × (o ≡ bail e))
      ⊎ ((info : I) × (o ≡ done info) × IsShown config f (print info))
IsFine-IsShown config f print (fine {a} q) k = inr (a, refl, k a q)
IsFine-IsShown config f print (refused {e} n) k = inl (e, n, refl)
