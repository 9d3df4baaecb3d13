-- ===== src/System/Transfer.antt =====
-- A transfer of the system program, from the bytes of its instruction to what the device shows.
use ledger_embedded_app.Common.{
  ℕ, ◌%◌, ◌^◌, ◌≤◌, ◌<◌, ◌≡◌, refl, ◌∙◌, Bool, not, List, [], ◌∷◌, ◌++◌, length, some, none, Option,
  arith, Outcome, done, lt→ltb, take, bytes_eq, if◌then◌else◌, codes, Bool-cases, inl, inr, ◌&&◌,
  ◌>>=◌, ap, sym,
}
use ledger_embedded_app.Parser.{Pointer, Instruction, MessageHeader}
use ledger_embedded_app.Parser.Steps.{view}
use ledger_embedded_app.Parser.Integers.{le_bytes, parse_integers-le_bytes}
use ledger_embedded_app.Instruction.{
  pubkey_at, instruction_accounts_iterator_init, instruction_accounts_iterator_next,
}
use ledger_embedded_app.System.{
  SystemTransferInfo, transfer_info, transfer, system_kind, parse_system_instruction_kind,
  parse_system_of_kind, parse_system_transfer_instruction, parse_system_instructions,
}
use ledger_embedded_app.Printing.{PrintConfig, add_fee_payer}
use ledger_embedded_app.Printing.Room.{show_authority_of, ConfigFits}
use ledger_embedded_app.Instruction.Safety.{IsKey}
use ledger_embedded_app.System.Print.{print_system_info, print_system_transfer_info}
use ledger_embedded_app.Summary.{
  TransactionSummary, SummaryItem, SummaryValue, amount, pubkey, kind_amount, kind,
  transaction_summary_reset, transaction_summary_primary_item, transaction_summary_general_item,
  first_unused, summary_item_set, is_used, kind_of, transaction_summary_finalize, zero_item,
}
use ledger_embedded_app.Summary.Filling.{
  fill, fill-finalize, AreUsed, fill_fee_payer, payer_kinds, payer_item,
}
use mathlib.Core.List.{map}
use ledger_embedded_app.Printing.FeePayer.{
  shown_payer, transaction_summary_set_fee_payer_pubkey_lem, add_fee_payer_lem,
}

-- The wire format of a transfer's data.
abbrev pub transfer_bytes : ℕ → List ℕ → List ℕ
transfer_bytes lamports more = le_bytes 4 2 ++ (le_bytes 8 lamports ++ more)

-- A transfer between the accounts `a` and `b`.
abbrev pub transfer_instruction : (index a b : ℕ) → Pointer → ℕ → ℕ → List ℕ → List ℕ → Instruction
transfer_instruction index a b accounts accounts_length lamports more rest = record {
  program_id_index = index;
  accounts = a ∷ b ∷ accounts;
  accounts_length = accounts_length;
  data_bytes = transfer_bytes lamports more ++ rest;
  data_length = length (transfer_bytes lamports more);
}

transfer_kind :
    (lamports : ℕ) (more rest : List ℕ)
    → parse_system_instruction_kind (view (transfer_bytes lamports more) rest)
      ≡ done (transfer, view (le_bytes 8 lamports ++ more) rest)
unfolding parse_system_instruction_kind system_kind
transfer_kind lamports more rest =
    rw
      ((parse_integers-le_bytes 0 2 0 (le_bytes 8 lamports ++ more) rest (omega arith) (omega arith)
        (omega arith)).1)
      refl

-- `parse_system_instructions` reads a transfer back, whatever follows its amount: from the account
-- that its first account index names, to the account that its second one names, and the amount
-- that its data spells.
pub parse_system_instructions-transfer :
    (index a b : ℕ) (accounts : Pointer) (n lamports : ℕ) (more rest : List ℕ) (h : MessageHeader)
    → 2 ≤ n % 256
    → lamports < 2 ^ 64
    → parse_system_instructions (transfer_instruction index a b accounts n lamports more rest) h
      ≡ done (
          transfer_info (record {
            from = pubkey_at h.pubkeys a;
            to = pubkey_at h.pubkeys b;
            lamports = lamports;
          }))
unfolding parse_system_instructions parse_system_of_kind parse_system_transfer_instruction
    instruction_accounts_iterator_init instruction_accounts_iterator_next
parse_system_instructions-transfer index a b accounts n lamports more rest h two fits =
    rw
      (
        transfer_kind lamports more rest,
        lt→ltb 0 (n % 256) (omega arith),
        lt→ltb 1 (n % 256) (omega arith),
        (parse_integers-le_bytes 0 0 lamports more rest (omega arith) (omega arith) fits).2,
      )
      refl

abbrev pub item : List ℕ → SummaryValue → SummaryItem
item title content = record { title = title; content = content }

-- The sender is shown where the mode is expert or its key is not the signer's.
abbrev pub transfer_items : Bool → (signer from to : Pointer) → List SummaryItem
transfer_items expert signer from to =
    let recipient = item (codes "Recipient") (pubkey to) in
    if not expert && bytes_eq (take 32 signer) (take 32 from)
    then recipient ∷ []
    else item (codes "Sender") (pubkey from) ∷ recipient ∷ []

abbrev pub config_of : MessageHeader → Bool → Pointer → PrintConfig
config_of h expert signer = record { header = h; expert_mode = expert; signer_pubkey = some signer }

-- The instruction, parsed and printed, then the fee payer: the first account key.
abbrev pub show_instruction : Instruction → PrintConfig → Outcome TransactionSummary
show_instruction ix config = do
  info ← parse_system_instructions ix config.header
  s ← print_system_info info config transaction_summary_reset
  add_fee_payer (pubkey_at config.header.pubkeys 0) config s

module _ (h : MessageHeader) (signer : Pointer) (ls : IsKey signer) where
  abbrev signs : (expert : Bool) → ConfigFits (config_of h expert signer)
  signs expert = record { signer = signer; has_signer = refl; signer_in = ls }

  set_fee_payer :
      (payer : Option Pointer) (s : TransactionSummary)
      → s.fee_payer ≡ zero_item
      → fill_fee_payer payer s ≡ done (record s { fee_payer = payer_item payer })
  unfolding summary_item_set is_used kind_of
  set_fee_payer none s free = ap (λ item. done (record s { fee_payer = item })) free
  set_fee_payer (some key) s free =
      transaction_summary_set_fee_payer_pubkey_lem key s (rw free refl)

  -- What the handler does last is what `fill` does last.
  add-fill_fee_payer :
      (key : Pointer) (expert : Bool) (s : TransactionSummary)
      → IsKey key
      → s.fee_payer ≡ zero_item
      → add_fee_payer key (config_of h expert signer) s
        ≡ fill_fee_payer (shown_payer expert signer key) s
  add-fill_fee_payer key expert s lk free =
      add_fee_payer_lem key (config_of h expert signer) (signs expert) s lk free
      ∙ sym (set_fee_payer (shown_payer expert signer key) s free)

  print_transfer_lem :
      (payer : Pointer) (info : SystemTransferInfo) (expert : Bool)
      → IsKey info.from
      → IsKey payer
      → (print_system_info
            (transfer_info info)
            (config_of h expert signer)
            transaction_summary_reset
          >>= add_fee_payer payer (config_of h expert signer))
        ≡ fill
            (shown_payer expert signer payer)
            (item (codes "Transfer") (amount info.lamports))
            (transfer_items expert signer info.from info.to)
  unfolding print_system_info print_system_transfer_info transaction_summary_reset
      transaction_summary_primary_item transaction_summary_general_item first_unused
      summary_item_set is_used kind_of
  print_transfer_lem payer info expert lf lp =
      rw (show_authority_of (config_of h expert signer) (signs expert) info.from lf)
        (elim (Bool-cases (not expert && bytes_eq (take 32 signer) (take 32 info.from))) [
          | inl same ↦ rw same (add-fill_fee_payer payer expert _ lp refl)
          | inr other ↦ rw other (add-fill_fee_payer payer expert _ lp refl)
        ])

transfer_items-AreUsed :
    (expert : Bool) (signer from to : Pointer) → AreUsed (transfer_items expert signer from to)
unfolding is_used kind_of
transfer_items-AreUsed expert signer from to =
    elim (Bool-cases (not expert && bytes_eq (take 32 signer) (take 32 from))) [
      | inl same ↦ rw same (refl, tt)
      | inr other ↦ rw other (refl, (refl, tt))
    ]

length-transfer_items :
    (expert : Bool) (signer from to : Pointer) → length (transfer_items expert signer from to) ≤ 11
length-transfer_items expert signer from to =
    elim (Bool-cases (not expert && bytes_eq (take 32 signer) (take 32 from))) [
      | inl same ↦ rw same (omega arith)
      | inr other ↦ rw other (omega arith)
    ]

-- A transfer is shown as it is encoded. On a fresh summary, parsing and printing the instruction and
-- adding the fee payer succeeds where the signer's key, the sending account's key and the first
-- account key are there to read: the primary item is the amount that the data spells, and the general
-- items are the sender, unless the mode is not expert and the sender is the signer, and the recipient,
-- the keys that the first two account indices name; the fee payer's item is the first account key,
-- and is left unset where the mode is not expert and that key is the signer; finalizing lists the
-- kinds of these, in that order.
pub transfer_shown :
    (index a b : ℕ) (accounts : Pointer) (n lamports : ℕ) (more rest : List ℕ) (h : MessageHeader)
    (expert : Bool) (signer : Pointer)
    → 2 ≤ n % 256
    → lamports < 2 ^ 64
    → 32 ≤ length signer
    → 32 ≤ length (pubkey_at h.pubkeys a)
    → 32 ≤ length (pubkey_at h.pubkeys 0)
    → let from = pubkey_at h.pubkeys a in
      let items = transfer_items expert signer from (pubkey_at h.pubkeys b) in
      let payer = shown_payer expert signer (pubkey_at h.pubkeys 0) in
      (s : TransactionSummary) × (show_instruction
          (transfer_instruction index a b accounts n lamports more rest)
          (config_of h expert signer)
        ≡ done s)
      × (s.primary ≡ item (codes "Transfer") (amount lamports))
      × (take (length items) s.general ≡ items)
      × (s.fee_payer ≡ payer_item payer)
      × (transaction_summary_finalize s
          ≡ done (kind_amount ∷ (map kind items ++ payer_kinds payer)))
unfolding is_used kind_of
transfer_shown index a b accounts n lamports more rest h expert signer two fits ls lf lp =
    let from = pubkey_at h.pubkeys a in
    let to = pubkey_at h.pubkeys b in
    let payer = pubkey_at h.pubkeys 0 in
    let info : SystemTransferInfo = record { from = from; to = to; lamports = lamports } in
    let parsed =
      parse_system_instructions-transfer index a b accounts n lamports more rest h two fits in
    let printed = print_transfer_lem h signer ls payer info expert lf lp in
    let filled =
      fill-finalize (shown_payer expert signer payer) (item (codes "Transfer") (amount lamports))
        (transfer_items expert signer from to) refl (transfer_items-AreUsed expert signer from to)
        (length-transfer_items expert signer from to) in
    (filled.0, rw parsed (printed ∙ filled.1), filled.2, filled.3, filled.4, filled.5)
