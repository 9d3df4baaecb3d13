-- ===== src/Signing/Safety.antt =====
-- Memory safety of src/handle_sign_message.c, and that it leaves something to show.
use ledger_embedded_app.Common.{
  ℕ, ◌*◌, ◌≤◌, ◌<◌, ◌≡◌, refl, ◌≢◌, ◌↔◌, inl, inr, Bool, true, false, not, ◌||◌, some, List, arith,
  leb, ◌==◌, if◌then◌else◌, le→leb, ==_iff, Bool-cases, length, set, length-drop, Outcome, ◌>>=◌,
  done,
}
use ledger_embedded_app.Parser.{Pointer, Parser, MessageHeader, parse_message_header}
use ledger_embedded_app.Parser.Safety.{IsWithin}
use ledger_embedded_app.Parser.Safety.Messages.{HeaderFits, parse_message_header_safe}
use ledger_embedded_app.Instruction.{pubkey_at}
use ledger_embedded_app.Instruction.Safety.{IsFine, IsFine-bind, Ends-IsFine, IsKey, fine, refused}
use ledger_embedded_app.Apdu.{
  ins_sign_message, invalid_message, invalid_message_header, ApduCommand,
}
use ledger_embedded_app.Apdu.Valid.{IsValid}
use ledger_embedded_app.Summary.{
  SummaryItemKind, kind_of, TransactionSummary, summary_item_set, transaction_summary_reset,
  is_used, is_summary_item_used, transaction_summary_primary_item, first_unused,
  transaction_summary_general_item, transaction_summary_finalize,
}
use ledger_embedded_app.Summary.Order.{entries, used, kinds, finalize_lem}
use ledger_embedded_app.Printing.{PrintConfig, add_fee_payer}
use ledger_embedded_app.Printing.Room.{ConfigFits, show_authority_lem}
use ledger_embedded_app.Transaction.Shown.{IsConcluded}
use ledger_embedded_app.Message.Safety.{process_message_body_safe}
use ledger_embedded_app.Signing.{
  Sdk, IsSdk, Settings, scan_header_for_signer, or_throw, is_complete, show_blind, show_message,
  command_parser, handle_sign_message_parse_message,
}
use ledger_embedded_app.Signing.Signer.{scan_header_for_signer-IsFine}
use ledger_embedded_app.Printing.FeePayer.{transaction_summary_set_fee_payer_pubkey_lem}

-- What the handler leaves: a valid command, and a summary that can be finalized.
pub record IsReady (r : ApduCommand × TransactionSummary) : Type 0 where
  pub command : IsValid (r.0)
  pub shown : List SummaryItemKind
  pub finalizes : transaction_summary_finalize (r.1) ≡ done shown

-- The header of the message, if it has one, requires no more signatures than it has account keys.
abbrev pub RequiresItsKeys : ApduCommand → Type 0
RequiresItsKeys cmd =
    (header : MessageHeader) (parser : Parser)
    → parse_message_header (command_parser cmd) ≡ done (header, parser)
    → header.pubkeys_header.num_required_signatures ≤ header.pubkeys_header.pubkeys_length

-- With the primary item set and the fee payer free.
abbrev IsFilled : TransactionSummary → Type 0
IsFilled s = (is_summary_item_used s.primary ≡ true) × (is_summary_item_used s.fee_payer ≡ false)

finalizes_of :
    (cmd : ApduCommand) (s : TransactionSummary)
    → IsValid cmd
    → is_summary_item_used s.primary ≡ true
    → IsReady (cmd, s)
finalizes_of cmd s v u = record {
  command = v;
  shown = kinds (entries s);
  finalizes = finalize_lem s u;
}

fee_payer-IsReady :
    (key : Pointer) (config : PrintConfig) (cmd : ApduCommand) (s : TransactionSummary)
    → ConfigFits config
    → IsKey key
    → IsValid cmd
    → IsFilled s
    → IsFine IsReady (add_fee_payer key config s >>= λ s. done (cmd, s))
unfolding add_fee_payer summary_item_set
fee_payer-IsReady key config cmd s f lk v (u, free) =
    let r = show_authority_lem config key f lk in
    rw (r.1) (elim (Bool-cases (r.0)) [
      | inr hidden ↦ rw hidden (fine (finalizes_of cmd s v u))
      | inl added ↦ rw added (
          rw (transaction_summary_set_fee_payer_pubkey_lem key s free)
            (fine (finalizes_of cmd _ v u)))
    ])

show_blind-IsFine :
    (sdk : Sdk) (settings : Settings) (cmd : ApduCommand) (s : TransactionSummary)
    → IsValid cmd
    → is_summary_item_used s.primary ≡ false
    → s.general ≡ transaction_summary_reset.general
    → is_summary_item_used s.fee_payer ≡ false
    → IsFine (λ r. IsValid (r.0) × IsFilled (r.1)) (show_blind sdk settings cmd s)
unfolding show_blind transaction_summary_primary_item transaction_summary_general_item first_unused
    transaction_summary_reset summary_item_set is_used kind_of
show_blind-IsFine sdk settings cmd s v free same payer =
    elim (Bool-cases settings.allow_blind_sign) [
      | inr refuse ↦ rw refuse (refused (λ e. cc))
      | inl blind ↦
          let there : leb cmd.message_length (length cmd.message) ≡ true =
            le→leb cmd.message_length (length cmd.message)
              (omega (arith, v.message_in, v.message_size)) in
          rw (blind, free, there, same)
            (fine (
              record {
                message_size = v.message_size;
                message_in = v.message_in;
                path_size = v.path_size;
                path_in = v.path_in;
              },
              (refl, payer),
            ))
    ]

unused-false : {b : Bool} {n : ℕ} → (n ≡ 0) ↔ (b ≡ true) → n ≢ 0 → b ≡ false
unused-false {b} z k = elim (Bool-cases b) [ inl used ↦ absurd (k (z.1 used)) | inr free ↦ free ]

-- A message that is understood is shown, another one only where the settings allow it.
summary-IsFilled :
    (sdk : Sdk) (settings : Settings) (cmd : ApduCommand) (code : ℕ) (s : TransactionSummary)
    → IsValid cmd
    → IsConcluded (code, s)
    → IsFine
        (λ r. IsValid (r.0) × IsFilled (r.1))
        (if code == 0 then done (cmd, s) else show_blind sdk settings cmd s)
summary-IsFilled sdk settings cmd code s v c = elim (Bool-cases (code == 0)) [
  | inl shown ↦ rw shown (fine (v, (c.zero_iff.0 ((==_iff code 0).0 shown), c.no_fee_payer)))
  | inr not_shown ↦
      let n : code ≢ 0 = λ e. absurd (cc ((==_iff code 0).1 e)) in
      rw not_shown (
        show_blind-IsFine sdk settings cmd s v (unused-false (c.zero_iff) n) (c.untouched n)
          c.no_fee_payer)
]

pub if-IsFine :
    {A : Type 0} {Q : A → Type 0} {a b : Outcome A} (c : Bool)
    → (c ≡ true → IsFine Q a)
    → (c ≡ false → IsFine Q b)
    → IsFine Q (if c then a else b)
if-IsFine true p q = p refl
if-IsFine false p q = q refl

show_message-IsFine :
    (sdk : Sdk) (settings : Settings) (cmd : ApduCommand) (parser : Parser) (config : PrintConfig)
    → IsValid cmd
    → IsWithin parser
    → HeaderFits config.header
    → ConfigFits config
    → IsKey (pubkey_at config.header.pubkeys 0)
    → IsFine IsReady (show_message sdk settings cmd parser config)
unfolding show_message
show_message-IsFine sdk settings cmd parser config v w fh f first =
    let g = process_message_body_safe parser.buffer parser.buffer_length config w fh f in
    if-IsFine cmd.non_confirm (λ _. refused (λ e. cc))
      λ _.
        (rw (g.gives) (
          IsFine-bind (summary-IsFilled sdk settings cmd (g.value.0) (g.value.1) v (g.fits))
            λ (cmd, s) (v, set). fee_payer-IsReady _ config cmd s f first v set))

pub or_throw-IsFine :
    {A : Type 0} {Q : A → Type 0} {o : Outcome A} (reply : ℕ)
    → reply ≢ 0
    → IsFine Q o
    → IsFine Q (or_throw reply o)
or_throw-IsFine reply n (fine q) = fine q
or_throw-IsFine reply n (refused m) = refused n

-- With the equation that gives the result.
IsFine-with :
    {A : Type 0} {Q : A → Type 0} {o : Outcome A} → IsFine Q o → IsFine (λ a. Q a × (o ≡ done a)) o
IsFine-with (fine q) = fine (q, refl)
IsFine-with (refused n) = refused n

IsKey-in :
    (h : MessageHeader) (i : ℕ)
    → HeaderFits h
    → i < h.pubkeys_header.pubkeys_length
    → IsKey (pubkey_at h.pubkeys i)
IsKey-in h i fh l = omega (arith, fh.pubkeys_in, length-drop (i * 32) h.pubkeys)

signer_found :
    (sdk : Sdk) (settings : Settings) (cmd : ApduCommand) (h : MessageHeader) (parser : Parser)
    → IsSdk sdk
    → IsValid cmd
    → HeaderFits h
    → IsWithin parser
    → h.pubkeys_header.num_required_signatures ≤ h.pubkeys_header.pubkeys_length
    → IsFine IsReady (
        or_throw invalid_message_header
          (scan_header_for_signer sdk cmd.derivation_path cmd.derivation_path_length h)
        >>= λ i. show_message sdk settings cmd parser (record {
          header = h;
          expert_mode = settings.expert_mode;
          signer_pubkey = some (pubkey_at h.pubkeys i);
        }))
signer_found sdk settings cmd h parser f v fh w few =
    IsFine-bind
      (or_throw-IsFine invalid_message_header (λ e. cc)
        (scan_header_for_signer-IsFine sdk cmd.derivation_path cmd.derivation_path_length h f
          (omega (arith, fh.pubkeys_in, few))))
      λ i l.
        show_message-IsFine sdk settings cmd parser _ v w fh
          (record {
            signer = pubkey_at h.pubkeys i;
            has_signer = refl;
            signer_in = IsKey-in h i fh (omega arith);
          })
          (IsKey-in h 0 fh (omega arith))

-- On any valid command whose header, if it has one, requires no more signatures than it has account
-- keys, with any settings: `handle_sign_message_parse_message` accesses nothing that is not there and
-- gives no setter a null pointer. It throws a reply that is not 0, or leaves a valid command and a
-- summary that `transaction_summary_finalize` accepts, also where the message is signed blindly.
pub handle_sign_message_parse_message_safe :
    (sdk : Sdk) (settings : Settings) (cmd : ApduCommand)
    → IsSdk sdk
    → IsValid cmd
    → RequiresItsKeys cmd
    → IsFine IsReady (handle_sign_message_parse_message sdk settings cmd)
unfolding handle_sign_message_parse_message
handle_sign_message_parse_message_safe sdk settings cmd f v k =
    elim (Bool-cases (not (cmd.instruction == ins_sign_message) || not (is_complete cmd.state))) [
      | inl other ↦ rw other (refused (λ e. cc))
      | inr ours ↦
          let w : IsWithin (command_parser cmd) = omega (arith, v.message_in, v.message_size) in
          rw ours (
            IsFine-bind
              (or_throw-IsFine invalid_message (λ e. cc)
                (IsFine-with (Ends-IsFine w (parse_message_header_safe (command_parser cmd) w))))
              λ (h, q) ((fh, wq), e). signer_found sdk settings cmd h q f v fh wq (k h q e))
    ]
