-- ===== src/Signing/Transfer.antt =====
-- A message with one transfer of the system program, from its bytes to what is shown of it.
use mathlib.Core.List.{map}
use ledger_embedded_app.Common.{
  codes, ℕ, ◌*◌, ◌^◌, ◌≤◌, ◌<◌, ◌≡◌, refl, ◌∙◌, inl, inr, Bool, false, some, List, [], ◌∷◌, ◌++◌,
  arith, if◌then◌else◌, length, take, length-drop, Outcome, ◌>>=◌, Outcome-cases, done,
}
use ledger_embedded_app.Parser.{Pointer, MessageHeader}
use ledger_embedded_app.Parser.Steps.{view}
use ledger_embedded_app.Parser.Lengths.{length_bytes}
use ledger_embedded_app.Parser.RoundTrip.{
  data_bytes, Call, Header, concat, header_tail, header_bytes, IsHeader, version_of,
  parse_message_header-header_bytes,
}
use ledger_embedded_app.Instruction.{
  pubkey_at, instruction_program_id, instruction_validate, system,
}
use ledger_embedded_app.Instruction.Accounts.{instruction_validate_iff}
use ledger_embedded_app.Instruction.Programs.{id_of, instruction_program_id_iff}
use ledger_embedded_app.Summary.{
  kind, TransactionSummary, transaction_summary_reset, transaction_summary_finalize, kind_amount,
  amount,
}
use ledger_embedded_app.Summary.Filling.{payer_kinds, payer_item}
use ledger_embedded_app.Printing.{add_fee_payer}
use ledger_embedded_app.System.{SystemInfo, transfer_info}
use ledger_embedded_app.System.Print.{print_system_info}
use ledger_embedded_app.System.Transfer.{
  transfer_bytes, parse_system_instructions-transfer, item, transfer_items, config_of,
  transfer_shown,
}
use ledger_embedded_app.Transaction.{system_info}
use ledger_embedded_app.Transaction.Cases.{
  print_alone, print_transaction_nonce_processed, concluded, print_transaction,
}
use ledger_embedded_app.Message.{
  parse_info, info_of_instruction, displayed, any_unknown, process_message_body,
}
use ledger_embedded_app.Message.Body.{
  calls_bytes, call_instruction, infos_of_calls, tables_bytes, process_message_body-calls,
}
use ledger_embedded_app.Signing.{
  Sdk, Settings, scan_header_for_signer, is_complete, show_message,
  handle_sign_message_parse_message,
}
use ledger_embedded_app.Apdu.{ins_sign_message, ApduCommand, payload_complete}
use ledger_embedded_app.Printing.FeePayer.{shown_payer}

abbrev pub transfer_call : (index a b lamports : ℕ) → Call
transfer_call index a b lamports = record {
  program_id_index = index;
  accounts = a ∷ b ∷ [];
  payload = transfer_bytes lamports [];
}

-- What the transfer needs of the header: its three keys, the third of them the system program's.
pub record HasKeys (h : MessageHeader) (index a b : ℕ) : Type 0 where
  pub keys_in : h.pubkeys_header.pubkeys_length * 32 ≤ length h.pubkeys
  pub index_in : index < h.pubkeys_header.pubkeys_length
  pub a_in : a < h.pubkeys_header.pubkeys_length
  pub b_in : b < h.pubkeys_header.pubkeys_length
  pub is_system : id_of system ≡ some (take 32 (pubkey_at h.pubkeys index))

key_in :
    (h : MessageHeader) (i : ℕ)
    → h.pubkeys_header.pubkeys_length * 32 ≤ length h.pubkeys
    → i < h.pubkeys_header.pubkeys_length
    → 32 ≤ length (pubkey_at h.pubkeys i)
key_in h i k l = omega (arith, length-drop (i * 32) h.pubkeys)

abbrev info_of : MessageHeader → (a b lamports : ℕ) → SystemInfo
info_of h a b lamports =
    transfer_info
      (record { from = pubkey_at h.pubkeys a; to = pubkey_at h.pubkeys b; lamports = lamports })

transfer-is-read :
    (h : MessageHeader) (index a b lamports : ℕ) (behind : List ℕ)
    → HasKeys h index a b
    → lamports < 2 ^ 64
    → infos_of_calls (transfer_call index a b lamports ∷ []) behind h
      ≡ done (system_info (info_of h a b lamports) ∷ [])
unfolding info_of_instruction parse_info
transfer-is-read h index a b lamports behind k fits =
    let c = transfer_call index a b lamports in
    let ix = call_instruction c behind in
    let there : 2 ≤ length ix.accounts = omega arith in
    let valid : instruction_validate ix h ≡ done tt =
      (instruction_validate_iff ix h there).1 (k.index_in, (k.a_in, (k.b_in, tt))) in
    let ours : instruction_program_id ix h ≡ done system =
      (instruction_program_id_iff ix h (key_in h index k.keys_in k.index_in) system (λ e. cc)).1
        k.is_system in
    let parsed =
      parse_system_instructions-transfer index a b (data_bytes c.payload behind) 2 lamports []
        behind h (omega arith) fits in
    rw (valid, ours, parsed) refl

-- The body of the message.
abbrev pub transfer_body : Bool → (index a b lamports : ℕ) → List ℕ
transfer_body versioned index a b lamports =
    calls_bytes (transfer_call index a b lamports ∷ []) (tables_bytes versioned 0)

process_transfer :
    (h : MessageHeader) (index a b lamports : ℕ) (rest : List ℕ) (expert : Bool) (signer : Pointer)
    (s : TransactionSummary)
    → HasKeys h index a b
    → h.instructions_length ≡ 1
    → lamports < 2 ^ 64
    → let body = transfer_body h.versioned index a b lamports in
      process_message_body (body ++ rest) (length body) (config_of h expert signer) s
      ≡ concluded s (print_system_info (info_of h a b lamports) (config_of h expert signer) s)
unfolding print_transaction print_transaction_nonce_processed print_alone any_unknown displayed
process_transfer h index a b lamports rest expert signer s k one fits =
    process_message_body-calls (transfer_call index a b lamports ∷ []) rest
      (config_of h expert signer) s (system_info (info_of h a b lamports) ∷ []) (omega arith) one
      (omega arith) (omega arith)
      (transfer-is-read h index a b lamports (tables_bytes h.versioned 0 ++ rest) k fits)

bind-done :
    {A B : Type 0} (o : Outcome A) (f : A → Outcome B) {b : B}
    → (o >>= f) ≡ done b
    → (a : A) × (o ≡ done a) × (f a ≡ done b)
bind-done o f e = elim (Outcome-cases o) [
  | inl (a, d) ↦ (a, d, rw d at e)
  | inr (inl (code, d)) ↦ absurd (cc (rw d at e))
  | inr (inr d) ↦ absurd (cc (rw d at e))
]

-- What is shown of a transfer between two accounts to a signer.
pub record ShowsTransfer (h : MessageHeader) (expert : Bool) (signer : Pointer) (a b lamports : ℕ)
    (s : TransactionSummary) : Type 0 where
  pub amount_first : s.primary ≡ item (codes "Transfer") (amount lamports)
  pub accounts_next :
      let items = transfer_items expert signer (pubkey_at h.pubkeys a) (pubkey_at h.pubkeys b) in
      take (length items) s.general ≡ items
  pub fee_payer_last : s.fee_payer ≡ payer_item (shown_payer expert signer (pubkey_at h.pubkeys 0))
  pub finalizes :
      let items = transfer_items expert signer (pubkey_at h.pubkeys a) (pubkey_at h.pubkeys b) in
      transaction_summary_finalize s
      ≡ done (
          kind_amount
          ∷ (map kind items ++ payer_kinds (shown_payer expert signer (pubkey_at h.pubkeys 0))))

if-false : {A : Type 0} (c : Bool) (x y : A) → c ≡ false → (if c then x else y) ≡ y
if-false c x y e = rw e refl

show_transfer :
    (sdk : Sdk) (settings : Settings) (cmd : ApduCommand) (h : MessageHeader)
    (index a b lamports : ℕ) (rest : List ℕ) (signer : Pointer)
    → cmd.non_confirm ≡ false
    → HasKeys h index a b
    → h.instructions_length ≡ 1
    → lamports < 2 ^ 64
    → 32 ≤ length signer
    → (s : TransactionSummary) × (show_message sdk settings cmd
          (view (transfer_body h.versioned index a b lamports) rest)
          (config_of h settings.expert_mode signer)
        ≡ done (cmd, s))
      × ShowsTransfer h settings.expert_mode signer a b lamports s
unfolding show_message
show_transfer sdk settings cmd h index a b lamports rest signer loud k one fits ls =
    let config = config_of h settings.expert_mode signer in
    let parsed =
      parse_system_instructions-transfer index a b [] 2 lamports [] [] h (omega arith) fits in
    let (s, e, first, next, payer_last, last) =
      transfer_shown index a b [] 2 lamports [] [] h settings.expert_mode signer (omega arith) fits
        ls (key_in h a k.keys_in k.a_in) (key_in h 0 k.keys_in (omega (arith, k.a_in))) in
    let payer = pubkey_at h.pubkeys 0 in
    let all : (print_system_info (info_of h a b lamports) config transaction_summary_reset
          >>= add_fee_payer payer config)
        ≡ done s =
      rw parsed at e in
    let (s1, printed, paid) =
      bind-done (print_system_info (info_of h a b lamports) config transaction_summary_reset)
        (add_fee_payer payer config) all in
    let processed =
      process_transfer h index a b lamports rest settings.expert_mode signer
        transaction_summary_reset k one fits in
    (
      s,
      if-false cmd.non_confirm _ _ loud ∙ rw processed (rw printed (rw paid refl)),
      record {
        amount_first = first;
        accounts_next = next;
        fee_payer_last = payer_last;
        finalizes = last;
      },
    )

-- The header as it is read, with the bytes behind it.
abbrev pub header_of : Header → List ℕ → List ℕ → MessageHeader
header_of h body rest = record {
  versioned = (version_of h.version).versioned;
  version = (version_of h.version).version;
  pubkeys_header = record {
    num_required_signatures = h.required;
    num_readonly_signed_accounts = h.readonly_signed;
    num_readonly_unsigned_accounts = h.readonly_unsigned;
    pubkeys_length = length h.keys;
  };
  pubkeys = concat h.keys ++ (header_tail h body ++ rest);
  blockhash = h.blockhash ++ ((length_bytes h.instructions_length ++ body) ++ rest);
  instructions_length = h.instructions_length;
}

-- The header of a message with one transfer, which stands in front of `rest`.
abbrev pub transfer_header : Header → (at a b lamports : ℕ) → List ℕ → MessageHeader
transfer_header h at a b lamports rest =
    header_of h (transfer_body (version_of h.version).versioned at a b lamports) rest

-- The complete command that holds the message, in a state of which the handler uses no more.
abbrev pub transfer_command :
    Header → (at a b lamports : ℕ) → (rest path : List ℕ) → (n paths : ℕ) → List ℕ → ApduCommand
transfer_command h at a b lamports rest path n paths old_hash =
    let body = transfer_body (version_of h.version).versioned at a b lamports in
    record {
      state = payload_complete;
      instruction = ins_sign_message;
      num_derivation_paths = paths;
      derivation_path = path;
      derivation_path_length = n;
      non_confirm = false;
      message = header_bytes h body ++ rest;
      message_length = length (header_bytes h body);
      message_hash = old_hash;
    }

-- From its bytes to what is shown: on the complete command with a message whose header is well formed
-- and whose one instruction is a transfer of the system program, behind a header that has the keys
-- that it names, and where the derived key is found among the signers,
-- `handle_sign_message_parse_message` leaves the command as it was and a summary with the amount, the
-- sender and the recipient that the message encodes, and with the header's first account key as the
-- fee payer's item; finalizing lists the kinds of these, in that order. The sender and the fee payer
-- are left out where the mode is not expert and they are the signer.
pub transfer_message_shown :
    (sdk : Sdk) (settings : Settings) (h : Header) (at a b lamports : ℕ) (rest path : List ℕ)
    (n paths : ℕ) (old_hash : List ℕ) (i : ℕ)
    → IsHeader h
    → h.instructions_length ≡ 1
    → HasKeys (transfer_header h at a b lamports rest) at a b
    → lamports < 2 ^ 64
    → i < length h.keys
    → scan_header_for_signer sdk path n (transfer_header h at a b lamports rest) ≡ done i
    → (s : TransactionSummary) × (handle_sign_message_parse_message sdk settings
          (transfer_command h at a b lamports rest path n paths old_hash)
        ≡ done (transfer_command h at a b lamports rest path n paths old_hash, s))
      × ShowsTransfer
          (transfer_header h at a b lamports rest)
          settings.expert_mode
          (pubkey_at (transfer_header h at a b lamports rest).pubkeys i)
          a
          b
          lamports
          s
unfolding handle_sign_message_parse_message is_complete
transfer_message_shown sdk settings h at a b lamports rest path n paths old_hash i w one k fits l
      found =
    let body = transfer_body (version_of h.version).versioned at a b lamports in
    let header = transfer_header h at a b lamports rest in
    let cmd = transfer_command h at a b lamports rest path n paths old_hash in
    let (s, e, shown) =
      show_transfer sdk settings cmd header at a b lamports rest (pubkey_at header.pubkeys i) refl k
        one fits (key_in header i k.keys_in l) in
    (s, rw (parse_message_header-header_bytes h body rest w) (rw found e), shown)
