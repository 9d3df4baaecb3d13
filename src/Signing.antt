-- ===== src/Signing.antt =====
-- src/handle_sign_message.c up to the screens, with `get_public_key` of src/utils.c: how a complete
-- command becomes the summary that the device shows. A `THROW` is a `bail`. The calls of the device's
-- SDK are the fields of `Sdk`.
pub mod Signer
pub mod Safety
pub mod Transfer
use ledger_embedded_app.Common.{
  codes, bytes_eq, ℕ, zero, suc, ◌+◌, ◌-◌, bit_and, bit_or, ◌≡◌, Bool, true, false, not, ◌||◌, some,
  List, [], ◌∷◌, ◌==◌, if◌then◌else◌, length, set, Outcome, ◌>>=◌, done, bail, fault,
}
use ledger_embedded_app.Parser.{
  Pointer, pubkey_size, hash_size, Parser, load, MessageHeader, parse_message_header,
}
use ledger_embedded_app.Instruction.{pubkey_at}
use ledger_embedded_app.Apdu.{
  ApduState, ins_sign_message, sdk_invalid_parameter, invalid_message, invalid_message_header,
  ApduCommand, index, payload_complete,
}
use ledger_embedded_app.Summary.{TransactionSummary, transaction_summary_reset, hash, string}
use ledger_embedded_app.Printing.{PrintConfig, primary, general, add_fee_payer}
use ledger_embedded_app.Message.{process_message_body}

-- `generate_pair path length` is the `W` of the public key that `os_perso_derive_node_bip32_seed_key`
-- and `cx_ecfp_generate_pair_no_throw` give: a byte, and two coordinates of 32 bytes.
pub record Sdk : Type 0 where
  pub generate_pair : List ℕ → ℕ → List ℕ
  pub cx_hash_sha256 : List ℕ → List ℕ

-- The sizes that the SDK documents.
pub record IsSdk (sdk : Sdk) : Type 0 where
  pub point_size : (path : List ℕ) (n : ℕ) → length (sdk.generate_pair path n) ≡ 65
  pub hash_size : (bytes : List ℕ) → length (sdk.cx_hash_sha256 bytes) ≡ 32

-- What the handlers read of `N_storage.settings`.
pub record Settings : Type 0 where
  pub expert_mode : Bool
  pub allow_blind_sign : Bool

abbrev pub sdk_not_supported : ℕ
sdk_not_supported = 0x6808

-- The loop of `get_public_key`, with `left` rounds to go.
unfoldable pub reversed_point : ℕ → ℕ → List ℕ → Outcome (List ℕ)
reversed_point zero i w = done []
reversed_point (suc left) i w = do
  b ← index w (64 - i)
  bs ← reversed_point left (i + 1) w
  done (b ∷ bs)

unfoldable pub get_public_key : Sdk → List ℕ → ℕ → Outcome (List ℕ)
get_public_key sdk path n = do
  let w = sdk.generate_pair path n
  key ← reversed_point 32 0 w
  sign ← index w 32
  last ← index key 31
  done (if bit_and sign 1 == 0 then key else set key 31 (bit_or last 0x80))

-- The loop of `scan_header_for_signer` at index `i`, with `left` rounds to go. The -1 of the code is
-- here the bits of it.
unfoldable pub scan_pubkeys : ℕ → ℕ → List ℕ → Pointer → Outcome ℕ
scan_pubkeys zero i signer_pubkey pubkeys = bail 0xffffffff
scan_pubkeys (suc left) i signer_pubkey pubkeys =
    let rest = scan_pubkeys left (i + 1) signer_pubkey pubkeys in
    load pubkey_size (pubkey_at pubkeys i) >>= λ current_pubkey.
    if bytes_eq current_pubkey signer_pubkey then done i else rest

unfoldable pub scan_header_for_signer : Sdk → List ℕ → ℕ → MessageHeader → Outcome ℕ
scan_header_for_signer sdk path n header = do
  signer_pubkey ← get_public_key sdk path n
  scan_pubkeys header.pubkeys_header.num_required_signatures 0 signer_pubkey header.pubkeys

-- `if (... != 0) THROW(reply)`
abbrev pub or_throw : {A : Type 0} → ℕ → Outcome A → Outcome A
or_throw reply (done a) = done a
or_throw reply (bail e) = bail reply
or_throw reply fault = fault

unfoldable pub is_complete : ApduState → Bool
is_complete payload_complete = true
is_complete _ = false

-- What is shown of a message that is not understood, where the settings allow to sign it.
unfoldable pub show_blind :
    Sdk → Settings → ApduCommand → TransactionSummary → Outcome (ApduCommand × TransactionSummary)
show_blind sdk settings cmd s =
    if settings.allow_blind_sign
    then (do
      s ← primary (codes "Unrecognized") (string (codes "format")) s
      message ← load cmd.message_length cmd.message
      let message_hash = sdk.cx_hash_sha256 message
      s ← general (codes "Message Hash") (hash message_hash) s
      done (record cmd { message_hash = message_hash }, s))
    else bail sdk_not_supported

-- What follows the search of the signer.
unfoldable pub show_message :
    Sdk → Settings → ApduCommand → Parser → PrintConfig → Outcome (ApduCommand × TransactionSummary)
show_message sdk settings cmd parser config =
    if cmd.non_confirm then bail sdk_not_supported else (do
      (code, s) ←
          process_message_body parser.buffer parser.buffer_length config transaction_summary_reset
      (cmd, s) ← if code == 0 then done (cmd, s) else show_blind sdk settings cmd s
      s ← add_fee_payer (pubkey_at config.header.pubkeys 0) config s
      done (cmd, s))

abbrev pub command_parser : ApduCommand → Parser
command_parser cmd = record { buffer = cmd.message; buffer_length = cmd.message_length }

-- The command and the summary as they are left.
unfoldable pub handle_sign_message_parse_message :
    Sdk → Settings → ApduCommand → Outcome (ApduCommand × TransactionSummary)
handle_sign_message_parse_message sdk settings cmd =
    if not (cmd.instruction == ins_sign_message) || not (is_complete cmd.state)
    then bail sdk_invalid_parameter
    else (do
      (header, parser) ← or_throw invalid_message (parse_message_header (command_parser cmd))
      signer_index ←
          or_throw invalid_message_header
            (scan_header_for_signer sdk cmd.derivation_path cmd.derivation_path_length header)
      show_message sdk settings cmd parser (record {
        header = header;
        expert_mode = settings.expert_mode;
        signer_pubkey = some (pubkey_at header.pubkeys signer_index);
      }))
