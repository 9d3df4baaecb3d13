-- ===== src/Offchain.antt =====
-- src/handle_sign_offchain_message.c: the checks of an off-chain message's text, and the summary that
-- is shown of the message, up to the screens.
pub mod Encoding
pub mod Sequences
pub mod Utf8
pub mod Ascii
pub mod Safety
use ledger_embedded_app.Common.{
  codes, ℕ, zero, suc, ◌+◌, bit_and, Bool, true, false, not, ◌&&◌, ◌||◌, Option, none, some, List,
  [], ◌∷◌, ltb, ◌==◌, if◌then◌else◌, length, drop, Outcome, ◌>>=◌, done, bail, fault,
}
use ledger_embedded_app.Parser.{load, OffchainMessageHeader, parse_offchain_message_header}
use ledger_embedded_app.Apdu.{
  ins_sign_offchain_message, sdk_invalid_parameter, invalid_message_header, ApduCommand,
}
use ledger_embedded_app.Summary.{
  SummaryItemKind, TransactionSummary, transaction_summary_reset, transaction_summary_finalize, u64,
  pubkey, hash, string,
}
use ledger_embedded_app.Printing.{Printer, primary, general, when}
use ledger_embedded_app.Signing.{
  Sdk, Settings, sdk_not_supported, get_public_key, or_throw, is_complete, command_parser,
}

-- The test of a continuation byte, `(b & 0xc0) != 0x80`.
abbrev pub is_not_continuation : ℕ → Bool
is_not_continuation b = not (bit_and b 0xc0 == 0x80)

-- The cases of the loop of `is_data_utf8` on the bytes that are left, of which the first is `a`: the
-- number of bytes that the case steps over, or none where it returns false.
unfoldable pub two_bytes : ℕ → List ℕ → Option ℕ
two_bytes a (b ∷ bytes) = if is_not_continuation b || (bit_and a 0xfe == 0xc0) then none else some 2
two_bytes a [] = none

unfoldable pub three_bytes : ℕ → List ℕ → Option ℕ
three_bytes a (b ∷ c ∷ bytes) =
    if is_not_continuation b
      || is_not_continuation c
      || (a == 0xe0 && bit_and b 0xe0 == 0x80)
      || (a == 0xed && bit_and b 0xe0 == 0xa0)
      || (a == 0xef && b == 0xbf && bit_and c 0xfe == 0xbe)
    then none
    else some 3
three_bytes a _ = none

unfoldable pub four_bytes : ℕ → List ℕ → Option ℕ
four_bytes a (b ∷ c ∷ d ∷ bytes) =
    if is_not_continuation b
      || is_not_continuation c
      || is_not_continuation d
      || (a == 0xf0 && bit_and b 0xf0 == 0x80)
      || (a == 0xf4 && ltb 0x8f b)
      || ltb 0xf4 a
    then none
    else some 4
four_bytes a _ = none

unfoldable pub sequence : ℕ → List ℕ → Option ℕ
sequence a bytes =
    if ltb a 0x80
    then some 1
    else if bit_and a 0xe0 == 0xc0
    then two_bytes a bytes
    else if bit_and a 0xf0 == 0xe0
    then three_bytes a bytes
    else if bit_and a 0xf8 == 0xf0
    then four_bytes a bytes
    else none

-- The loop over the bytes that are left, for at most `fuel` rounds; none where these do not suffice.
unfoldable pub utf8_loop : ℕ → List ℕ → Option Bool
utf8_loop fuel [] = some true
utf8_loop zero (a ∷ bytes) = none
utf8_loop (suc fuel) (a ∷ bytes) = elim (sequence a bytes) [
  | none ↦ some false
  | some n ↦ utf8_loop fuel (drop n (a ∷ bytes))
]

-- On the `length` bytes at `data`, past which no test reads; each round steps over at least one.
unfoldable pub is_data_utf8 : List ℕ → Option Bool
is_data_utf8 bytes = utf8_loop (length bytes) bytes

unfoldable pub is_data_ascii : List ℕ → Bool
is_data_ascii [] = true
is_data_ascii (b ∷ bytes) = if ltb b 0x20 || ltb 0x7e b then false else is_data_ascii bytes

-- `MAX_OFFCHAIN_MESSAGE_LENGTH`, with `max_message_length` as it is.
abbrev pub max_offchain_message_length : ℕ
max_offchain_message_length = 1212

abbrev pub offchain_message_header_length : ℕ
offchain_message_header_length = 19

abbrev pub invalid_message_format : ℕ
invalid_message_format = 0x6a82

abbrev pub summary_finalize_failed : ℕ
summary_finalize_failed = 0x6f00

-- What `start_sign_offchain_message_ui` is called with, and the globals that it shows.
pub record OffchainShown : Type 0 where
  pub command : ApduCommand
  pub is_ascii : Bool
  pub summary : TransactionSummary
  pub kinds : List SummaryItemKind

-- The validation of the header.
unfoldable pub is_refused_header : OffchainMessageHeader → ApduCommand → Bool
is_refused_header header cmd =
    not (header.version == 0)
    || ltb 1 header.format
    || ltb max_offchain_message_length header.len
    || not (header.len + offchain_message_header_length == cmd.message_length)

-- `is_ascii ? true : is_data_utf8(...)`
unfoldable pub is_utf8_text : Bool → List ℕ → Outcome Bool
is_utf8_text true text = done true
is_utf8_text false text = elim (is_data_utf8 text) [ none ↦ fault | some b ↦ done b ]

-- The checks of the text.
unfoldable pub check_text : Settings → OffchainMessageHeader → Bool → Bool → Outcome (Unit {0})
check_text settings header is_ascii is_utf8 =
    if not is_ascii && (not is_utf8 || header.format == 0)
    then bail invalid_message_format
    else if not is_ascii && not settings.allow_blind_sign
    then bail sdk_not_supported
    else done tt

-- The hash that the command is left with.
unfoldable pub hash_message : Sdk → Bool → ApduCommand → Outcome ApduCommand
hash_message sdk needed cmd =
    if needed
    then (do
      message ← load cmd.message_length cmd.message
      done (record cmd { message_hash = sdk.cx_hash_sha256 message }))
    else done cmd

-- The items that are shown in expert mode.
unfoldable pub show_details : Sdk → OffchainMessageHeader → ApduCommand → Printer
show_details sdk header cmd s = do
  s ← general (codes "Version") (u64 header.version) s
  s ← general (codes "Format") (u64 header.format) s
  s ← general (codes "Size") (u64 header.len) s
  s ← general (codes "Hash") (hash cmd.message_hash) s
  key ← get_public_key sdk cmd.derivation_path cmd.derivation_path_length
  general (codes "Signer") (pubkey key) s

-- The summary.
unfoldable pub show_offchain : Sdk → Settings → OffchainMessageHeader → Bool → ApduCommand → Printer
show_offchain sdk settings header is_ascii cmd s = do
  s ← primary (codes "Sign") (string (codes "Off-Chain Message")) s
  if settings.expert_mode
      then show_details sdk header cmd s
      else when (not is_ascii) (general (codes "Hash") (hash cmd.message_hash)) s

-- What follows the validation of the header, on the text that it announces.
unfoldable pub show_text :
    Sdk → Settings → ApduCommand → OffchainMessageHeader → List ℕ → Outcome OffchainShown
show_text sdk settings cmd header text = do
  let is_ascii = is_data_ascii text
  is_utf8 ← is_utf8_text is_ascii text
  _ ← check_text settings header is_ascii is_utf8
  cmd ← hash_message sdk (not is_ascii || settings.expert_mode) cmd
  s ← show_offchain sdk settings header is_ascii cmd transaction_summary_reset
  kinds ← or_throw summary_finalize_failed (transaction_summary_finalize s)
  done (record { command = cmd; is_ascii = is_ascii; summary = s; kinds = kinds })

-- What follows the parsing of the header.
unfoldable pub sign_offchain :
    Sdk → Settings → ApduCommand → OffchainMessageHeader → Outcome OffchainShown
sign_offchain sdk settings cmd header =
    if is_refused_header header cmd then bail invalid_message_header else (do
      text ← load header.len (drop offchain_message_header_length cmd.message)
      show_text sdk settings cmd header text)

unfoldable pub handle_sign_offchain_message : Sdk → Settings → ApduCommand → Outcome OffchainShown
handle_sign_offchain_message sdk settings cmd =
    if not (cmd.instruction == ins_sign_offchain_message) || not (is_complete cmd.state)
    then bail sdk_invalid_parameter
    else if cmd.non_confirm
    then bail sdk_not_supported
    else (do
      (header, parser) ←
          or_throw invalid_message_header (parse_offchain_message_header (command_parser cmd))
      sign_offchain sdk settings cmd header)
