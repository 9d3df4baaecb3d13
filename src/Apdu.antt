-- ===== src/Apdu.antt =====
-- src/apdu.c, src/apdu.h and `read_derivation_path` of src/utils.c: the messages of the host
-- assembled into a command. A message is the list of its `apdu_message_len` bytes. The null-pointer
-- tests are left out, but for the data pointer of a header, which is null where there is no data.
pub mod Command
pub mod Valid
pub mod Paths
pub mod Safety
pub mod Chunks
pub mod Start
pub mod Reassembly
pub mod Refusals
use ledger_embedded_app.Common.{
  ℕ, zero, suc, ◌+◌, ◌*◌, ◌^◌, bit_or, Bool, false, ◌||◌, List, [], ◌∷◌, ◌++◌, Option, none, some,
  length, get_elem?, take, drop, replicate, ltb, leb, ◌==◌, if◌then◌else◌, Outcome, done, bail,
  fault, ◌>>=◌,
}
use ledger_embedded_app.Parser.{Pointer}

pub data ApduState : Type 0 where
  uninitialized payload_in_progress payload_complete : ApduState

-- `InstructionCode` and `ApduReply`, those that are used here.
abbrev pub ins_get_app_configuration : ℕ
ins_get_app_configuration = 0x01

abbrev pub ins_get_pubkey : ℕ
ins_get_pubkey = 0x02

abbrev pub ins_sign_message : ℕ
ins_sign_message = 0x03

abbrev pub ins_sign_offchain_message : ℕ
ins_sign_offchain_message = 0x04

abbrev pub sdk_invalid_parameter : ℕ
sdk_invalid_parameter = 0x6802

abbrev pub invalid_message : ℕ
invalid_message = 0x6a80

abbrev pub invalid_message_header : ℕ
invalid_message_header = 0x6a81

abbrev pub invalid_message_size : ℕ
invalid_message_size = 0x6a83

abbrev pub unimplemented_instruction : ℕ
unimplemented_instruction = 0x6d00

abbrev pub cla : ℕ
cla = 0xe0

abbrev pub p1_non_confirm : ℕ
p1_non_confirm = 0x00

abbrev pub p2_extend : ℕ
p2_extend = 0x01

abbrev pub p2_more : ℕ
p2_more = 0x02

abbrev pub offset_cdata : ℕ
offset_cdata = 5

abbrev pub max_bip32_path_length : ℕ
max_bip32_path_length = 5

-- `MAX_MESSAGE_LENGTH`: 1232 + 21 rounded up to a multiple of USB_SEGMENT_SIZE, 64 in the Makefile.
abbrev pub max_message_length : ℕ
max_message_length = 1280

-- A zeroed command has the instruction 0, which is no `InstructionCode`, so the code is a number.
pub record ApduCommand : Type 0 where
  pub state : ApduState
  pub instruction : ℕ
  pub num_derivation_paths : ℕ
  pub derivation_path : List ℕ
  pub derivation_path_length : ℕ
  pub non_confirm : Bool
  pub message : List ℕ
  pub message_length : ℕ
  pub message_hash : List ℕ

-- `explicit_bzero(apdu_command, sizeof(ApduCommand))`
unfoldable pub zero_command : ApduCommand
zero_command = record {
  state = uninitialized;
  instruction = 0;
  num_derivation_paths = 0;
  derivation_path = replicate max_bip32_path_length 0;
  derivation_path_length = 0;
  non_confirm = false;
  message = replicate max_message_length 0;
  message_length = 0;
  message_hash = replicate 32 0;
}

pub record ApduHeader : Type 0 where
  pub instruction : ℕ
  pub p1 : ℕ
  pub p2 : ℕ
  pub data_pointer : Option Pointer
  pub data_length : ℕ

-- `array[i]`
abbrev pub index : List ℕ → ℕ → Outcome ℕ
index xs i = elim (get_elem? xs i) [ none ↦ fault | some b ↦ done b ]

-- `xs` written over the elements from `offset` on.
pub write_at : ℕ → List ℕ → List ℕ → Outcome (List ℕ)
write_at offset xs buffer =
    if leb (offset + length xs) (length buffer)
    then done (take offset buffer ++ (xs ++ drop (offset + length xs) buffer))
    else fault

abbrev pub is_modern : ℕ → Bool
is_modern ins =
    ins == ins_get_app_configuration
    || ins == ins_get_pubkey
    || ins == ins_sign_message
    || ins == ins_sign_offchain_message

-- The case of the four instructions, past the tests of class and instruction.
pub modern_header : List ℕ → ℕ → Outcome ApduHeader
modern_header msg ins =
    if ltb (length msg) offset_cdata
    then bail invalid_message_size
    else if ltb (255 + offset_cdata) (length msg)
    then bail invalid_message_size
    else do
      lc ← index msg 4
      p1 ← index msg 2
      p2 ← index msg 3
      if length msg == lc + offset_cdata
          then done (record {
            instruction = ins;
            p1 = p1;
            p2 = p2;
            data_pointer = if ltb 0 lc then some (drop offset_cdata msg) else none;
            data_length = lc;
          })
          else bail invalid_message_size

-- The header of a message, or the reply to a message that has none: `apdu_handle_message` up to
-- where it first looks at the command.
pub parse_apdu_header : List ℕ → Outcome ApduHeader
parse_apdu_header msg = if leb (length msg) 1 then bail invalid_message_size else do
  class ← index msg 0
  ins ← index msg 1
  if class == cla
      then if is_modern ins then modern_header msg ins else bail unimplemented_instruction
      else bail invalid_message_header

-- Four bytes, the highest first.
pub read_u32_be : ℕ → ℕ → ℕ → ℕ → ℕ
read_u32_be a b c d = bit_or (bit_or (bit_or (a * 2 ^ 24) (b * 2 ^ 16)) (c * 2 ^ 8)) d

-- The loop of `read_derivation_path`, with `left` rounds to go.
read_indices : ℕ → Pointer → Outcome (List ℕ)
read_indices zero bs = done []
read_indices (suc left) (a ∷ b ∷ c ∷ d ∷ bs) = do
  rest ← read_indices left bs
  done (read_u32_be a b c d ∷ rest)
read_indices (suc left) _ = fault

-- The path is what is written through `derivation_path`, and its length through
-- `derivation_path_length`.
pub read_derivation_path : Option Pointer → ℕ → Outcome (List ℕ)
read_derivation_path none data_size = bail sdk_invalid_parameter
read_derivation_path (some buffer) data_size =
    if data_size == 0 then bail invalid_message_size else do
      len ← index buffer 0
      if ltb len 1 || ltb max_bip32_path_length len
          then bail invalid_message
          else if ltb data_size (1 + 4 * len)
          then bail invalid_message_size
          else read_indices len (drop 1 buffer)
