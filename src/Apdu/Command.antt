-- ===== src/Apdu/Command.antt =====
-- `apdu_handle_message` of src/apdu.c: how a message changes the command in progress.
use ledger_embedded_app.Common.{
  ℕ, zero, suc, ◌+◌, ◌-◌, ◌*◌, bit_and, Bool, true, false, not, ◌&&◌, ◌||◌, List, Option, none,
  some, length, drop, ltb, ◌==◌, if◌then◌else◌, Outcome, done, bail, fault, ◌>>=◌,
}
use ledger_embedded_app.Parser.{Pointer, load}
use ledger_embedded_app.Apdu.{
  ApduState, payload_in_progress, payload_complete, ApduCommand, zero_command, ApduHeader, index,
  write_at, parse_apdu_header, read_derivation_path, ins_get_app_configuration, ins_get_pubkey,
  ins_sign_message, ins_sign_offchain_message, invalid_message, invalid_message_size,
  p1_non_confirm, p2_extend, p2_more, max_message_length,
}

-- The reply, 0 for success, and the command as the call leaves it.
abbrev pub Reply : Type 0
Reply = ℕ × ApduCommand

-- What a stage leaves for the next one, or the reply that ends the call.
pub data Stage : Type 0 where
  go_on : ApduCommand → Option Pointer → ℕ → Stage
  stop : ℕ → ApduCommand → Stage

-- `header.p1 == P1_NON_CONFIRM`
abbrev pub non_confirm_of : ApduHeader → Bool
non_confirm_of h = h.p1 == p1_non_confirm

abbrev pub is_first_chunk : ApduHeader → Bool
is_first_chunk h = bit_and h.p2 p2_extend == 0

abbrev pub is_signing : ℕ → Bool
is_signing ins = ins == ins_sign_message || ins == ins_sign_offchain_message

abbrev pub same_bool : Bool → Bool → Bool
same_bool true b = b
same_bool false b = not b

abbrev pub is_in_progress : ApduState → Bool
is_in_progress payload_in_progress = true
is_in_progress _ = false

-- "validate the command in progress"
unfoldable pub continues : ApduHeader → ApduCommand → Bool
continues h cmd =
    is_in_progress cmd.state
    && (cmd.instruction == h.instruction
        && (same_bool cmd.non_confirm (non_confirm_of h) && cmd.num_derivation_paths == 1))

-- `header.data += n`, on a pointer that is not null.
abbrev pub skip : ℕ → Option Pointer → Option Pointer
skip n none = none
skip n (some buffer) = some (drop n buffer)

-- The command with the path that was read, and the data behind it. A failed read writes nothing.
unfoldable pub path_stage : ApduCommand → Option Pointer → ℕ → Outcome (List ℕ) → Outcome Stage
path_stage cmd ptr size (done path) = do
  written ← write_at 0 path cmd.derivation_path
  done (
      go_on (record cmd { derivation_path = written; derivation_path_length = length path })
        (skip (1 + length path * 4) ptr) (size - (1 + length path * 4)))
path_stage cmd ptr size (bail e) = done (stop e cmd)
path_stage cmd ptr size fault = fault

unfoldable pub read_path : ApduCommand → Option Pointer → ℕ → Outcome Stage
read_path cmd ptr size = path_stage cmd ptr size (read_derivation_path ptr size)

-- The first chunk of a message to sign starts with the number of paths, of which only 1 is
-- supported. The arguments are `header.data` and `header.data_length`.
unfoldable pub signing_stage : ApduCommand → Option Pointer → ℕ → Outcome Stage
signing_stage cmd ptr zero = done (stop invalid_message_size cmd)
signing_stage cmd none (suc size) = fault
signing_stage cmd (some buffer) (suc size) = do
  n ← index buffer 0
  let cmd' = record cmd { num_derivation_paths = n }
  if n == 1 then read_path cmd' (some (drop 1 buffer)) size else done (stop invalid_message cmd')

-- "read derivation path"
unfoldable pub read_paths : ApduHeader → ApduCommand → Outcome Stage
read_paths h cmd =
    if h.instruction == ins_get_pubkey
    then read_path (record cmd { num_derivation_paths = 1 }) h.data_pointer h.data_length
    else signing_stage cmd h.data_pointer h.data_length

-- "check if more data is expected"
unfoldable pub finish : ApduHeader → ApduCommand → Reply
finish h cmd =
    if bit_and h.p2 p2_more == 0 then (0, record cmd { state = payload_complete }) else (0, cmd)

-- "copy data to the buffer"
unfoldable pub copy_data : ApduHeader → ApduCommand → Option Pointer → ℕ → Outcome Reply
copy_data h cmd none size =
    if h.instruction == ins_get_pubkey
    then done (finish h cmd)
    else done (invalid_message_size, cmd)
copy_data h cmd (some buffer) size =
    if ltb max_message_length (cmd.message_length + size)
    then done (invalid_message_size, cmd)
    else do
      bytes ← load size buffer
      written ← write_at cmd.message_length bytes cmd.message
      done (finish h (record cmd { message = written; message_length = cmd.message_length + size }))

unfoldable pub resume : ApduHeader → Stage → Outcome Reply
resume h (stop e cmd) = done (e, cmd)
resume h (go_on cmd ptr size) =
    copy_data h
      (record cmd {
        state = payload_in_progress;
        instruction = h.instruction;
        non_confirm = non_confirm_of h;
      })
      ptr size

-- Past the header. A chunk that extends a message to sign keeps the command; anything else starts
-- from a zeroed one.
unfoldable pub handle_header : ApduHeader → ApduCommand → Outcome Reply
handle_header h cmd =
    if h.instruction == ins_get_app_configuration
    then done (
      0,
      record zero_command {
        state = payload_complete;
        instruction = h.instruction;
        non_confirm = non_confirm_of h;
      },
    )
    else if is_signing h.instruction && not (is_first_chunk h)
    then if continues h cmd
      then resume h (go_on cmd h.data_pointer h.data_length)
      else done (invalid_message, cmd)
    else if is_first_chunk h
    then read_paths h zero_command >>= resume h
    else resume h (go_on zero_command h.data_pointer h.data_length)

unfoldable pub apdu_handle_message : List ℕ → ApduCommand → Outcome Reply
apdu_handle_message msg cmd = elim (parse_apdu_header msg) [
  | done h ↦ handle_header h cmd
  | bail e ↦ done (e, cmd)
  | fault ↦ fault
]
