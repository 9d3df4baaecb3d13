-- ===== src/Tests/Commands.antt =====
-- The theorems about src/apdu.c at concrete messages.
use ledger_embedded_app.Common.{refl, true, ℕ, ◌≡◌, List, [], ◌∷◌, length, arith, true, done, some}
use ledger_embedded_app.Apdu.{
  ApduCommand, zero_command, payload_complete, ins_get_pubkey, invalid_message,
  read_derivation_path, cla,
}
use ledger_embedded_app.Apdu.Command.{apdu_handle_message}
use ledger_embedded_app.Apdu.Valid.{Keeps, zero_command-IsValid}
use ledger_embedded_app.Apdu.Safety.{apdu_handle_message-Keeps}
use ledger_embedded_app.Apdu.Chunks.{transaction, offchain, extending, Holds}
use ledger_embedded_app.Apdu.Start.{padded, path_bytes, read_derivation_path-path_bytes}
use ledger_embedded_app.Apdu.Reassembly.{send, send_reassembles}
use ledger_embedded_app.Apdu.Refusals.{
  IsContinuedBy, IsPathless, extending_refused, get_pubkey_extended,
}

-- m/44'/501'
abbrev path : List ℕ
path = 0x8000002c ∷ 0x800001f5 ∷ []

send_reassembles_example :
    (cmd' : ApduCommand) × (send transaction 1 path
        (1 ∷ 2 ∷ [])
        ((3 ∷ []) ∷ (4 ∷ 5 ∷ []) ∷ [])
        zero_command
      ≡ done (0, cmd'))
    × Holds transaction 1 (padded path, 2) payload_complete (1 ∷ 2 ∷ 3 ∷ 4 ∷ 5 ∷ []) cmd'
send_reassembles_example =
    send_reassembles transaction 1 path (1 ∷ 2 ∷ []) ((3 ∷ []) ∷ (4 ∷ 5 ∷ []) ∷ []) zero_command
      (omega arith) (omega arith) (omega arith) (omega arith) (omega arith) (omega arith)

apdu_handle_message-Keeps_example :
    Keeps (apdu_handle_message (0xe0 ∷ 0x03 ∷ 1 ∷ 2 ∷ 7 ∷ []) zero_command)
apdu_handle_message-Keeps_example =
    apdu_handle_message-Keeps (0xe0 ∷ 0x03 ∷ 1 ∷ 2 ∷ 7 ∷ []) zero_command zero_command-IsValid

zero_command-not-IsContinuedBy : ¬ IsContinuedBy offchain 1 zero_command
unfolding zero_command
zero_command-not-IsContinuedBy c = cc (c.in_progress)

extending_refused_example :
    apdu_handle_message (extending offchain 1 true (9 ∷ [])) zero_command
    ≡ done (invalid_message, zero_command)
extending_refused_example =
    extending_refused offchain 1 true 9 [] zero_command (omega arith) zero_command-not-IsContinuedBy

get_pubkey_extended_example :
    (cmd' : ApduCommand) × (apdu_handle_message
        (cla ∷ ins_get_pubkey ∷ 0 ∷ 3 ∷ 1 ∷ 7 ∷ [])
        zero_command
      ≡ done (0, cmd'))
    × IsPathless true 0 (7 ∷ []) cmd'
get_pubkey_extended_example = get_pubkey_extended 0 3 (7 ∷ []) zero_command refl (omega arith)

read_derivation_path-path_bytes_example :
    read_derivation_path
      (some (2 ∷ path_bytes path (9 ∷ [])))
      (length (2 ∷ path_bytes path (9 ∷ [])))
    ≡ done path
read_derivation_path-path_bytes_example =
    read_derivation_path-path_bytes path (9 ∷ []) (omega arith) (omega arith) (omega arith)
