-- ===== src/Apdu/Reassembly.antt =====
-- Whole messages, sent as one starting message and any number that extend it, against src/apdu.c.
use ledger_embedded_app.Common.{
  ℕ, zero, suc, ◌+◌, ◌≤◌, ◌≡◌, true, false, List, [], ◌∷◌, ◌++◌, append_assoc, append-nil, length,
  length-append, arith, Outcome, done, bail, fault,
}
use ledger_embedded_app.Apdu.{payload_in_progress, payload_complete, ApduCommand}
use ledger_embedded_app.Apdu.Command.{Reply, apdu_handle_message}
use ledger_embedded_app.Apdu.Chunks.{Signing, extending, Holds, handle_extending-Holds}
use ledger_embedded_app.Apdu.Start.{starting, start_data, AreIndices, padded, handle_starting-Holds}

-- What the host does after a reply: it goes on only where that was success.
abbrev pub and_then : Outcome Reply → (ApduCommand → Outcome Reply) → Outcome Reply
and_then (done (zero, cmd)) f = f cmd
and_then (done (suc e, cmd)) f = done (suc e, cmd)
and_then (bail e) f = bail e
and_then fault f = fault

-- The chunks of a message's data, sent one after the other; the last announces no more.
pub send_rest : Signing → ℕ → List (List ℕ) → ApduCommand → Outcome Reply
send_rest k p1 [] cmd = done (0, cmd)
send_rest k p1 (c ∷ []) cmd = apdu_handle_message (extending k p1 false c) cmd
send_rest k p1 (c ∷ d ∷ cs) cmd =
    and_then (apdu_handle_message (extending k p1 true c) cmd) (send_rest k p1 (d ∷ cs))

-- The whole message: the path and the first chunk, then the others.
pub send : Signing → ℕ → List ℕ → List ℕ → List (List ℕ) → ApduCommand → Outcome Reply
send k p1 path first [] cmd = apdu_handle_message (starting k p1 false path first) cmd
send k p1 path first (c ∷ cs) cmd =
    and_then (apdu_handle_message (starting k p1 true path first) cmd) (send_rest k p1 (c ∷ cs))

-- A chunk has 1 to 255 bytes.
abbrev pub AreChunks : List (List ℕ) → Type 0
AreChunks [] = Unit {0}
AreChunks (c ∷ cs) = (1 ≤ length c) × (length c ≤ 255) × AreChunks cs

abbrev pub join : List (List ℕ) → List ℕ
join [] = []
join (c ∷ cs) = c ++ join cs

-- A run that ends with success, and with a complete message of the given bytes.
abbrev Sends : Signing → ℕ → List ℕ × ℕ → List ℕ → Outcome Reply → Type 0
Sends k p1 path bytes o =
    (cmd' : ApduCommand) × (o ≡ done (0, cmd')) × Holds k p1 path payload_complete bytes cmd'

send_rest-Sends :
    (k : Signing) (p1 : ℕ) (path : List ℕ × ℕ) (acc : List ℕ) (c : List ℕ) (cs : List (List ℕ))
    (cmd : ApduCommand)
    → Holds k p1 path payload_in_progress acc cmd
    → AreChunks (c ∷ cs)
    → length acc + length (join (c ∷ cs)) ≤ 1280
    → Sends k p1 path (acc ++ join (c ∷ cs)) (send_rest k p1 (c ∷ cs) cmd)
unfolding send_rest
send_rest-Sends k p1 path acc [] cs cmd v a room = absurd (omega arith)
send_rest-Sends k p1 path acc (b ∷ bs) [] cmd v a room =
    let (cmd', e, v') =
      handle_extending-Holds k p1 path false acc b bs cmd v a.1
        (omega (arith, length-append (b ∷ bs) [])) in
    (cmd', e, rw (append-nil (b ∷ bs)) v')
send_rest-Sends k p1 path acc (b ∷ bs) (d ∷ cs) cmd v a room =
    let (cmd', e, v') =
      handle_extending-Holds k p1 path true acc b bs cmd v a.1
        (omega (arith, length-append (b ∷ bs) (join (d ∷ cs)))) in
    let (cmd'', e', v'') =
      send_rest-Sends k p1 path (acc ++ (b ∷ bs)) d cs cmd' v' a.2
        (omega (arith, length-append (b ∷ bs) (join (d ∷ cs)), length-append acc (b ∷ bs))) in
    (cmd'', rw e e', rw (← append_assoc acc (b ∷ bs) (join (d ∷ cs))) v'')

-- A message to sign of at most 1280 bytes is reassembled, however it is cut into chunks of 1 to 255
-- bytes behind the first, and whatever the command held before: every message is accepted, and the
-- complete command holds the instruction, the confirmation flag, the path, and exactly the bytes of
-- the chunks in order.
pub send_reassembles :
    (k : Signing) (p1 : ℕ) (path first : List ℕ) (cs : List (List ℕ)) (cmd : ApduCommand)
    → AreIndices path
    → 1 ≤ length path
    → length path ≤ 5
    → length (start_data path first) ≤ 255
    → AreChunks cs
    → length first + length (join cs) ≤ 1280
    → (cmd' : ApduCommand) × (send k p1 path first cs cmd ≡ done (0, cmd'))
      × Holds k p1 (padded path, length path) payload_complete (first ++ join cs) cmd'
unfolding send
send_reassembles k p1 path first [] cmd h lo hi small a room =
    let (cmd', e, v) = handle_starting-Holds k p1 false path first cmd h lo hi small in
    (cmd', e, rw (append-nil first) v)
send_reassembles k p1 path first (c ∷ cs) cmd h lo hi small a room =
    let (cmd', e, v) = handle_starting-Holds k p1 true path first cmd h lo hi small in
    let (cmd'', e', v') =
      send_rest-Sends k p1 (padded path, length path) first c cs cmd' v a room in
    (cmd'', rw e e', v')
