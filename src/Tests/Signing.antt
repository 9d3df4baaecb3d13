-- ===== src/Tests/Signing.antt =====
-- The theorems about the signing handler at concrete keys and a concrete message.
use ledger_embedded_app.Common.{
  bytes_eq, ℕ, zero, suc, ◌*◌, ◌≤◌, ◌<◌, ◌≡◌, refl, ◌≢◌, ◌↔◌, true, false, none, List, [], ◌∷◌,
  ◌++◌, arith, length, replicate, length-append, length-replicate, Outcome, done, fault,
}
use ledger_embedded_app.Parser.{Parser, PubkeysHeader, MessageHeader}
use ledger_embedded_app.Parser.RoundTrip.{
  Header, header_bytes, IsHeader, parse_message_header-header_bytes,
}
use ledger_embedded_app.Instruction.{pubkey_at}
use ledger_embedded_app.Instruction.Safety.{IsFine}
use ledger_embedded_app.Summary.{TransactionSummary}
use ledger_embedded_app.Apdu.{ApduCommand, zero_command, payload_complete}
use ledger_embedded_app.Apdu.Valid.{IsValid, zero_command-IsValid}
use ledger_embedded_app.Signing.{
  Sdk, IsSdk, reversed_point, get_public_key, scan_header_for_signer,
  handle_sign_message_parse_message,
}
use ledger_embedded_app.Signing.Signer.{
  key_at, IsFirst, scan_header_for_signer_iff, scan_header_for_signer-overrun,
}
use ledger_embedded_app.Signing.Safety.{
  IsReady, RequiresItsKeys, handle_sign_message_parse_message_safe,
}
use ledger_embedded_app.Signing.Transfer.{
  ShowsTransfer, transfer_header, transfer_command, transfer_message_shown,
}
use ledger_embedded_app.Tests.System.{keys, header}

-- A device whose every key is `key_of_twos`.
abbrev pub twos : Sdk
twos = record { generate_pair = λ path n. replicate 65 2; cx_hash_sha256 = λ bytes. replicate 32 0 }

pub twos-IsSdk : IsSdk twos
twos-IsSdk = record { point_size = λ path n. refl; hash_size = λ bytes. refl }

abbrev key_of_twos : List ℕ
key_of_twos = replicate 32 2

derives : get_public_key twos [] 0 ≡ done key_of_twos
unfolding get_public_key reversed_point
derives = refl

-- The key stands behind the sender's, and both are to sign.
abbrev two_signers : MessageHeader
two_signers = record header {
  pubkeys_header = record {
    num_required_signatures = 2;
    num_readonly_signed_accounts = 0;
    num_readonly_unsigned_accounts = 1;
    pubkeys_length = 3;
  };
}

scan_header_for_signer_iff_example :
    (scan_header_for_signer twos [] 0 two_signers ≡ done 1)
    ↔ ((1 < 2) × IsFirst key_of_twos keys 0 1)
scan_header_for_signer_iff_example =
    scan_header_for_signer_iff twos [] 0 two_signers key_of_twos derives (omega arith) 1

abbrev fours : Sdk
fours = record {
  generate_pair = λ path n. replicate 65 4;
  cx_hash_sha256 = λ bytes. replicate 32 0;
}

derives_fours : get_public_key fours [] 0 ≡ done (replicate 32 4)
unfolding get_public_key reversed_point
derives_fours = refl

abbrev nine_signers : MessageHeader
nine_signers = record header {
  pubkeys_header = record {
    num_required_signatures = 9;
    num_readonly_signed_accounts = 0;
    num_readonly_unsigned_accounts = 1;
    pubkeys_length = 3;
  };
}

no-fours : (j : ℕ) → suc j * 32 ≤ length keys → key_at keys j ≢ replicate 32 4
no-fours zero l e = cc
no-fours (suc zero) l e = cc
no-fours (suc (suc zero)) l e = cc
no-fours (suc (suc (suc j))) l e = absurd (omega arith)

scan_header_for_signer-overrun_example : scan_header_for_signer fours [] 0 nine_signers ≡ fault
scan_header_for_signer-overrun_example =
    scan_header_for_signer-overrun fours [] 0 nine_signers (replicate 32 4) derives_fours
      (omega arith) no-fours

-- A message with one transfer, signed by the key of the device.
abbrev signed_header : Header
signed_header = record {
  version = none;
  required = 1;
  readonly_signed = 0;
  readonly_unsigned = 1;
  keys = key_of_twos ∷ replicate 32 12 ∷ replicate 32 0 ∷ [];
  blockhash = replicate 32 9;
  instructions_length = 1;
}

abbrev body : List ℕ
body = 2 ∷ 2 ∷ 0 ∷ 1 ∷ 12 ∷ 2 ∷ 0 ∷ 0 ∷ 0 ∷ 42 ∷ 0 ∷ 0 ∷ 0 ∷ 0 ∷ 0 ∷ 0 ∷ 0 ∷ []

abbrev message : List ℕ
message = header_bytes signed_header body

abbrev command : ApduCommand
command = record zero_command {
  state = payload_complete;
  instruction = 3;
  derivation_path_length = 1;
  message = message ++ replicate 1130 0;
  message_length = 150;
}

command-IsValid : IsValid command
command-IsValid = record {
  message_size =
      omega (arith, length-append message (replicate 1130 0), length-replicate {A = ℕ} 1130 0);
  message_in = omega arith;
  path_size = zero_command-IsValid.path_size;
  path_in = omega arith;
}

signed_header-IsHeader : IsHeader signed_header
signed_header-IsHeader = omega arith

abbrev required_of : MessageHeader × Parser → PubkeysHeader
required_of r = (r.0).pubkeys_header

required-in :
    {o : Outcome (MessageHeader × Parser)} {a b : MessageHeader × Parser}
    → o ≡ done a
    → o ≡ done b
    → (required_of a).num_required_signatures ≤ (required_of a).pubkeys_length
    → (required_of b).num_required_signatures ≤ (required_of b).pubkeys_length
required-in {a} {b} e e' l = let same : a ≡ b = cc in rw (← same) l

command-RequiresItsKeys : RequiresItsKeys command
command-RequiresItsKeys h p e =
    let read =
      parse_message_header-header_bytes signed_header body (replicate 1130 0)
        signed_header-IsHeader in
    required-in read e (omega arith)

handle_sign_message_parse_message_safe_example : IsFine IsReady (
    handle_sign_message_parse_message twos
      (record { expert_mode = true; allow_blind_sign = false })
      command)
handle_sign_message_parse_message_safe_example =
    handle_sign_message_parse_message_safe twos
      (record { expert_mode = true; allow_blind_sign = false }) command twos-IsSdk command-IsValid
      command-RequiresItsKeys

finds : scan_header_for_signer twos [] 0 (transfer_header signed_header 2 0 1 42 []) ≡ done 0
finds =
    (scan_header_for_signer_iff twos [] 0 (transfer_header signed_header 2 0 1 42 []) key_of_twos
        derives (omega arith) 0).1
      (omega arith, (refl, λ j l m. absurd (omega arith)))

transfer_message_shown_example :
    (s : TransactionSummary) × (handle_sign_message_parse_message twos
        (record { expert_mode = true; allow_blind_sign = false })
        (transfer_command signed_header 2 0 1 42 [] [] 0 1 [])
      ≡ done (transfer_command signed_header 2 0 1 42 [] [] 0 1 [], s))
    × ShowsTransfer
        (transfer_header signed_header 2 0 1 42 [])
        true
        (pubkey_at (transfer_header signed_header 2 0 1 42 []).pubkeys 0)
        0
        1
        42
        s
unfolding bytes_eq
transfer_message_shown_example =
    transfer_message_shown twos (record { expert_mode = true; allow_blind_sign = false })
      signed_header 2 0 1 42 [] [] 0 1 [] 0 signed_header-IsHeader refl
      (record {
        keys_in = omega arith;
        index_in = omega arith;
        a_in = omega arith;
        b_in = omega arith;
        is_system = refl;
      })
      (omega arith) (omega arith) finds
