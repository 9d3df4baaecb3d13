-- ===== src/Tests/Messages.antt =====
-- Runs of librenec/parser.c, and its theorems at concrete messages.
use ledger_embedded_app.Common.{◌≡◌, [], ◌∷◌, ◌++◌, replicate, arith, some, true, done, bail}
use ledger_embedded_app.Parser.{
  Parser, parse_u16, parse_u32, parse_u64, parse_length, parse_message_header, parse_instruction,
  parse_offchain_message_header, offchain_domain,
}
use ledger_embedded_app.Parser.Steps.{view}
use ledger_embedded_app.Parser.Safety.{Ends}
use ledger_embedded_app.Parser.Safety.Messages.{
  HeaderFits, InstructionFits, parse_message_header_safe, parse_instruction_safe,
}
use ledger_embedded_app.Parser.Integers.{le_bytes, parse_integers-le_bytes, parse_u64_lem}
use ledger_embedded_app.Parser.Lengths.{parse_length-length_bytes}
use ledger_embedded_app.Parser.RoundTrip.{
  Header, header_bytes, header_tail, IsHeader, concat, call_bytes, Call,
  parse_message_header-header_bytes, parse_instruction-call_bytes,
  parse_offchain_message_header-view,
}

abbrev transfer_call : Call
transfer_call = record { program_id_index = 2; accounts = 0 ∷ 1 ∷ []; payload = 2 ∷ 0 ∷ 0 ∷ 0 ∷ [] }

-- A header of version 0 with three keys.
abbrev transfer_header : Header
transfer_header = record {
  version = some 0;
  required = 1;
  readonly_signed = 0;
  readonly_unsigned = 1;
  keys = replicate 32 11 ∷ replicate 32 12 ∷ replicate 32 0 ∷ [];
  blockhash = replicate 32 9;
  instructions_length = 1;
}

transfer_header-IsHeader : IsHeader transfer_header
transfer_header-IsHeader = omega arith

parse_message_header-header_bytes_example :
    parse_message_header (view (header_bytes transfer_header (7 ∷ [])) (8 ∷ []))
    ≡ done (
      record {
        versioned = true;
        version = 0;
        pubkeys_header = record {
          num_required_signatures = 1;
          num_readonly_signed_accounts = 0;
          num_readonly_unsigned_accounts = 1;
          pubkeys_length = 3;
        };
        pubkeys = concat transfer_header.keys ++ (header_tail transfer_header (7 ∷ []) ++ (8 ∷ []));
        blockhash = transfer_header.blockhash ++ (1 ∷ 7 ∷ 8 ∷ []);
        instructions_length = 1;
      },
      view (7 ∷ []) (8 ∷ []),
    )
parse_message_header-header_bytes_example =
    parse_message_header-header_bytes transfer_header (7 ∷ []) (8 ∷ []) transfer_header-IsHeader

abbrev header_parser : Parser
header_parser = view (header_bytes transfer_header (7 ∷ [])) (8 ∷ [])

parse_message_header_safe_example :
    Ends HeaderFits header_parser (parse_message_header header_parser)
parse_message_header_safe_example = parse_message_header_safe header_parser (omega arith)

abbrev call_parser : Parser
call_parser = view (call_bytes transfer_call (5 ∷ [])) []

parse_instruction_safe_example : Ends InstructionFits call_parser (parse_instruction call_parser)
parse_instruction_safe_example = parse_instruction_safe call_parser (omega arith)

parse_instruction-call_bytes_example :
    parse_instruction call_parser
    ≡ done (
      record {
        program_id_index = 2;
        accounts = 0 ∷ 1 ∷ 4 ∷ 2 ∷ 0 ∷ 0 ∷ 0 ∷ 5 ∷ [];
        accounts_length = 2;
        data_bytes = 2 ∷ 0 ∷ 0 ∷ 0 ∷ 5 ∷ [];
        data_length = 4;
      },
      view (5 ∷ []) [],
    )
parse_instruction-call_bytes_example =
    parse_instruction-call_bytes transfer_call (5 ∷ []) [] (omega arith) (omega arith)

abbrev offchain_parser : Parser
offchain_parser = view (offchain_domain ++ (0 ∷ 1 ∷ (le_bytes 2 300 ++ (65 ∷ [])))) []

parse_offchain_message_header-view_example :
    parse_offchain_message_header offchain_parser
    ≡ done (record { version = 0; format = 1; len = 300 }, view (65 ∷ []) [])
parse_offchain_message_header-view_example =
    parse_offchain_message_header-view 0 1 300 (65 ∷ []) [] (omega arith)

parse_length-length_bytes_example :
    parse_length (view (0xac ∷ 0x02 ∷ 9 ∷ []) []) ≡ done (300, view (9 ∷ []) [])
parse_length-length_bytes_example = parse_length-length_bytes 300 (9 ∷ []) [] (omega arith)

parse_integers-le_bytes_example :
    (parse_u16 (view (2 ∷ 1 ∷ 9 ∷ []) []) ≡ done (258, view (9 ∷ []) []))
    × (parse_u32 (view (3 ∷ 0 ∷ 0 ∷ 1 ∷ 9 ∷ []) []) ≡ done (16777219, view (9 ∷ []) []))
    × (parse_u64 (view (4 ∷ 0 ∷ 0 ∷ 0 ∷ 0 ∷ 0 ∷ 0 ∷ 1 ∷ 9 ∷ []) [])
        ≡ done (72057594037927940, view (9 ∷ []) []))
parse_integers-le_bytes_example =
    parse_integers-le_bytes 258 16777219 72057594037927940 (9 ∷ []) [] (omega arith) (omega arith)
      (omega arith)

parse_u64-bails : parse_u64 (view (1 ∷ 2 ∷ []) (3 ∷ [])) ≡ bail 1
parse_u64-bails = parse_u64_lem (1 ∷ 2 ∷ []) (3 ∷ [])
