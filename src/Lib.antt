-- ===== src/Lib.antt =====
-- A verification of the Renec app for Ledger devices: the code that takes a host's messages apart
-- before anything is shown or signed.
--
-- The program. The host sends APDU messages. `apdu_handle_message` (src/apdu.c) assembles them,
-- one chunk at a time, into the command `G_command`: its instruction, a derivation path and up to
-- MAX_MESSAGE_LENGTH = 1280 message bytes. When the command is complete, src/main.c hands it to a
-- handler; the signing handlers parse the message bytes with librenec/parser.c into a message header
-- or an off-chain header, and librenec/message.c parses the instructions behind the header, checks
-- each against it (librenec/instruction.c) and fills the transaction summary
-- (librenec/transaction_summary.c), whose items the device shows one by one.
--
-- The files, and what each models:
--   Common.antt, Common/      shared names; byte lists with the C library's memcmp; the lemmas on
--                             lists and on bit masks; `Outcome`, the ending of a C function: `done`
--                             with its results, `bail` with a nonzero code, or `fault`, an access
--                             outside the object that a pointer points into.
--   Parser.antt, Parser/      librenec/parser.c and parser.h. A function that takes a `Parser*` and
--                             returns int is a `Parse`, a function from a parser to an outcome with
--                             the next parser. The wire format is described apart, as functions from
--                             values to bytes (`header_bytes`, `call_bytes`, `length_bytes`), in
--                             Parser/RoundTrip, Parser/Lengths and Parser/Integers.
--   Instruction.antt,         librenec/instruction.c: the program of an instruction, its validation
--   Instruction/              and the iterator over its accounts. The program ids are those of
--                             librenec/common_byte_strings.h. Instruction/Safety has what the
--                             safety of a program's parsers rests on.
--   Apdu.antt, Apdu/          src/apdu.c, src/apdu.h and `read_derivation_path` of src/utils.c. The
--                             command is a record that `apdu_handle_message` takes and gives back
--                             with the reply code; Apdu/Command composes the steps as the C function
--                             has them, Apdu/Valid has the command's invariant, Apdu/Chunks the
--                             messages that a host makes of a message to sign.
--   Summary.antt, Summary/    librenec/transaction_summary.c: the slots of the transaction summary,
--                             their setters, and the order in which they are listed and found.
--   Printing.antt, Printing/  librenec/print_config.c, and the patterns in which the printers fill the
--                             summary; Printing/Room has what a printer needs of the summary, and
--                             what it leaves of it, Printing/Yields how it may end, and
--                             Printing/FeePayer what is added behind the printers.
--   System.antt, System/      librenec/system_instruction.c: the parsers of the system program's
--                             instructions (System), their printers (System/Print) and the members
--                             of the union of their infos (System/Kinds).
--   Vote.antt, Vote/          librenec/vote_instruction.c, in the same way.
--   Stake.antt, Stake/        librenec/stake_instruction.c, in the same way.
--   Token.antt, Token/        librenec/rpl_token_instruction.c and token_info.c, in the same way, with
--                             the types of librenec/include/rpl/token.h that the parsers use.
--   AssociatedToken.antt      librenec/rpl_associated_token_account_instruction.c.
--   Transaction.antt,         the infos of instructions and their briefs (librenec/instruction.h,
--   Transaction/              instruction.c) and librenec/transaction_printers.c: the combined
--                             printers (Transaction/Print) and the choice among them
--                             (Transaction/Cases). An info of the C union is a constructor of
--                             `InstructionInfo`; reading a member that is not the one last written is
--                             a `fault`.
--   Message.antt, Message/    librenec/message.c: the instruction loop over a message's body and the
--                             checks behind it, up to the call of `print_transaction`.
--   Signing.antt, Signing/    `handle_sign_message_parse_message` of src/handle_sign_message.c, with
--                             `get_public_key` of src/utils.c: Signing/Signer has the search for the
--                             signer, Signing/Safety the handler, Signing/Transfer a whole message.
--                             What the SDK derives and hashes is a parameter, the record `Sdk`, and
--                             `IsSdk` has the sizes it documents.
--   Offchain.antt, Offchain/  src/handle_sign_offchain_message.c up to the screens: its tests for ASCII
--                             and UTF-8 (Offchain/Ascii, Offchain/Utf8) and the handler
--                             (Offchain/Safety).
--   Values.antt, Values/      `print_token_amount`, `print_amount`, `print_u64` and `print_i64` of
--                             librenec/printer.c, on a buffer that is written byte by byte.
--   Swap.antt                 src/swap/swap_utils.c.
--   Tests.antt, Tests/        the functions and the theorems at concrete inputs.
--
-- Numbers. A byte, a size_t and an int are natural numbers; the wrap-around of a narrower type is
-- written out where the code has one (`% 256` for the iterator's uint8_t length, 2 ^ 32 for the
-- device's size_t where `advance` subtracts), and an int64_t is its 64 bits. A `const uint8_t*` is the
-- list of the bytes from its target to the end of the object it points into.
--
-- Bounds. The loops run over a count that the code has read, over the bytes of a list, or over the
-- eleven general slots of the summary, by structural recursion. The loop of `is_data_utf8` takes fuel,
-- the number of its bytes: each round steps over at least one of them. The loops of the printers
-- take the length of the buffer, and count every round towards it; without fuel they are a `fault`.
--
-- Not modelled: private keys, signing, storage and the screens (calls of the device's SDK); the other
-- printers of librenec/printer.c, timestamps (librenec/rfc3339.c) and the display of an item in
-- librenec/transaction_summary.c; the dispatch of commands in src/main.c, `handle_sign_message_ui`,
-- src/handle_get_pubkey.c, and the handlers of the swap application, which need these.
pub mod Common
pub mod Parser
pub mod Instruction
pub mod Apdu
pub mod Summary
pub mod Printing
pub mod System
pub mod Vote
pub mod Stake
pub mod Token
pub mod AssociatedToken
pub mod Transaction
pub mod Message
pub mod Signing
pub mod Offchain
pub mod Values
pub mod Swap
pub mod Tests
