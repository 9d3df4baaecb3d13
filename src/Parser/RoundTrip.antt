-- ===== src/Parser/RoundTrip.antt =====
-- Messages of the wire format, written out as bytes, against librenec/parser.c.
use ledger_embedded_app.Common.{
  ℕ, ◌+◌, ◌*◌, ◌/◌, ◌%◌, ◌^◌, ◌<◌, ◌≡◌, refl, ap, List, [], ◌∷◌, ◌++◌, length, arith, done, Option,
  none, some, length-append, bit_and, true, false, bytes_eq_refl,
}
use ledger_embedded_app.Common.Bits.{bit_and-0x7f, bit_and-0x80}
use ledger_embedded_app.Parser.{
  Parser, parse_data, parse_instruction, parse_pubkeys_header, parse_pubkeys, parse_hash,
  parse_version, Version, parse_version_byte, parse_message_header, parse_offchain_message_header,
  offchain_domain,
}
use ledger_embedded_app.Parser.Steps.{
  view, parse_u8-view, parse_bytes-view, bail_if_short_ok, advance_ok, peek_ok, after,
}
use ledger_embedded_app.Parser.Integers.{le_bytes, parse_u16-view}
use ledger_embedded_app.Parser.Lengths.{length_bytes, parse_length-length_bytes}

-- A block of bytes behind its length.
abbrev pub data_bytes : List ℕ → List ℕ → List ℕ
data_bytes xs tail = length_bytes (length xs) ++ (xs ++ tail)

pub parse_data-data_bytes :
    (xs ys rest : List ℕ)
    → length xs < 2 ^ 21
    → parse_data (view (data_bytes xs ys) rest)
      ≡ done ((xs ++ (ys ++ rest), length xs), view ys rest)
unfolding parse_data
parse_data-data_bytes xs ys rest h =
    rw (parse_length-length_bytes (length xs) (xs ++ ys) rest h)
      (rw (parse_bytes-view (length xs) xs ys rest refl))

-- An instruction as a client of the device means it.
pub record Call : Type 0 where
  pub program_id_index : ℕ
  pub accounts : List ℕ
  pub payload : List ℕ

abbrev pub call_bytes : Call → List ℕ → List ℕ
call_bytes c tail = c.program_id_index ∷ data_bytes c.accounts (data_bytes c.payload tail)

-- `parse_instruction` reads every instruction of the wire format back: its index, and pointers to
-- its account indices and to its data with their lengths; it takes exactly its bytes.
pub parse_instruction-call_bytes :
    (c : Call) (ys rest : List ℕ)
    → length c.accounts < 2 ^ 21
    → length c.payload < 2 ^ 21
    → parse_instruction (view (call_bytes c ys) rest)
      ≡ done (
        record {
          program_id_index = c.program_id_index;
          accounts = c.accounts ++ (data_bytes c.payload ys ++ rest);
          accounts_length = length c.accounts;
          data_bytes = c.payload ++ (ys ++ rest);
          data_length = length c.payload;
        },
        view ys rest,
      )
unfolding parse_instruction
parse_instruction-call_bytes c ys rest ha hp =
    rw (parse_u8-view c.program_id_index (data_bytes c.accounts (data_bytes c.payload ys)) rest) (
      rw (parse_data-data_bytes c.accounts (data_bytes c.payload ys) rest ha)
        (rw (parse_data-data_bytes c.payload ys rest hp)))

-- A message header as a client means it: no version, or one in the top bit's company.
pub record Header : Type 0 where
  pub version : Option ℕ
  pub required : ℕ
  pub readonly_signed : ℕ
  pub readonly_unsigned : ℕ
  pub keys : List (List ℕ)
  pub blockhash : List ℕ
  pub instructions_length : ℕ

abbrev pub concat : List (List ℕ) → List ℕ
concat [] = []
concat (k ∷ ks) = k ++ concat ks

abbrev pub AreKeys : List (List ℕ) → Type 0
AreKeys [] = Unit {0}
AreKeys (k ∷ ks) = (length k ≡ 32) × AreKeys ks

pub length-concat : (ks : List (List ℕ)) → AreKeys ks → length (concat ks) ≡ length ks * 32
length-concat [] h = omega arith
length-concat (k ∷ ks) h = omega (arith, length-append k (concat ks), h.0, length-concat ks h.1)

abbrev pub version_bytes : Option ℕ → List ℕ → List ℕ
version_bytes none tail = tail
version_bytes (some v) tail = (v + 128) ∷ tail

-- What stands behind the account keys.
abbrev pub header_tail : Header → List ℕ → List ℕ
header_tail h body = h.blockhash ++ (length_bytes h.instructions_length ++ body)

abbrev pub header_bytes : Header → List ℕ → List ℕ
header_bytes h body = version_bytes h.version (
    h.required
    ∷ h.readonly_signed
    ∷ h.readonly_unsigned
    ∷ (length_bytes (length h.keys) ++ (concat h.keys ++ header_tail h body)))

-- Without a version the first byte is the number of signatures, so its top bit is clear.
abbrev pub FirstByteFits : Option ℕ → ℕ → Type 0
FirstByteFits none required = required < 128
FirstByteFits (some v) required = v < 128

pub record IsHeader (h : Header) : Type 0 where
  pub first : FirstByteFits h.version h.required
  pub keys_fit : AreKeys h.keys
  pub count : length h.keys < 2 ^ 21
  pub hash : length h.blockhash ≡ 32
  pub instructions : h.instructions_length < 2 ^ 21

abbrev pub version_of : Option ℕ → Version
version_of none = record { versioned = false; version = 0 }
version_of (some v) = record { versioned = true; version = v }

parse_version-view :
    (v : Option ℕ) (b : ℕ) (xs rest : List ℕ)
    → FirstByteFits v b
    → parse_version (view (version_bytes v (b ∷ xs)) rest) ≡ done (version_of v, view (b ∷ xs) rest)
unfolding parse_version parse_version_byte
parse_version-view none b xs rest h =
    rw (bail_if_short_ok 1 (view (b ∷ xs) rest) (omega arith))
      (let e : bit_and b 0x80 ≡ 0 = omega (arith, bit_and-0x80 b) in rw e)
parse_version-view (some v) b xs rest h =
    let p : Parser = view ((v + 128) ∷ b ∷ xs) rest in
    let marked : bit_and (v + 128) 0x80 ≡ 128 = omega (arith, bit_and-0x80 (v + 128)) in
    let low : bit_and (v + 128) 0x7f ≡ v = omega (arith, bit_and-0x7f (v + 128)) in
    rw (bail_if_short_ok 1 p (omega arith))
      (rw (marked, advance_ok 1 p (omega arith), low) (ground arith))

parse_pubkeys-view :
    (h : Header) (xs rest : List ℕ)
    → AreKeys h.keys
    → length h.keys < 2 ^ 21
    → parse_pubkeys (
        view
          (h.required
            ∷ h.readonly_signed
            ∷ h.readonly_unsigned
            ∷ (length_bytes (length h.keys) ++ (concat h.keys ++ xs)))
          rest)
      ≡ done (
        (
          record {
            num_required_signatures = h.required;
            num_readonly_signed_accounts = h.readonly_signed;
            num_readonly_unsigned_accounts = h.readonly_unsigned;
            pubkeys_length = length h.keys;
          },
          concat h.keys ++ (xs ++ rest),
        ),
        view xs rest,
      )
unfolding parse_pubkeys parse_pubkeys_header
parse_pubkeys-view h xs rest hk hn =
    let keys : List ℕ = length_bytes (length h.keys) ++ (concat h.keys ++ xs) in
    rw (parse_u8-view h.required (h.readonly_signed ∷ h.readonly_unsigned ∷ keys) rest) (
      rw (parse_u8-view h.readonly_signed (h.readonly_unsigned ∷ keys) rest) (
        rw (parse_u8-view h.readonly_unsigned keys rest) (
          rw (parse_length-length_bytes (length h.keys) (concat h.keys ++ xs) rest hn) (
            rw (
              parse_bytes-view (length h.keys * 32) (concat h.keys) xs rest
                (length-concat h.keys hk))))))

-- `parse_message_header` reads every well-formed header back: its version, the numbers that it
-- announces, and pointers to its account keys and its block hash; it takes exactly its bytes, so
-- that the parser then stands at the message's body.
pub parse_message_header-header_bytes :
    (h : Header) (body rest : List ℕ)
    → IsHeader h
    → parse_message_header (view (header_bytes h body) rest)
      ≡ done (
        record {
          versioned = (version_of h.version).versioned;
          version = (version_of h.version).version;
          pubkeys_header = record {
            num_required_signatures = h.required;
            num_readonly_signed_accounts = h.readonly_signed;
            num_readonly_unsigned_accounts = h.readonly_unsigned;
            pubkeys_length = length h.keys;
          };
          pubkeys = concat h.keys ++ (header_tail h body ++ rest);
          blockhash = h.blockhash ++ ((length_bytes h.instructions_length ++ body) ++ rest);
          instructions_length = h.instructions_length;
        },
        view body rest,
      )
unfolding parse_message_header parse_hash
parse_message_header-header_bytes h body rest w =
    rw (parse_version-view h.version h.required _ rest w.first) (
      rw (parse_pubkeys-view h (header_tail h body) rest w.keys_fit w.count) (
        rw
          (parse_bytes-view 32 h.blockhash (length_bytes h.instructions_length ++ body) rest w.hash)
          (rw (parse_length-length_bytes h.instructions_length body rest w.instructions))))

-- `parse_offchain_message_header` reads a header of the off-chain format back, whatever follows it,
-- and takes exactly its 19 bytes.
pub parse_offchain_message_header-view :
    (version format len : ℕ) (body rest : List ℕ)
    → len < 2 ^ 16
    → parse_offchain_message_header
        (view (offchain_domain ++ (version ∷ format ∷ (le_bytes 2 len ++ body))) rest)
      ≡ done (record { version = version; format = format; len = len }, view body rest)
unfolding parse_offchain_message_header
parse_offchain_message_header-view version format len body rest h =
    let fields : List ℕ = version ∷ format ∷ (le_bytes 2 len ++ body) in
    let p : Parser = view (offchain_domain ++ fields) rest in
    rw (bail_if_short_ok 15 p (omega arith)) (
      rw (peek_ok 15 p (omega arith), bytes_eq_refl offchain_domain, advance_ok 15 p (omega arith))
        (rw behind (
          rw (parse_u8-view version (format ∷ (le_bytes 2 len ++ body)) rest) (
            rw (parse_u8-view format (le_bytes 2 len ++ body) rest) (
              rw (parse_u16-view (len % 256) (len / 256 % 256) body rest) (
                ap
                  (λ n.
                    done (record { version = version; format = format; len = n }, view body rest))
                  (omega arith)))))))
  where
    fields : List ℕ
    fields = version ∷ format ∷ (le_bytes 2 len ++ body)

    behind : after 15 (view (offchain_domain ++ fields) rest) ≡ view fields rest
    behind = ground arith
