-- ===== src/Parser/Steps.antt =====
-- The two primitive steps of librenec/parser.c, a byte and a run of bytes, as equations.
use ledger_embedded_app.Common.{
  ℕ, suc, ◌-◌, ◌≤◌, ◌<◌, ◌≡◌, refl, ◌∙◌, List, [], ◌∷◌, ◌++◌, length, drop, take, arith, done, bail,
  append_assoc, length-append, drop-append_exact, lt→ltb, le→ltb, le→leb, ◌==◌,
}
use ledger_embedded_app.Parser.{
  Parser, parse_u8, parse_bytes, check_buffer_length, advance, bail_if_short, peek, parser_is_empty,
}

-- The parser `n` bytes further on, where it has them.
abbrev pub after : ℕ → Parser → Parser
after n p = record { buffer = drop n p.buffer; buffer_length = p.buffer_length - n }

pub bail_if_short_ok : (n : ℕ) (p : Parser) → n ≤ p.buffer_length → bail_if_short n p ≡ done (tt, p)
unfolding bail_if_short check_buffer_length
bail_if_short_ok n p h = rw (le→ltb p.buffer_length n h)

pub bail_if_short_short : (n : ℕ) (p : Parser) → p.buffer_length < n → bail_if_short n p ≡ bail 1
unfolding bail_if_short check_buffer_length
bail_if_short_short n p h = rw (lt→ltb p.buffer_length n h)

pub advance_ok : (n : ℕ) (p : Parser) → n ≤ p.buffer_length → advance n p ≡ done (tt, after n p)
unfolding advance
advance_ok n p h = rw (le→leb n p.buffer_length h)

pub parse_bytes_ok :
    (n : ℕ) (p : Parser) → n ≤ p.buffer_length → parse_bytes n p ≡ done (p.buffer, after n p)
unfolding parse_bytes
parse_bytes_ok n p h = rw (bail_if_short_ok n p h, advance_ok n p h)

pub parse_bytes_short : (n : ℕ) (p : Parser) → p.buffer_length < n → parse_bytes n p ≡ bail 1
unfolding parse_bytes
parse_bytes_short n p h = rw (bail_if_short_short n p h)

pub parse_u8_ok :
    (b : ℕ) (bs : List ℕ) (n : ℕ)
    → parse_u8 (record { buffer = b ∷ bs; buffer_length = suc n })
      ≡ done (b, record { buffer = bs; buffer_length = n })
unfolding parse_u8
parse_u8_ok b bs n =
    let p : Parser = record { buffer = b ∷ bs; buffer_length = suc n } in
    rw (bail_if_short_ok 1 p (omega arith), advance_ok 1 p (omega arith)) (ground arith)

pub parse_u8_short : (p : Parser) → p.buffer_length < 1 → parse_u8 p ≡ bail 1
unfolding parse_u8
parse_u8_short p h = rw (bail_if_short_short 1 p h)

pub peek_ok : (n : ℕ) (p : Parser) → n ≤ length p.buffer → peek n p ≡ done (take n p.buffer, p)
unfolding peek
peek_ok n p h = ground (arith, le→leb n (length p.buffer) h)

-- A parser over the bytes `xs`, with `rest` behind them in memory.
abbrev pub view : List ℕ → List ℕ → Parser
view xs rest = record { buffer = xs ++ rest; buffer_length = length xs }

pub parse_u8-view :
    (b : ℕ) (xs rest : List ℕ) → parse_u8 (view (b ∷ xs) rest) ≡ done (b, view xs rest)
parse_u8-view b xs rest = parse_u8_ok b (xs ++ rest) (length xs)

pub parse_u8-view_nil : (rest : List ℕ) → parse_u8 (view [] rest) ≡ bail 1
parse_u8-view_nil rest = parse_u8_short (view [] rest) (omega arith)

pub parse_bytes-view :
    (n : ℕ) (xs ys rest : List ℕ)
    → length xs ≡ n
    → parse_bytes n (view (xs ++ ys) rest) ≡ done (xs ++ (ys ++ rest), view ys rest)
parse_bytes-view n xs ys rest h =
    parse_bytes_ok n (view (xs ++ ys) rest) (omega (arith, length-append xs ys))
    ∙ ground
        (arith, append_assoc xs ys rest, length-append xs ys, drop-append_exact n xs (ys ++ rest) h)

pub parser_is_empty-view : (xs rest : List ℕ) → parser_is_empty (view xs rest) ≡ (length xs == 0)
unfolding parser_is_empty
parser_is_empty-view xs rest = refl
