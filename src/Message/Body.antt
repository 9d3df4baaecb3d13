-- ===== src/Message/Body.antt =====
-- The body of a message written out as bytes: what librenec/message.c makes of it, and that it is read
-- to its last byte.
use ledger_embedded_app.Common.{
  Bool-cases, ◌⊎◌, lt→ltb, Bool, true, false, ltb, ◌&&◌, if◌then◌else◌, ◌==◌, append-nil, arith,
  ◌≤◌, Outcome-cases, bail, inl, inr, suc, ℕ, ◌^◌, ◌<◌, ◌≡◌, refl, ap, ◌∙◌, List, [], ◌∷◌, ◌++◌,
  append_assoc, length, Outcome, ◌>>=◌, done,
}
use ledger_embedded_app.Parser.{Parser, MessageHeader, Instruction, parse_instruction}
use ledger_embedded_app.Parser.Steps.{view, parser_is_empty-view}
use ledger_embedded_app.Parser.Lengths.{parse_length-length_bytes, length_bytes}
use ledger_embedded_app.Parser.RoundTrip.{
  data_bytes, Call, call_bytes, parse_instruction-call_bytes,
}
use ledger_embedded_app.Transaction.{InstructionInfo}
use ledger_embedded_app.Summary.{TransactionSummary}
use ledger_embedded_app.Printing.{PrintConfig}
use ledger_embedded_app.Transaction.Cases.{print_transaction}
use ledger_embedded_app.Message.{
  process_message_body, parse_account_tables, max_instructions, parse_message_body, check_body,
  any_unknown, displayed, info_of_instruction, parse_infos,
}

-- The instructions one after the other, and behind them `tail`.
abbrev pub calls_bytes : List Call → List ℕ → List ℕ
calls_bytes [] tail = tail
calls_bytes (c ∷ cs) tail = call_bytes c (calls_bytes cs tail)

abbrev pub AreCalls : List Call → Type 0
AreCalls [] = Unit {0}
AreCalls (c ∷ cs) = (length c.accounts < 2 ^ 21) × (length c.payload < 2 ^ 21) × AreCalls cs

-- The instruction as it stands in front of the bytes `behind`.
abbrev pub call_instruction : Call → List ℕ → Instruction
call_instruction c behind = record {
  program_id_index = c.program_id_index;
  accounts = c.accounts ++ data_bytes c.payload behind;
  accounts_length = length c.accounts;
  data_bytes = c.payload ++ behind;
  data_length = length c.payload;
}

-- The infos of the instructions, each taken for itself.
abbrev pub infos_of_calls : List Call → List ℕ → MessageHeader → Outcome (List InstructionInfo)
infos_of_calls [] tail h = done []
infos_of_calls (c ∷ cs) tail h = do
  info ← info_of_instruction (call_instruction c (calls_bytes cs tail)) h
  infos ← infos_of_calls cs tail h
  done (info ∷ infos)

data_bytes-append : (xs ys rest : List ℕ) → data_bytes xs ys ++ rest ≡ data_bytes xs (ys ++ rest)
data_bytes-append xs ys rest =
    append_assoc (length_bytes (length xs)) (xs ++ ys) rest
    ∙ ap (λ a. length_bytes (length xs) ++ a) (append_assoc xs ys rest)

call_instruction-view :
    (c : Call) (ys rest : List ℕ)
    → length c.accounts < 2 ^ 21
    → length c.payload < 2 ^ 21
    → parse_instruction (view (call_bytes c ys) rest)
      ≡ done (call_instruction c (ys ++ rest), view ys rest)
call_instruction-view c ys rest ha hp =
    parse_instruction-call_bytes c ys rest ha hp
    ∙ ap
        (λ a. done (
          record {
            program_id_index = c.program_id_index;
            accounts = c.accounts ++ a;
            accounts_length = length c.accounts;
            data_bytes = c.payload ++ (ys ++ rest);
            data_length = length c.payload;
          },
          view ys rest,
        ))
        (data_bytes-append c.payload ys rest)

calls_bytes-append :
    (cs : List Call) (tail rest : List ℕ)
    → calls_bytes cs tail ++ rest ≡ calls_bytes cs (tail ++ rest)
calls_bytes-append [] tail rest = refl
calls_bytes-append (c ∷ cs) tail rest =
    let behind = calls_bytes cs tail in
    ap (λ a. c.program_id_index ∷ a)
      (data_bytes-append c.accounts (data_bytes c.payload behind) rest
        ∙ ap (data_bytes c.accounts) (
            data_bytes-append c.payload behind rest
            ∙ ap (data_bytes c.payload) (calls_bytes-append cs tail rest)))

parse_infos-step :
    (c : Call) (left : ℕ) (ys rest : List ℕ) (h : MessageHeader) {info : InstructionInfo}
    {infos : List InstructionInfo} {q : Parser}
    → length c.accounts < 2 ^ 21
    → length c.payload < 2 ^ 21
    → info_of_instruction (call_instruction c (ys ++ rest)) h ≡ done info
    → parse_infos left (view ys rest) h ≡ done (infos, q)
    → parse_infos (suc left) (view (call_bytes c ys) rest) h ≡ done (info ∷ infos, q)
unfolding parse_infos
parse_infos-step c left ys rest h ha hp e es =
    rw (call_instruction-view c ys rest ha hp) (rw e (rw es refl))

parse_infos-calls_bytes :
    (cs : List Call) (tail rest : List ℕ) (h : MessageHeader) (infos : List InstructionInfo)
    → AreCalls cs
    → infos_of_calls cs (tail ++ rest) h ≡ done infos
    → parse_infos (length cs) (view (calls_bytes cs tail) rest) h ≡ done (infos, view tail rest)
unfolding parse_infos
parse_infos-calls_bytes [] tail rest h infos k e = cc
parse_infos-calls_bytes (c ∷ cs) tail rest h infos k e =
    elim (Outcome-cases
      (info_of_instruction (call_instruction c (calls_bytes cs (tail ++ rest))) h)) [
        | inr (inl (code, e1)) ↦ absurd (cc (rw e1 at e))
        | inr (inr e1) ↦ absurd (cc (rw e1 at e))
        | inl (info, e1) ↦ elim (Outcome-cases (infos_of_calls cs (tail ++ rest) h)) [
          | inr (inl (code, e2)) ↦ absurd (cc (rw (e1, e2) at e))
          | inr (inr e2) ↦ absurd (cc (rw (e1, e2) at e))
          | inl (is, e2) ↦
              parse_infos-step c (length cs) (calls_bytes cs tail) rest h {info = info} (k.0) (k.1)
                (rw (calls_bytes-append cs tail rest) e1)
                (parse_infos-calls_bytes cs tail rest h is (k.2) e2)
              ∙ cc (rw (e1, e2) at e)
        ]
      ]

-- The number of the account tables, where the message has a version.
abbrev pub tables_bytes : Bool → ℕ → List ℕ
tables_bytes false n = []
tables_bytes true n = length_bytes n

account_tables-view :
    (versioned : Bool) (n : ℕ) (more rest : List ℕ)
    → n < 2 ^ 21
    → parse_account_tables versioned (view (tables_bytes versioned n ++ more) rest)
      ≡ (if versioned && ltb 0 n then bail 1 else done (view more rest))
unfolding parse_account_tables
account_tables-view false n more rest h = refl
account_tables-view true n more rest h = rw (parse_length-length_bytes n more rest h) refl

parse_message_body-calls_bytes :
    (cs : List Call) (tail rest : List ℕ) (h : MessageHeader) (infos : List InstructionInfo)
    → AreCalls cs
    → h.instructions_length ≡ length cs
    → 0 < length cs
    → length cs ≤ max_instructions
    → infos_of_calls cs (tail ++ rest) h ≡ done infos
    → parse_message_body (calls_bytes cs tail ++ rest) (length (calls_bytes cs tail)) h
      ≡ check_body h infos (view tail rest)
unfolding parse_message_body
parse_message_body-calls_bytes cs tail rest h infos k n some few e =
    let there : (h.instructions_length == 0) ≡ false = ground arith in
    let fits : ltb max_instructions h.instructions_length ≡ false = ground arith in
    let parsed =
      ap (λ m. parse_infos m (view (calls_bytes cs tail) rest) h) n
      ∙ parse_infos-calls_bytes cs tail rest h infos k e in
    rw (there, fits) (rw parsed refl)

check_body-whole :
    (h : MessageHeader) (infos : List InstructionInfo) (rest : List ℕ)
    → check_body h infos (view (tables_bytes h.versioned 0) rest)
      ≡ (if any_unknown infos then bail 1 else done (displayed infos))
unfolding check_body
check_body-whole h infos rest = rw (← append-nil (tables_bytes h.versioned 0)) (
    rw (account_tables-view h.versioned 0 [] rest (omega arith)) (elim (Bool-cases h.versioned) [
      | inl v ↦ rw v (rw (parser_is_empty-view [] rest) refl)
      | inr v ↦ rw v (rw (parser_is_empty-view [] rest) refl)
    ]))

check_body-more :
    (h : MessageHeader) (infos : List InstructionInfo) (n : ℕ) (more rest : List ℕ)
    → n < 2 ^ 21
    → (0 < length more) ⊎ ((h.versioned ≡ true) × (0 < n))
    → check_body h infos (view (tables_bytes h.versioned n ++ more) rest) ≡ bail 1
unfolding check_body
check_body-more h infos n more rest l (inl some) =
    let left : (length more == 0) ≡ false = ground arith in
    rw (account_tables-view h.versioned n more rest l) (elim (Bool-cases (h.versioned && ltb 0 n)) [
      | inl tables ↦ rw tables refl
      | inr none_there ↦ rw none_there (rw (parser_is_empty-view more rest) (rw left refl))
    ])
check_body-more h infos n more rest l (inr (v, some)) =
    let tables : ltb 0 n ≡ true = lt→ltb 0 n some in
    rw (account_tables-view h.versioned n more rest l) (rw (v, tables) refl)

-- A body that consists of the bytes of one to four instructions, and of a zero behind them where the
-- message has a version, whatever follows it in memory: where each instruction is valid,
-- `process_message_body` refuses it with 1, and leaves the summary as it was, if the program or the
-- data of one of them is not known; else it is `print_transaction` on the infos of the instructions
-- in their order, without those of the memo program.
pub process_message_body-calls :
    (cs : List Call) (rest : List ℕ) (config : PrintConfig) (s : TransactionSummary)
    (infos : List InstructionInfo)
    → AreCalls cs
    → config.header.instructions_length ≡ length cs
    → 0 < length cs
    → length cs ≤ max_instructions
    → infos_of_calls cs (tables_bytes config.header.versioned 0 ++ rest) config.header ≡ done infos
    → process_message_body
        (calls_bytes cs (tables_bytes config.header.versioned 0) ++ rest)
        (length (calls_bytes cs (tables_bytes config.header.versioned 0)))
        config
        s
      ≡ (if any_unknown infos then done (1, s) else print_transaction config (displayed infos) s)
unfolding process_message_body
process_message_body-calls cs rest config s infos k n some few e =
    rw
      (
        parse_message_body-calls_bytes cs (tables_bytes config.header.versioned 0) rest
            config.header infos k n some few e,
        process_message_body,
      )
      (rw (check_body-whole config.header infos rest, process_message_body)
        (elim (Bool-cases (any_unknown infos)) [
          | inl one ↦ rw (one, process_message_body) refl
          | inr known ↦ rw (known, process_message_body) refl
        ]))

-- The same body with anything behind it that it announces, bytes behind the last instruction or, where
-- the message has a version, a number of account tables that is not 0: `process_message_body` refuses
-- it with 1, and leaves the summary as it was.
pub process_message_body-more :
    (cs : List Call) (n : ℕ) (more rest : List ℕ) (config : PrintConfig) (s : TransactionSummary)
    (infos : List InstructionInfo)
    → AreCalls cs
    → config.header.instructions_length ≡ length cs
    → 0 < length cs
    → length cs ≤ max_instructions
    → n < 2 ^ 21
    → (0 < length more) ⊎ ((config.header.versioned ≡ true) × (0 < n))
    → infos_of_calls cs ((tables_bytes config.header.versioned n ++ more) ++ rest) config.header
      ≡ done infos
    → process_message_body
        (calls_bytes cs (tables_bytes config.header.versioned n ++ more) ++ rest)
        (length (calls_bytes cs (tables_bytes config.header.versioned n ++ more)))
        config
        s
      ≡ done (1, s)
unfolding process_message_body
process_message_body-more cs n more rest config s infos k a some few l m e =
    rw
      (
        parse_message_body-calls_bytes cs (tables_bytes config.header.versioned n ++ more) rest
            config.header infos k a some few e,
        process_message_body,
      )
      (rw (check_body-more config.header infos n more rest l m, process_message_body) refl)
