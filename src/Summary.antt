-- ===== src/Summary.antt =====
-- librenec/transaction_summary.c and librenec/include/renec/transaction_summary.h: the slots that
-- are filled with what the device shows. `G_transaction_summary` is passed along, and a
-- `SummaryItem*` into it is a `SummarySlot`. The texts of an item are lists of character codes.
pub mod Order
pub mod Filling
use ledger_embedded_app.Common.{
  ℕ, zero, suc, ◌+◌, ◌≡◌, Bool, true, false, not, List, [], ◌∷◌, ◌++◌, Option, none, some,
  replicate, get_elem?, set, Outcome, done, bail, fault, ◌==◌, if◌then◌else◌, codes,
}
use ledger_embedded_app.Parser.{Pointer, SizedString}

-- `NUM_GENERAL_ITEMS`
abbrev pub num_general_items : ℕ
num_general_items = 11

-- `MAX_TRANSACTION_SUMMARY_ITEMS`
abbrev pub max_transaction_summary_items : ℕ
max_transaction_summary_items = 1 + num_general_items + 1 + 1 + 1

pub record TokenAmount : Type 0 where
  pub value : ℕ
  pub symbol : List ℕ
  pub decimals : ℕ

pub data SummaryItemKind : Type 0 where
  kind_none kind_amount kind_token_amount kind_i64 kind_u64 kind_pubkey kind_hash : SummaryItemKind
  kind_sized_string kind_string kind_timestamp : SummaryItemKind

-- The union of `SummaryItem` with the kind that tags it. An int64_t is here its 64 bits.
pub data SummaryValue : Type 0 where
  unset : SummaryValue
  amount u64 i64 timestamp : ℕ → SummaryValue
  token_amount : TokenAmount → SummaryValue
  pubkey hash : Pointer → SummaryValue
  string : List ℕ → SummaryValue
  sized_string : SizedString → SummaryValue

pub record SummaryItem : Type 0 where
  pub title : List ℕ
  pub content : SummaryValue

unfoldable pub kind_of : SummaryValue → SummaryItemKind
kind_of unset = kind_none
kind_of (amount v) = kind_amount
kind_of (u64 v) = kind_u64
kind_of (i64 v) = kind_i64
kind_of (timestamp v) = kind_timestamp
kind_of (token_amount v) = kind_token_amount
kind_of (pubkey v) = kind_pubkey
kind_of (hash v) = kind_hash
kind_of (string v) = kind_string
kind_of (sized_string v) = kind_sized_string

-- `item->kind`
abbrev pub kind : SummaryItem → SummaryItemKind
kind item = kind_of item.content

abbrev pub zero_item : SummaryItem
zero_item = record { title = []; content = unset }

pub record TransactionSummary : Type 0 where
  pub primary : SummaryItem
  pub fee_payer : SummaryItem
  pub nonce_account : SummaryItem
  pub nonce_authority : SummaryItem
  pub general : List SummaryItem

pub data SummarySlot : Type 0 where
  primary_slot fee_payer_slot nonce_account_slot nonce_authority_slot : SummarySlot
  general_slot : ℕ → SummarySlot

-- What a pointer to an item points to.
unfoldable pub item_at : SummarySlot → TransactionSummary → Option SummaryItem
item_at primary_slot s = some (s.primary)
item_at fee_payer_slot s = some (s.fee_payer)
item_at nonce_account_slot s = some (s.nonce_account)
item_at nonce_authority_slot s = some (s.nonce_authority)
item_at (general_slot i) s = get_elem? s.general i

-- What a setter `summary_item_set_*` does: title, kind and value are written through its pointer.
unfoldable pub summary_item_set :
    SummarySlot → List ℕ → SummaryValue → TransactionSummary → TransactionSummary
summary_item_set primary_slot t v s = record s { primary = record { title = t; content = v } }
summary_item_set fee_payer_slot t v s = record s { fee_payer = record { title = t; content = v } }
summary_item_set nonce_account_slot t v s = record s {
  nonce_account = record { title = t; content = v };
}
summary_item_set nonce_authority_slot t v s = record s {
  nonce_authority = record { title = t; content = v };
}
summary_item_set (general_slot i) t v s = record s {
  general = set s.general i (record { title = t; content = v });
}

-- `item = ...; summary_item_set_*(item, ...)`: a setter writes through the pointer that it is given,
-- which is null where no slot is free.
abbrev pub set_in :
    Option SummarySlot → SummaryItem → TransactionSummary → Outcome TransactionSummary
set_in none item s = fault
set_in (some slot) item s = done (summary_item_set slot item.title item.content s)

abbrev pub Setter : Type 0 → Type 0
Setter V = SummarySlot → List ℕ → V → TransactionSummary → TransactionSummary

abbrev pub summary_item_set_amount : Setter ℕ
summary_item_set_amount slot t v = summary_item_set slot t (amount v)

abbrev pub summary_item_set_token_amount : Setter TokenAmount
summary_item_set_token_amount slot t v = summary_item_set slot t (token_amount v)

abbrev pub summary_item_set_i64 : Setter ℕ
summary_item_set_i64 slot t v = summary_item_set slot t (i64 v)

abbrev pub summary_item_set_u64 : Setter ℕ
summary_item_set_u64 slot t v = summary_item_set slot t (u64 v)

abbrev pub summary_item_set_pubkey : Setter Pointer
summary_item_set_pubkey slot t v = summary_item_set slot t (pubkey v)

abbrev pub summary_item_set_hash : Setter Pointer
summary_item_set_hash slot t v = summary_item_set slot t (hash v)

abbrev pub summary_item_set_sized_string : Setter SizedString
summary_item_set_sized_string slot t v = summary_item_set slot t (sized_string v)

abbrev pub summary_item_set_string : Setter (List ℕ)
summary_item_set_string slot t v = summary_item_set slot t (string v)

abbrev pub summary_item_set_timestamp : Setter ℕ
summary_item_set_timestamp slot t v = summary_item_set slot t (timestamp v)

unfoldable pub transaction_summary_reset : TransactionSummary
transaction_summary_reset = record {
  primary = zero_item;
  fee_payer = zero_item;
  nonce_account = zero_item;
  nonce_authority = zero_item;
  general = replicate num_general_items zero_item;
}

unfoldable pub is_used : SummaryItemKind → Bool
is_used kind_none = false
is_used _ = true

abbrev pub is_summary_item_used : SummaryItem → Bool
is_summary_item_used item = is_used (kind item)

-- `summary_item_as_unused`, on the pointer and what it points to
abbrev pub summary_item_as_unused : SummarySlot → SummaryItem → Option SummarySlot
summary_item_as_unused slot item = if is_summary_item_used item then none else some slot

unfoldable pub transaction_summary_primary_item : TransactionSummary → Option SummarySlot
transaction_summary_primary_item s = summary_item_as_unused primary_slot s.primary

unfoldable pub transaction_summary_fee_payer_item : TransactionSummary → Option SummarySlot
transaction_summary_fee_payer_item s = summary_item_as_unused fee_payer_slot s.fee_payer

unfoldable pub transaction_summary_nonce_account_item : TransactionSummary → Option SummarySlot
transaction_summary_nonce_account_item s = summary_item_as_unused nonce_account_slot s.nonce_account

unfoldable pub transaction_summary_nonce_authority_item : TransactionSummary → Option SummarySlot
transaction_summary_nonce_authority_item s =
    summary_item_as_unused nonce_authority_slot s.nonce_authority

-- The loop of `transaction_summary_general_item`, at index `i` with the items from there on.
unfoldable pub first_unused : ℕ → List SummaryItem → Option SummarySlot
first_unused i [] = none
first_unused i (item ∷ items) =
    let rest = first_unused (i + 1) items in
    if is_summary_item_used item then rest else some (general_slot i)

unfoldable pub transaction_summary_general_item : TransactionSummary → Option SummarySlot
transaction_summary_general_item s = first_unused 0 s.general

abbrev pub fee_payer_title : List ℕ
fee_payer_title = codes "Fee payer"

unfoldable pub transaction_summary_set_fee_payer_pubkey :
    Pointer → TransactionSummary → Outcome TransactionSummary
transaction_summary_set_fee_payer_pubkey key s = elim (transaction_summary_fee_payer_item s) [
  | none ↦ bail 1
  | some slot ↦ done (summary_item_set_pubkey slot fee_payer_title key s)
]

-- A step of `transaction_summary_find_item`: a used item is the one looked for, or counts.
abbrev pub find_step :
    ℕ → ℕ → SummarySlot → SummaryItem → (ℕ → Option SummarySlot) → Option SummarySlot
find_step current_index item_index slot item go_on =
    if is_summary_item_used item
    then if current_index == item_index then some slot else go_on (current_index + 1)
    else go_on current_index

-- Its loop over the general items, at index `i` with the items from there on.
unfoldable pub find_general :
    ℕ → List SummaryItem → ℕ → ℕ → (ℕ → Option SummarySlot) → Option SummarySlot
find_general i [] current_index item_index go_on = go_on current_index
find_general i (item ∷ items) current_index item_index go_on =
    find_step current_index item_index (general_slot i) item
      (λ current. find_general (i + 1) items current item_index go_on)

unfoldable pub transaction_summary_find_item : ℕ → TransactionSummary → Option SummarySlot
transaction_summary_find_item item_index s =
    if 0 == item_index
    then some primary_slot
    else find_general 0 s.general 1 item_index (λ current.
      find_step current item_index nonce_account_slot s.nonce_account (λ current.
        find_step current item_index nonce_authority_slot s.nonce_authority
          (λ current. if current == item_index then some fee_payer_slot else none)))

-- `SET_IF_USED`, on the kinds that are to come after it
unfoldable pub set_if_used : SummaryItem → List SummaryItemKind → List SummaryItemKind
set_if_used item kinds = if is_summary_item_used item then kind item ∷ kinds else kinds

-- Its loop over the general items.
unfoldable pub set_general : List SummaryItem → List SummaryItemKind → List SummaryItemKind
set_general [] kinds = kinds
set_general (item ∷ items) kinds = set_if_used item (set_general items kinds)

-- The result is what is written through `item_kinds`, and its length through `item_kinds_len`.
unfoldable pub transaction_summary_finalize : TransactionSummary → Outcome (List SummaryItemKind)
transaction_summary_finalize s =
    if is_summary_item_used s.primary
    then done (
        set_if_used s.primary (
          set_general s.general (
            set_if_used s.nonce_account
              (set_if_used s.nonce_authority (set_if_used s.fee_payer [])))))
    else bail 1
