-- ===== src/Summary/Order.antt =====
-- The order of the transaction summary: what `transaction_summary_finalize` lists is what
-- `transaction_summary_find_item` finds.
use ledger_embedded_app.Common.{
  ℕ, zero, suc, ◌+◌, ◌-◌, ◌≤◌, ◌≡◌, refl, ◌∙◌, ap, true, false, List, [], ◌∷◌, Option, none, some,
  get_elem?, length, arith, done, bail, ◌==◌, if◌then◌else◌, Bool-cases, ◌⊎◌, inl, inr,
}
use ledger_embedded_app.Summary.{
  TransactionSummary, SummaryItem, SummaryItemKind, SummarySlot, primary_slot, fee_payer_slot,
  num_general_items, max_transaction_summary_items, nonce_account_slot, nonce_authority_slot,
  general_slot, kind, is_summary_item_used, find_step, find_general, transaction_summary_find_item,
  set_if_used, set_general, transaction_summary_finalize,
}
use mathlib.Core.List.{map}
use mathlib.Core.Option

-- A slot with what it holds.
abbrev pub Entry : Type 0
Entry = SummarySlot × SummaryItem

abbrev pub numbered : ℕ → List SummaryItem → List Entry → List Entry
numbered i [] rest = rest
numbered i (item ∷ items) rest = (general_slot i, item) ∷ numbered (i + 1) items rest

abbrev pub last_entries : TransactionSummary → List Entry
last_entries s = (fee_payer_slot, s.fee_payer) ∷ []

abbrev pub authority_entries : TransactionSummary → List Entry
authority_entries s = (nonce_authority_slot, s.nonce_authority) ∷ last_entries s

abbrev pub account_entries : TransactionSummary → List Entry
account_entries s = (nonce_account_slot, s.nonce_account) ∷ authority_entries s

-- All slots, in the order that transaction_summary.h documents.
abbrev pub entries : TransactionSummary → List Entry
entries s = (primary_slot, s.primary) ∷ numbered 0 s.general (account_entries s)

abbrev pub used : List Entry → List Entry
used [] = []
used (e ∷ es) = let rest = used es in if is_summary_item_used (e.1) then e ∷ rest else rest

abbrev pub kinds : List Entry → List SummaryItemKind
kinds es = map (λ (e : Entry). kind (e.1)) (used es)

abbrev pub slot_at : List Entry → ℕ → Option SummarySlot
slot_at es n = Option.map (λ (e : Entry). e.0) (get_elem? (used es) n)

-- From index `c` on, `go_on` finds the entry that `i` names among the entries `es`.
abbrev Finds : ℕ → (ℕ → Option SummarySlot) → List Entry → Type 0
Finds i go_on es = (c : ℕ) → c ≤ i → go_on c ≡ slot_at es (i - c)

find_step-Finds :
    (i : ℕ) (slot : SummarySlot) (item : SummaryItem) (go_on : ℕ → Option SummarySlot)
    (es : List Entry)
    → Finds i go_on es
    → Finds i (λ c. find_step c i slot item go_on) ((slot, item) ∷ es)
find_step-Finds i slot item go_on es h c l = elim (Bool-cases (is_summary_item_used item)) [
  | inr e ↦ rw e (h c l)
  | inl e ↦ rw e (elim (Bool-cases (c == i)) [
    | inl c_is ↦ let n : i - c ≡ 0 = ground arith in rw (c_is, n)
    | inr c_not ↦
        let below : c + 1 ≤ i = ground arith in
        let n : i - c ≡ suc (i - (c + 1)) = omega arith in rw (c_not, n) (h (c + 1) below)
  ])
]

find_general-Finds :
    (i k : ℕ) (items : List SummaryItem) (go_on : ℕ → Option SummarySlot) (es : List Entry)
    → Finds i go_on es
    → Finds i (λ c. find_general k items c i go_on) (numbered k items es)
unfolding find_general
find_general-Finds i k [] go_on es h = h
find_general-Finds i k (item ∷ items) go_on es h =
    find_step-Finds i (general_slot k) item _ _ (find_general-Finds i (k + 1) items go_on es h)

last-Finds :
    (i : ℕ) (item : SummaryItem)
    → is_summary_item_used item ≡ true
    → Finds i (λ c. if c == i then some fee_payer_slot else none) ((fee_payer_slot, item) ∷ [])
last-Finds i item u c l = rw u (elim (Bool-cases (c == i)) [
  | inl c_is ↦ let n : i - c ≡ 0 = ground arith in rw (c_is, n)
  | inr c_not ↦ let n : i - c ≡ suc (i - (c + 1)) = ground arith in rw (c_not, n)
])

find_item_lem :
    (s : TransactionSummary) (i : ℕ)
    → is_summary_item_used s.primary ≡ true
    → is_summary_item_used s.fee_payer ≡ true
    → transaction_summary_find_item i s ≡ slot_at (entries s) i
unfolding transaction_summary_find_item
find_item_lem s zero p f = rw p
find_item_lem s (suc i) p f =
    let rest : Finds (suc i) _ _ = find_general-Finds (suc i) 0 s.general _ (account_entries s) (
      find_step-Finds (suc i) nonce_account_slot s.nonce_account _ (authority_entries s) (
        find_step-Finds (suc i) nonce_authority_slot s.nonce_authority _ (last_entries s)
          (last-Finds (suc i) s.fee_payer f))) in
    let n : suc i - 1 ≡ i = omega arith in
    let first : (0 == suc i) ≡ false = ground arith in
    rw (p, first) (rest 1 (omega arith) ∙ ap (λ j. slot_at _ j) n)

set_if_used-kinds :
    (slot : SummarySlot) (item : SummaryItem) (es : List Entry) (ks : List SummaryItemKind)
    → ks ≡ kinds es
    → set_if_used item ks ≡ kinds ((slot, item) ∷ es)
unfolding set_if_used
set_if_used-kinds slot item es ks h = elim (Bool-cases (is_summary_item_used item)) [
  | inl e ↦ rw (e, h) refl
  | inr e ↦ rw e h
]

set_general-kinds :
    (k : ℕ) (items : List SummaryItem) (es : List Entry) (ks : List SummaryItemKind)
    → ks ≡ kinds es
    → set_general items ks ≡ kinds (numbered k items es)
unfolding set_general
set_general-kinds k [] es ks h = h
set_general-kinds k (item ∷ items) es ks h =
    set_if_used-kinds (general_slot k) item _ _ (set_general-kinds (k + 1) items es ks h)

pub finalize_lem :
    (s : TransactionSummary)
    → is_summary_item_used s.primary ≡ true
    → transaction_summary_finalize s ≡ done (kinds (entries s))
unfolding transaction_summary_finalize
finalize_lem s p =
    let es = set_if_used-kinds primary_slot s.primary (numbered 0 s.general (account_entries s)) _ (
      set_general-kinds 0 s.general (account_entries s) _ (
        set_if_used-kinds nonce_account_slot s.nonce_account (authority_entries s) _ (
          set_if_used-kinds nonce_authority_slot s.nonce_authority (last_entries s) _
            (set_if_used-kinds fee_payer_slot s.fee_payer [] [] refl)))) in
    let chosen : transaction_summary_finalize s ≡ done _ = rw p refl in
    chosen ∙ ap (λ ks. done ks) es

-- Where the primary item and the fee payer are set, `transaction_summary_finalize` lists the kinds
-- of the items that are set, in the order primary, general, nonce account, nonce authority, fee
-- payer, and `transaction_summary_find_item` finds for each index the slot of the item that this
-- order has there, and none past the last.
pub finalize_and_find_item :
    (s : TransactionSummary) (i : ℕ)
    → is_summary_item_used s.primary ≡ true
    → is_summary_item_used s.fee_payer ≡ true
    → (transaction_summary_finalize s ≡ done (kinds (entries s)))
      × (transaction_summary_find_item i s ≡ slot_at (entries s) i)
finalize_and_find_item s i p f = (finalize_lem s p, find_item_lem s i p f)

length-used : (es : List Entry) → length (used es) ≤ length es
length-used [] = omega arith
length-used (e ∷ es) = elim (Bool-cases (is_summary_item_used (e.1))) [
  | inl u ↦ rw u (omega (arith, length-used es))
  | inr u ↦ rw u (omega (arith, length-used es))
]

length-map : (es : List Entry) → length (map (λ (e : Entry). kind (e.1)) es) ≡ length es
length-map [] = refl
length-map (e ∷ es) = ap suc (length-map es)

length-numbered :
    (k : ℕ) (items : List SummaryItem) (es : List Entry)
    → length (numbered k items es) ≡ length items + length es
length-numbered k [] es = omega arith
length-numbered k (item ∷ items) es = omega (arith, length-numbered (k + 1) items es)

-- `transaction_summary_finalize` either answers 1, exactly where the primary item is not set, or
-- writes at most MAX_TRANSACTION_SUMMARY_ITEMS kinds, the size of its callers' array.
pub finalize_bound :
    (s : TransactionSummary)
    → length s.general ≡ num_general_items
    → ((is_summary_item_used s.primary ≡ false) × (transaction_summary_finalize s ≡ bail 1))
      ⊎ ((ks : List SummaryItemKind) × (transaction_summary_finalize s ≡ done ks)
          × (is_summary_item_used s.primary ≡ true)
          × (length ks ≤ max_transaction_summary_items))
unfolding transaction_summary_finalize
finalize_bound s g = elim (Bool-cases (is_summary_item_used s.primary)) [
  | inr u ↦ inl (u, rw u)
  | inl u ↦ inr (
    kinds (entries s),
    finalize_lem s u,
    u,
    omega (
      arith,
      length-map (used (entries s)),
      length-used (entries s),
      length-numbered 0 s.general (account_entries s),
    ),
  )
]
