-- ===== src/Summary/Filling.antt =====
-- How the printers of transactions fill the summary: a primary item, general items one after another,
-- each in the slot that the summary gives out for it, and at the end the fee payer.
use ledger_embedded_app.Common.{
  codes, ℕ, zero, suc, ◌+◌, ◌-◌, ◌≤◌, ◌≡◌, refl, sym, ◌∙◌, ap, true, List, [], ◌∷◌, ◌++◌, some, set,
  replicate, take, take-append_exact, All, length, arith, Option, none, Outcome, done, ◌>>=◌,
  append-nil,
}
use ledger_embedded_app.Parser.{Pointer}
use ledger_embedded_app.Summary.{
  TransactionSummary, SummaryItem, SummaryItemKind, general_slot, kind, kind_of, kind_pubkey,
  is_used, is_summary_item_used, zero_item, num_general_items, summary_item_set, set_in,
  first_unused, transaction_summary_reset, transaction_summary_primary_item,
  transaction_summary_general_item, transaction_summary_set_fee_payer_pubkey,
  transaction_summary_finalize, pubkey, set_general, set_if_used,
  transaction_summary_fee_payer_item,
}
use mathlib.Core.List.{map}

abbrev pub fill_general : List SummaryItem → TransactionSummary → Outcome TransactionSummary
fill_general [] s = done s
fill_general (item ∷ items) s =
    set_in (transaction_summary_general_item s) item s >>= fill_general items

abbrev pub fill_fee_payer : Option Pointer → TransactionSummary → Outcome TransactionSummary
fill_fee_payer none s = done s
fill_fee_payer (some key) s = transaction_summary_set_fee_payer_pubkey key s

-- A summary from the start: the items of the instructions, then the fee payer where there is one to
-- show, as handle_sign_message.c sets it.
abbrev pub fill : Option Pointer → SummaryItem → List SummaryItem → Outcome TransactionSummary
fill payer first items = do
  s ←
      set_in (transaction_summary_primary_item transaction_summary_reset) first
        transaction_summary_reset
  s ← fill_general items s
  fill_fee_payer payer s

-- What finalizing lists for the fee payer.
abbrev pub payer_kinds : Option Pointer → List SummaryItemKind
payer_kinds none = []
payer_kinds (some key) = kind_pubkey ∷ []

abbrev pub AreUsed : List SummaryItem → Type 0
AreUsed items = All (λ item. is_summary_item_used item ≡ true) items

first_unused-append :
    (i : ℕ) (xs ys : List SummaryItem)
    → AreUsed xs
    → first_unused i (xs ++ ys) ≡ first_unused (i + length xs) ys
unfolding first_unused
first_unused-append i [] ys u = ap (λ k. first_unused k ys) (omega arith)
first_unused-append i (x ∷ xs) ys (u, us) =
    rw u (first_unused-append (i + 1) xs ys us ∙ ap (λ k. first_unused k ys) (omega arith))

set-append :
    (xs ys : List SummaryItem) (y v : SummaryItem)
    → set (xs ++ (y ∷ ys)) (length xs) v ≡ xs ++ (v ∷ ys)
set-append [] ys y v = refl
set-append (x ∷ xs) ys y v = ap (λ t. x ∷ t) (set-append xs ys y v)

first_unused-zero :
    (xs : List SummaryItem) (n : ℕ)
    → AreUsed xs
    → first_unused 0 (xs ++ replicate (suc n) zero_item) ≡ some (general_slot (length xs))
unfolding first_unused is_used kind_of
first_unused-zero xs n u =
    first_unused-append 0 xs _ u ∙ ap (λ k. some (general_slot k)) (omega arith)

AreUsed-snoc :
    (xs : List SummaryItem) (x : SummaryItem)
    → AreUsed xs
    → is_summary_item_used x ≡ true
    → AreUsed (xs ++ (x ∷ []))
AreUsed-snoc [] x u ux = (ux, tt)
AreUsed-snoc (y ∷ xs) x (uy, u) ux = (uy, AreUsed-snoc xs x u ux)

abbrev with_general : List SummaryItem → TransactionSummary → TransactionSummary
with_general items s = record s { general = items }

snoc-append : (xs ys : List SummaryItem) (x : SummaryItem) → xs ++ (x ∷ ys) ≡ (xs ++ (x ∷ [])) ++ ys
snoc-append [] ys x = refl
snoc-append (y ∷ xs) ys x = ap (λ t. y ∷ t) (snoc-append xs ys x)

set_in-general :
    (item : SummaryItem) (xs : List SummaryItem) (n : ℕ) (s : TransactionSummary)
    → AreUsed xs
    → let s' = with_general (xs ++ replicate (suc n) zero_item) s in
      set_in (transaction_summary_general_item s') item s'
      ≡ done (with_general ((xs ++ (item ∷ [])) ++ replicate n zero_item) s)
unfolding transaction_summary_general_item summary_item_set
set_in-general item xs n s u = rw (first_unused-zero xs n u) (
    ap (λ gs. done (with_general gs s))
      (set-append xs (replicate n zero_item) zero_item item
        ∙ snoc-append xs (replicate n zero_item) item))

fill_general_lem :
    (items xs : List SummaryItem) (n : ℕ) (s : TransactionSummary)
    → AreUsed items
    → AreUsed xs
    → fill_general items (with_general (xs ++ replicate (length items + n) zero_item) s)
      ≡ done (with_general ((xs ++ items) ++ replicate n zero_item) s)
fill_general_lem [] xs n s ui ux = rw (append-nil xs, zero_left) refl
  where
    zero_left : 0 + n ≡ n
    zero_left = omega arith
fill_general_lem (item ∷ items) xs n s (u, ui) ux =
    let m : suc (length items) + n ≡ suc (length items + n) = omega arith in
    rw (m, set_in-general item xs (length items + n) s ux)
      (fill_general_lem items (xs ++ (item ∷ [])) n s ui (AreUsed-snoc xs item ux u)
        ∙ ap (λ gs. done (with_general (gs ++ replicate n zero_item) s))
            (sym (snoc-append xs items item)))

set_general-zero : (n : ℕ) (ks : List SummaryItemKind) → set_general (replicate n zero_item) ks ≡ ks
unfolding set_general set_if_used is_used kind_of
set_general-zero zero ks = refl
set_general-zero (suc n) ks = set_general-zero n ks

set_general-used :
    (xs : List SummaryItem) (n : ℕ) (ks : List SummaryItemKind)
    → AreUsed xs
    → set_general (xs ++ replicate n zero_item) ks ≡ map kind xs ++ ks
unfolding set_general set_if_used
set_general-used [] n ks u = set_general-zero n ks
set_general-used (x ∷ xs) n ks (u, us) = rw (u, set_general-used xs n ks us) refl

-- The item of the fee payer: unset, or a key under its title.
abbrev pub payer_item : Option Pointer → SummaryItem
payer_item none = zero_item
payer_item (some key) = record { title = codes "Fee payer"; content = pubkey key }

abbrev filled : Option Pointer → SummaryItem → List SummaryItem → ℕ → TransactionSummary
filled payer first items n = record {
  primary = first;
  fee_payer = payer_item payer;
  nonce_account = zero_item;
  nonce_authority = zero_item;
  general = items ++ replicate n zero_item;
}

finalize-filled :
    (payer : Option Pointer) (first : SummaryItem) (items : List SummaryItem) (n : ℕ)
    → is_summary_item_used first ≡ true
    → AreUsed items
    → transaction_summary_finalize (filled payer first items n)
      ≡ done (kind first ∷ (map kind items ++ payer_kinds payer))
unfolding transaction_summary_finalize set_if_used is_used kind_of
finalize-filled none first items n u us = rw (u, set_general-used items n [] us) refl
finalize-filled (some key) first items n u us =
    rw (u, set_general-used items n (kind_pubkey ∷ []) us) refl

fill_fee_payer_lem :
    (payer : Option Pointer) (first : SummaryItem) (items : List SummaryItem) (n : ℕ)
    → fill_fee_payer payer (filled none first items n) ≡ done (filled payer first items n)
unfolding transaction_summary_set_fee_payer_pubkey transaction_summary_fee_payer_item
    summary_item_set is_used kind_of
fill_fee_payer_lem none first items n = refl
fill_fee_payer_lem (some key) first items n = refl

-- A summary that is filled with a primary item, at most NUM_GENERAL_ITEMS further items, none of them
-- unset, and then perhaps a fee payer, holds the primary item and the further items as they were given
-- and in that order, and the key of the fee payer under its title where one is given: no setter is
-- given a null pointer or an item that is in use, and `transaction_summary_finalize` lists their kinds
-- in that order, the fee payer's key last.
pub fill-finalize :
    (payer : Option Pointer) (first : SummaryItem) (items : List SummaryItem)
    → is_summary_item_used first ≡ true
    → AreUsed items
    → length items ≤ num_general_items
    → (s : TransactionSummary) × (fill payer first items ≡ done s)
      × (s.primary ≡ first)
      × (take (length items) s.general ≡ items)
      × (s.fee_payer ≡ payer_item payer)
      × (transaction_summary_finalize s ≡ done (kind first ∷ (map kind items ++ payer_kinds payer)))
unfolding transaction_summary_reset transaction_summary_primary_item summary_item_set is_used
    kind_of
fill-finalize payer first items u us l =
    let n = num_general_items - length items in
    let s0 = filled none first [] 0 in
    let m : num_general_items ≡ length items + n = omega arith in
    (
      filled payer first items n,
      ap
            (λ k.
              fill_general items (with_general (replicate k zero_item) s0) >>= fill_fee_payer payer)
            m
          ∙ ap (λ o. o >>= fill_fee_payer payer) (fill_general_lem items [] n s0 us tt)
          ∙ fill_fee_payer_lem payer first items n,
      refl,
      take-append_exact (length items) items (replicate n zero_item) refl,
      refl,
      finalize-filled payer first items n u us,
    )
