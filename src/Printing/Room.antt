-- ===== src/Printing/Room.antt =====
-- The room that the printers of librenec need: how many general items of the summary one may fill, so
-- that no setter is given a null pointer.
use ledger_embedded_app.Common.{
  ℕ, suc, ◌+◌, ◌≤◌, ◌≡◌, refl, ◌∙◌, Bool, true, false, not, List, [], ◌∷◌, length, some, set, take,
  bytes_eq, ◌&&◌, arith, Outcome, done, bail, ◌>>=◌, if◌then◌else◌, Bool-cases, inl, inr, le→leb,
  ap,
}
use ledger_embedded_app.Parser.{Pointer, pubkeys_equal}
use ledger_embedded_app.Instruction.Safety.{IsKey}
use ledger_embedded_app.Summary.{
  TransactionSummary, SummaryItem, SummaryValue, general_slot, is_used, kind_of, pubkey,
  is_summary_item_used, summary_item_set, first_unused, transaction_summary_primary_item,
  transaction_summary_general_item, transaction_summary_reset, num_general_items,
}
use ledger_embedded_app.Printing.{
  PrintConfig, Printer, print_config_show_authority, primary, general, general_authority, when,
}
use ledger_embedded_app.Printing.Yields.{Yields, yields, stops, Refusal, Yields-bind, Yields-map}

-- The number of general items that are not in use.
abbrev pub unused : List SummaryItem → ℕ
unused [] = 0
unused (item ∷ items) =
    let rest = unused items in if is_summary_item_used item then rest else suc rest

-- How a printer that needs general items only leaves the summary `s`: with room for `n` more.
pub record Leaves (s : TransactionSummary) (n : ℕ) (s' : TransactionSummary) : Type 0 where
  pub room : n ≤ unused s'.general
  pub same_primary : s'.primary ≡ s.primary
  pub same_fee_payer : s'.fee_payer ≡ s.fee_payer

-- A printer that fills at most `k` general items and nothing else, or stops with one of the return
-- values `R`.
pub record Prints (R : ℕ → Type 0) (k : ℕ) (p : Printer) : Type 0 where
  pub prints :
      (s : TransactionSummary) (n : ℕ) → k + n ≤ unused s.general → Yields R (Leaves s n) (p s)

pub record Completes (s : TransactionSummary) (n : ℕ) (s' : TransactionSummary) : Type 0 where
  pub room : n ≤ unused s'.general
  pub primary_set : is_summary_item_used s'.primary ≡ true
  pub same_fee_payer : s'.fee_payer ≡ s.fee_payer

-- A printer that sets the primary item, which is free, and at most `k` general items, or stops with
-- one of the return values `R`.
pub record Shows (R : ℕ → Type 0) (k : ℕ) (p : Printer) : Type 0 where
  pub shows :
      (s : TransactionSummary) (n : ℕ)
      → is_summary_item_used s.primary ≡ false
      → k + n ≤ unused s.general
      → Yields R (Completes s n) (p s)

-- The configuration has a signer's key to read.
pub record ConfigFits (config : PrintConfig) : Type 0 where
  pub signer : Pointer
  pub has_signer : config.signer_pubkey ≡ some signer
  pub signer_in : IsKey signer

first_unused-some :
    (k : ℕ) (items : List SummaryItem) (item : SummaryItem) (n : ℕ)
    → suc n ≤ unused items
    → (i : ℕ) × (first_unused k items ≡ some (general_slot (k + i)))
      × (n ≤ unused (set items i item))
unfolding first_unused
first_unused-some k [] item n h = absurd (omega arith)
first_unused-some k (x ∷ items) item n h = elim (Bool-cases (is_summary_item_used x)) [
  | inr free ↦
      let h' : suc n ≤ suc (unused items) = rw free at h in
      (
        0,
        rw free (ap (λ j. some (general_slot j)) (omega arith)),
        elim (Bool-cases (is_summary_item_used item)) [
          | inl u ↦ rw u (omega arith)
          | inr u ↦ rw u (omega arith)
        ],
      )
  | inl taken ↦
      let r = first_unused-some (k + 1) items item n (rw taken at h) in
      (suc (r.0), rw taken (r.1 ∙ ap (λ j. some (general_slot j)) (omega arith)), rw taken (r.2))
]

pub pubkeys_equal_lem :
    (a b : Pointer)
    → 32 ≤ length a
    → 32 ≤ length b
    → pubkeys_equal a b ≡ done (bytes_eq (take 32 a) (take 32 b))
unfolding pubkeys_equal
pubkeys_equal_lem a b la lb =
    rw (le→leb 32 (length a) la, pubkeys_equal) (rw (le→leb 32 (length b) lb, pubkeys_equal) refl)

pub show_authority_of :
    (config : PrintConfig) (f : ConfigFits config) (key : Pointer)
    → IsKey key
    → print_config_show_authority config key
      ≡ done (not (not config.expert_mode && bytes_eq (take 32 f.signer) (take 32 key)))
unfolding print_config_show_authority
show_authority_of config f key lk = elim (Bool-cases config.expert_mode) [
  | inl e ↦ rw e refl
  | inr e ↦ rw e (rw (f.has_signer) (rw (pubkeys_equal_lem f.signer key f.signer_in lk) refl))
]

pub show_authority_lem :
    (config : PrintConfig) (key : Pointer)
    → ConfigFits config
    → IsKey key
    → (b : Bool) × (print_config_show_authority config key ≡ done b)
show_authority_lem config key f lk = (_, show_authority_of config f key lk)

module _ {R : ℕ → Type 0} where
  general_lem :
      (title : List ℕ) (value : SummaryValue) (s : TransactionSummary) (n : ℕ)
      → 1 + n ≤ unused s.general
      → Yields R (Leaves s n) (general title value s)
  unfolding transaction_summary_general_item summary_item_set
  general_lem title value s n h =
      let item : SummaryItem = record { title = title; content = value } in
      let r = first_unused-some 0 s.general item n (omega arith) in
      let zero_left : 0 + r.0 ≡ r.0 = omega arith in
      rw (r.1, zero_left)
        (yields (record { room = r.2; same_primary = refl; same_fee_payer = refl }))

  -- An item in a general slot.
  pub general-Prints : (title : List ℕ) (value : SummaryValue) → Prints R 1 (general title value)
  general-Prints title value = record { prints = general_lem title value }

  pub done-Prints : (k : ℕ) → Prints R k done
  done-Prints k = record {
    prints =
        λ s n h. yields (record { room = omega arith; same_primary = refl; same_fee_payer = refl });
  }

  pub when-Prints : {k : ℕ} {p : Printer} (c : Bool) → Prints R k p → Prints R k (when c p)
  when-Prints true f = f
  when-Prints {k} false f = done-Prints k

  -- One printer after the other.
  pub then-Prints :
      {a b : ℕ} {p q : Printer} → Prints R a p → Prints R b q → Prints R (a + b) (λ s. p s >>= q)
  then-Prints {a} {b} f g = record {
    prints = λ s n h. Yields-bind (f.prints s (b + n) (omega arith)) λ s1 l.
        Yields-map (g.prints s1 n l.room) λ s2 m. record {
          room = m.room;
          same_primary = m.same_primary ∙ l.same_primary;
          same_fee_payer = m.same_fee_payer ∙ l.same_fee_payer;
        };
  }

  -- A key is shown, or is not.
  pub general_authority-Prints :
      (title : List ℕ) (key : Pointer) (config : PrintConfig)
      → ConfigFits config
      → IsKey key
      → Prints R 1 (general_authority title key config)
  general_authority-Prints title key config f lk = record {
    prints = λ s n h.
        let r = show_authority_lem config key f lk in
        rw (r.1) ((when-Prints (r.0) (general-Prints title (pubkey key))).prints s n h);
  }

  primary_lem :
      {k : ℕ} {p : Printer} (title : List ℕ) (value : SummaryValue)
      → is_used (kind_of value) ≡ true
      → Prints R k p
      → (s : TransactionSummary) (n : ℕ) → is_summary_item_used s.primary ≡ false
      → k + n ≤ unused s.general
      → Yields R (Completes s n) (primary title value s >>= p)
  unfolding transaction_summary_primary_item summary_item_set
  primary_lem title value u f s n free h = rw free (
      Yields-map (f.prints (record s { primary = record { title = title; content = value } }) n h)
        λ s1 l. record {
          room = l.room;
          primary_set = ap is_summary_item_used l.same_primary ∙ u;
          same_fee_payer = l.same_fee_payer;
        })

  -- A primary item, and a printer of general items.
  pub primary-Shows :
      {k : ℕ} {p : Printer} (title : List ℕ) (value : SummaryValue)
      → is_used (kind_of value) ≡ true
      → Prints R k p
      → Shows R k (λ s. primary title value s >>= p)
  primary-Shows title value u f = record { shows = primary_lem title value u f }

  only_primary_lem :
      (title : List ℕ) (value : SummaryValue)
      → is_used (kind_of value) ≡ true
      → (s : TransactionSummary) (n : ℕ) → is_summary_item_used s.primary ≡ false
      → 0 + n ≤ unused s.general
      → Yields R (Completes s n) (primary title value s)
  unfolding transaction_summary_primary_item summary_item_set
  only_primary_lem title value u s n free h =
      rw free (yields (record { room = omega arith; primary_set = u; same_fee_payer = refl }))

  pub only_primary-Shows :
      (title : List ℕ) (value : SummaryValue)
      → is_used (kind_of value) ≡ true
      → Shows R 0 (primary title value)
  only_primary-Shows title value u = record { shows = only_primary_lem title value u }

  pub Shows-then :
      {a b : ℕ} {p q : Printer} → Shows R a p → Prints R b q → Shows R (a + b) (λ s. p s >>= q)
  Shows-then {a} {b} f g = record {
    shows = λ s n free h. Yields-bind (f.shows s (b + n) free (omega arith)) λ s1 c.
        Yields-map (g.prints s1 n c.room) λ s2 l. record {
          room = l.room;
          primary_set = ap is_summary_item_used l.same_primary ∙ c.primary_set;
          same_fee_payer = l.same_fee_payer ∙ c.same_fee_payer;
        };
  }

  -- A printer that is given less room than there is.
  pub Shows-weaken : {j : ℕ} {p : Printer} (k : ℕ) → j ≤ k → Shows R j p → Shows R k p
  Shows-weaken k l f = record { shows = λ s n free h. f.shows s n free (omega arith) }

  pub Prints-weaken : {j : ℕ} {p : Printer} (k : ℕ) → j ≤ k → Prints R j p → Prints R k p
  Prints-weaken k l f = record { prints = λ s n h. f.prints s n (omega arith) }

  pub if-Prints :
      {k : ℕ} {p q : Printer} (c : Bool)
      → Prints R k p
      → Prints R k q
      → Prints R k (λ s. if c then p s else q s)
  if-Prints true f g = f
  if-Prints false f g = g

  -- A printer that first finds something out.
  pub ask-Prints :
      {A : Type 0} {k : ℕ} {o : Outcome A} (f : A → Printer) (a : A)
      → o ≡ done a
      → Prints R k (f a)
      → Prints R k (λ s. o >>= λ x. f x s)
  ask-Prints f a e g = record { prints = λ s n h. rw e (g.prints s n h) }

  pub ask-Shows :
      {A : Type 0} {k : ℕ} {o : Outcome A} (f : A → Printer) (a : A)
      → o ≡ done a
      → Shows R k (f a)
      → Shows R k (λ s. o >>= λ x. f x s)
  ask-Shows f a e g = record { shows = λ s n free h. rw e (g.shows s n free h) }

  pub stops-Shows : (k : ℕ) {e : ℕ} → R e → Shows R k (λ s. bail e)
  stops-Shows k r = record { shows = λ s n free h. stops r }

  pub if-Shows :
      {k : ℕ} {p q : Printer} (c : Bool)
      → Shows R k p
      → Shows R k q
      → Shows R k (λ s. if c then p s else q s)
  if-Shows true p q = p
  if-Shows false p q = q

-- On a fresh summary.
pub Shows-fresh :
    {R : ℕ → Type 0} {p : Printer} (k : ℕ)
    → k ≤ num_general_items
    → Shows R k p
    → Yields R (Completes transaction_summary_reset 0) (p transaction_summary_reset)
unfolding transaction_summary_reset is_used kind_of
Shows-fresh k l f = f.shows transaction_summary_reset 0 refl (omega arith)

-- A printer that is used as one that may stop.
pub bails-Shows : (k : ℕ) → Shows Refusal k (λ s. bail 1)
bails-Shows k = stops-Shows k (λ e. cc)
