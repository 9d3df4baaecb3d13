-- ===== src/Signing/Signer.antt =====
-- The key that a device derives, and the search for it among the keys of a header.
use ledger_embedded_app.Common.{
  bytes_eq_iff, bytes_eq, ℕ, zero, suc, ◌+◌, ◌-◌, ◌*◌, ◌≤◌, ◌<◌, bit_and, bit_or, ◌≡◌, refl, sym,
  ap, ◌∙◌, ◌≢◌, ◌↔◌, ◌⊎◌, inl, inr, List, arith, ltb, leb, ◌==◌, if◌then◌else◌, ltb→lt, le→leb,
  ==_iff, Bool-cases, length, take, length-drop, length-set, done, bail, fault,
}
use ledger_embedded_app.Parser.{Pointer, MessageHeader}
use ledger_embedded_app.Instruction.{pubkey_at}
use ledger_embedded_app.Instruction.Safety.{IsFine, IsFine-bind, get_elem?-in, fine, refused}
use ledger_embedded_app.Apdu.{index}
use ledger_embedded_app.Signing.{
  Sdk, IsSdk, reversed_point, get_public_key, scan_pubkeys, scan_header_for_signer,
}

index-IsFine : (xs : List ℕ) (i : ℕ) → i < length xs → IsFine (λ b. Unit {0}) (index xs i)
index-IsFine xs i l = let r = get_elem?-in xs i l in rw (r.1, index) (fine tt)

reversed_point-IsFine :
    (left i : ℕ) (w : List ℕ)
    → length w ≡ 65
    → IsFine (λ bs. length bs ≡ left) (reversed_point left i w)
unfolding reversed_point
reversed_point-IsFine zero i w size = fine refl
reversed_point-IsFine (suc left) i w size =
    IsFine-bind (index-IsFine w (64 - i) (omega arith))
      λ b _. IsFine-bind (reversed_point-IsFine left (i + 1) w size) λ bs l. fine (omega arith)

-- The derived key has 32 bytes.
pub get_public_key-IsFine :
    (sdk : Sdk) (path : List ℕ) (n : ℕ)
    → IsSdk sdk
    → IsFine (λ key. length key ≡ 32) (get_public_key sdk path n)
unfolding get_public_key
get_public_key-IsFine sdk path n f =
    let w = sdk.generate_pair path n in
    IsFine-bind (reversed_point-IsFine 32 0 w (f.point_size path n)) λ key l.
      IsFine-bind (index-IsFine w 32 (omega (arith, f.point_size path n))) λ sign _.
        IsFine-bind (index-IsFine key 31 (omega arith)) λ last _.
          elim (Bool-cases (bit_and sign 1 == 0)) [
            | inl even ↦ rw even (fine l)
            | inr odd ↦ rw odd (fine (omega (arith, length-set key 31 (bit_or last 0x80))))
          ]

-- The 32 bytes of the key at an index.
abbrev pub key_at : Pointer → ℕ → List ℕ
key_at pubkeys i = take 32 (pubkey_at pubkeys i)

abbrev pub IsFirst : List ℕ → Pointer → ℕ → ℕ → Type 0
IsFirst key pubkeys from i =
    (key_at pubkeys i ≡ key) × ((j : ℕ) → from ≤ j → j < i → key_at pubkeys j ≢ key)

scan_pubkeys-step :
    (left i : ℕ) (key : List ℕ) (pubkeys : Pointer)
    → suc i * 32 ≤ length pubkeys
    → scan_pubkeys (suc left) i key pubkeys
      ≡ (if bytes_eq (key_at pubkeys i) key then done i else scan_pubkeys left (i + 1) key pubkeys)
unfolding scan_pubkeys
scan_pubkeys-step left i key pubkeys there =
    let l : 32 ≤ length (pubkey_at pubkeys i) = omega (arith, length-drop (i * 32) pubkeys) in
    rw (le→leb 32 (length (pubkey_at pubkeys i)) l) refl

-- What the loop finds: the first index where the key is, or none where it is not.
Found : ℕ → ℕ → List ℕ → Pointer → Type 0
Found left k key pubkeys =
    ((i : ℕ) × (k ≤ i)
      × (i < k + left)
      × (scan_pubkeys left k key pubkeys ≡ done i)
      × IsFirst key pubkeys k i)
    ⊎ ((scan_pubkeys left k key pubkeys ≡ bail 0xffffffff)
        × ((j : ℕ) → k ≤ j → j < k + left → key_at pubkeys j ≢ key))

not-first :
    (k j : ℕ) (key : List ℕ) (pubkeys : Pointer)
    → k ≤ j
    → key_at pubkeys k ≢ key
    → (k + 1 ≤ j → key_at pubkeys j ≢ key)
    → key_at pubkeys j ≢ key
not-first k j key pubkeys l here there = elim (Bool-cases (k == j)) [
  | inl same ↦ rw (← (==_iff k j).0 same) here
  | inr other ↦ there (ground arith)
]

scan_pubkeys-cases :
    (left k : ℕ) (key : List ℕ) (pubkeys : Pointer)
    → (k + left) * 32 ≤ length pubkeys
    → Found left k key pubkeys
unfolding Found scan_pubkeys
scan_pubkeys-cases zero k key pubkeys there = inr (refl, λ j l m. absurd (omega arith))
scan_pubkeys-cases (suc left) k key pubkeys there =
    let step = scan_pubkeys-step left k key pubkeys (omega arith) in
    elim (Bool-cases (bytes_eq (key_at pubkeys k) key)) [
      | inl here ↦ inl (
        k,
        omega arith,
        omega arith,
        step ∙ ap (λ c. if c then done k else scan_pubkeys left (k + 1) key pubkeys) here,
        ((bytes_eq_iff (key_at pubkeys k) key).0 here, λ j l m. absurd (omega arith)),
      )
      | inr other ↦
          let on =
            step ∙ ap (λ c. if c then done k else scan_pubkeys left (k + 1) key pubkeys) other in
          let not_here : key_at pubkeys k ≢ key =
            λ e. absurd (cc ((bytes_eq_iff (key_at pubkeys k) key).1 e)) in
          elim (scan_pubkeys-cases left (k + 1) key pubkeys (omega arith)) [
            | inl (i, l, m, e, first) ↦ inl (
              i,
              omega arith,
              omega arith,
              on ∙ e,
              (first.0, λ j kj ji. not-first k j key pubkeys kj not_here λ l'. first.1 j l' ji),
            )
            | inr (e, nowhere) ↦ inr (
              on ∙ e,
              λ j kj jn. not-first k j key pubkeys kj not_here λ l'. nowhere j l' (omega arith),
            )
          ]
    ]

agree :
    (left i : ℕ) (key : List ℕ) (pubkeys : Pointer)
    → Found left 0 key pubkeys
    → (scan_pubkeys left 0 key pubkeys ≡ done i) ↔ ((i < left) × IsFirst key pubkeys 0 i)
unfolding Found
agree left i key pubkeys (inl (a, l, m, e, first)) = (
  λ r. let same : a ≡ i = cc in rw (← same) (omega arith, first),
  λ (il, (here, before)). elim (Bool-cases (a == i)) [
    | inl same ↦ e ∙ ap done ((==_iff a i).0 same)
    | inr other ↦ elim (Bool-cases (ltb a i)) [
      | inl lower ↦ absurd (before a (omega arith) (ltb→lt a i lower) (first.0))
      | inr higher ↦ absurd (first.1 i (omega arith) (ground arith) here)
    ]
  ],
)
agree left i key pubkeys (inr (e, nowhere)) = (
  λ r. absurd (cc (sym e ∙ r)),
  λ (il, (here, before)). absurd (nowhere i (omega arith) (omega arith) here),
)

scan_of_key :
    (sdk : Sdk) (path : List ℕ) (n : ℕ) (h : MessageHeader) (key : List ℕ)
    → get_public_key sdk path n ≡ done key
    → scan_header_for_signer sdk path n h
      ≡ scan_pubkeys h.pubkeys_header.num_required_signatures 0 key h.pubkeys
unfolding scan_header_for_signer
scan_of_key sdk path n h key e = rw e refl

-- Where as many account keys are there to read as the header requires signatures,
-- `scan_header_for_signer` gives exactly the first of the required signers' indices at which the
-- derived key stands.
pub scan_header_for_signer_iff :
    (sdk : Sdk) (path : List ℕ) (n : ℕ) (h : MessageHeader) (key : List ℕ)
    → get_public_key sdk path n ≡ done key
    → h.pubkeys_header.num_required_signatures * 32 ≤ length h.pubkeys
    → (i : ℕ)
    → (scan_header_for_signer sdk path n h ≡ done i)
      ↔ ((i < h.pubkeys_header.num_required_signatures) × IsFirst key h.pubkeys 0 i)
scan_header_for_signer_iff sdk path n h key e there i = rw (scan_of_key sdk path n h key e) (
    agree h.pubkeys_header.num_required_signatures i key h.pubkeys
      (scan_pubkeys-cases h.pubkeys_header.num_required_signatures 0 key h.pubkeys (omega arith)))

Found-IsFine :
    (left : ℕ) (key : List ℕ) (pubkeys : Pointer)
    → Found left 0 key pubkeys
    → IsFine (λ i. i < left) (scan_pubkeys left 0 key pubkeys)
unfolding Found
Found-IsFine left key pubkeys (inl (i, l, m, e, first)) = rw e (fine (omega arith))
Found-IsFine left key pubkeys (inr (e, nowhere)) = rw e (refused (λ z. cc))

-- The index that is found is below the number of required signatures.
pub scan_header_for_signer-IsFine :
    (sdk : Sdk) (path : List ℕ) (n : ℕ) (h : MessageHeader)
    → IsSdk sdk
    → h.pubkeys_header.num_required_signatures * 32 ≤ length h.pubkeys
    → IsFine
        (λ i. i < h.pubkeys_header.num_required_signatures)
        (scan_header_for_signer sdk path n h)
unfolding scan_header_for_signer
scan_header_for_signer-IsFine sdk path n h f there =
    IsFine-bind (get_public_key-IsFine sdk path n f) λ key _.
      Found-IsFine h.pubkeys_header.num_required_signatures key h.pubkeys
        (scan_pubkeys-cases h.pubkeys_header.num_required_signatures 0 key h.pubkeys (omega arith))

scan_pubkeys-fault :
    (left k : ℕ) (key : List ℕ) (pubkeys : Pointer)
    → k * 32 ≤ length pubkeys
    → length pubkeys < (k + left) * 32
    → ((j : ℕ) → k ≤ j → suc j * 32 ≤ length pubkeys → key_at pubkeys j ≢ key)
    → scan_pubkeys left k key pubkeys ≡ fault
unfolding scan_pubkeys
scan_pubkeys-fault zero k key pubkeys l m nowhere = absurd (omega arith)
scan_pubkeys-fault (suc left) k key pubkeys l m nowhere =
    elim (Bool-cases (leb 32 (length (pubkey_at pubkeys k)))) [
      | inr past ↦ rw past refl
      | inl there ↦
          let whole : suc k * 32 ≤ length pubkeys =
            ground (arith, length-drop (k * 32) pubkeys, there) in
          elim (Bool-cases (bytes_eq (key_at pubkeys k) key)) [
            | inl here ↦
                absurd
                  (nowhere k (omega arith) whole ((bytes_eq_iff (key_at pubkeys k) key).0 here))
            | inr other ↦
                scan_pubkeys-step left k key pubkeys whole
                ∙ (ap (λ c. if c then done k else scan_pubkeys left (k + 1) key pubkeys) other
                    ∙ scan_pubkeys-fault left (k + 1) key pubkeys (omega arith) (omega arith)
                        λ j l'. nowhere j (omega arith))
          ]
    ]

-- Nothing keeps the number of required signatures down to the account keys: where it reaches past the
-- bytes behind `pubkeys`, and the derived key is none of the whole keys there,
-- `scan_header_for_signer` reads past these bytes.
pub scan_header_for_signer-overrun :
    (sdk : Sdk) (path : List ℕ) (n : ℕ) (h : MessageHeader) (key : List ℕ)
    → get_public_key sdk path n ≡ done key
    → length h.pubkeys < h.pubkeys_header.num_required_signatures * 32
    → ((j : ℕ) → suc j * 32 ≤ length h.pubkeys → key_at h.pubkeys j ≢ key)
    → scan_header_for_signer sdk path n h ≡ fault
scan_header_for_signer-overrun sdk path n h key e past nowhere =
    scan_of_key sdk path n h key e
    ∙ scan_pubkeys-fault h.pubkeys_header.num_required_signatures 0 key h.pubkeys (omega arith)
        (omega arith) λ j _. nowhere j
