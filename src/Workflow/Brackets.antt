-- ===== src/Workflow/Brackets.antt =====
-- The numbers in square brackets of an answer, and the scan that reads them.
use mathlib.Core.Bool.{false≢true}
use enterprise_document_inte.Base.{
  ℕ, ◌+◌, ◌*◌, ◌≡◌, ◌⊎◌, ◌↔◌, refl, ap, sym, ◌∙◌, inl, inr, true, false, Option, none, some, List,
  [], ◌∷◌, ◌++◌, ◌||◌, arith, Text, All, contains, ◌==◌, Bool-cases, ==_iff,
}
use enterprise_document_inte.Workflow.Citations.{
  Scan, is_digit, digit_value, insert_marker, markers, markers_from, advance, completed, start,
  insert_completed,
}

-- The number that digits write, after a number already read.
abbrev pub value_from : ℕ → Text → ℕ
value_from n [] = n
value_from n (d ∷ ds) = value_from (n * 10 + digit_value d) ds

abbrev pub AllDigits : Text → Type 0
AllDigits ds = All (λ d. is_digit d ≡ true) ds

-- The text holds `[`, digits that write the number, at least one, and `]`.
pub data IsMarked (text : Text) (n : ℕ) : Type 0 where
  marked :
      (before : Text) (d : ℕ) (ds rest : Text)
      → is_digit d ≡ true
      → AllDigits ds
      → text ≡ before ++ (b'[' ∷ d ∷ ds ++ (b']' ∷ rest))
      → value_from 0 (d ∷ ds) ≡ n
      → IsMarked text n

-- The text begins with more digits of a number, and `]`.
Closes : ℕ → Text → ℕ → Type 0
Closes m text n =
    (ds : Text) × (rest : Text) × AllDigits ds
    × (text ≡ ds ++ (b']' ∷ rest))
    × (value_from m ds ≡ n)

-- Or with the digits of a number.
Opens : Text → ℕ → Type 0
Opens text n =
    (d : ℕ) × (ds : Text) × (is_digit d ≡ true)
    × (rest : Text) × AllDigits ds
    × (text ≡ d ∷ ds ++ (b']' ∷ rest))
    × (value_from 0 (d ∷ ds) ≡ n)

-- What a scan has still to find in the text for the number to be read.
abbrev Found : Scan → Text → ℕ → Type 0
Found Scan.outside text n = IsMarked text n
Found Scan.opened text n = Opens text n ⊎ IsMarked text n
Found (Scan.reading m) text n = Closes m text n ⊎ IsMarked text n

later : (c : ℕ) (text : Text) (n : ℕ) → IsMarked text n → IsMarked (c ∷ text) n
later c text n (marked before d ds rest h k e v) =
    marked (c ∷ before) d ds rest h k (ap (λ t. c ∷ t) e) v

bracket_first : is_digit b'[' ≡ false
unfolding is_digit
bracket_first = refl

bracket_last : is_digit b']' ≡ false
unfolding is_digit
bracket_last = refl

contains-insert_marker :
    (n m : ℕ) (ms : List ℕ) → contains n (insert_marker m ms) ≡ ((m == n) || contains n ms)
unfolding insert_marker
contains-insert_marker n m [] = refl
contains-insert_marker n m (k ∷ ms) = ground (arith, contains-insert_marker n m ms)

contains-insert_completed :
    (n : ℕ) (o : Option ℕ) (ms : List ℕ)
    → contains n ms ≡ true
    → contains n (insert_completed o ms) ≡ true
contains-insert_completed n none ms h = h
contains-insert_completed n (some m) ms h = ground (arith, contains-insert_marker n m ms)

first_value : (d : ℕ) → 0 * 10 + digit_value d ≡ digit_value d
first_value d = omega arith

module _ (n : ℕ) where
  -- A character that does not go on with a number may begin one.
  at_start :
      (c : ℕ) (text : Text)
      → ((scan : Scan) → contains n (markers_from scan text) ≡ true → Found scan text n)
      → contains n (markers_from (start c) text) ≡ true
      → IsMarked (c ∷ text) n
  unfolding Opens
  at_start c text rest h = elim (Bool-cases (c == b'[')) [
    | inl opening ↦ elim (rest Scan.opened (ground (arith, opening))) [
      | inl (d, ds, digit, after, digits, e, v) ↦
          marked [] d ds after digit digits (λ i. (==_iff c b'[').0 opening i ∷ e i) v
      | inr below ↦ later c text n below
    ]
    | inr other ↦ later c text n (rest Scan.outside (ground (arith, other)))
  ]

  scan_reads :
      (scan : Scan) (text : Text) → contains n (markers_from scan text) ≡ true → Found scan text n
  unfolding markers_from advance completed Opens Closes
  scan_reads scan [] h = absurd (ground arith)
  scan_reads Scan.outside (c ∷ text) h = at_start c text (λ scan. scan_reads scan text) h
  scan_reads Scan.opened (c ∷ text) h = elim (Bool-cases (is_digit c)) [
    | inl digit ↦ elim (scan_reads (Scan.reading (digit_value c)) text (ground (arith, digit))) [
      | inl (ds, rest, digits, e, v) ↦ inl (
        c,
        ds,
        digit,
        rest,
        digits,
        ap (λ t. c ∷ t) e,
        ap (λ m. value_from m ds) (first_value c) ∙ v,
      )
      | inr below ↦ inr (later c text n below)
    ]
    | inr other ↦ inr (at_start c text (λ scan. scan_reads scan text) (ground (arith, other)))
  ]
  scan_reads (Scan.reading m) (c ∷ text) h = elim (Bool-cases (is_digit c)) [
    | inl digit ↦ elim (Bool-cases (c == b']')) [
      | inl closing ↦
          absurd
            (false≢true (sym bracket_last ∙ sym (ap is_digit ((==_iff c b']').0 closing)) ∙ digit))
      | inr inside ↦
          elim (scan_reads (Scan.reading (m * 10 + digit_value c)) text
            (ground (arith, digit, inside))) [
              | inl (ds, rest, digits, e, v) ↦
                  inl (c ∷ ds, rest, (digit, digits), ap (λ t. c ∷ t) e, v)
              | inr below ↦ inr (later c text n below)
            ]
    ]
    | inr other ↦ elim (Bool-cases (c == b']')) [
      | inl closing ↦ elim (Bool-cases (m == n)) [
        | inl same ↦ inl ([], text, tt, (λ i. (==_iff c b']').0 closing i ∷ text), ground arith)
        | inr differs ↦ inr (
            at_start c text (λ scan. scan_reads scan text)
              (ground (
                arith,
                other,
                closing,
                differs,
                contains-insert_marker n m (markers_from (start c) text),
              )))
      ]
      | inr inside ↦
          inr (at_start c text (λ scan. scan_reads scan text) (ground (arith, other, inside)))
    ]
  ]

contains-closed :
    (n : ℕ) (ds rest : Text)
    → AllDigits ds
    → contains (value_from n ds) (markers_from (Scan.reading n) (ds ++ (b']' ∷ rest))) ≡ true
unfolding markers_from advance completed
contains-closed n [] rest h =
    ground (arith, contains-insert_marker n n (markers_from Scan.outside rest), bracket_last)
contains-closed n (d ∷ ds) rest h =
    contains-insert_completed _ (completed (Scan.reading n) d) _
      (ground (arith, h.0, contains-closed (n * 10 + digit_value d) ds rest h.1))

contains-opened :
    (scan : Scan) (before : Text) (d : ℕ) (ds rest : Text)
    → is_digit d ≡ true
    → AllDigits ds
    → contains
        (value_from 0 (d ∷ ds))
        (markers_from scan (before ++ (b'[' ∷ d ∷ ds ++ (b']' ∷ rest))))
      ≡ true
unfolding markers_from advance completed
contains-opened scan (c ∷ before) d ds rest h k =
    contains-insert_completed _ (completed scan c) _
      (contains-opened (advance scan c) before d ds rest h k)
contains-opened Scan.outside [] d ds rest h k =
    ground (arith, h, contains-closed (digit_value d) ds rest k)
contains-opened Scan.opened [] d ds rest h k =
    ground (arith, h, bracket_first, contains-closed (digit_value d) ds rest k)
contains-opened (Scan.reading n) [] d ds rest h k =
    ground (arith, h, bracket_first, contains-closed (digit_value d) ds rest k)

-- The scan reads a number exactly where the text holds it in square brackets.
pub markers_exact :
    (answer : Text) (n : ℕ) → (contains n (markers answer) ≡ true) ↔ IsMarked answer n
unfolding markers
markers_exact answer n = (scan_reads n Scan.outside answer, λ m. read answer n m)
  where
    read : (text : Text) (n : ℕ) → IsMarked text n → contains n (markers text) ≡ true
    read text n (marked before d ds rest h k e v) =
        ap (λ t. contains n (markers t)) e
        ∙ ap (λ m. contains m (markers (before ++ (b'[' ∷ d ∷ ds ++ (b']' ∷ rest))))) (sym v)
        ∙ contains-opened Scan.outside before d ds rest h k
