-- ===== src/Session/BarTypes/Labels.antt =====
-- The labels of valid bar sizes of ofe_session1_code/ofe/src/core/bar_types.cpp, read back.
use rudra_org.Common.{
  ℕ, zero, suc, ◌+◌, ◌-◌, ◌*◌, ◌/◌, ◌%◌, ◌^◌, ◌<◌, ◌≡◌, refl, ap, ◌∙◌, Bool, true, false, ◌&&◌,
  Bool-cases, inl, inr, Option, none, some, [], ◌∷◌, ◌++◌, leb, ltb, ◌==◌, arith, if◌then◌else◌,
}
use mathlib.Core.List.{append_assoc}
use rudra_org.Common.Text.{Text, codes, equal, numeral, digit}
use rudra_org.Session.BarTypes.{
  BarType, time, range, volume, BarSize, decimal, label, label_of, is_valid,
}

abbrev is_digit : ℕ → Bool
is_digit c = leb b'0' c && leb c b'9'

-- A decimal number at the head of a text, behind the digits that make `n`, and what follows it.
abbrev pub read_number : ℕ → Text → ℕ × Text
read_number n [] = (n, [])
read_number n (c ∷ cs) =
    let further = read_number (n * 10 + (c - b'0')) cs in
    if is_digit c then further else (n, c ∷ cs)

-- What a number of the unit that a suffix stands for makes.
abbrev pub size_of : ℕ × Text → Option BarSize
size_of (n, suffix) =
    if equal suffix (codes "h")
    then some (record { bar_type = time; size_value = n * 3600 })
    else if equal suffix (codes "m")
    then some (record { bar_type = time; size_value = n * 60 })
    else if equal suffix (codes "s")
    then some (record { bar_type = time; size_value = n })
    else if equal suffix (codes "-range")
    then some (record { bar_type = range; size_value = n })
    else if equal suffix (codes "K-vol")
    then some (record { bar_type = volume; size_value = n * 1000 })
    else if equal suffix (codes "-vol")
    then some (record { bar_type = volume; size_value = n })
    else none

-- Labels read back.
abbrev pub read_label : Text → Option BarSize
read_label text = size_of (read_number 0 text)

-- A size of 1000 contracts or more in whole thousands.
abbrev pub rounded : BarSize → BarSize
rounded size = elim size.bar_type [
  | time ↦ size
  | range ↦ size
  | volume ↦ record size {
    size_value =
        if leb 1000 size.size_value then size.size_value / 1000 * 1000 else size.size_value;
  }
]

digit_lem : (d : ℕ) → d < 10 → (is_digit (digit d) ≡ true) × (digit d - b'0' ≡ d)
digit_lem d small = ground arith

read_digit :
    (n d : ℕ) (rest : Text)
    → d < 10
    → read_number n (digit d ∷ rest) ≡ read_number (n * 10 + d) rest
read_digit n d rest small =
    let (is_one, value) = digit_lem d small in
    rw is_one (ap (λ k. read_number (n * 10 + k) rest) value)

-- The digits of a number are read as that number.
read_number-numeral :
    (digits n : ℕ) (rest : Text)
    → n < 10 ^ digits
    → read_number 0 (numeral 10 digits n ++ rest) ≡ read_number n rest
unfolding numeral
read_number-numeral zero n rest small = ap (λ k. read_number k rest) (omega arith)
read_number-numeral (suc digits) n rest small =
    split (ltb n 10) refl (read_number-numeral digits (n / 10) (digit (n % 10) ∷ rest))
  where
    split :
        (b : Bool)
        → ltb n 10 ≡ b
        → (n / 10 < 10 ^ digits
            → read_number 0 (numeral 10 digits (n / 10) ++ (digit (n % 10) ∷ rest))
              ≡ read_number (n / 10) (digit (n % 10) ∷ rest))
        → read_number 0 (
            (if b then digit n ∷ [] else numeral 10 digits (n / 10) ++ digit (n % 10) ∷ []) ++ rest)
          ≡ read_number n rest
    split true one further =
        read_digit 0 n rest (ground arith) ∙ ap (λ k. read_number k rest) (omega arith)
    split false more further =
        ap (read_number 0) (append_assoc (numeral 10 digits (n / 10)) (digit (n % 10) ∷ []) rest)
        ∙ further (omega arith)
        ∙ read_digit (n / 10) (n % 10) rest (omega arith)
        ∙ ap (λ k. read_number k rest) (omega arith)

-- A label of a number below 2^32 and a suffix, which has a first character that is no digit.
read_label-decimal :
    (n c : ℕ) (cs : Text)
    → n < 2 ^ 32
    → is_digit c ≡ false
    → read_label (decimal n ++ (c ∷ cs)) ≡ size_of (n, c ∷ cs)
read_label-decimal n c cs small end =
    ap size_of (read_number-numeral 10 n (c ∷ cs) (omega arith) ∙ ended)
  where
    ended : read_number n (c ∷ cs) ≡ (n, c ∷ cs)
    ended = rw end refl

-- The text of the label of a valid size gives back its kind and its number, except that 1000
-- contracts or more are rounded down to whole thousands.
pub read_label-label :
    (size : BarSize) → is_valid size ≡ true → read_label (label size) ≡ some (rounded size)
unfolding label is_valid
read_label-label size valid = split size.bar_type size.size_value (ground arith)
  where
    split :
        (kind : BarType) (value : ℕ)
        → value < 2 ^ 32
        → read_label (label_of kind value)
          ≡ some (rounded (record { bar_type = kind; size_value = value }))
    split time value h = elim (Bool-cases (value % 3600 == 0)) [
      | inl hours ↦ rw hours (
          read_label-decimal (value / 3600) b'h' [] (omega arith) refl
          ∙ ap (λ n. some (record { bar_type = time; size_value = n })) (ground arith))
      | inr no_hours ↦ elim (Bool-cases (value % 60 == 0)) [
        | inl minutes ↦
            rw (no_hours, minutes)
              (read_label-decimal (value / 60) b'm' [] (omega arith) refl
                ∙ ap (λ n. some (record { bar_type = time; size_value = n })) (ground arith))
        | inr no_minutes ↦ rw (no_hours, no_minutes) (read_label-decimal value b's' [] h refl)
      ]
    ]
    split range value h = read_label-decimal value b'-' (codes "range") h refl
    split volume value h = elim (Bool-cases (leb 1000 value)) [
      | inl many ↦
          rw many (read_label-decimal (value / 1000) b'K' (codes "-vol") (omega arith) refl)
      | inr few ↦ rw few (read_label-decimal value b'-' (codes "vol") h refl)
    ]
