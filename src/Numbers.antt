-- ===== src/Numbers.antt =====
-- `strconv.Atoi` and `strconv.ParseBool`, as demo/demo.go reads its arguments with them, and what
-- `fmt.Sprint` writes for a number.
use event_stream_rainstorm.Prelude.{
  ℕ, zero, suc, ◌+◌, ◌-◌, ◌*◌, ◌/◌, ◌%◌, ◌≤◌, ◌<◌, ◌≡◌, refl, ◌∙◌, ap, sym, inl, inr, Bool, true,
  false, ◌&&◌, ◌||◌, Option, none, some, [], ◌∷◌, leb, ltb, nat_eq, ◌==◌, if◌then◌else◌, Bool-cases,
  arith, some-injective,
}
use event_stream_rainstorm.Prelude.Text.{Text, text, text_eq, text_beq, digits, decimal, has_byte}

pub data ℤ : Type 0 where
  pos negsuc : ℕ → ℤ

-- `math.MaxInt64`
abbrev pub max_int : ℕ
max_int = 9223372036854775807

abbrev is_digit : ℕ → Bool
is_digit c = leb b'0' c && leb c b'9'

-- The number that the digits of a text go on with.
unfoldable pub read_digits : ℕ → Text → Option ℕ
read_digits n [] = some n
read_digits n (c ∷ s) =
    let more = read_digits (10 * n + (c - b'0')) s in if is_digit c then more else none

unfoldable pub unsigned : Text → Option ℕ
unfolding read_digits
unsigned [] = none
unsigned (c ∷ s) = read_digits 0 (c ∷ s)

-- A number that is out of range is an error, like one that is badly written.
unfoldable pub atoi : Text → Option ℤ
unfolding unsigned
atoi [] = none
atoi (c ∷ s) =
    if c == b'-'
    then elim (unsigned s) [
      | none ↦ none
      | some zero ↦ some (pos 0)
      | some (suc n) ↦ if leb n max_int then some (negsuc n) else none
    ]
    else elim (unsigned (if c == b'+' then s else c ∷ s)) [
      | none ↦ none
      | some n ↦ if leb n max_int then some (pos n) else none
    ]

unfoldable pub parse_bool : Text → Option Bool
parse_bool s =
    if s == text "1"
      || s == text "t"
      || s == text "T"
      || s == text "true"
      || s == text "TRUE"
      || s == text "True"
    then some true
    else if s == text "0"
        || s == text "f"
        || s == text "F"
        || s == text "false"
        || s == text "FALSE"
        || s == text "False"
    then some false
    else none

read_digits-digits :
    (fuel n : ℕ) (rest : Text) → n < fuel → read_digits 0 (digits fuel n rest) ≡ read_digits n rest
unfolding read_digits digits
read_digits-digits zero n rest h = absurd (omega arith)
read_digits-digits (suc fuel) n rest h = elim (Bool-cases (ltb n 10)) [
  | inl e ↦ ground arith
  | inr e ↦
      let step : read_digits (n / 10) ((b'0' + n % 10) ∷ rest)
          ≡ read_digits (10 * (n / 10) + n % 10) rest =
        ground arith in
      let same : 10 * (n / 10) + n % 10 ≡ n = omega arith in
      rw e (
        read_digits-digits fuel (n / 10) ((b'0' + n % 10) ∷ rest) (ground arith)
        ∙ step
        ∙ ap (λ m. read_digits m rest) same)
]

-- A number is written with a digit first.
digits-head :
    (fuel n : ℕ) (rest : Text)
    → n < fuel
    → (c : ℕ) × (s : Text) × (digits fuel n rest ≡ c ∷ s) × (is_digit c ≡ true)
unfolding digits
digits-head zero n rest h = absurd (omega arith)
digits-head (suc fuel) n rest h = elim (Bool-cases (ltb n 10)) [
  | inl e ↦ (b'0' + n, rest, ground arith, ground arith)
  | inr e ↦
      let (c, s, f, d) = digits-head fuel (n / 10) ((b'0' + n % 10) ∷ rest) (ground arith) in
      (c, s, rw e f, d)
]

read_digits-decimal : (n : ℕ) → read_digits 0 (decimal n) ≡ some n
unfolding decimal read_digits
read_digits-decimal n = read_digits-digits (suc n) n [] (omega arith)

-- Different numbers are written differently.
pub decimal-injective : (m n : ℕ) → decimal m ≡ decimal n → m ≡ n
decimal-injective m n e =
    some-injective _ _ (sym (read_digits-decimal m) ∙ ap (read_digits 0) e ∙ read_digits-decimal n)

has_byte-digits :
    (b fuel n : ℕ) (rest : Text)
    → b < b'0'
    → has_byte b rest ≡ false
    → has_byte b (digits fuel n rest) ≡ false
unfolding digits has_byte
has_byte-digits b zero n rest l h = h
has_byte-digits b (suc fuel) n rest l h = elim (Bool-cases (ltb n 10)) [
  | inl e ↦ ground arith
  | inr e ↦
      let more : has_byte b ((b'0' + n % 10) ∷ rest) ≡ false = ground arith in
      rw e (has_byte-digits b fuel (n / 10) ((b'0' + n % 10) ∷ rest) l more)
]

-- A number is written without the bytes below the digits, such as "-".
pub has_byte-decimal : (b n : ℕ) → b < b'0' → has_byte b (decimal n) ≡ false
unfolding decimal has_byte
has_byte-decimal b n l = has_byte-digits b (suc n) n [] l refl

-- A text that begins with a digit has no sign.
atoi-unsigned :
    (c n : ℕ) (s : Text)
    → is_digit c ≡ true
    → read_digits 0 (c ∷ s) ≡ some n
    → n ≤ max_int
    → atoi (c ∷ s) ≡ some (pos n)
unfolding atoi unsigned
atoi-unsigned c n s d h k = ground arith

-- Reading a number gives back the number that was written.
pub atoi-decimal : (n : ℕ) → n ≤ max_int → atoi (decimal n) ≡ some (pos n)
unfolding decimal read_digits
atoi-decimal n h =
    let (c, s, e, d) = digits-head (suc n) n [] (omega arith) in
    let value : read_digits 0 (c ∷ s) ≡ some n =
      ap (read_digits 0) (sym e) ∙ read_digits-digits (suc n) n [] (omega arith) in
    ap atoi e ∙ atoi-unsigned c n s d value h

-- A truth value as the usage of the client writes it.
abbrev pub bool_text : Bool → Text
bool_text true = text "true"
bool_text false = text "false"

pub parse_bool-bool_text : (b : Bool) → parse_bool (bool_text b) ≡ some b
unfolding parse_bool text_beq
parse_bool-bool_text true = refl
parse_bool-bool_text false = refl
