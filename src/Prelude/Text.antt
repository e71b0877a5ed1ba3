-- ===== src/Prelude/Text.antt =====
-- A Go string is a sequence of bytes. Bytes are numbers; the range is not part of the type.
use Prim.Native.Nat.{ℕ, zero, suc, ◌+◌, ◌/◌, ◌%◌}
use Prim.Native.Char.{code}
use Prim.Native.String.{String}
use mathlib.Core.Path.{◌≡◌, refl}
use mathlib.Core.Logic.{◌↔◌}
use mathlib.Core.Bool.{Bool, true, false, ◌&&◌}
use mathlib.Core.List.{List, [], ◌∷◌, ◌++◌}
use mathlib.Core.Option.{Option, none, some}
use native.Mathlib.Omega.{arith}
use event_stream_rainstorm.Prelude.Tests.{ltb, Eq, nat_eq, ◌==◌, if◌then◌else◌}
use event_stream_rainstorm.Prelude.Sorting.{Order}

abbrev pub Text : Type 0
Text = List ℕ

-- A literal, which is ASCII in the source.
abbrev pub text : String → Text
text String.[] = []
text (String.◌∷◌ c s) = code c ∷ text s

unfoldable pub text_beq : Text → Text → Bool
text_beq [] [] = true
text_beq [] (d ∷ t) = false
text_beq (c ∷ s) [] = false
text_beq (c ∷ s) (d ∷ t) = c == d && text_beq s t

pub text_beq→eq : (s t : Text) → text_beq s t ≡ true → s ≡ t
unfolding text_beq
text_beq→eq [] [] h = refl
text_beq→eq [] (d ∷ t) h = ground arith
text_beq→eq (c ∷ s) [] h = ground arith
text_beq→eq (c ∷ s) (d ∷ t) h = ground (arith, text_beq→eq s t)

pub text_beq_refl : (s : Text) → text_beq s s ≡ true
unfolding text_beq
text_beq_refl [] = refl
text_beq_refl (c ∷ s) = ground (arith, text_beq_refl s)

pub text_beq_iff : (s t : Text) → (text_beq s t ≡ true) ↔ (s ≡ t)
text_beq_iff s t = (text_beq→eq s t, λ e. rw e (text_beq_refl t))

instance abbrev pub text_eq : Eq Text
text_eq = record { beq = text_beq; decides = text_beq_iff }

-- Go compares strings byte by byte.
unfoldable pub le_text? : Text → Text → Bool
le_text? [] ys = true
le_text? (x ∷ xs) [] = false
le_text? (x ∷ xs) (y ∷ ys) = if x == y then le_text? xs ys else ltb x y

pub le_text?_total : (xs ys : Text) → le_text? xs ys ≡ false → le_text? ys xs ≡ true
unfolding le_text?
le_text?_total [] ys h = ground arith
le_text?_total (x ∷ xs) [] h = refl
le_text?_total (x ∷ xs) (y ∷ ys) h = ground (arith, le_text?_total xs ys)

pub le_text?_trans :
    (xs ys zs : Text) → le_text? xs ys ≡ true → le_text? ys zs ≡ true → le_text? xs zs ≡ true
unfolding le_text?
le_text?_trans [] ys zs h k = refl
le_text?_trans (x ∷ xs) [] zs h k = ground arith
le_text?_trans (x ∷ xs) (y ∷ ys) [] h k = ground arith
le_text?_trans (x ∷ xs) (y ∷ ys) (z ∷ zs) h k = ground (arith, le_text?_trans xs ys zs)

pub le_text?_antisymm : (xs ys : Text) → le_text? xs ys ≡ true → le_text? ys xs ≡ true → xs ≡ ys
unfolding le_text?
le_text?_antisymm [] [] h k = refl
le_text?_antisymm [] (y ∷ ys) h k = ground arith
le_text?_antisymm (x ∷ xs) [] h k = ground arith
le_text?_antisymm (x ∷ xs) (y ∷ ys) h k = ground (arith, le_text?_antisymm xs ys)

instance abbrev pub text_order : Order Text
text_order = record {
  le? = le_text?;
  total = le_text?_total;
  trans = le_text?_trans;
  antisymm = le_text?_antisymm;
}

-- `strings.Index(s, sep)` and the two slices about it, for a separator of one byte.
unfoldable pub cut : ℕ → Text → Option (Text × Text)
cut sep [] = none
cut sep (c ∷ s) =
    if c == sep
    then some ([], s)
    else elim (cut sep s) [ none ↦ none | some (l, r) ↦ some (c ∷ l, r) ]

-- `s[:strings.LastIndex(s, sep)]`
unfoldable pub before_last : ℕ → Text → Option Text
before_last sep [] = none
before_last sep (c ∷ s) = elim (before_last sep s) [
  | some l ↦ some (c ∷ l)
  | none ↦ if c == sep then some [] else none
]

-- `strings.Contains(s, sep)` for one byte
unfoldable pub has_byte : ℕ → Text → Bool
has_byte b [] = false
has_byte b (c ∷ s) = if c == b then true else has_byte b s

-- Cutting at the first separator is the inverse of joining with it.
pub cut-append :
    (sep : ℕ) (l r : Text) → has_byte sep l ≡ false → cut sep (l ++ sep ∷ r) ≡ some (l, r)
unfolding cut has_byte
cut-append sep [] r h = ground arith
cut-append sep (c ∷ l) r h = ground (arith, cut-append sep l r)

pub before_last-append :
    (sep : ℕ) (l r : Text) → has_byte sep r ≡ false → before_last sep (l ++ sep ∷ r) ≡ some l
unfolding before_last has_byte
before_last-append sep [] r h = ground (arith, before_last_absent sep r h)
  where
    before_last_absent : (b : ℕ) (s : Text) → has_byte b s ≡ false → before_last b s ≡ none
    before_last_absent b [] k = refl
    before_last_absent b (c ∷ s) k = ground (arith, before_last_absent b s)
before_last-append sep (c ∷ l) r h = ground (arith, before_last-append sep l r h)

-- The decimal digits of a number, before those of `rest`; each digit takes one unit of fuel, and a
-- number has no more digits than its own value, and one.
unfoldable pub digits : ℕ → ℕ → Text → Text
digits zero n rest = rest
digits (suc fuel) n rest =
    let more = digits fuel (n / 10) ((b'0' + n % 10) ∷ rest) in
    if ltb n 10 then (b'0' + n) ∷ rest else more

unfoldable pub decimal : ℕ → Text
unfolding digits
decimal n = digits (suc n) n []
