-- ===== src/Operators/Csv.antt =====
-- `encoding/csv` of the Go library, as the operators use it: a reader of one line, with any number of
-- fields and strict quotes, and a writer.
use event_stream_rainstorm.Prelude.{
  ℕ, Bool, false, ◌||◌, Option, none, some, List, [], ◌∷◌, ◌++◌, ◌==◌, nat_eq, if◌then◌else◌,
}
use event_stream_rainstorm.Prelude.Text.{Text, text, text_eq, has_byte}
use event_stream_rainstorm.Lines.{newline, carriage_return, is_space, drop_cr}

abbrev pub comma : ℕ
comma = 44

abbrev pub quote : ℕ
quote = 34

-- Where the reader stands: before a field, in a plain one, in a quoted one, after a quote in one, and
-- past an error.
pub data Place : Type 0 where
  field_start plain quoted quote_seen bad : Place

unfoldable pub next : Place → ℕ → Place
next field_start c = if c == quote then quoted else if c == comma then field_start else plain
next plain c = if c == quote then bad else if c == comma then field_start else plain
next quoted c = if c == quote then quote_seen else quoted
next quote_seen c = if c == quote then quoted else if c == comma then field_start else bad
next bad c = bad

abbrev keep : ℕ → List Text → List Text
keep c [] = []
keep c (f ∷ fs) = (c ∷ f) ∷ fs

-- The fields with the byte `c`, from those of what follows it.
unfoldable pub taken : Place → ℕ → List Text → List Text
taken field_start c fs = if c == quote then fs else if c == comma then [] ∷ fs else keep c fs
taken plain c fs = if c == comma then [] ∷ fs else keep c fs
taken quoted c fs = if c == quote then fs else keep c fs
taken quote_seen c fs = if c == comma then [] ∷ fs else keep c fs
taken bad c fs = fs

unfoldable pub read_fields : Place → Text → Option (List Text)
unfolding next taken
read_fields field_start [] = some ([] ∷ [])
read_fields plain [] = some ([] ∷ [])
read_fields quoted [] = none
read_fields quote_seen [] = some ([] ∷ [])
read_fields bad [] = none
read_fields place (c ∷ s) = elim (read_fields (next place c) s) [
  | none ↦ none
  | some fs ↦ some (taken place c fs)
]

-- `Reader.Read` of a line; an empty one is the end of the input, which is an error.
unfoldable pub csv_read : Text → Option (List Text)
unfolding read_fields
csv_read line = elim (drop_cr line) [ [] ↦ none | c ∷ s ↦ read_fields field_start (c ∷ s) ]

abbrev starts_with_space : Text → Bool
starts_with_space [] = false
starts_with_space (c ∷ s) = is_space c

-- `fieldNeedsQuotes`, on ASCII
abbrev needs_quotes : Text → Bool
needs_quotes s =
    s == text "\\."
    || has_byte comma s
    || has_byte quote s
    || has_byte carriage_return s
    || has_byte newline s
    || starts_with_space s

unfoldable pub double_quotes : Text → Text
double_quotes [] = []
double_quotes (c ∷ s) =
    let rest = double_quotes s in if c == quote then quote ∷ quote ∷ rest else c ∷ rest

unfoldable pub write_field : Text → Text
unfolding double_quotes
write_field s = if needs_quotes s then quote ∷ double_quotes s ++ quote ∷ [] else s

-- `Writer.Write`, with its newline
unfoldable pub csv_write : List Text → Text
unfolding write_field
csv_write [] = newline ∷ []
csv_write (f ∷ []) = write_field f ++ newline ∷ []
csv_write (f ∷ g ∷ fs) = write_field f ++ comma ∷ csv_write (g ∷ fs)
