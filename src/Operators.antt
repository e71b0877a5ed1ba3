-- ===== src/Operators.antt =====
-- ops/identity, ops/filter, ops/count and ops/transform, the operators of a stage: programs from lines
-- to lines. Each is a function from its standard input to what it prints, one text for each print.
-- The column index is the argument as a number; one below 0, which panics, is left out.
pub mod Csv
pub mod Counting
use event_stream_rainstorm.Prelude.{
  ℕ, suc, ◌+◌, Bool, true, false, ◌&&◌, ◌||◌, Option, none, some, List, [], ◌∷◌, ◌++◌, map,
  get_elem?, ◌==◌, nat_eq, if◌then◌else◌,
}
use event_stream_rainstorm.Prelude.Dict.{Dict, get, put}
use event_stream_rainstorm.Prelude.Text.{Text, text, text_eq, decimal}
use event_stream_rainstorm.Lines.{newline, tab, scan_lines}
use Csv.{csv_read, csv_write}

abbrev println : Text → Text
println s = s ++ newline ∷ []

unfoldable pub identity : Text → List Text
identity stdin = map println (scan_lines stdin)

-- `strings.HasPrefix(s, p)`, `p` first
unfoldable has_prefix : Text → Text → Bool
has_prefix [] s = true
has_prefix (c ∷ p) [] = false
has_prefix (c ∷ p) (d ∷ s) = c == d && has_prefix p s

-- `strings.Contains(s, p)`, `p` first
unfoldable pub contains : Text → Text → Bool
unfolding has_prefix
contains p [] = has_prefix p []
contains p (c ∷ s) = has_prefix p (c ∷ s) || contains p s

-- A line that is no record, or has no such column, has the key "".
unfoldable pub key_of : ℕ → Text → Text
key_of col_idx line = elim (csv_read line) [
  | none ↦ []
  | some fields ↦ elim (get_elem? fields col_idx) [ none ↦ [] | some key ↦ key ]
]

-- What is printed of a line that contains the pattern; without a column it is the line.
unfoldable pub filtered : Option ℕ → Text → Text
unfolding key_of
filtered none line = println line
filtered (some col_idx) line = println (key_of col_idx line ++ tab ∷ line)

unfoldable pub filter_lines : Text → Option ℕ → List Text → List Text
unfolding contains filtered
filter_lines pattern column [] = []
filter_lines pattern column (line ∷ lines) =
    let rest = filter_lines pattern column lines in
    if contains pattern line then filtered column line ∷ rest else rest

unfoldable pub filter : Text → Option ℕ → Text → List Text
unfolding filter_lines
filter pattern column stdin = filter_lines pattern column (scan_lines stdin)

-- `counts[key]`
unfoldable pub count_of : Text → Dict Text ℕ → ℕ
count_of key counts = elim (get key counts) [ none ↦ 0 | some n ↦ n ]

unfoldable pub count_line : Text → ℕ → Text
count_line key n = println (key ++ text ": " ++ decimal n)

unfoldable pub count_lines : ℕ → Dict Text ℕ → List Text → List Text
unfolding key_of count_of count_line
count_lines col_idx counts [] = []
count_lines col_idx counts (line ∷ lines) =
    let key = key_of col_idx line in
    let n = count_of key counts + 1 in
    count_line key n ∷ count_lines col_idx (put key n counts) lines

unfoldable pub count : ℕ → Text → List Text
unfolding count_lines
count col_idx stdin = count_lines col_idx [] (scan_lines stdin)

-- A line with fewer than three fields, or that is no record, is dropped.
unfoldable pub transform_line : Text → List Text → List Text
transform_line line rest = elim (csv_read line) [
  | none ↦ rest
  | some [] ↦ rest
  | some (a ∷ []) ↦ rest
  | some (a ∷ b ∷ []) ↦ rest
  | some (a ∷ b ∷ c ∷ fields) ↦ csv_write (a ∷ b ∷ c ∷ []) ∷ rest
]

unfoldable pub transform_lines : List Text → List Text
unfolding transform_line
transform_lines [] = []
transform_lines (line ∷ lines) = let rest = transform_lines lines in transform_line line rest

unfoldable pub transform : Text → List Text
unfolding transform_lines
transform stdin = transform_lines (scan_lines stdin)
