-- ===== src/Lines.antt =====
-- Text as lines: `bufio.Scanner` with its default split function, `strings.SplitN(line, "\t", 2)`
-- and `strings.TrimSpace`, as the dedup log of node/node_stream.go is read with them.
use event_stream_rainstorm.Prelude.{
  ℕ, ◌≤◌, ◌≡◌, refl, ◌∙◌, Bool, true, false, not, ◌&&◌, ◌||◌, List, [], ◌∷◌, ◌++◌, length, leb,
  nat_eq, ◌==◌, if◌then◌else◌, arith,
}
use event_stream_rainstorm.Prelude.Text.{Text, has_byte}

abbrev pub newline : ℕ
newline = 10

abbrev pub tab : ℕ
tab = 9

abbrev pub carriage_return : ℕ
carriage_return = 13

-- `bufio.MaxScanTokenSize` bytes hold a line and its end.
abbrev pub max_line : ℕ
max_line = 65535

-- The lines of a text, each without its end; a last line needs no end.
unfoldable pub split_lines : Text → List Text
split_lines [] = []
split_lines (c ∷ s) =
    if c == newline
    then [] ∷ split_lines s
    else elim (split_lines s) [ [] ↦ (c ∷ []) ∷ [] | l ∷ ls ↦ (c ∷ l) ∷ ls ]

-- `dropCR`
unfoldable pub drop_cr : Text → Text
drop_cr [] = []
drop_cr (c ∷ []) = if c == carriage_return then [] else c ∷ []
drop_cr (c ∷ d ∷ s) = c ∷ drop_cr (d ∷ s)

-- A line that is too long ends the scan, without an error that the program looks at.
unfoldable pub until_too_long : List Text → List Text
until_too_long [] = []
until_too_long (l ∷ ls) =
    let rest = until_too_long ls in if leb (length l) max_line then drop_cr l ∷ rest else []

unfoldable pub scan_lines : Text → List Text
scan_lines s = until_too_long (split_lines s)

abbrev pub is_space : ℕ → Bool
is_space c = (leb 9 c && leb c 13) || c == b' '

unfoldable pub trim_left : Text → Text
trim_left [] = []
trim_left (c ∷ s) = if is_space c then trim_left s else c ∷ s

unfoldable pub trim_right : Text → Text
trim_right [] = []
trim_right (c ∷ s) = elim (trim_right s) [
  | [] ↦ if is_space c then [] else c ∷ []
  | d ∷ t ↦ c ∷ d ∷ t
]

-- On ASCII.
unfoldable pub trim_space : Text → Text
unfolding trim_left trim_right
trim_space s = trim_right (trim_left s)

-- A text that a scan gives back as it is, when it ends a line.
abbrev pub IsLine : Text → Type 0
IsLine l =
    (has_byte newline l ≡ false) × (has_byte carriage_return l ≡ false) × (length l ≤ max_line)

split_lines-append :
    (l s : Text) → has_byte newline l ≡ false → split_lines (l ++ newline ∷ s) ≡ l ∷ split_lines s
unfolding split_lines has_byte
split_lines-append [] s h = ground arith
split_lines-append (c ∷ l) s h = ground (arith, split_lines-append l s)

drop_cr_absent : (l : Text) → has_byte carriage_return l ≡ false → drop_cr l ≡ l
unfolding drop_cr has_byte
drop_cr_absent [] h = refl
drop_cr_absent (c ∷ []) h = ground arith
drop_cr_absent (c ∷ d ∷ s) h = ground (arith, drop_cr_absent (d ∷ s))

-- A line that is written with its end is read back.
pub scan_lines-append : (l s : Text) → IsLine l → scan_lines (l ++ newline ∷ s) ≡ l ∷ scan_lines s
unfolding scan_lines until_too_long
scan_lines-append l s (n, r, short) = ground (arith, split_lines-append l s n, drop_cr_absent l r)

abbrev pub no_space : Text → Bool
no_space [] = true
no_space (c ∷ s) = not (is_space c) && no_space s

pub trim_space_absent : (s : Text) → no_space s ≡ true → trim_space s ≡ s
unfolding trim_space
trim_space_absent s h = left s h ∙ right s h
  where
    right : (s : Text) → no_space s ≡ true → trim_right s ≡ s
    right [] h = refl
    right (c ∷ s) h = ground (arith, right s)

    left : (s : Text) → no_space s ≡ true → trim_right (trim_left s) ≡ trim_right s
    left [] h = refl
    left (c ∷ s) h = ground arith
