-- ===== src/Operators/Counting.antt =====
-- What ops/count/op2_count.go prints of each line.
use event_stream_rainstorm.Prelude.{
  ℕ, suc, ◌+◌, ◌≡◌, refl, ap, List, [], ◌∷◌, ◌++◌, map, length, ◌==◌, if◌then◌else◌, arith,
}
use event_stream_rainstorm.Prelude.Dict.{Dict, get, put, get-put}
use event_stream_rainstorm.Prelude.Text.{Text, text_eq, text_beq_iff}
use event_stream_rainstorm.Lines.{scan_lines}
use event_stream_rainstorm.Operators.{key_of, count_of, count_line, count_lines, count}

-- How many of the keys are `k`.
abbrev pub occurrences : Text → List Text → ℕ
occurrences k [] = 0
occurrences k (j ∷ keys) = (if j == k then 1 else 0) + occurrences k keys

count_of-put :
    (k j : Text) (counts : Dict Text ℕ)
    → count_of j (put k (count_of k counts + 1) counts)
      ≡ (if k == j then 1 else 0) + count_of j counts
unfolding count_of
count_of-put k j counts =
    ground (arith, get-put k j (count_of k counts + 1) counts, text_beq_iff k j)

count_lines-counts :
    (col_idx n : ℕ) (counts : Dict Text ℕ) (before after : List Text) (line : Text)
    → n
      ≡ count_of (key_of col_idx line) counts
        + occurrences (key_of col_idx line) (map (key_of col_idx) before)
    → (printed later : List Text) × (count_lines col_idx counts (before ++ line ∷ after)
        ≡ printed ++ count_line (key_of col_idx line) (n + 1) ∷ later)
      × (length printed ≡ length before)
unfolding count_lines
count_lines-counts col_idx n counts [] after line h =
    let key = key_of col_idx line in
    let rest = count_lines col_idx (put key (count_of key counts + 1) counts) after in
    let same : count_of key counts ≡ n = omega (arith, h) in
    ([], rest, ap (λ m. count_line key (m + 1) ∷ rest) same, refl)
count_lines-counts col_idx n counts (l ∷ before) after line h =
    let key = key_of col_idx l in
    let m = count_of key counts + 1 in
    let next = put key m counts in
    let same : n
        ≡ count_of (key_of col_idx line) next
          + occurrences (key_of col_idx line) (map (key_of col_idx) before) =
      omega (arith, h, count_of-put key (key_of col_idx line) counts) in
    let (printed, later, e, le) = count_lines-counts col_idx n next before after line same in
    (count_line key m ∷ printed, later, ap (λ r. count_line key m ∷ r) e, ap suc le)

-- For each line of the input, `count` prints at its place the line's key and how many of the lines up
-- to it, itself included, have that key.
pub count-counts :
    (col_idx : ℕ) (stdin : Text) (before after : List Text) (line : Text)
    → scan_lines stdin ≡ before ++ line ∷ after
    → let key = key_of col_idx line in
      (printed later : List Text) × (count col_idx stdin
        ≡ printed ++ count_line key (occurrences key (map (key_of col_idx) before) + 1) ∷ later)
      × (length printed ≡ length before)
unfolding count count_of get
count-counts col_idx stdin before after line e = rw (e) (
    count_lines-counts col_idx (occurrences (key_of col_idx line) (map (key_of col_idx) before)) []
      before after line (omega arith))
