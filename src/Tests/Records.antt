-- ===== src/Tests/Records.antt =====
-- Runs of the operators and of the reader and writer of records.
use event_stream_rainstorm.Prelude.{◌≡◌, refl, none, some, List, [], ◌∷◌, ◌++◌, length}
use event_stream_rainstorm.Prelude.Text.{Text, text, decimal, text_beq, has_byte}
use event_stream_rainstorm.Lines.{newline, scan_lines, until_too_long, split_lines, drop_cr}
use event_stream_rainstorm.Prelude.Dict.{get, put}
use event_stream_rainstorm.Operators.{key_of, count, count_line, filter, transform}
use event_stream_rainstorm.Operators.Csv.{csv_read, csv_write}
use event_stream_rainstorm.Operators.Counting.{count-counts}

read_quoted : csv_read (text "a,\"b\"\",c\",") ≡ some (text "a" ∷ text "b\",c" ∷ [] ∷ [])
unfolding csv_read drop_cr
read_quoted = refl

read_bare_quote : csv_read (text "a\"b") ≡ none
unfolding csv_read drop_cr
read_bare_quote = refl

read_open_quote : csv_read (text "x,\"b") ≡ none
unfolding csv_read drop_cr
read_open_quote = refl

write_quoted : csv_write (text "a" ∷ text "b\",c" ∷ [] ∷ []) ≡ text "a,\"b\"\",c\"," ++ newline ∷ []
unfolding csv_write text_beq has_byte
write_quoted = refl

abbrev stdin : Text
stdin =
    text "x,1" ++ newline ∷ text "y,2" ++ newline ∷ text "z,1" ++ newline ∷ text "x" ++ newline ∷ []

filter_run :
    filter (text "1") (some 1) stdin
    ≡ (text "1\tx,1" ++ newline ∷ []) ∷ (text "1\tz,1" ++ newline ∷ []) ∷ []
unfolding filter csv_read text_beq scan_lines until_too_long split_lines drop_cr
filter_run = refl

transform_run :
    transform (text "a,b" ++ newline ∷ text "a,b c,d,e" ++ newline ∷ [])
    ≡ (text "a,b c,d" ++ newline ∷ []) ∷ []
unfolding transform csv_read csv_write text_beq has_byte scan_lines until_too_long split_lines
    drop_cr
transform_run = refl

count_run :
    count 1 stdin
    ≡ (text "1: 1" ++ newline ∷ [])
      ∷ (text "2: 1" ++ newline ∷ [])
      ∷ (text "1: 2" ++ newline ∷ [])
      ∷ (text ": 1" ++ newline ∷ [])
      ∷ []
unfolding count csv_read decimal get put text_beq scan_lines until_too_long split_lines drop_cr
count_run = refl

count-counts_example :
    (printed later : List Text) × (count 1 stdin ≡ printed ++ count_line (text "1") 2 ∷ later)
    × (length printed ≡ 2)
unfolding key_of csv_read text_beq scan_lines until_too_long split_lines drop_cr
count-counts_example =
    count-counts 1 stdin (text "x,1" ∷ text "y,2" ∷ []) (text "x" ∷ []) (text "z,1") refl
