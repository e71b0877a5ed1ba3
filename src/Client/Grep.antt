-- ===== src/Client/Grep.antt =====
-- demo/demo.go: the command "grep" and `getGrepResult`, which asks all live nodes for the lines of
-- their logs.
pub mod Words
pub mod Total
use event_stream_rainstorm.Prelude.{
  ℕ, zero, suc, ◌+◌, Bool, true, false, ◌||◌, Option, none, some, List, [], ◌∷◌, ◌++◌, map, length,
  nat_eq, ◌==◌, if◌then◌else◌,
}
use event_stream_rainstorm.Prelude.Text.{Text, text, text_eq}
use event_stream_rainstorm.Lines.{newline, trim_space}
use event_stream_rainstorm.Constants.{command_port}
use event_stream_rainstorm.Member.{Member, is_alive, is_suspected}
use event_stream_rainstorm.Commands.{split, space, host_of}
use event_stream_rainstorm.Numbers.{pos, negsuc, atoi}

-- `strings.Join` with a separator of one byte
unfoldable pub join : ℕ → List Text → Text
join sep [] = []
join sep (part ∷ []) = part
join sep (part ∷ next ∷ parts) = part ++ sep ∷ join sep (next ∷ parts)

-- `strings.HasSuffix(s, "\n")`
unfoldable pub ends_line : Text → Bool
ends_line [] = false
ends_line (c ∷ []) = c == newline
ends_line (c ∷ d ∷ s) = ends_line (d ∷ s)

-- `SendCommand` of utils/utils.go: the line that is sent.
unfoldable pub command_line : Text → Text
unfolding ends_line
command_line command = if ends_line command then command else command ++ newline ∷ []

unfoldable pub grep_command : List Text → Text
unfolding join
grep_command grep_arg = text "grep " ++ join space grep_arg

-- Whether "-c" is among the arguments.
unfoldable pub c_in_args : List Text → Bool
c_in_args [] = false
c_in_args (arg ∷ args) = arg == text "-c" || c_in_args args

pub record CliResult : Type 0 where
  pub node_id : Text
  pub output : Text
  pub each_line_count : ℕ

-- The lines that an answer counts for. With "-c" it is the number in the answer, which `grep` prints
-- without a sign; an answer that is no number counts for none.
unfoldable pub line_count : Bool → Text → ℕ
unfolding split
line_count false output = length (split newline (trim_space output))
line_count true output = elim (atoi (trim_space output)) [
  | none ↦ 0
  | some (pos n) ↦ n
  | some (negsuc n) ↦ 0
]

abbrev pub is_asked : Member → Bool
is_asked m = is_alive m.state || is_suspected m.state

-- The address of a node for commands.
abbrev pub sent_addr : Member → Text
sent_addr m = host_of m.address ++ (text ":" ++ command_port)

-- What the goroutine of one member makes of the answer: nothing, if it is empty or there is none.
unfoldable pub result_of : Bool → Member → Option Text → Option CliResult
unfolding line_count
result_of c m none = none
result_of c m (some []) = none
result_of c m (some (b ∷ output)) =
    some
      (record { node_id = m.id; output = b ∷ output; each_line_count = line_count c (b ∷ output) })

-- `send` gives the answer to a command line at an address, if there is one.
unfoldable pub ask : (Text → Text → Option Text) → List Text → Bool → Member → Option CliResult
unfolding grep_command command_line result_of
ask send grep_arg c m = result_of c m (send (sent_addr m) (command_line (grep_command grep_arg)))

abbrev pub with_result : Option CliResult → List CliResult → List CliResult
with_result none rest = rest
with_result (some r) rest = r ∷ rest

unfoldable pub ask_all :
    (Text → Text → Option Text) → List Text → Bool → List Member → List CliResult
unfolding ask
ask_all send grep_arg c [] = []
ask_all send grep_arg c (m ∷ ms) =
    let rest = ask_all send grep_arg c ms in
    if is_asked m then with_result (ask send grep_arg c m) rest else rest

unfoldable pub sum_lines : List CliResult → ℕ
sum_lines [] = 0
sum_lines (r ∷ rs) = r.each_line_count + sum_lines rs

-- `getGrepResult`: the results in the order in which they arrive, and the number of lines.
unfoldable pub get_grep_result :
    (Text → Text → Option Text)
    → (List CliResult → List CliResult)
    → List Member
    → List Text
    → List CliResult × ℕ
unfolding ask_all sum_lines c_in_args
get_grep_result send arrivals memberlist grep_arg =
    let collected = arrivals (ask_all send grep_arg (c_in_args grep_arg) memberlist) in
    (collected, sum_lines collected)
