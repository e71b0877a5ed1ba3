-- ===== src/Client/Grep/Total.antt =====
-- What `getGrepResult` of demo/demo.go counts, with nodes that answer as `HandleCommand` of
-- node/node.go does.
use event_stream_rainstorm.Prelude.{
  ℕ, ◌+◌, Bool, Option, none, some, List, [], ◌∷◌, nat_eq, if◌then◌else◌, ◌&&◌,
}
use event_stream_rainstorm.Prelude.Text.{Text, text_eq}
use event_stream_rainstorm.Member.{Member}
use event_stream_rainstorm.Detector.{Node}
use event_stream_rainstorm.Commands.{get_log_file, Machine, handle_command, grep_connect}
use event_stream_rainstorm.Client.Grep.{line_count, is_asked, sent_addr, c_in_args}
use event_stream_rainstorm.Client.Grep.Words.{AreSent}

-- The nodes by their addresses for commands, and which of them can be reached.
pub record Machines : Type 0 where
  pub machine : Text → Machine
  pub node : Text → Node
  pub is_up : Text → Bool

-- How they answer a command line.
abbrev pub answer_of : Machines → Text → Text → Option Text
answer_of all addr line =
    if all.is_up addr
    then some (handle_command (all.machine addr) line (all.node addr)).reply
    else none

-- What the `grep` of a node prints for these arguments.
abbrev pub found_at : Machines → List Text → Text → Text
found_at all args addr = grep_connect (all.machine addr).grep (get_log_file (all.node addr).id) args

abbrev pub lines_in : Bool → Text → ℕ
lines_in c [] = 0
lines_in c (b ∷ output) = line_count c (b ∷ output)

-- The lines that the members which are asked and answer have found.
abbrev pub lines_at : Machines → List Text → Member → ℕ
lines_at all args m =
    if is_asked m && all.is_up (sent_addr m)
    then lines_in (c_in_args args) (found_at all args (sent_addr m))
    else 0

abbrev pub total_lines : Machines → List Text → List Member → ℕ
total_lines all args [] = 0
total_lines all args (m ∷ ms) = lines_at all args m + total_lines all args ms

module _ (all : Machines) (args : List Text) (sent : AreSent args) where
  answer_lines : Option Text → ℕ
  answer_lines none = 0
  answer_lines (some output) = lines_in (c_in_args args) output
