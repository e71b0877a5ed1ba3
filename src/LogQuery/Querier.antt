-- ===== src/LogQuery/Querier.antt =====
-- distributed_log_querier/client/client.go: the client that asks the log servers of a list of machines.
pub mod Unknown
use event_stream_rainstorm.Prelude.{
  ℕ, ◌+◌, Bool, true, false, ◌&&◌, Option, none, some, List, [], ◌∷◌, ◌++◌, length, leb,
  if◌then◌else◌,
}
use event_stream_rainstorm.Prelude.Text.{Text}
use event_stream_rainstorm.Lines.{newline, max_line, split_lines, scan_lines}
use event_stream_rainstorm.Numbers.{pos, negsuc, atoi}
use event_stream_rainstorm.Commands.{space}
use event_stream_rainstorm.Client.Grep.{join}

pub record ConfigStruct : Type 0 where
  pub name : Text
  pub addr : Text
  pub filepath : Text

pub record ResultStruct : Type 0 where
  pub name : Text
  pub vm_addr : Text
  pub log_output : List Text
  pub total_line : ℕ

abbrev all_short : List Text → Bool
all_short [] = true
all_short (l ∷ ls) = leb (length l) max_line && all_short ls

-- The scan of an answer; a line that is too long is an error here.
unfoldable pub read_answer : Text → Option (List Text)
read_answer s = if all_short (split_lines s) then some (scan_lines s) else none

-- The line that is sent.
unfoldable pub query_line : List Text → Text → Text
unfolding join
query_line grep_args filepath = join space (grep_args ++ filepath ∷ []) ++ newline ∷ []

unfoldable pub result_from : ConfigStruct → Option (List Text) → Option ResultStruct
result_from vmconfig none = none
result_from vmconfig (some []) = none
result_from vmconfig (some (l ∷ ls)) = some (record {
  name = vmconfig.name;
  vm_addr = vmconfig.addr;
  log_output = l ∷ ls;
  total_line = length (l ∷ ls);
})

unfoldable pub result_at : ConfigStruct → Option Text → Option ResultStruct
unfolding read_answer result_from
result_at vmconfig none = none
result_at vmconfig (some answer) = result_from vmconfig (read_answer answer)

-- `getFromServer`; `send` gives what a server answers, if it can be reached.
unfoldable pub get_from_server :
    (Text → Text → Option Text) → List Text → ConfigStruct → Option ResultStruct
unfolding query_line result_at
get_from_server send grep_args vmconfig =
    result_at vmconfig (send vmconfig.addr (query_line grep_args vmconfig.filepath))

abbrev pub with_result : Option ResultStruct → List ResultStruct → List ResultStruct
with_result none rest = rest
with_result (some result) rest = result ∷ rest

unfoldable pub get_all :
    (Text → Text → Option Text) → List Text → List ConfigStruct → List ResultStruct
unfolding get_from_server
get_all send grep_args [] = []
get_all send grep_args (vmconfig ∷ configs) =
    with_result (get_from_server send grep_args vmconfig) (get_all send grep_args configs)

-- With "-c" the first line is a number, which `grep` prints without a sign.
unfoldable pub counted_lines : Bool → ResultStruct → ResultStruct
counted_lines false r = r
counted_lines true r = elim r.log_output [
  | [] ↦ r
  | l ∷ ls ↦ elim (atoi l) [
    | none ↦ r
    | some (pos n) ↦ record r { total_line = n }
    | some (negsuc n) ↦ record r { total_line = 0 }
  ]
]

unfoldable pub collect : Bool → List ResultStruct → List ResultStruct × ℕ
unfolding counted_lines
collect c_in_args [] = ([], 0)
collect c_in_args (r ∷ rs) =
    let (results, sum) = collect c_in_args rs in
    let r' = counted_lines c_in_args r in (r' ∷ results, r'.total_line + sum)

-- `GetLogandTotalLine`, with the results in the order in which they come.
unfoldable pub get_log_and_total_line :
    (Text → Text → Option Text)
    → (List ResultStruct → List ResultStruct)
    → List ConfigStruct
    → List Text
    → Bool
    → List ResultStruct × ℕ
unfolding get_all collect
get_log_and_total_line send arrivals configs grep_args c_in_args =
    collect c_in_args (arrivals (get_all send grep_args configs))
