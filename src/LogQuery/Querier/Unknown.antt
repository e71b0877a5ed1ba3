-- ===== src/LogQuery/Querier/Unknown.antt =====
-- What the client of distributed_log_querier counts with the servers as they are.
use mathlib.Core.List.{Perm}
use event_stream_rainstorm.Prelude.{
  suc, ◌≡◌, refl, sym, ap, subst, ◌∙◌, inl, inr, Bool, false, ◌||◌, Option, none, some, List, [],
  ◌∷◌, ◌++◌, All, length, select, Bool-cases, ◌==◌, nat_eq, if◌then◌else◌, arith,
}
use event_stream_rainstorm.Prelude.Text.{Text, text, text_eq, cut-append, has_byte}
use event_stream_rainstorm.Prelude.DictPerm.{All-perm}
use event_stream_rainstorm.Prelude.Sorting.{length-perm}
use event_stream_rainstorm.Lines.{newline, split_lines, scan_lines, until_too_long, drop_cr}
use event_stream_rainstorm.Detector.{Node}
use event_stream_rainstorm.Commands.{space, read_command}
use event_stream_rainstorm.Client.Grep.{join}
use event_stream_rainstorm.Client.Grep.Words.{Without, split-join, has_byte-join}
use event_stream_rainstorm.LogQuery.{Server, Served, run_server_command, connect_to_server}
use event_stream_rainstorm.LogQuery.Querier.{
  ConfigStruct, ResultStruct, read_answer, query_line, result_from, result_at, with_result,
  get_from_server, get_all, counted_lines, collect, get_log_and_total_line,
}

-- The commands of the server.
abbrev pub is_command : Text → Bool
is_command w =
    w == text "grep"
    || w == text "list_mem"
    || w == text "list_self"
    || w == text "display_suspects"
    || w == text "display_protocol"
    || w == text "switch"

abbrev unknown : Text
unknown =
    text
      "Error: Unknown command. Available: grep, list_mem, list_self, display_suspects, display_protocol, switch, append"

run_unknown :
    (server : Server) (w : Text) (args : List Text) (global : Option Node)
    → is_command w ≡ false
    → (run_server_command server w args global).reply ≡ unknown ++ newline ∷ []
unfolding run_server_command
run_unknown server w args global h = ground arith

connect_unknown :
    (server : Server) (w : Text) (args : List Text) (global : Option Node)
    → is_command w ≡ false
    → Without space (w ∷ args)
    → Without newline (w ∷ args)
    → (connect_to_server server (join space (w ∷ args) ++ newline ∷ []) global).reply
      ≡ unknown ++ newline ∷ []
unfolding connect_to_server read_command
connect_unknown server w args global h spaces lines =
    let line = join space (w ∷ args) in
    let one : has_byte newline line ≡ false = has_byte-join newline space (w ∷ args) refl lines in
    let words : read_command (line ++ newline ∷ []) ≡ some (w ∷ args) =
      ground (arith, cut-append newline line [] one, split-join space w args spaces) in
    let ran : connect_to_server server (line ++ newline ∷ []) global
        ≡ run_server_command server w args global =
      ground (arith, words) in
    ap (λ (o : Served). o.reply) ran ∙ run_unknown server w args global h

read_unknown : read_answer (unknown ++ newline ∷ []) ≡ some (unknown ∷ [])
unfolding read_answer split_lines scan_lines until_too_long drop_cr
read_unknown = refl

-- The servers by address, and which of them can be reached.
pub record Servers : Type 0 where
  pub server : Text → Server
  pub node : Text → Option Node
  pub is_up : Text → Bool

abbrev pub answers : Servers → Text → Text → Option Text
answers all addr line =
    if all.is_up addr
    then some (connect_to_server (all.server addr) line (all.node addr)).reply
    else none

-- A query that can be sent: no word with a space or an end of line, the name of the file included.
abbrev pub IsSent : List Text → ConfigStruct → Type 0
IsSent words c =
    Without space (words ++ c.filepath ∷ []) × Without newline (words ++ c.filepath ∷ [])

module _ (all : Servers) (w : Text) (args : List Text) (not_command : is_command w ≡ false) where
  abbrev one_line : ConfigStruct → ResultStruct
  one_line c = record { name = c.name; vm_addr = c.addr; log_output = unknown ∷ []; total_line = 1 }

  get_unknown :
      (c : ConfigStruct)
      → IsSent (w ∷ args) c
      → get_from_server (answers all) (w ∷ args) c
        ≡ (if all.is_up c.addr then some (one_line c) else none)
  unfolding get_from_server query_line result_at result_from
  get_unknown c h =
      let line = query_line (w ∷ args) c.filepath in
      let reply =
        connect_unknown (all.server c.addr) w (args ++ c.filepath ∷ []) (all.node c.addr)
          not_command h.0 h.1 in
      elim (Bool-cases (all.is_up c.addr)) [
        | inl e ↦
            let said : answers all c.addr line ≡ some (unknown ++ newline ∷ []) =
              rw e (ap some reply) in
            let back : some (one_line c) ≡ (if all.is_up c.addr then some (one_line c) else none) =
              rw e refl in
            ap (result_at c) said ∙ ap (result_from c) read_unknown ∙ back
        | inr e ↦
            let silent : answers all c.addr line ≡ none = rw e refl in
            let down : (if all.is_up c.addr then some (one_line c) else none) ≡ none = rw e refl in
            ap (result_at c) silent ∙ sym down
      ]

  get_all-unknown :
      (configs : List ConfigStruct)
      → All (IsSent (w ∷ args)) configs
      → All (λ (r : ResultStruct). r.total_line ≡ 1) (get_all (answers all) (w ∷ args) configs)
        × (length (get_all (answers all) (w ∷ args) configs)
            ≡ length (select (λ (c : ConfigStruct). all.is_up c.addr) configs))
  unfolding get_all
  get_all-unknown [] h = (tt, refl)
  get_all-unknown (c ∷ configs) h =
      let rest = get_all (answers all) (w ∷ args) configs in
      let (ones, len) = get_all-unknown configs h.1 in
      elim (Bool-cases (all.is_up c.addr)) [
        | inl e ↦
            let up : (if all.is_up c.addr then some (one_line c) else none) ≡ some (one_line c) =
              rw e refl in
            let more : get_all (answers all) (w ∷ args) (c ∷ configs) ≡ one_line c ∷ rest =
              ap (λ o. with_result o rest) (get_unknown c h.0 ∙ up) in
            (
              subst (All (λ (r : ResultStruct). r.total_line ≡ 1)) (sym more) (refl, ones),
              ap length more ∙ rw e (ap suc len),
            )
        | inr e ↦
            let down : (if all.is_up c.addr then some (one_line c) else none) ≡ none = rw e refl in
            let same : get_all (answers all) (w ∷ args) (c ∷ configs) ≡ rest =
              ap (λ o. with_result o rest) (get_unknown c h.0 ∙ down) in
            (
              subst (All (λ (r : ResultStruct). r.total_line ≡ 1)) (sym same) ones,
              ap length same ∙ rw e len,
            )
      ]

collect_ones :
    (rs : List ResultStruct)
    → All (λ (r : ResultStruct). r.total_line ≡ 1) rs
    → (collect false rs).1 ≡ length rs
unfolding collect counted_lines
collect_ones [] h = refl
collect_ones (r ∷ rs) h = omega (arith, collect_ones rs h.1, h.0)

-- A query whose first word is no command of the server, such as a flag or the pattern, which is what
-- the client sends, counts one line for each server that can be reached, whatever the logs hold: it
-- is the line of the error.
pub get_log_and_total_line-unknown :
    (all : Servers) (w : Text) (args : List Text) (configs : List ConfigStruct)
    (arrivals : List ResultStruct → List ResultStruct)
    → is_command w ≡ false
    → All (IsSent (w ∷ args)) configs
    → ((rs : List ResultStruct) → Perm rs (arrivals rs))
    → (get_log_and_total_line (answers all) arrivals configs (w ∷ args) false).1
      ≡ length (select (λ (c : ConfigStruct). all.is_up c.addr) configs)
unfolding get_log_and_total_line
get_log_and_total_line-unknown all w args configs arrivals h k order =
    let results = get_all (answers all) (w ∷ args) configs in
    let (ones, len) = get_all-unknown all w args h configs k in
    collect_ones (arrivals results)
      (All-perm (λ (r : ResultStruct). r.total_line ≡ 1) (λ r. hlevel) (order results) ones)
    ∙ sym (length-perm (order results))
    ∙ len
