-- ===== src/Task/Recovery.antt =====
-- `loadDedupLog` and the replay of `StartTask`, on a log that `PushTuple` has written.
use mathlib.Core.List.{append-nil, append_assoc}
use event_stream_rainstorm.Prelude.{
  ℕ, ◌+◌, ◌≡◌, refl, sym, ap, ◌∙◌, Bool, true, false, ◌||◌, Option, none, some, List, [], ◌∷◌, ◌++◌,
  map, All, nat_eq, ◌==◌, if◌then◌else◌, arith,
}
use event_stream_rainstorm.Prelude.Dict.{Dict, get, put, get-put}
use event_stream_rainstorm.Prelude.Text.{Text, text_eq, cut, cut-append, has_byte}
use event_stream_rainstorm.Lines
use event_stream_rainstorm.Lines.{
  newline, tab, scan_lines, scan_lines-append, trim_space, trim_space_absent, IsLine, no_space,
}
use event_stream_rainstorm.Task.{
  StreamTuple, RainStormTask, flag, processed, log_content, input_line, load_ids, load_dedup_log,
  replay_line, replay_lines, replay_log_data, StartTaskArgs, new_task, start_task,
}
use event_stream_rainstorm.Task.Feeding.{or_false, has_id}
use event_stream_rainstorm.Task.Delivery.{log_of}

-- The id and the line of a tuple, as the log holds it.
abbrev pub line_of : StreamTuple → Text
line_of t = t.message_id ++ tab ∷ t.value

-- A tuple that is read back as it was written: its id has no white space and is not empty, its
-- value has no end of line, and its line is not too long for the scanner.
abbrev pub IsPlain : StreamTuple → Type 0
IsPlain t = (no_space t.message_id ≡ true) × ((t.message_id == []) ≡ false) × IsLine (line_of t)

line_end :
    (t : StreamTuple) (s : Text) → log_content t.message_id t.value ++ s ≡ line_of t ++ newline ∷ s
line_end t s = simp append_assoc

scan_lines_nil : scan_lines [] ≡ []
unfolding scan_lines Lines.until_too_long Lines.split_lines
scan_lines_nil = refl

scan_lines-log_of :
    (ts : List StreamTuple) → All IsPlain ts → scan_lines (log_of ts) ≡ map line_of ts
unfolding log_of
scan_lines-log_of [] h = scan_lines_nil
scan_lines-log_of (t ∷ ts) h =
    ap scan_lines (line_end t (log_of ts))
    ∙ scan_lines-append (line_of t) (log_of ts) h.0.2
    ∙ ap (λ ls. line_of t ∷ ls) (scan_lines-log_of ts h.1)

no_tab : (s : Text) → no_space s ≡ true → has_byte tab s ≡ false
unfolding has_byte
no_tab [] h = refl
no_tab (c ∷ s) h = ground (arith, no_tab s)

cut-line_of : (t : StreamTuple) → IsPlain t → cut tab (line_of t) ≡ some (t.message_id, t.value)
cut-line_of t h = cut-append tab t.message_id t.value (no_tab t.message_id h.0)

load_ids-line :
    (t : StreamTuple) (lines : List Text) (ids : Dict Text Bool)
    → IsPlain t
    → load_ids (line_of t ∷ lines) ids ≡ load_ids lines (put t.message_id true ids)
unfolding load_ids
load_ids-line t lines ids h = ground (arith, cut-line_of t h, trim_space_absent t.message_id h.0)

pick_id :
    (t : StreamTuple) (ts : List StreamTuple) (id : Text) (found : Option Bool)
    → (flag (if t.message_id == id then some true else found) || has_id id ts)
      ≡ (flag found || has_id id (t ∷ ts))
unfolding has_id
pick_id t ts id none = ground arith
pick_id t ts id (some true) = ground arith
pick_id t ts id (some false) = ground arith

-- The ids of a log are those of the tuples written to it.
load_ids-lines :
    (ts : List StreamTuple) (ids : Dict Text Bool) (id : Text)
    → All IsPlain ts
    → flag (get id (load_ids (map line_of ts) ids)) ≡ (flag (get id ids) || has_id id ts)
unfolding load_ids has_id
load_ids-lines [] ids id h = sym (or_false _)
load_ids-lines (t ∷ ts) ids id h =
    ap (λ d. flag (get id d)) (load_ids-line t (map line_of ts) ids h.0)
    ∙ (load_ids-lines ts (put t.message_id true ids) id h.1
        ∙ ap (λ m. flag m || has_id id ts) (get-put t.message_id id true ids)
        ∙ pick_id t ts id (get id ids))

replay_line-line :
    (pipe : Bool) (x : StreamTuple) (t : RainStormTask)
    → IsPlain x
    → pipe ≡ true
    → t.stdin_closed ≡ false
    → replay_line false pipe (line_of x) t ≡ record t { stdin = t.stdin ++ input_line x.value ∷ [] }
unfolding replay_line
replay_line-line pipe x t h p o = ground (arith, cut-line_of x h)

-- The replay writes the values of the log to the operator, all of them and in order.
replay_lines-lines :
    (pipe : ℕ → Bool) (i : ℕ) (ts : List StreamTuple) (t : RainStormTask)
    → All IsPlain ts
    → ((j : ℕ) → pipe j ≡ true)
    → t.stdin_closed ≡ false
    → replay_lines false pipe i (map line_of ts) t
      ≡ record t { stdin = t.stdin ++ map (λ (x : StreamTuple). input_line x.value) ts }
unfolding replay_lines
replay_lines-lines pipe i [] t h p o = ap (λ l. record t { stdin = l }) (sym (append-nil _))
replay_lines-lines pipe i (x ∷ ts) t h p o =
    let t' = record t { stdin = t.stdin ++ input_line x.value ∷ [] } in
    ap (λ t. replay_lines false pipe (i + 1) (map line_of ts) t)
      (replay_line-line (pipe i) x t h.0 (p i) o)
    ∙ replay_lines-lines pipe (i + 1) ts t' h.1 p o
    ∙ ap (λ l. record t { stdin = l }) (append_assoc t.stdin _ _)

start_task_lem :
    (args : StartTaskArgs) (pipe : ℕ → Bool) (es : List StreamTuple)
    → All IsPlain es
    → ((j : ℕ) → pipe j ≡ true)
    → start_task args (some (log_of es)) pipe ≡ record (new_task args (some (log_of es))) {
      stdin = map (λ (t : StreamTuple). input_line t.value) es;
    }
unfolding start_task new_task replay_log_data
start_task_lem args pipe es h p =
    ap (λ ls. replay_lines false pipe 0 ls (new_task args (some (log_of es))))
      (scan_lines-log_of es h)
    ∙ replay_lines-lines pipe 0 es (new_task args (some (log_of es))) h p refl

pub start_task-open :
    (args : StartTaskArgs) (pipe : ℕ → Bool) (es : List StreamTuple)
    → All IsPlain es
    → ((j : ℕ) → pipe j ≡ true)
    → (start_task args (some (log_of es)) pipe).stdin_closed ≡ false
unfolding new_task
start_task-open args pipe es h p = ap (λ t. t.stdin_closed) (start_task_lem args pipe es h p)

-- A task that starts on the log of plain tuples, with a working pipe, gives their values to its
-- operator, all of them and in order.
pub start_task-stdin :
    (args : StartTaskArgs) (pipe : ℕ → Bool) (es : List StreamTuple)
    → All IsPlain es
    → ((j : ℕ) → pipe j ≡ true)
    → (start_task args (some (log_of es)) pipe).stdin
      ≡ map (λ (t : StreamTuple). input_line t.value) es
start_task-stdin args pipe es h p = ap (λ t. t.stdin) (start_task_lem args pipe es h p)

-- A task that starts on the log of plain tuples, with a working pipe, has the ids of these tuples
-- marked and no other.
pub start_task-marks :
    (args : StartTaskArgs) (pipe : ℕ → Bool) (es : List StreamTuple) (id : Text)
    → All IsPlain es
    → ((j : ℕ) → pipe j ≡ true)
    → processed id (start_task args (some (log_of es)) pipe) ≡ has_id id es
unfolding processed new_task load_dedup_log get
start_task-marks args pipe es id h p =
    ap (λ t. processed id t) (start_task_lem args pipe es h p)
    ∙ ap (λ ls. flag (get id (load_ids ls []))) (scan_lines-log_of es h)
    ∙ load_ids-lines es [] id h
