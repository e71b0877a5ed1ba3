-- ===== src/Client/Grep/Words.antt =====
-- The words of a command line that demo/demo.go joins, as a node splits them.
use event_stream_rainstorm.Prelude.{
  ℕ, ◌≡◌, refl, ap, ◌∙◌, false, some, List, [], ◌∷◌, ◌++◌, All, nat_eq, ◌==◌, arith,
}
use event_stream_rainstorm.Prelude.Text.{Text, text, text_eq, text_beq, has_byte, cut-append}
use event_stream_rainstorm.Lines.{newline}
use event_stream_rainstorm.Detector.{Node}
use event_stream_rainstorm.Commands.{
  get_log_file, split, space, read_command, Machine, handle_command, run_command, grep_connect,
}
use event_stream_rainstorm.Commands.Spread.{handle_words}
use event_stream_rainstorm.Client.Grep.{join, ends_line, command_line, grep_command}

-- A byte is in none of the texts.
abbrev pub Without : ℕ → List Text → Type 0
Without b ts = All (λ (t : Text). has_byte b t ≡ false) ts

split-part :
    (sep : ℕ) (part s : Text)
    → has_byte sep part ≡ false
    → split sep (part ++ sep ∷ s) ≡ part ∷ split sep s
unfolding split has_byte
split-part sep [] s h = ground arith
split-part sep (c ∷ part) s h = ground (arith, split-part sep part s)

split-last : (sep : ℕ) (part : Text) → has_byte sep part ≡ false → split sep part ≡ part ∷ []
unfolding split has_byte
split-last sep [] h = refl
split-last sep (c ∷ part) h = ground (arith, split-last sep part)

-- Splitting is the inverse of joining.
pub split-join :
    (sep : ℕ) (part : Text) (parts : List Text)
    → Without sep (part ∷ parts)
    → split sep (join sep (part ∷ parts)) ≡ part ∷ parts
unfolding join
split-join sep part [] h = split-last sep part h.0
split-join sep part (next ∷ parts) h =
    split-part sep part (join sep (next ∷ parts)) h.0
    ∙ ap (λ l. part ∷ l) (split-join sep next parts h.1)

has_byte-append :
    (b : ℕ) (s t : Text) → has_byte b s ≡ false → has_byte b t ≡ false → has_byte b (s ++ t) ≡ false
unfolding has_byte
has_byte-append b [] t h k = k
has_byte-append b (c ∷ s) t h k = ground (arith, has_byte-append b s t)

pub has_byte-join :
    (b sep : ℕ) (parts : List Text)
    → (sep == b) ≡ false
    → Without b parts
    → has_byte b (join sep parts) ≡ false
unfolding join has_byte
has_byte-join b sep [] e h = refl
has_byte-join b sep (part ∷ []) e h = h.0
has_byte-join b sep (part ∷ next ∷ parts) e h =
    has_byte-append b part (sep ∷ join sep (next ∷ parts)) h.0
      (rw e (has_byte-join b sep (next ∷ parts) e h.1))

ends_line_absent : (s : Text) → has_byte newline s ≡ false → ends_line s ≡ false
unfolding ends_line has_byte
ends_line_absent [] h = refl
ends_line_absent (c ∷ []) h = ground arith
ends_line_absent (c ∷ d ∷ s) h = ground (arith, ends_line_absent (d ∷ s))

-- The arguments that can be sent: at least one, without a space or an end of line in any.
abbrev pub AreSent : List Text → Type 0
AreSent [] = ⊥
AreSent (arg ∷ args) = Without space (arg ∷ args) × Without newline (arg ∷ args)

grep_words :
    (arg : Text) (args : List Text)
    → grep_command (arg ∷ args) ≡ join space (text "grep" ∷ arg ∷ args)
unfolding grep_command join
grep_words arg args = refl

read_command-line :
    (s : Text) → has_byte newline s ≡ false → read_command (command_line s) ≡ some (split space s)
unfolding read_command command_line
read_command-line s h = ground (arith, ends_line_absent s h, cut-append newline s [] h)

pub read_command-grep_command :
    (args : List Text)
    → AreSent args
    → read_command (command_line (grep_command args)) ≡ some (text "grep" ∷ args)
unfolding has_byte
read_command-grep_command [] h = absurd h
read_command-grep_command (arg ∷ args) (spaces, lines) =
    let words = text "grep" ∷ arg ∷ args in
    let one_line = has_byte-join newline space words refl (refl, lines) in
    rw (grep_words arg args) (
      read_command-line (join space words) one_line
      ∙ ap some (split-join space (text "grep") (arg ∷ args) (refl, spaces)))

run_grep :
    (m : Machine) (args : List Text) (node : Node)
    → (run_command m (text "grep") args node).reply
      ≡ grep_connect m.grep (get_log_file node.id) args
unfolding run_command text_beq
run_grep m args node = refl

-- A node that is sent the command of a search runs `grep` with the arguments that were typed.
pub handle_command-grep :
    (m : Machine) (args : List Text) (node : Node)
    → AreSent args
    → (handle_command m (command_line (grep_command args)) node).reply
      ≡ grep_connect m.grep (get_log_file node.id) args
handle_command-grep m args node h =
    rw
      (handle_words m (command_line (grep_command args)) (text "grep") args node
        (read_command-grep_command args h))
      (run_grep m args node)
