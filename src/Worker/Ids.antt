-- ===== src/Worker/Ids.antt =====
-- The message ids of node/node_stream.go, by which a task knows a tuple it has had.
use mathlib.Core.List.{append_cancel_left}
use event_stream_rainstorm.Prelude.{
  ℕ, ◌+◌, ◌≤◌, ◌<◌, ◌≡◌, ◌≢◌, refl, sym, ap, ◌∙◌, some-injective, List, [], ◌∷◌, ◌++◌, All, All-imp,
  nat_eq, arith,
}
use event_stream_rainstorm.Prelude.Text.{Text, text, text_eq, cut, cut-append, decimal}
use event_stream_rainstorm.Numbers.{decimal-injective, has_byte-decimal}
use event_stream_rainstorm.Task.{StreamTuple, RainStormTask}
use event_stream_rainstorm.Worker.{output_id, output_tuple, output_tuples}
use event_stream_rainstorm.Worker.Sending.{source_tuple, source_tuples}

abbrev dash : ℕ
dash = b'-'

-- A number before a dash is read off a text.
cut-decimal :
    (m n : ℕ) (s t : Text) → decimal m ++ dash ∷ s ≡ decimal n ++ dash ∷ t → (m ≡ n) × (s ≡ t)
cut-decimal m n s t e =
    let left = cut-append dash (decimal m) s (has_byte-decimal dash m (omega arith)) in
    let right = cut-append dash (decimal n) t (has_byte-decimal dash n (omega arith)) in
    let both : (decimal m, s) ≡ (decimal n, t) =
      some-injective _ _ (sym left ∙ ap (cut dash) e ∙ right) in
    (decimal-injective m n (ap (λ (p : Text × Text). p.0) both), ap (λ (p : Text × Text). p.1) both)

-- The id of a tuple of a task's output tells the stage, the task and the place in the output.
pub output_id-injective :
    (s t n s' t' n' : ℕ) → output_id s t n ≡ output_id s' t' n' → (s ≡ s') × (t ≡ t') × (n ≡ n')
unfolding output_id
output_id-injective s t n s' t' n' e =
    let (a, more) =
      cut-decimal s s' (decimal t ++ dash ∷ decimal n) (decimal t' ++ dash ∷ decimal n') e in
    let (b, last) = cut-decimal t t' (decimal n) (decimal n') more in
    (a, b, decimal-injective n n' last)

source_id-injective :
    (vm_name : Text) (m n : ℕ) (line line' : Text)
    → (source_tuple vm_name m line).message_id ≡ (source_tuple vm_name n line').message_id
    → m ≡ n
unfolding source_tuple
source_id-injective vm_name m n line line' e = decimal-injective m n (
    append_cancel_left (text "-") _ _ (
      append_cancel_left vm_name (text "-" ++ decimal m) (text "-" ++ decimal n)
        (append_cancel_left (text "src-") _ _ e)))

-- No two tuples have one id.
abbrev pub AreDistinct : List StreamTuple → Type 0
AreDistinct [] = Unit
AreDistinct (t ∷ ts) = All (λ (u : StreamTuple). t.message_id ≢ u.message_id) ts × AreDistinct ts

source_later :
    (vm_name : Text) (m n : ℕ) (line : Text) (lines : List Text)
    → m < n
    → All
        (λ (u : StreamTuple). (source_tuple vm_name m line).message_id ≢ u.message_id)
        (source_tuples vm_name n lines)
unfolding source_tuples
source_later vm_name m n line [] l = tt
source_later vm_name m n line (line' ∷ lines) l = (
  λ e. absurd (omega (arith, source_id-injective vm_name m n line line' e)),
  source_later vm_name m (n + 1) line lines (omega arith),
)

pub source_tuples-AreDistinct :
    (vm_name : Text) (seq : ℕ) (lines : List Text) → AreDistinct (source_tuples vm_name seq lines)
unfolding source_tuples
source_tuples-AreDistinct vm_name seq [] = tt
source_tuples-AreDistinct vm_name seq (line ∷ lines) = (
  source_later vm_name seq (seq + 1) line lines (omega arith),
  source_tuples-AreDistinct vm_name (seq + 1) lines,
)

-- The ids of a task's output from a place on.
module _ (s t : ℕ) where
  abbrev made : List Text → RainStormTask → List StreamTuple
  made lines a = (output_tuples s t lines a).0

  output_later :
      (m : ℕ) (lines : List Text) (a : RainStormTask)
      → m ≤ a.seq_num
      → All (λ (u : StreamTuple). output_id s t m ≢ u.message_id) (made lines a)
  unfolding output_tuples output_tuple
  output_later m [] a l = tt
  output_later m (line ∷ lines) a l = (
    λ e. absurd (omega (arith, (output_id-injective s t m s t (a.seq_num + 1) e).2)),
    output_later m lines (record a { seq_num = a.seq_num + 1 }) (omega arith),
  )

  output-AreDistinct : (lines : List Text) (a : RainStormTask) → AreDistinct (made lines a)
  unfolding output_tuples output_tuple
  output-AreDistinct [] a = tt
  output-AreDistinct (line ∷ lines) a =
      let next = record a { seq_num = a.seq_num + 1 } in
      (output_later (a.seq_num + 1) lines next (omega arith), output-AreDistinct lines next)

  output-of_task :
      (lines : List Text) (a : RainStormTask)
      → All (λ (u : StreamTuple). (n : ℕ) × (u.message_id ≡ output_id s t n)) (made lines a)
  unfolding output_tuples output_tuple
  output-of_task [] a = tt
  output-of_task (line ∷ lines) a =
      ((a.seq_num + 1, refl), output-of_task lines (record a { seq_num = a.seq_num + 1 }))

-- The tuples that a task makes of the lines of its output have different ids, and none of them has
-- the id of a tuple of another task, of this stage or of another.
pub output_tuples-AreDistinct :
    (s t s' t' : ℕ) (lines lines' : List Text) (a b : RainStormTask)
    → ((s ≡ s') × (t ≡ t') → ⊥)
    → AreDistinct (output_tuples s t lines a).0
      × All
          (λ (u : StreamTuple).
            All (λ (v : StreamTuple). u.message_id ≢ v.message_id) (output_tuples s' t' lines' b).0)
          (output_tuples s t lines a).0
output_tuples-AreDistinct s t s' t' lines lines' a b apart = (
  output-AreDistinct s t lines a,
  All-imp _ _
      (λ u (n, e).
        All-imp _ _
          (λ v (m, f) g.
            let (p, q, r) = output_id-injective s t n s' t' m (sym e ∙ g ∙ f) in apart (p, q))
          (output_tuples s' t' lines' b).0 (output-of_task s' t' lines' b))
      (output_tuples s t lines a).0 (output-of_task s t lines a),
)
