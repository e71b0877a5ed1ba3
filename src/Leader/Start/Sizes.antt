-- ===== src/Leader/Start/Sizes.antt =====
-- How many tasks a map holds, from the ids that it has.
use native.Mathlib.Nat.{suc-mul}
use event_stream_rainstorm.Prelude.{
  ℕ, zero, suc, ◌+◌, ◌*◌, ◌≡◌, refl, ap, ◌∙◌, false, ◌&&◌, [], ◌∷◌, length, ltb, leb, nat_eq,
  if◌then◌else◌, is_some, none, some, Option, arith,
}
use event_stream_rainstorm.Prelude.Dict.{
  Dict, get, has, remove, IsMap, get-remove, remove-IsMap, length-remove, remove_absent,
}
use event_stream_rainstorm.Leader.{StageInfo}
use event_stream_rainstorm.Leader.Scaling.{task_count}

abbrev in_stage : Option StageInfo → StageInfo
in_stage none = []
in_stage (some tasks) = tasks

no_ids : (d : StageInfo) → ((i : ℕ) → has i d ≡ false) → length d ≡ 0
unfolding get
no_ids [] h = refl
no_ids ((k, t) ∷ d) h = absurd (ground (arith, h k))

-- A map of the ids below `n` has `n` entries.
pub length_of_ids : (n : ℕ) (d : StageInfo) → IsMap d → ((i : ℕ) → has i d ≡ ltb i n) → length d ≡ n
length_of_ids zero d m h = no_ids d (λ i. h i ∙ ground arith)
length_of_ids (suc n) d m h =
    let rest =
      length_of_ids n (remove n d) (remove-IsMap n d m)
        (λ i. ap is_some (get-remove n i d) ∙ ground (arith, h i)) in
    ground (arith, length-remove n d m, h n, rest)

task_count-remove :
    (k : ℕ) (d : Dict ℕ StageInfo)
    → IsMap d
    → task_count (remove k d) + length (in_stage (get k d)) ≡ task_count d
unfolding task_count remove get
task_count-remove k [] m = omega arith
task_count-remove k ((j, tasks) ∷ d) m =
    ground (arith, task_count-remove k d m.1, remove_absent k d)

-- The number of tasks of stage `s` of a job of `num_stages` stages.
abbrev pub size : ℕ → ℕ → ℕ → ℕ
size num_stages num_tasks s = if leb 1 s && ltb s (1 + num_stages) then num_tasks else 0

empty_stages :
    (d : Dict ℕ StageInfo)
    → IsMap d
    → ((s : ℕ) → length (in_stage (get s d)) ≡ 0)
    → task_count d ≡ 0
unfolding task_count get
empty_stages [] m h = refl
empty_stages ((k, tasks) ∷ d) m h =
    let first : length tasks ≡ 0 = ground (arith, h k) in
    let rest = empty_stages d m.1 (λ s. ground (arith, h s, m.0)) in omega arith

pub task_count_of_sizes :
    (num_stages num_tasks : ℕ) (d : Dict ℕ StageInfo)
    → IsMap d
    → ((s : ℕ) → length (in_stage (get s d)) ≡ size num_stages num_tasks s)
    → task_count d ≡ num_stages * num_tasks
task_count_of_sizes zero num_tasks d m h = empty_stages d m (λ s. h s ∙ ground arith) ∙ omega arith
task_count_of_sizes (suc n) num_tasks d m h =
    let rest =
      task_count_of_sizes n num_tasks (remove (suc n) d) (remove-IsMap (suc n) d m)
        (λ s. ap (λ o. length (in_stage o)) (get-remove (suc n) s d) ∙ ground (arith, h s)) in
    let full : size (suc n) num_tasks (suc n) ≡ num_tasks = ground arith in
    omega (arith, task_count-remove (suc n) d m, h (suc n), rest, suc-mul n num_tasks)
