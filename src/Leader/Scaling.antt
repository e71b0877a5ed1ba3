-- ===== src/Leader/Scaling.antt =====
-- Scaling keeps the leader's maps in order: the ids of every stage without a gap, and the total.
use event_stream_rainstorm.Prelude.{
  ℕ, suc, ◌+◌, ◌-◌, ◌≡◌, refl, sym, ap, subst, ◌∙◌, inl, inr, Bool, true, false, ◌&&◌, Option, none,
  some, [], ◌∷◌, length, nat_eq, ==_refl, ◌==◌, if◌then◌else◌, is_some, Bool-cases, Option-cases,
  arith,
}
use event_stream_rainstorm.Prelude.Dict.{
  Dict, get, put, remove, adjust, IsMap, get-put, get-adjust, put-IsMap, adjust-IsMap, length-put,
  length-remove,
}
use event_stream_rainstorm.Prelude.Text.{Text, text_eq}
use event_stream_rainstorm.Task.{StartTaskArgs}
use event_stream_rainstorm.Leader.{TaskInfo, StageInfo, Leader, stage_tasks, max_id}
use event_stream_rainstorm.Leader.Contiguous.{
  IsContiguous, max_id_lem, put-IsContiguous, remove-IsContiguous,
}
use event_stream_rainstorm.Leader.Autoscale.{new_task_id, add_task, drop_task}

-- The number of tasks in the map.
unfoldable pub task_count : Dict ℕ StageInfo → ℕ
task_count [] = 0
task_count ((k, tasks) ∷ d) = length tasks + task_count d

-- The maps of the leader agree: every stage numbers its tasks 0, 1, … and the total is right.
pub record IsSound (leader : Leader) : Type 0 where
  pub is_map : IsMap leader.global_task_map
  pub contiguous : (stage_id : ℕ) → IsContiguous (stage_tasks stage_id leader)
  pub total : leader.total_tasks ≡ task_count leader.global_task_map

abbrev in_stage : Option StageInfo → StageInfo
in_stage none = []
in_stage (some tasks) = tasks

task_count-put :
    (k : ℕ) (tasks : StageInfo) (d : Dict ℕ StageInfo)
    → task_count (put k tasks d) + length (in_stage (get k d)) ≡ task_count d + length tasks
unfolding task_count put get
task_count-put k tasks [] = omega arith
task_count-put k tasks ((j, u) ∷ d) = ground (arith, task_count-put k tasks d)

task_count-adjust :
    (k : ℕ) (f : StageInfo → StageInfo) (d : Dict ℕ StageInfo) (tasks : StageInfo)
    → get k d ≡ some tasks
    → task_count (adjust k f d) + length tasks ≡ task_count d + length (f tasks)
unfolding task_count adjust get
task_count-adjust k f [] tasks e = ground arith
task_count-adjust k f ((j, u) ∷ d) tasks e = ground (arith, task_count-adjust k f d tasks)

max_id_nil : new_task_id [] ≡ 0
unfolding new_task_id max_id
max_id_nil = refl

-- The id of a new task is the number of tasks that the stage has.
pub new_task_id_lem : (d : StageInfo) → IsContiguous d → new_task_id d ≡ length d
unfolding new_task_id
new_task_id_lem [] c = max_id_nil
new_task_id_lem ((k, t) ∷ d) c =
    ap (λ m. elim m [ none ↦ 0 | some m ↦ m + 1 ]) (max_id_lem ((k, t) ∷ d) (length d) c refl)
    ∙ omega arith

if_ap {ℓ κ} :
    {A : Type ℓ} {B : Type κ} (f : A → B) (b : Bool) (x y : A)
    → f (if b then x else y) ≡ (if b then f x else f y)
if_ap f true x y = refl
if_ap f false x y = refl

pick_stage :
    (P : StageInfo → Type 0) (b : Bool) (x y : StageInfo) → P x → P y → P (if b then x else y)
pick_stage P true x y p q = p
pick_stage P false x y p q = q

in_stage-put :
    (k i : ℕ) (tasks : StageInfo) (d : Dict ℕ StageInfo)
    → in_stage (get i (put k tasks d)) ≡ (if k == i then tasks else in_stage (get i d))
in_stage-put k i tasks d = ap in_stage (get-put k i tasks d) ∙ if_ap in_stage (k == i) _ _

zero_suc : (n : ℕ) → 0 ≡ suc n → ⊥
zero_suc n e = omega arith

-- Every stage of a map of stages.
abbrev IsAll : (StageInfo → Type 0) → Dict ℕ StageInfo → Type 0
IsAll P d = (i : ℕ) → P (in_stage (get i d))

put-IsAll :
    (P : StageInfo → Type 0) (k : ℕ) (tasks : StageInfo) (d : Dict ℕ StageInfo)
    → IsAll P d
    → P tasks
    → IsAll P (put k tasks d)
put-IsAll P k tasks d h t i =
    subst P (sym (in_stage-put k i tasks d)) (pick_stage P (k == i) tasks _ t (h i))

some_case :
    (f : StageInfo → StageInfo) (o : Option StageInfo)
    → in_stage (elim o [ none ↦ none | some v ↦ some (f v) ])
      ≡ (if is_some o then f (in_stage o) else in_stage o)
some_case f none = refl
some_case f (some v) = refl

in_stage-adjust :
    (k i : ℕ) (f : StageInfo → StageInfo) (d : Dict ℕ StageInfo)
    → in_stage (get i (adjust k f d))
      ≡ (if k == i && is_some (get i d) then f (in_stage (get k d)) else in_stage (get i d))
in_stage-adjust k i f d = ap in_stage (get-adjust k i f d) ∙ elim (Bool-cases (k == i)) [
  | inl e ↦ let q : k ≡ i = ground arith in rw (q, ==_refl i) (some_case f (get i d))
  | inr e ↦ rw e refl
]

adjust-IsAll :
    (P : StageInfo → Type 0) (k : ℕ) (f : StageInfo → StageInfo) (d : Dict ℕ StageInfo)
    → IsAll P d
    → P (f (in_stage (get k d)))
    → IsAll P (adjust k f d)
adjust-IsAll P k f d h t i =
    subst P (sym (in_stage-adjust k i f d))
      (pick_stage P (k == i && is_some (get i d)) (f (in_stage (get k d))) _ t (h i))

put_at :
    (k : ℕ) (t : TaskInfo) (d : StageInfo)
    → IsContiguous d
    → k ≡ length d
    → t.task_id ≡ length d
    → IsContiguous (put k t d)
put_at k t d c e f = subst (λ i. IsContiguous (put i t d)) (sym e) (put-IsContiguous t d c f)

length_at :
    (k : ℕ) (t : TaskInfo) (d : StageInfo)
    → IsContiguous d
    → k ≡ length d
    → length (put k t d) ≡ suc (length d)
length_at k t d c e = ground (arith, length-put k t d, c.ids k)

task_count-grow :
    (k : ℕ) (tasks : StageInfo) (d : Dict ℕ StageInfo)
    → length tasks ≡ suc (length (in_stage (get k d)))
    → task_count (put k tasks d) ≡ task_count d + 1
task_count-grow k tasks d e = omega (arith, task_count-put k tasks d)

task_count-shrink :
    (k n : ℕ) (d : Dict ℕ StageInfo)
    → IsContiguous (in_stage (get k d))
    → length (in_stage (get k d)) ≡ suc n
    → task_count d - 1 ≡ task_count (adjust k (remove n) d)
task_count-shrink k n d c e = elim (Option-cases (get k d)) [
  | inl f ↦ absurd (zero_suc n (sym (ap (λ o. length (in_stage o)) f) ∙ e))
  | inr (tasks, f) ↦
      let eq : length tasks ≡ suc n = sym (ap (λ o. length (in_stage o)) f) ∙ e in
      let c' = subst (λ o. IsContiguous (in_stage o)) f c in
      ground
        (arith, task_count-adjust k (remove n) d tasks f, length-remove n tasks c'.is_map, c'.ids n)
]

pub add_task-IsSound :
    (args : StartTaskArgs) (addr : Text) (reply : ℕ × Text) (leader : Leader)
    → IsSound leader
    → args.task_id ≡ length (stage_tasks args.stage_id leader)
    → IsSound (add_task args addr reply leader)
unfolding add_task stage_tasks
add_task-IsSound args addr reply leader s e = record {
  is_map = put-IsMap _ _ _ s.is_map;
  contiguous =
      put-IsAll IsContiguous args.stage_id _ leader.global_task_map s.contiguous
        (put_at _ _ _ (s.contiguous args.stage_id) e e);
  total =
      ap (λ n. n + 1) s.total
      ∙ sym (
          task_count-grow args.stage_id _ leader.global_task_map
            (length_at args.task_id _ _ (s.contiguous args.stage_id) e));
}

-- The task at the end of a stage is dropped.
pub drop_task-IsSound :
    (stage_id n : ℕ) (leader : Leader)
    → IsSound leader
    → length (stage_tasks stage_id leader) ≡ suc n
    → IsSound (drop_task stage_id n leader)
unfolding drop_task stage_tasks
drop_task-IsSound stage_id n leader s e = record {
  is_map = adjust-IsMap _ _ _ s.is_map;
  contiguous = adjust-IsAll IsContiguous stage_id (remove n) leader.global_task_map s.contiguous (
      remove-IsContiguous (in_stage (get stage_id leader.global_task_map)) n (s.contiguous stage_id)
        e);
  total =
      ap (λ c. c - 1) s.total
      ∙ task_count-shrink stage_id n leader.global_task_map (s.contiguous stage_id) e;
}
