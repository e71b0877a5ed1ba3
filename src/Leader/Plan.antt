-- ===== src/Leader/Plan.antt =====
-- `calculateDeploymentPlan`: tasks go to the machines in turn, across the stages.
use event_stream_rainstorm.Prelude.{
  ℕ, zero, suc, ◌+◌, ◌*◌, ◌%◌, ◌<◌, ◌≡◌, refl, sym, ap, subst, ◌∙◌, Option, some, List, [], ◌∷◌,
  length, get_elem?, get_elem?-of_lt, arith,
}
use native.Mathlib.Nat.{suc-mul}
use event_stream_rainstorm.Prelude.Text.{Text}
use event_stream_rainstorm.Leader.{plan_stage, plan_stages, calculate_deployment_plan}

-- The machine of the task of index `i`, counted through all stages.
abbrev pub machine : List Text → ℕ → Option Text
machine alive i = get_elem? alive (i % length alive)

plan_stage_step :
    (alive : List Text) (i n : ℕ) (a : Text) (rest : List Text)
    → machine alive i ≡ some a
    → plan_stage alive (i + 1) n ≡ some rest
    → plan_stage alive i (suc n) ≡ some (a ∷ rest)
unfolding plan_stage
plan_stage_step alive i n a rest e f = ground arith

plan_stage_nil : (alive : List Text) (i : ℕ) → plan_stage alive i 0 ≡ some []
unfolding plan_stage
plan_stage_nil alive i = refl

plan_stages_nil :
    (num_tasks : ℕ) (alive : List Text) (i : ℕ) → plan_stages num_tasks alive i 0 ≡ some []
unfolding plan_stages
plan_stages_nil num_tasks alive i = refl

plan_stages_step :
    (num_tasks : ℕ) (alive : List Text) (i n : ℕ) (row : List Text) (rest : List (List Text))
    → plan_stage alive i num_tasks ≡ some row
    → plan_stages num_tasks alive (i + num_tasks) n ≡ some rest
    → plan_stages num_tasks alive i (suc n) ≡ some (row ∷ rest)
unfolding plan_stages
plan_stages_step num_tasks alive i n row rest e f = ground arith

next_row : (i n s : ℕ) → (i + n) + s * n ≡ i + suc s * n
next_row i n s = omega (arith, suc-mul s n)

module _ (addr : Text) (addrs : List Text) where
  machine_found : (i : ℕ) → (a : Text) × (machine (addr ∷ addrs) i ≡ some a)
  machine_found i = get_elem?-of_lt (addr ∷ addrs) (i % length (addr ∷ addrs)) (omega arith)

  -- The tasks of a stage, from index `i` on.
  abbrev InTurn : ℕ → ℕ → List Text → Type 0
  InTurn i n row = (j : ℕ) → j < n → get_elem? row j ≡ machine (addr ∷ addrs) (i + j)

  plan_stage_lem :
      (i n : ℕ) → (row : List Text) × (plan_stage (addr ∷ addrs) i n ≡ some row) × InTurn i n row
  plan_stage_lem i zero = ([], plan_stage_nil (addr ∷ addrs) i, λ j h. absurd (omega arith))
  plan_stage_lem i (suc n) =
      let (a, e) = machine_found i in
      let (rest, f, t) = plan_stage_lem (i + 1) n in
      (
        a ∷ rest,
        plan_stage_step (addr ∷ addrs) i n a rest e f,
        λ j. elim j as (λ j. j < suc n → get_elem? (a ∷ rest) j ≡ machine (addr ∷ addrs) (i + j)) [
          | zero ↦ λ h. sym e ∙ ap (machine (addr ∷ addrs)) (omega arith)
          | suc j ↦ λ h. t j (omega arith) ∙ ap (machine (addr ∷ addrs)) (omega arith)
        ],
      )

  -- Stage `s` of `stages`, whose first task has index `i`.
  abbrev RowsInTurn : ℕ → ℕ → ℕ → List (List Text) → Type 0
  RowsInTurn num_tasks i n rows =
      (s : ℕ)
      → s < n
      → (row : List Text) × (get_elem? rows s ≡ some row) × InTurn (i + s * num_tasks) num_tasks row

  plan_stages_lem :
      (num_tasks i n : ℕ)
      → (rows : List (List Text)) × (plan_stages num_tasks (addr ∷ addrs) i n ≡ some rows)
        × RowsInTurn num_tasks i n rows
  plan_stages_lem num_tasks i zero =
      ([], plan_stages_nil num_tasks (addr ∷ addrs) i, λ s h. absurd (omega arith))
  plan_stages_lem num_tasks i (suc n) =
      let (row, e, t) = plan_stage_lem i num_tasks in
      let (rest, f, ts) = plan_stages_lem num_tasks (i + num_tasks) n in
      (
        row ∷ rest,
        plan_stages_step num_tasks (addr ∷ addrs) i n row rest e f,
        λ s.
            elim s
              as (λ s.
                s < suc n
                → (r : List Text) × (get_elem? (row ∷ rest) s ≡ some r)
                  × InTurn (i + s * num_tasks) num_tasks r) [
                    | zero ↦ λ h. (row, refl, subst (λ k. InTurn k num_tasks row) (omega arith) t)
                    | suc s ↦ λ h.
                        let (r, g, u) = ts s (omega arith) in
                        (r, g, subst (λ k. InTurn k num_tasks r) (next_row i num_tasks s) u)
                  ],
      )

pub plan_exists :
    (num_stages num_tasks : ℕ) (addr : Text) (addrs : List Text)
    → (plan : List (List Text)) × (calculate_deployment_plan num_stages num_tasks (addr ∷ addrs)
        ≡ some plan)
unfolding calculate_deployment_plan
plan_exists num_stages num_tasks addr addrs =
    let (plan, e, t) = plan_stages_lem addr addrs num_tasks 0 num_stages in (plan, e)

-- With a live worker there is a plan, and task `j` of stage `s`, from 0, is on the machine whose
-- index is `s * num_tasks + j` modulo the number of live workers.
pub calculate_deployment_plan-in_turn :
    (num_stages num_tasks s j : ℕ) (addr : Text) (addrs : List Text)
    → s < num_stages
    → j < num_tasks
    → (plan : List (List Text)) × (row : List Text) × (calculate_deployment_plan num_stages
          num_tasks
          (addr ∷ addrs)
        ≡ some plan)
      × (get_elem? plan s ≡ some row)
      × (get_elem? row j ≡ machine (addr ∷ addrs) (s * num_tasks + j))
unfolding calculate_deployment_plan
calculate_deployment_plan-in_turn num_stages num_tasks s j addr addrs h k =
    let (plan, e, t) = plan_stages_lem addr addrs num_tasks 0 num_stages in
    let (row, f, u) = t s h in
    (plan, row, e, f, u j k ∙ ap (λ i. machine (addr ∷ addrs) (i + j)) (omega arith))
