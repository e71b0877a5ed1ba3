-- ===== src/Leader/Start/Requests.antt =====
-- The calls of `startAllTasks`: one for each task of each stage, to the machine of the plan.
use mathlib.Core.List.{Permᴰ}
use native.Mathlib.Nat.{suc-mul}
use event_stream_rainstorm.Prelude.{
  ℕ, zero, suc, ◌+◌, ◌-◌, ◌*◌, ◌%◌, ◌<◌, ◌≤◌, ◌≡◌, refl, sym, ap, ◌∙◌, Bool, false, ◌&&◌, ◌||◌,
  Option, some, some-injective, List, [], ◌∷◌, ◌++◌, length, get_elem?, get_elem?-of_lt,
  length-append, All, All-append, ltb, leb, nat_eq, ◌==◌, arith,
}
use event_stream_rainstorm.Prelude.Text.{Text}
use event_stream_rainstorm.Leader.{LeaderStartArgs, calculate_deployment_plan}
use event_stream_rainstorm.Leader.Plan.{machine, calculate_deployment_plan-in_turn}
use event_stream_rainstorm.Leader.Start.{
  Request, Launch, request_to, task_request, stage_requests, requests,
}

-- Some call is for task `t` of stage `s`.
abbrev pub listed : ℕ → ℕ → List Request → Bool
listed s t [] = false
listed s t (r ∷ rs) = (r.args.stage_id == s && r.args.task_id == t) || listed s t rs

listed-append :
    (s t : ℕ) (rs more : List Request)
    → listed s t (rs ++ more) ≡ (listed s t rs || listed s t more)
listed-append s t [] more = refl
listed-append s t (r ∷ rs) more = ground (arith, listed-append s t rs more)

listed_swap : (a b c : Bool) → (a || (b || c)) ≡ (b || (a || c))
listed_swap a b c = ground arith

pub listed-permᴰ :
    (s t : ℕ) {rs more : List Request} → Permᴰ rs more → listed s t rs ≡ listed s t more
listed-permᴰ s t Permᴰ.nil = refl
listed-permᴰ s t (Permᴰ.cons {a} e p) =
    rw (← e) (ap (λ b. (a.args.stage_id == s && a.args.task_id == t) || b) (listed-permᴰ s t p))
listed-permᴰ s t (Permᴰ.swap {a} {b} {l = l} e f) =
    rw (← e, ← f)
      (listed_swap (a.args.stage_id == s && a.args.task_id == t)
        (b.args.stage_id == s && b.args.task_id == t) (listed s t l))
listed-permᴰ s t (Permᴰ.trans p q) = listed-permᴰ s t p ∙ listed-permᴰ s t q

-- The machine of task `t` of stage `s`, and that a call goes there.
abbrev pub place : LeaderStartArgs → List Text → ℕ → ℕ → Option Text
place args alive s t = machine alive ((s - 1) * args.num_tasks + t)

abbrev pub IsPlaced : LeaderStartArgs → List Text → Request → Type 0
IsPlaced args alive r = place args alive r.args.stage_id r.args.task_id ≡ some r.addr

-- Every stage has an operator and its arguments.
pub record HasOperators (args : LeaderStartArgs) : Type 0 where
  pub exes : args.num_stages ≤ length args.op_exes
  pub op_args : args.num_stages ≤ length args.op_args

module _ (launch : Launch) (args : LeaderStartArgs) (plan : List (List Text)) (addr : Text)
    (addrs : List Text) (has_operators : HasOperators args)
    (planned : calculate_deployment_plan args.num_stages args.num_tasks (addr ∷ addrs)
      ≡ some plan) where
  in_plan :
      (s j : ℕ)
      → s < args.num_stages
      → j < args.num_tasks
      → (row : List Text) × (get_elem? plan s ≡ some row)
        × (get_elem? row j ≡ machine (addr ∷ addrs) (s * args.num_tasks + j))
  in_plan s j h k =
      let (plan', row, e, f, g) =
        calculate_deployment_plan-in_turn args.num_stages args.num_tasks s j addr addrs h k in
      (row, ap (λ p. get_elem? p s) (some-injective _ _ (sym planned ∙ e)) ∙ f, g)

  task_request-some :
      (stage_id task_id : ℕ) (row : List Text) (a exe arg : Text)
      → get_elem? plan (stage_id - 1) ≡ some row
      → get_elem? row task_id ≡ some a
      → get_elem? args.op_exes (stage_id - 1) ≡ some exe
      → get_elem? args.op_args (stage_id - 1) ≡ some arg
      → task_request launch args plan stage_id task_id
        ≡ some (request_to launch args plan stage_id task_id a exe arg)
  unfolding task_request
  task_request-some stage_id task_id row a exe arg e f g h = ground arith

  task_request_lem :
      (stage_id task_id : ℕ)
      → 1 ≤ stage_id
      → stage_id ≤ args.num_stages
      → task_id < args.num_tasks
      → (r : Request) × (task_request launch args plan stage_id task_id ≡ some r)
        × (r.args.stage_id ≡ stage_id)
        × (r.args.task_id ≡ task_id)
        × IsPlaced args (addr ∷ addrs) r
  task_request_lem stage_id task_id l u k =
      let s = stage_id - 1 in
      let (row, e, f) = in_plan s task_id (omega arith) k in
      let (a, m) =
        get_elem?-of_lt (addr ∷ addrs) ((s * args.num_tasks + task_id) % length (addr ∷ addrs))
          (omega arith) in
      let (exe, g) = get_elem?-of_lt args.op_exes s (omega (arith, has_operators.exes)) in
      let (arg, h) = get_elem?-of_lt args.op_args s (omega (arith, has_operators.op_args)) in
      (
        request_to launch args plan stage_id task_id a exe arg,
        task_request-some stage_id task_id row a exe arg e (f ∙ m) g h,
        refl,
        refl,
        m,
      )

  stage_requests_step :
      (stage_id task_id n : ℕ) (r : Request) (rs : List Request)
      → task_request launch args plan stage_id task_id ≡ some r
      → stage_requests launch args plan stage_id (task_id + 1) n ≡ some rs
      → stage_requests launch args plan stage_id task_id (suc n) ≡ some (r ∷ rs)
  unfolding stage_requests
  stage_requests_step stage_id task_id n r rs e f = ground arith

  stage_requests_lem :
      (stage_id task_id n : ℕ)
      → 1 ≤ stage_id
      → stage_id ≤ args.num_stages
      → task_id + n ≤ args.num_tasks
      → (rs : List Request) × (stage_requests launch args plan stage_id task_id n ≡ some rs)
        × All (IsPlaced args (addr ∷ addrs)) rs
        × ((s t : ℕ) → listed s t rs ≡ (stage_id == s && (leb task_id t && ltb t (task_id + n))))
        × (length rs ≡ n)
  stage_requests_lem stage_id task_id zero l u k =
      ([], unfold stage_requests in refl, tt, λ s t. ground arith, refl)
  stage_requests_lem stage_id task_id (suc n) l u k =
      let (r, e, a, b, p) = task_request_lem stage_id task_id l u (omega arith) in
      let (rs, f, ps, q, len) = stage_requests_lem stage_id (task_id + 1) n l u (omega arith) in
      (
        r ∷ rs,
        stage_requests_step stage_id task_id n r rs e f,
        (p, ps),
        λ s t. ground (arith, q s t),
        ap suc len,
      )

  requests_step :
      (stage_id n : ℕ) (rs more : List Request)
      → stage_requests launch args plan stage_id 0 args.num_tasks ≡ some rs
      → requests launch args plan (stage_id + 1) n ≡ some more
      → requests launch args plan stage_id (suc n) ≡ some (rs ++ more)
  unfolding requests
  requests_step stage_id n rs more e f = ground arith

  pub requests_lem :
      (stage_id n : ℕ)
      → 1 ≤ stage_id
      → stage_id + n ≤ args.num_stages + 1
      → (rs : List Request) × (requests launch args plan stage_id n ≡ some rs)
        × All (IsPlaced args (addr ∷ addrs)) rs
        × ((s t : ℕ)
            → listed s t rs ≡ ((leb stage_id s && ltb s (stage_id + n)) && ltb t args.num_tasks))
        × (length rs ≡ n * args.num_tasks)
  requests_lem stage_id zero l u =
      ([], unfold requests in refl, tt, λ s t. ground arith, omega arith)
  requests_lem stage_id (suc n) l u =
      let (rs, e, ps, p, len) =
        stage_requests_lem stage_id 0 args.num_tasks l (omega arith) (omega arith) in
      let (more, f, qs, q, len') = requests_lem (stage_id + 1) n (omega arith) (omega arith) in
      (
        rs ++ more,
        requests_step stage_id n rs more e f,
        All-append (IsPlaced args (addr ∷ addrs)) rs more ps qs,
        λ s t. listed-append s t rs more ∙ ground (arith, p s t, q s t),
        omega (arith, length-append rs more, len, len', suc-mul n args.num_tasks),
      )
