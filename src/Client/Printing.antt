-- ===== src/Client/Printing.antt =====
-- The arguments that give a job on the command line, and that the client reads them back.
use event_stream_rainstorm.Prelude.{
  ℕ, zero, suc, ◌+◌, ◌≤◌, ◌<◌, ◌≡◌, refl, subst, Bool, true, false, some, List, [], ◌∷◌, ◌++◌,
  length, get_elem?, ltb, if◌then◌else◌, lt-of_get_elem?, Bool-cases, inl, inr, arith,
}
use event_stream_rainstorm.Prelude.Text.{Text, text, decimal}
use event_stream_rainstorm.Leader.{LeaderStartArgs}
use event_stream_rainstorm.Client.{
  ok, arg_at, positive, boolean, read_operators, Scaling, read_scaling, job_id,
}
use event_stream_rainstorm.Numbers.{atoi-decimal, max_int, bool_text, parse_bool-bool_text}

-- Each operator before its arguments.
unfoldable pub operator_args : List Text → List Text → List Text
operator_args [] op_args = []
operator_args (exe ∷ exes) [] = []
operator_args (exe ∷ exes) (op_arg ∷ op_args) = exe ∷ op_arg ∷ operator_args exes op_args

unfoldable pub scaling_args : LeaderStartArgs → List Text
scaling_args job =
    if job.autoscale then decimal job.input_rate ∷ decimal job.lw ∷ decimal job.hw ∷ [] else []

unfoldable pub rest_args : LeaderStartArgs → List Text
unfolding scaling_args
rest_args job =
    job.src_file
    ∷ job.dest_file
    ∷ bool_text job.exactly_once
    ∷ bool_text job.autoscale
    ∷ scaling_args job

-- `os.Args` for a job, from the name of the program on.
unfoldable pub job_args : LeaderStartArgs → List Text
unfolding operator_args rest_args
job_args job =
    text "demo"
    ∷ text "RainStorm"
    ∷ decimal job.num_stages
    ∷ decimal job.num_tasks
    ∷ (operator_args job.op_exes job.op_args ++ rest_args job)

-- A number that the client takes.
abbrev pub InRange : ℕ → Type 0
InRange n = (0 < n) × (n ≤ max_int)

-- A job as the client makes it: an operator for each stage, sizes in range, and without autoscaling
-- the rate of 100 and no thresholds.
pub record IsJob (now : ℕ) (job : LeaderStartArgs) : Type 0 where
  pub id : job.rs_id ≡ job_id now
  pub stages : InRange job.num_stages
  pub tasks : InRange job.num_tasks
  pub exes : length job.op_exes ≡ job.num_stages
  pub op_args : length job.op_args ≡ job.num_stages
  pub scales : job.autoscale ≡ true → InRange job.input_rate × InRange job.lw × InRange job.hw
  pub fixed : job.autoscale ≡ false → (job.input_rate ≡ 100) × (job.lw ≡ 0) × (job.hw ≡ 0)

-- The arguments from `k` on.
abbrev pub AreFrom : List Text → ℕ → List Text → Type 0
AreFrom args k tail = (i : ℕ) → get_elem? args (k + i) ≡ get_elem? tail i

AreFrom-tail :
    (args : List Text) (k : ℕ) (x : Text) (tail : List Text)
    → AreFrom args k (x ∷ tail)
    → AreFrom args (k + 1) tail
AreFrom-tail args k x tail h i = let e : k + 1 + i ≡ k + suc i = omega arith in rw e (h (suc i))

pub arg_at-head :
    (args : List Text) (k : ℕ) (x : Text) (tail : List Text)
    → AreFrom args k (x ∷ tail)
    → arg_at args k ≡ ok x
unfolding arg_at
arg_at-head args k x tail h =
    let e : k + 0 ≡ k = omega arith in
    let f : get_elem? args k ≡ some x = subst (λ j. get_elem? args j ≡ some x) e (h 0) in
    rw (f, arg_at) refl

pub positive-decimal : (message : Text) (n : ℕ) → InRange n → positive message (decimal n) ≡ ok n
unfolding positive
positive-decimal message zero h = absurd (omega arith)
positive-decimal message (suc n) h = rw (atoi-decimal (suc n) h.1, positive) refl

pub boolean-bool_text : (message : Text) (b : Bool) → boolean message (bool_text b) ≡ ok b
unfolding boolean
boolean-bool_text message b = rw (parse_bool-bool_text b, boolean) refl

pub AreFrom-drop :
    (args : List Text) (k : ℕ) (x y : Text) (tail : List Text)
    → AreFrom args k (x ∷ y ∷ tail)
    → (arg_at args k ≡ ok x) × (arg_at args (k + 1) ≡ ok y) × AreFrom args (k + 2) tail
AreFrom-drop args k x y tail h =
    let first : AreFrom args (k + 1) (y ∷ tail) = AreFrom-tail args k x (y ∷ tail) h in
    let two : k + 1 + 1 ≡ k + 2 = omega arith in
    (
      arg_at-head args k x (y ∷ tail) h,
      arg_at-head args (k + 1) y tail first,
      subst (λ j. AreFrom args j tail) two (AreFrom-tail args (k + 1) y tail first),
    )

read_operators_step :
    (args : List Text) (k n : ℕ) (exe op_arg : Text) (exes op_args : List Text)
    → arg_at args k ≡ ok exe
    → arg_at args (k + 1) ≡ ok op_arg
    → read_operators args (k + 2) n ≡ ok (exes, op_args)
    → read_operators args k (suc n) ≡ ok (exe ∷ exes, op_arg ∷ op_args)
unfolding read_operators
read_operators_step args k n exe op_arg exes op_args e f g = rw (e, f, g) refl

pub read_operators-printed :
    (args rest exes op_args : List Text) (k n : ℕ)
    → length exes ≡ n
    → length op_args ≡ n
    → AreFrom args k (operator_args exes op_args ++ rest)
    → (read_operators args k n ≡ ok (exes, op_args)) × AreFrom args (k + (n + n)) rest
unfolding read_operators operator_args
read_operators-printed args rest [] [] k zero e f h =
    let same : k + (0 + 0) ≡ k = omega arith in (refl, rw same h)
read_operators-printed args rest (exe ∷ exes) (op_arg ∷ op_args) k (suc n) e f h =
    let tail = operator_args exes op_args ++ rest in
    let (here, next, second) = AreFrom-drop args k exe op_arg tail h in
    let (ih, further) =
      read_operators-printed args rest exes op_args (k + 2) n (omega (arith, e)) (omega (arith, f))
        second in
    let end : k + 2 + (n + n) ≡ k + (suc n + suc n) = omega arith in
    (
      read_operators_step args k n exe op_arg exes op_args here next ih,
      subst (λ j. AreFrom args j rest) end further,
    )
read_operators-printed args rest [] (op_arg ∷ op_args) k n e f h = absurd (omega arith)
read_operators-printed args rest (exe ∷ exes) [] k n e f h = absurd (omega arith)
read_operators-printed args rest [] [] k (suc n) e f h = absurd (omega arith)
read_operators-printed args rest (exe ∷ exes) (op_arg ∷ op_args) k zero e f h = absurd (omega arith)

-- The part of a job that is read after the operators.
abbrev pub scaling_of : LeaderStartArgs → Scaling
scaling_of job = record { input_rate = job.input_rate; lw = job.lw; hw = job.hw }

read_scaling-fixed :
    (args : List Text) (k now : ℕ) (job : LeaderStartArgs)
    → IsJob now job
    → job.autoscale ≡ false
    → read_scaling args k false ≡ ok (scaling_of job)
unfolding read_scaling
read_scaling-fixed args k now job h e =
    let (rate, low, high) = h.fixed e in rw (rate, low, high) refl

length-AreFrom :
    (args : List Text) (k : ℕ) (x : Text) (tail : List Text)
    → AreFrom args k (x ∷ tail)
    → ltb (length args) (k + 1) ≡ false
length-AreFrom args k x tail h =
    let e : k + 0 ≡ k = omega arith in
    let f : get_elem? args k ≡ some x = subst (λ j. get_elem? args j ≡ some x) e (h 0) in
    ground (arith, lt-of_get_elem? args k f)

read_scaling-given :
    (args : List Text) (k now : ℕ) (job : LeaderStartArgs)
    → IsJob now job
    → job.autoscale ≡ true
    → AreFrom args k (decimal job.input_rate ∷ decimal job.lw ∷ decimal job.hw ∷ [])
    → read_scaling args k true ≡ ok (scaling_of job)
unfolding read_scaling
read_scaling-given args k now job h e at =
    let (rate, low, high) = h.scales e in
    let (first, second, last) =
      AreFrom-drop args k (decimal job.input_rate) (decimal job.lw) (decimal job.hw ∷ []) at in
    let third = arg_at-head args (k + 2) (decimal job.hw) [] last in
    rw
      (
        length-AreFrom args k (decimal job.input_rate) (decimal job.lw ∷ decimal job.hw ∷ []) at,
        first,
        positive-decimal (text "Invalid input_rate") job.input_rate rate,
        second,
        positive-decimal (text "Invalid lw") job.lw low,
        third,
        positive-decimal (text "Invalid hw") job.hw high,
      )
      refl

pub read_scaling-printed :
    (args : List Text) (k now : ℕ) (job : LeaderStartArgs)
    → IsJob now job
    → AreFrom args k (scaling_args job)
    → read_scaling args k job.autoscale ≡ ok (scaling_of job)
unfolding scaling_args
read_scaling-printed args k now job h at = elim (Bool-cases job.autoscale) [
  | inl e ↦ rw e (read_scaling-given args k now job h e (rw e at at))
  | inr e ↦ rw e (read_scaling-fixed args k now job h e)
]
