-- ===== src/Client/RoundTrip.antt =====
-- A job that is written on the command line of demo/demo.go is the job that is sent.
use event_stream_rainstorm.Prelude.{
  ℕ, zero, suc, ◌+◌, ◌≡◌, refl, sym, ap, subst, false, List, [], ◌∷◌, length, get_elem?, ltb,
  length-append, arith,
}
use event_stream_rainstorm.Prelude.Text.{Text, text}
use event_stream_rainstorm.Leader.{LeaderStartArgs}
use event_stream_rainstorm.Client.{ok, arg_at, read_rest, read_job}
use event_stream_rainstorm.Numbers.{bool_text}
use event_stream_rainstorm.Client.Printing.{
  operator_args, scaling_args, rest_args, job_args, IsJob, AreFrom, AreFrom-drop, positive-decimal,
  boolean-bool_text, read_operators-printed, read_scaling-printed,
}

read_rest-printed :
    (args : List Text) (now : ℕ) (job : LeaderStartArgs)
    → IsJob now job
    → AreFrom args (4 + (job.num_stages + job.num_stages)) (rest_args job)
    → read_rest job.rs_id args job.num_stages job.num_tasks (job.op_exes, job.op_args) ≡ ok job
unfolding read_rest rest_args
read_rest-printed args now job h at =
    let k = 4 + (job.num_stages + job.num_stages) in
    let scaled = scaling_args job in
    let (src, dest, more) =
      AreFrom-drop args k job.src_file job.dest_file
        (bool_text job.exactly_once ∷ bool_text job.autoscale ∷ scaled) at in
    let (eo, auto, last) =
      AreFrom-drop args (k + 2) (bool_text job.exactly_once) (bool_text job.autoscale) scaled
        more in
    let dest' : arg_at args (5 + (job.num_stages + job.num_stages)) ≡ ok job.dest_file =
      moved job.dest_file (omega arith) dest in
    let eo' : arg_at args (6 + (job.num_stages + job.num_stages))
        ≡ ok (bool_text job.exactly_once) =
      moved (bool_text job.exactly_once) (omega arith) eo in
    let auto' : arg_at args (7 + (job.num_stages + job.num_stages)) ≡ ok (bool_text job.autoscale) =
      moved (bool_text job.autoscale) (omega arith) auto in
    let e : k + 2 + 2 ≡ 8 + (job.num_stages + job.num_stages) = omega arith in
    let scaling =
      read_scaling-printed args (8 + (job.num_stages + job.num_stages)) now job h
        (subst (λ j. AreFrom args j scaled) e last) in
    rw
      (
        src,
        dest',
        eo',
        boolean-bool_text (text "Error: exactly_once must be a boolean (true/false/1/0)")
            job.exactly_once,
        auto',
        boolean-bool_text (text "Error: autoscale_enabled must be a boolean (true/false/1/0)")
            job.autoscale,
        scaling,
      )
      refl
  where
    moved : {i j : ℕ} (x : Text) → i ≡ j → arg_at args i ≡ ok x → arg_at args j ≡ ok x
    moved x e h = subst (λ j. arg_at args j ≡ ok x) e h

-- There are enough arguments for the first test.
length-job_args :
    (now : ℕ) (job : LeaderStartArgs) → IsJob now job → ltb (length (job_args job)) 10 ≡ false
unfolding job_args rest_args
length-job_args now job h =
    let n = length-operator_args job.op_exes job.op_args job.num_stages h.exes h.op_args in
    let all = length-append (operator_args job.op_exes job.op_args) (rest_args job) in
    let some_stage = h.stages in ground arith
  where
    length-operator_args :
        (exes op_args : List Text) (n : ℕ)
        → length exes ≡ n
        → length op_args ≡ n
        → length (operator_args exes op_args) ≡ n + n
    length-operator_args [] [] n e f = ground arith
    length-operator_args [] (a ∷ rest) n e f = absurd (omega arith)
    length-operator_args (x ∷ xs) [] n e f = absurd (omega arith)
    length-operator_args (x ∷ xs) (a ∷ rest) zero e f = absurd (omega arith)
    length-operator_args (x ∷ xs) (a ∷ rest) (suc n) e f =
        omega (arith, length-operator_args xs rest n (omega arith) (omega arith))

-- A job with an operator and its arguments for each stage, with sizes that fit an `int`, is read
-- from the command line as it was written there, whether or not it scales.
pub read_job-job_args :
    (now : ℕ) (job : LeaderStartArgs) → IsJob now job → read_job now (job_args job) ≡ ok job
unfolding read_job job_args arg_at
read_job-job_args now job h =
    let args = job_args job in
    let (operators, at) =
      read_operators-printed args (rest_args job) job.op_exes job.op_args 4 job.num_stages h.exes
        h.op_args (λ i. ap (get_elem? args) (four i)) in
    let rest = read_rest-printed args now job h at in
    rw
      (
        length-job_args now job h,
        positive-decimal (text "Invalid Nstages") job.num_stages h.stages,
        positive-decimal (text "Invalid Ntasks") job.num_tasks h.tasks,
        operators,
        sym h.id,
      )
      rest
  where
    four : (i : ℕ) → 4 + i ≡ suc (suc (suc (suc i)))
    four i = omega arith
