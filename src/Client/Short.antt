-- ===== src/Client/Short.antt =====
-- demo/demo.go: a command "RainStorm" with too few arguments for its stages.
use event_stream_rainstorm.Prelude.{
  ℕ, zero, suc, ◌+◌, ◌≤◌, ◌≡◌, refl, inl, inr, false, ◌⊎◌, some, List, [], ◌∷◌, length, get_elem?,
  ltb, Option-cases, lt-of_get_elem?, arith,
}
use event_stream_rainstorm.Prelude.Text.{Text, text}
use event_stream_rainstorm.Client.{
  ok, panics, arg_at, positive, read_operators, read_rest, job_id, read_job,
}
use event_stream_rainstorm.Numbers.{pos, atoi}

arg_at-short : (args : List Text) (i : ℕ) → length args ≤ i → arg_at args i ≡ panics
unfolding arg_at
arg_at-short args i h = elim (Option-cases (get_elem? args i)) [
  | inl e ↦ rw (e, arg_at) refl
  | inr (x, e) ↦ absurd (omega (arith, lt-of_get_elem? args i e))
]

arg_at-cases :
    (args : List Text) (i : ℕ) → (arg_at args i ≡ panics) ⊎ ((x : Text) × (arg_at args i ≡ ok x))
unfolding arg_at
arg_at-cases args i = elim (Option-cases (get_elem? args i)) [
  | inl e ↦ inl (rw (e, arg_at) refl)
  | inr (x, e) ↦ inr (x, rw (e, arg_at) refl)
]

arg_at-some :
    (args : List Text) (i : ℕ) (x : Text) → get_elem? args i ≡ some x → arg_at args i ≡ ok x
unfolding arg_at
arg_at-some args i x e = rw (e, arg_at) refl

read_operators-cases :
    (args : List Text) (k n : ℕ)
    → (read_operators args k n ≡ panics)
      ⊎ ((found : List Text × List Text) × (read_operators args k n ≡ ok found))
unfolding read_operators
read_operators-cases args k zero = inr (([], []), refl)
read_operators-cases args k (suc n) = elim (arg_at-cases args k) [
  | inl e ↦ inl (rw e refl)
  | inr (exe, e) ↦ elim (arg_at-cases args (k + 1)) [
    | inl f ↦ inl (rw (e, f) refl)
    | inr (op_arg, f) ↦ elim (read_operators-cases args (k + 2) n) [
      | inl g ↦ inl (rw (e, f, g) refl)
      | inr (found, g) ↦ inr ((exe ∷ found.0, op_arg ∷ found.1), rw (e, f, g) refl)
    ]
  ]
]

read_rest-short :
    (rs_id : Text) (args : List Text) (num_stages num_tasks : ℕ) (found : List Text × List Text)
    → length args ≤ 6 + (num_stages + num_stages)
    → read_rest rs_id args num_stages num_tasks found ≡ panics
unfolding read_rest
read_rest-short rs_id args num_stages num_tasks found h =
    elim (arg_at-cases args (4 + (num_stages + num_stages))) [
      | inl e ↦ rw e refl
      | inr (src, e) ↦ elim (arg_at-cases args (5 + (num_stages + num_stages))) [
        | inl f ↦ rw (e, f) refl
        | inr (dest, f) ↦ rw (e, f, arg_at-short args (6 + (num_stages + num_stages)) h) refl
      ]
    ]

positive-atoi :
    (message s : Text) (n : ℕ) → atoi s ≡ some (pos (suc n)) → positive message s ≡ ok (suc n)
unfolding positive
positive-atoi message s n e = rw (e, positive) refl

-- With ten arguments or more, and valid numbers of stages and of tasks, the client panics with an
-- index out of range when there are too few arguments for the operators of the stages, the two
-- files and the first of the two flags.
pub read_job-panics :
    (now : ℕ) (args : List Text) (stages tasks : Text) (n m : ℕ)
    → 10 ≤ length args
    → get_elem? args 2 ≡ some stages
    → get_elem? args 3 ≡ some tasks
    → atoi stages ≡ some (pos (suc n))
    → atoi tasks ≡ some (pos (suc m))
    → length args ≤ 6 + (suc n + suc n)
    → read_job now args ≡ panics
unfolding read_job
read_job-panics now args stages tasks n m l e f g h short =
    let enough : ltb (length args) 10 ≡ false = ground arith in
    let two = arg_at-some args 2 stages e in
    let three = arg_at-some args 3 tasks f in
    let num_stages = positive-atoi (text "Invalid Nstages") stages n g in
    let num_tasks = positive-atoi (text "Invalid Ntasks") tasks m h in
    elim (read_operators-cases args 4 (suc n)) [
      | inl k ↦ rw (enough, two, num_stages, three, num_tasks, k) refl
      | inr (found, k) ↦
          let rest = read_rest-short (job_id now) args (suc n) (suc m) found short in
          rw (enough, two, num_stages, three, num_tasks, k) rest
    ]
