-- ===== src/FileStore/Replication.antt =====
-- What the success of `CreateFile` and `AppendFile` says of all replicas.
use event_stream_rainstorm.Prelude.{
  suc, ◌+◌, ◌≤◌, ◌≡◌, refl, sym, ap, subst, ◌∙◌, some, List, [], ◌∷◌, ◌++◌, length, All, nat_eq,
  arith,
}
use mathlib.Core.List.{append-nil, append_assoc}
use event_stream_rainstorm.Prelude.Text.{Text, text_eq}
use event_stream_rainstorm.FileStore.{OperationLogEntry, Replica, Disk, Answer, ok, refused, blocked, Link, down, up, no_reply, create_local, append_local, create_file, append_file, call_replica, primary_write, count_ok, replicated}
use event_stream_rainstorm.FileStore.Merge.{contents}

-- The replica holds the file of these operations, with its log.
pub record Holds (es : List OperationLogEntry) (r : Replica) : Type 0 where
  pub file : r.file ≡ some (contents es)
  pub log : r.log ≡ some es

contents-append :
    (es fs : List OperationLogEntry) → contents (es ++ fs) ≡ contents es ++ contents fs
unfolding contents
contents-append [] fs = refl
contents-append (e ∷ es) fs =
    ap (λ c. e.entry_data ++ c) (contents-append es fs) ∙ sym (append_assoc e.entry_data _ _)

contents-one : (e : OperationLogEntry) → contents (e ∷ []) ≡ e.entry_data
unfolding contents
contents-one e = append-nil e.entry_data

create_local-cases :
    (disk : Disk) (entry : OperationLogEntry) (r : Replica)
    → (create_local disk entry r).0 ≡ ok
    → ((create_local disk entry r).1.file ≡ some entry.entry_data)
      × ((create_local disk entry r).1.log ≡ some (entry ∷ []))
unfolding create_local
create_local-cases disk entry r h = ground arith

pub create_local-Holds :
    (disk : Disk) (entry : OperationLogEntry) (r : Replica)
    → (create_local disk entry r).0 ≡ ok
    → Holds (entry ∷ []) (create_local disk entry r).1
create_local-Holds disk entry r h =
    let (f, l) = create_local-cases disk entry r h in
    record { file = f ∙ ap some (sym (contents-one entry)); log = l }

append_local-cases :
    (disk : Disk) (entry : OperationLogEntry) (r : Replica) (content : Text)
    (es : List OperationLogEntry)
    → r.file ≡ some content
    → r.log ≡ some es
    → (append_local disk entry r).0 ≡ ok
    → ((append_local disk entry r).1.file ≡ some (content ++ entry.entry_data))
      × ((append_local disk entry r).1.log ≡ some (es ++ entry ∷ []))
unfolding append_local
append_local-cases disk entry r content es f l h = ground arith

pub append_local-Holds :
    (disk : Disk) (entry : OperationLogEntry) (es : List OperationLogEntry) (r : Replica)
    → Holds es r
    → (append_local disk entry r).0 ≡ ok
    → Holds (es ++ entry ∷ []) (append_local disk entry r).1
append_local-Holds disk entry es r k h =
    let (f, l) = append_local-cases disk entry r (contents es) es k.file k.log h in
    record {
      file =
          f
          ∙ ap (λ c. some (contents es ++ c)) (sym (contents-one entry))
          ∙ ap some (sym (contents-append es (entry ∷ [])));
      log = l;
    }

count_ok-le : (answers : List Answer) → count_ok answers ≤ length answers
unfolding count_ok
count_ok-le [] = omega arith
count_ok-le (a ∷ answers) = ground (arith, count_ok-le answers)

short : (answers : List Answer) → 0 + count_ok answers ≡ suc (length answers) → ⊥
short answers h = omega (arith, count_ok-le answers)

all_ok : (answers : List Answer) → count_ok answers ≡ length answers → All (λ a. a ≡ ok) answers
unfolding count_ok
all_ok [] h = tt
all_ok (ok ∷ answers) h = (refl, all_ok answers (omega arith))
all_ok (refused ∷ answers) h = absurd (short answers h)
all_ok (blocked ∷ answers) h = absurd (short answers h)

replicated-count :
    (answers : List Answer) → replicated answers ≡ ok → count_ok answers ≡ length answers
unfolding replicated
replicated-count answers h = ground arith

pub replicated-ok : (answers : List Answer) → replicated answers ≡ ok → All (λ a. a ≡ ok) answers
replicated-ok answers h = all_ok answers (replicated-count answers h)

module _ (method : Disk → OperationLogEntry → Replica → Answer × Replica)
    (entry : OperationLogEntry) (P Q : Replica → Type 0)
    (works : (disk : Disk) (r : Replica)
      → P r
      → (method disk entry r).0 ≡ ok
      → Q (method disk entry r).1) where
  call_replica-works :
      (link : Link) (r : Replica)
      → P r
      → (call_replica method entry link r).0 ≡ ok
      → Q (call_replica method entry link r).1
  unfolding call_replica
  call_replica-works down r p h = ground arith
  call_replica-works (up disk) r p h = works disk r p h
  call_replica-works (no_reply disk) r p h = ground arith

  pub primary_write-works :
      (others : List (Link × Replica))
      → All (λ (o : Link × Replica). P o.1) others
      → All (λ a. a ≡ ok) (primary_write method entry others).0
      → All Q (primary_write method entry others).1
  unfolding primary_write
  primary_write-works [] p h = tt
  primary_write-works ((link, r) ∷ others) p h =
      (call_replica-works link r p.0 h.0, primary_write-works others p.1 h.1)

abbrev pub AnyState : Replica → Type 0
AnyState r = Unit

pub all_unit : (others : List (Link × Replica)) → All (λ (o : Link × Replica). AnyState o.1) others
all_unit [] = tt
all_unit (o ∷ others) = (tt, all_unit others)

pub create_file-ok :
    (disk : Disk) (entry : OperationLogEntry) (r : Replica) (others : List (Link × Replica))
    → (create_file disk entry r others).0 ≡ ok
    → (replicated (primary_write create_local entry others).0 ≡ ok)
      × ((create_file disk entry r others).1.file ≡ some entry.entry_data)
      × ((create_file disk entry r others).1.log ≡ some (entry ∷ []))
      × ((create_file disk entry r others).2 ≡ (primary_write create_local entry others).1)
unfolding create_file
create_file-ok disk entry r others h = ground (arith, create_local-cases disk entry r)

pub append_file-ok :
    (disk : Disk) (entry : OperationLogEntry) (r : Replica) (others : List (Link × Replica))
    → (append_file disk entry r others).0 ≡ ok
    → ((append_local disk entry r).0 ≡ ok)
      × (replicated (primary_write append_local entry others).0 ≡ ok)
      × ((append_file disk entry r others).1.file ≡ (append_local disk entry r).1.file)
      × ((append_file disk entry r others).1.log ≡ (append_local disk entry r).1.log)
      × ((append_file disk entry r others).2 ≡ (primary_write append_local entry others).1)
unfolding append_file
append_file-ok disk entry r others h = ground arith

-- A create that succeeds leaves the file and the log of this one operation on every replica.
pub create_file-Holds :
    (disk : Disk) (entry : OperationLogEntry) (r : Replica) (others : List (Link × Replica))
    → (create_file disk entry r others).0 ≡ ok
    → Holds (entry ∷ []) (create_file disk entry r others).1
      × All (Holds (entry ∷ [])) (create_file disk entry r others).2
create_file-Holds disk entry r others h =
    let (h', f, l, o) = create_file-ok disk entry r others h in
    (
      record { file = f ∙ ap some (sym (contents-one entry)); log = l },
      subst (All (Holds (entry ∷ []))) (sym o) (
          primary_write-works create_local entry AnyState (Holds (entry ∷ []))
            (λ disk r p k. create_local-Holds disk entry r k) others (all_unit others)
            (replicated-ok _ h')),
    )

-- An append that succeeds, to a file that all replicas hold, extends the file and the log of every
-- replica by this operation.
pub append_file-Holds :
    (disk : Disk) (entry : OperationLogEntry) (es : List OperationLogEntry) (r : Replica)
    (others : List (Link × Replica))
    → Holds es r
    → All (λ (o : Link × Replica). Holds es o.1) others
    → (append_file disk entry r others).0 ≡ ok
    → Holds (es ++ entry ∷ []) (append_file disk entry r others).1
      × All (Holds (es ++ entry ∷ [])) (append_file disk entry r others).2
append_file-Holds disk entry es r others k ks h =
    let (a, h', f, l, o) = append_file-ok disk entry r others h in
    let p = append_local-Holds disk entry es r k a in
    (
      record { file = f ∙ p.file; log = l ∙ p.log },
      subst (All (Holds (es ++ entry ∷ []))) (sym o) (
          primary_write-works append_local entry (Holds es) (Holds (es ++ entry ∷ []))
            (λ disk r q g. append_local-Holds disk entry es r q g) others ks (replicated-ok _ h')),
    )
