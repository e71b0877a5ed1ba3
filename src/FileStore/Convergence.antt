-- ===== src/FileStore/Convergence.antt =====
-- `MergeFile` does not depend on the order in which the replicas answer, when they all do.
use mathlib.Core.List.{Perm}
use mathlib.Core.List.Perm
use event_stream_rainstorm.Prelude.{
  ℕ, ◌≡◌, refl, sym, ap, subst, ◌∙◌, inl, inr, true, false, Option, none, some, List, [], ◌∷◌, map,
  All, All-append, All-at, get_elem?, Option-cases, if◌then◌else◌, arith,
}
use event_stream_rainstorm.Prelude.Text.{Text}
use event_stream_rainstorm.FileStore.Operations.{IsEntryOf, or_nil, flat, final_log-perm}
use event_stream_rainstorm.FileStore.{OperationLogEntry, Replica}
use event_stream_rainstorm.FileStore.Merge.{
  read_log, get_operation_log, contents, final_log, Site, own, remote, Peer, received, log_given,
  given_by, Turn, asks, looks, error_of, error_after, gathered, push_reconciled, any_locked,
  merge_file,
}

-- The entries that a replica has in its log.
abbrev pub LogIs : (OperationLogEntry → Type 0) → Peer → Type 0
LogIs P p = All P (or_nil p.replica.log)

-- A call for the log of this node gets through.
abbrev pub IsOpen : Site → Type 0
IsOpen (own disk) = Unit
IsOpen (remote log_call link) = log_call ≡ true

abbrev pub Answers : Peer → Type 0
Answers p = IsOpen p.site

-- The goroutines in the order of their looks at `err`.
unfoldable pub lookers : List Turn → List ℕ
lookers [] = []
lookers (asks i ∷ turns) = lookers turns
lookers (looks i ∷ turns) = i ∷ lookers turns

read_log-All :
    (P : OperationLogEntry → Type 0) (encoded_length : OperationLogEntry → ℕ)
    (es : List OperationLogEntry)
    → All P es
    → All P (read_log encoded_length es)
unfolding read_log
read_log-All P encoded_length [] h = tt
read_log-All P encoded_length (e ∷ es) h = ground (arith, read_log-All P encoded_length es h.1)

error_of-answer : (s : Site) → IsOpen s → error_of false s ≡ false
error_of-answer (own disk) h = refl
error_of-answer (remote true link) h = refl
error_of-answer (remote false link) h = absurd (ground arith)

received-All :
    (P : OperationLogEntry → Type 0) (s : Site) (l : Option (List OperationLogEntry))
    → All P (or_nil l)
    → All P (or_nil (received s l))
received-All P (own disk) l h = h
received-All P (remote true link) l h = h
received-All P (remote false link) l h = tt

module _ (encoded_length : OperationLogEntry → ℕ) (peers : List Peer) where
  -- What the goroutine of this index has got.
  abbrev given_at : ℕ → Option (List OperationLogEntry)
  given_at i = given_by encoded_length (get_elem? peers i)

  error_after-answer : (i : ℕ) → All Answers peers → error_after false (get_elem? peers i) ≡ false
  unfolding error_after
  error_after-answer i h = elim (Option-cases (get_elem? peers i)) [
    | inl e ↦ rw e refl
    | inr (p, e) ↦ rw e (error_of-answer p.site (All-at Answers peers i h e))
  ]

  -- When all calls get through, every goroutine takes the log of its replica.
  gathered-map :
      (turns : List Turn)
      → All Answers peers
      → gathered encoded_length peers false turns ≡ map given_at (lookers turns)
  unfolding gathered lookers
  gathered-map [] h = refl
  gathered-map (asks i ∷ turns) h =
      ap (λ b. gathered encoded_length peers b turns) (error_after-answer i h)
      ∙ gathered-map turns h
  gathered-map (looks i ∷ turns) h = ap (λ l. given_at i ∷ l) (gathered-map turns h)

  log_given-All :
      (P : OperationLogEntry → Type 0) (p : Peer)
      → LogIs P p
      → All P (or_nil (log_given encoded_length p))
  unfolding log_given get_operation_log
  log_given-All P p h =
      received-All P p.site (get_operation_log encoded_length p.replica)
        (elim (Option-cases p.replica.log) [
          | inl e ↦ rw e tt
          | inr (es, e) ↦
              rw e (read_log-All P encoded_length es (subst (λ l. All P (or_nil l)) e h))
        ])

  given_at-All :
      (P : OperationLogEntry → Type 0) (i : ℕ) → All (LogIs P) peers → All P (or_nil (given_at i))
  given_at-All P i h = elim (Option-cases (get_elem? peers i)) [
    | inl e ↦ rw e tt
    | inr (p, e) ↦ rw e (log_given-All P p (All-at (LogIs P) peers i h e))
  ]

  flat-All :
      (P : OperationLogEntry → Type 0) (is : List ℕ)
      → All (LogIs P) peers
      → All P (flat (map given_at is))
  unfolding flat
  flat-All P [] h = tt
  flat-All P (i ∷ is) h =
      All-append P (or_nil (given_at i)) (flat (map given_at is)) (given_at-All P i h)
        (flat-All P is h)

  -- The log of the merge is that of all replicas whose goroutine looks, in any order.
  final_log-turns :
      (content : Text → Text) (turns turns' : List Turn)
      → All (LogIs (IsEntryOf content)) peers
      → All Answers peers
      → Perm (lookers turns) (lookers turns')
      → final_log (gathered encoded_length peers false turns)
        ≡ final_log (gathered encoded_length peers false turns')
  final_log-turns content turns turns' k a p =
      ap final_log (gathered-map turns a)
      ∙ final_log-perm content (map given_at (lookers turns)) (map given_at (lookers turns'))
          (flat-All (IsEntryOf content) (lookers turns) k) (Perm.map given_at p)
      ∙ sym (ap final_log (gathered-map turns' a))

abbrev merge_of : (Text → Text) → Text → List Peer → List OperationLogEntry → Option (List Replica)
merge_of hash op_id peers log =
    if any_locked peers
    then none
    else some (
        push_reconciled hash (contents log) (record { op_id = op_id; entry_data = contents log })
          peers)

-- A merge leaves every replica the same, or waits for ever, in whatever order the goroutines make
-- their calls and look at the error variable that they share. The conditions: every call for a log
-- gets through, each goroutine looks as often in the one order as in the other, and an operation id
-- stands for one operation in all logs. The calls with the result may fail, and so may the disks.
pub merge_file-perm :
    (content : Text → Text) (hash : Text → Text) (encoded_length : OperationLogEntry → ℕ)
    (op_id : Text) (turns turns' : List Turn) (peers : List Peer)
    → All (LogIs (IsEntryOf content)) peers
    → All Answers peers
    → Perm (lookers turns) (lookers turns')
    → merge_file hash encoded_length op_id turns peers
      ≡ merge_file hash encoded_length op_id turns' peers
unfolding merge_file
merge_file-perm content hash encoded_length op_id turns turns' peers k a p =
    ap (merge_of hash op_id peers) (final_log-turns encoded_length peers content turns turns' k a p)
