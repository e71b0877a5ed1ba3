-- ===== src/FileStore/Merging.antt =====
-- `MergeFile`: the replicas agree afterwards; a file whose log is one line that is too long; and the
-- error variable that the goroutines share.
use event_stream_rainstorm.Prelude.{
  ℕ, ◌<◌, ◌≡◌, refl, ap, subst, ◌∙◌, ◌⊎◌, inl, inr, Bool, true, false, ◌&&◌, Option, none, some,
  List, [], ◌∷◌, All, All-at, get_elem?, nat_eq, if◌then◌else◌, Bool-cases, Option-cases, arith,
}
use event_stream_rainstorm.Prelude.Sorting.{sort_by}
use event_stream_rainstorm.Prelude.Text.{Text, text_eq, text_order, text_beq_iff}
use event_stream_rainstorm.Lines.{max_line}
use event_stream_rainstorm.FileStore.{OperationLogEntry, Replica, Disk}
use event_stream_rainstorm.FileStore.Merge.{
  read_log, get_operation_log, all_ops, add_all, contents, final_log, Site, own, remote, Peer,
  disk_of, log_given, given_by, Turn, asks, looks, error_after, gathered, write_final_log, is_same,
  received, pushed, reconcile, push_reconciled, any_locked, merge_file,
}

-- The hash tells files apart, as is relied on for SHA-256.
abbrev pub IsInjective : (Text → Text) → Type 0
IsInjective hash = (s t : Text) → hash s ≡ hash t → s ≡ t

-- The replica holds this file and has this operation alone in its log.
abbrev pub Has : Text → OperationLogEntry → Replica → Type 0
Has content entry r = (r.file ≡ some content) × (r.log ≡ some (entry ∷ []))

-- Every write to the disk is made.
abbrev pub is_working : Disk → Bool
is_working disk = disk.write_file && (disk.open_log && disk.write_log)

-- A replica that the result reaches and whose writes are made is as `P` says, one that it does not
-- reach is as it was; of one whose disk fails nothing is said.
abbrev pub Became : (Replica → Type 0) → Replica → Option Disk → Replica → Type 0
Became P r none r' = r' ≡ r
Became P r (some disk) r' = if is_working disk then P r' else Unit

abbrev pub Reached : (Replica → Type 0) → List Peer → List Replica → Type 0
Reached P [] rs' = rs' ≡ []
Reached P (p ∷ peers) [] = ⊥
Reached P (p ∷ peers) (r' ∷ rs') = Became P p.replica (disk_of p.site) r' × Reached P peers rs'

is_same-file :
    (hash : Text → Text) (content : Text) (file : Option Text)
    → IsInjective hash
    → is_same hash content file ≡ true
    → file ≡ some content
unfolding is_same
is_same-file hash content none inj h = absurd (ground arith)
is_same-file hash content (some old) inj h =
    ap some (inj old content ((text_beq_iff (hash old) (hash content)).0 h))

reconcile-Has :
    (hash : Text → Text) (disk : Disk) (content : Text) (entry : OperationLogEntry) (r : Replica)
    → IsInjective hash
    → is_working disk ≡ true
    → Has content entry (reconcile hash disk content entry r)
unfolding reconcile write_final_log
reconcile-Has hash disk content entry r inj w = elim (Bool-cases (is_same hash content r.file)) [
  | inl e ↦ let q = is_same-file hash content r.file inj e in ground arith
  | inr e ↦ ground arith
]

pushed-Became :
    (hash : Text → Text) (content : Text) (entry : OperationLogEntry) (r : Replica)
    (o : Option Disk)
    → IsInjective hash
    → Became (Has content entry) r o (pushed hash content entry r o)
unfolding pushed
pushed-Became hash content entry r none inj = refl
pushed-Became hash content entry r (some disk) inj = elim (Bool-cases (is_working disk)) [
  | inl w ↦ rw w (reconcile-Has hash disk content entry r inj w)
  | inr w ↦ rw w tt
]

push_reconciled-Reached :
    (hash : Text → Text) (content : Text) (entry : OperationLogEntry) (peers : List Peer)
    → IsInjective hash
    → Reached (Has content entry) peers (push_reconciled hash content entry peers)
unfolding push_reconciled
push_reconciled-Reached hash content entry [] inj = refl
push_reconciled-Reached hash content entry (p ∷ peers) inj = (
  pushed-Became hash content entry p.replica (disk_of p.site) inj,
  push_reconciled-Reached hash content entry peers inj,
)

merged :
    (hash : Text → Text) (encoded_length : OperationLogEntry → ℕ) (op_id : Text) (turns : List Turn)
    (peers : List Peer) (rs' : List Replica)
    → merge_file hash encoded_length op_id turns peers ≡ some rs'
    → let content = contents (final_log (gathered encoded_length peers false turns)) in
      push_reconciled hash content (record { op_id = op_id; entry_data = content }) peers ≡ rs'
unfolding merge_file
merged hash encoded_length op_id turns peers rs' h = ground arith

none_locked :
    (peers : List Peer)
    → All (λ (p : Peer). p.replica.locked ≡ false) peers
    → any_locked peers ≡ false
unfolding any_locked
none_locked [] h = refl
none_locked (p ∷ peers) h = ground (arith, none_locked peers h.1)

pub merge_file-Reached :
    (hash : Text → Text) (encoded_length : OperationLogEntry → ℕ) (op_id : Text) (turns : List Turn)
    (peers : List Peer) (rs' : List Replica)
    → IsInjective hash
    → merge_file hash encoded_length op_id turns peers ≡ some rs'
    → Reached
        (Has (contents (final_log (gathered encoded_length peers false turns))) (record {
          op_id = op_id;
          entry_data = contents (final_log (gathered encoded_length peers false turns));
        }))
        peers
        rs'
merge_file-Reached hash encoded_length op_id turns peers rs' inj h =
    let content = contents (final_log (gathered encoded_length peers false turns)) in
    let entry : OperationLogEntry = record { op_id = op_id; entry_data = content } in
    subst (Reached (Has content entry) peers) (merged hash encoded_length op_id turns peers rs' h)
      (push_reconciled-Reached hash content entry peers inj)

-- When no replica is locked, the merge returns.
pub merge_file-returns :
    (hash : Text → Text) (encoded_length : OperationLogEntry → ℕ) (op_id : Text) (turns : List Turn)
    (peers : List Peer)
    → All (λ (p : Peer). p.replica.locked ≡ false) peers
    → (rs' : List Replica) × (merge_file hash encoded_length op_id turns peers ≡ some rs')
unfolding merge_file
merge_file-returns hash encoded_length op_id turns peers h =
    let content = contents (final_log (gathered encoded_length peers false turns)) in
    let entry : OperationLogEntry = record { op_id = op_id; entry_data = content } in
    let out = push_reconciled hash content entry peers in
    (out, ap (λ b. if b then none else some out) (none_locked peers h))

-- No log has an entry.
abbrev pub AreEmpty : List (Option (List OperationLogEntry)) → Type 0
AreEmpty logs = All (λ (l : Option (List OperationLogEntry)). (l ≡ none) ⊎ (l ≡ some [])) logs

all_ops_empty :
    (logs : List (Option (List OperationLogEntry))) → AreEmpty logs → all_ops logs [] ≡ []
unfolding all_ops add_all
all_ops_empty [] h = refl
all_ops_empty (l ∷ logs) h = elim h.0 [
  | inl e ↦ rw e (all_ops_empty logs h.1)
  | inr e ↦ rw e (all_ops_empty logs h.1)
]

final_log_empty :
    (logs : List (Option (List OperationLogEntry))) → AreEmpty logs → final_log logs ≡ []
unfolding final_log sort_by
final_log_empty logs h = rw (all_ops_empty logs h) refl

contents_nil : contents [] ≡ []
unfolding contents
contents_nil = refl

-- A merge that has taken no entry empties the file.
pub merge_file_empty :
    (hash : Text → Text) (encoded_length : OperationLogEntry → ℕ) (op_id : Text) (turns : List Turn)
    (peers : List Peer) (rs' : List Replica)
    → IsInjective hash
    → AreEmpty (gathered encoded_length peers false turns)
    → merge_file hash encoded_length op_id turns peers ≡ some rs'
    → Reached (Has [] (record { op_id = op_id; entry_data = [] })) peers rs'
merge_file_empty hash encoded_length op_id turns peers rs' inj o h =
    subst (λ c. Reached (Has c (record { op_id = op_id; entry_data = c })) peers rs')
      (ap contents (final_log_empty (gathered encoded_length peers false turns) o) ∙ contents_nil)
      (merge_file-Reached hash encoded_length op_id turns peers rs' inj h)

-- The log is one entry whose line the scanner does not take.
abbrev pub IsOversized : (OperationLogEntry → ℕ) → Replica → Type 0
IsOversized encoded_length r =
    (entry : OperationLogEntry) × (r.log ≡ some (entry ∷ [])) × (max_line < encoded_length entry)

oversized-log :
    (encoded_length : OperationLogEntry → ℕ) (r : Replica)
    → IsOversized encoded_length r
    → get_operation_log encoded_length r ≡ some []
unfolding get_operation_log read_log
oversized-log encoded_length r (entry, l, h) = rw l (ground arith)

received_empty :
    (s : Site) (l : Option (List OperationLogEntry))
    → l ≡ some []
    → (received s l ≡ none) ⊎ (received s l ≡ some [])
received_empty (own disk) l e = inr e
received_empty (remote true link) l e = inr e
received_empty (remote false link) l e = inl refl

oversized-given :
    (encoded_length : OperationLogEntry → ℕ) (p : Peer)
    → IsOversized encoded_length p.replica
    → (log_given encoded_length p ≡ none) ⊎ (log_given encoded_length p ≡ some [])
unfolding log_given
oversized-given encoded_length p h =
    received_empty p.site (get_operation_log encoded_length p.replica)
      (oversized-log encoded_length p.replica h)

module _ (encoded_length : OperationLogEntry → ℕ) (peers : List Peer) where
  given_by-oversized :
      (i : ℕ)
      → All (λ (p : Peer). IsOversized encoded_length p.replica) peers
      → (given_by encoded_length (get_elem? peers i) ≡ none)
        ⊎ (given_by encoded_length (get_elem? peers i) ≡ some [])
  given_by-oversized i h = elim (Option-cases (get_elem? peers i)) [
    | inl e ↦ rw e (inl refl)
    | inr (p, e) ↦ rw e (oversized-given encoded_length p (All-at _ peers i h e))
  ]

  gathered-oversized :
      (failed : Bool) (turns : List Turn)
      → All (λ (p : Peer). IsOversized encoded_length p.replica) peers
      → AreEmpty (gathered encoded_length peers failed turns)
  unfolding gathered
  gathered-oversized failed [] h = tt
  gathered-oversized failed (asks i ∷ turns) h =
      gathered-oversized (error_after failed (get_elem? peers i)) turns h
  gathered-oversized true (looks i ∷ turns) h = (inl refl, gathered-oversized true turns h)
  gathered-oversized false (looks i ∷ turns) h =
      (given_by-oversized i h, gathered-oversized false turns h)

-- When every log is one entry whose line is too long for the scanner, as a merge of more than 48 KB
-- leaves it, the next merge empties the file on every replica that its result reaches and whose disk
-- makes the writes, in whatever order the goroutines run and whichever calls for the logs fail. The
-- condition: the hash tells files apart.
pub merge_file-oversized :
    (hash : Text → Text) (encoded_length : OperationLogEntry → ℕ) (op_id : Text) (turns : List Turn)
    (peers : List Peer) (rs' : List Replica)
    → IsInjective hash
    → All (λ (p : Peer). IsOversized encoded_length p.replica) peers
    → merge_file hash encoded_length op_id turns peers ≡ some rs'
    → Reached (Has [] (record { op_id = op_id; entry_data = [] })) peers rs'
merge_file-oversized hash encoded_length op_id turns peers rs' inj o h =
    merge_file_empty hash encoded_length op_id turns peers rs' inj
      (gathered-oversized encoded_length peers false turns o) h
