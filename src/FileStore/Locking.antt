-- ===== src/FileStore/Locking.antt =====
-- The lock of a file in `AppendFile`, and what a failed `CreateFile` leaves.
use event_stream_rainstorm.Prelude.{
  ◌≡◌, refl, ap, ◌∙◌, true, false, none, List, [], ◌∷◌, nat_eq, arith,
}
use event_stream_rainstorm.Prelude.Text.{text_eq}
use event_stream_rainstorm.FileStore.{
  OperationLogEntry, Replica, Disk, Answer, ok, refused, blocked, Link, create_local, append_local,
  create_file, primary_write, replicated, get_file,
}

-- The calls on one replica.
pub data Call : Type 0 where
  create : Disk → OperationLogEntry → Call
  append : Disk → OperationLogEntry → Call
  get : Call

unfoldable pub call : Call → Replica → Answer × Replica
unfolding create_local append_local get_file
call (create disk entry) r = create_local disk entry r
call (append disk entry) r = append_local disk entry r
call get r = ((get_file r).0, r)

unfoldable pub calls : List Call → Replica → Replica
unfolding call
calls [] r = r
calls (c ∷ cs) r = calls cs (call c r).1

locked-same : (c : Call) (r : Replica) → r.locked ≡ true → (call c r).1 ≡ r
unfolding call
locked-same (create disk entry) r h = ground arith
locked-same (append disk entry) r h = ground arith
locked-same get r h = refl

locked-calls : (cs : List Call) (r : Replica) → r.locked ≡ true → calls cs r ≡ r
unfolding calls
locked-calls [] r h = refl
locked-calls (create disk entry ∷ cs) r h =
    ap (calls cs) (locked-same (create disk entry) r h) ∙ locked-calls cs r h
locked-calls (append disk entry ∷ cs) r h =
    ap (calls cs) (locked-same (append disk entry) r h) ∙ locked-calls cs r h
locked-calls (get ∷ cs) r h = locked-calls cs r h

locked-call : (c : Call) (r : Replica) → r.locked ≡ true → (call c r).0 ≡ blocked
unfolding call
locked-call (create disk entry) r h = ground arith
locked-call (append disk entry) r h = ground arith
locked-call get r h = ground arith

append_missing :
    (disk : Disk) (entry : OperationLogEntry) (r : Replica)
    → r.locked ≡ false
    → r.log ≡ none
    → append_local disk entry r ≡ (refused, record r { locked = true })
unfolding append_local
append_missing disk entry r h l = ground arith

-- After an append to a file that the node does not have, every later call on that file waits for
-- ever, so that the file can never be created there.
pub append_missing-blocked :
    (disk : Disk) (entry : OperationLogEntry) (cs : List Call) (c : Call) (r : Replica)
    → r.locked ≡ false
    → r.log ≡ none
    → ((append_local disk entry r).0 ≡ refused)
      × ((call c (calls cs (append_local disk entry r).1)).0 ≡ blocked)
append_missing-blocked disk entry cs c r h l =
    let r' = record r { locked = true } in
    let e = append_missing disk entry r h l in
    (
      ap (λ p. p.0) e,
      ap (λ p. (call c (calls cs p.1)).0) e
          ∙ ap (λ x. (call c x).0) (locked-calls cs r' refl)
          ∙ locked-call c r' refl,
    )

-- When the primary has created a file and a replica has not, the create fails; the primary has no
-- file then, but keeps the log, so that a get fails and no later create can succeed.
pub create_failed-retry :
    (disk disk' : Disk) (entry entry' : OperationLogEntry) (r : Replica)
    (others others' : List (Link × Replica))
    → (create_local disk entry r).0 ≡ ok
    → replicated (primary_write create_local entry others).0 ≡ refused
    → let r' = (create_file disk entry r others).1 in
      ((create_file disk entry r others).0 ≡ refused)
      × ((get_file r').0 ≡ refused)
      × ((create_file disk' entry' r' others').0 ≡ refused)
unfolding create_file get_file create_local
create_failed-retry disk disk' entry entry' r others others' h n = ground arith
