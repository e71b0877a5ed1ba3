-- ===== src/Tests/Files.antt =====
-- Runs of the operations on the replicas of a file.
use mathlib.Core.List.Perm
use event_stream_rainstorm.Prelude.{
  ℕ, ◌≡◌, refl, true, false, none, some, List, [], ◌∷◌, ◌++◌, All, arith, ◌==◌, if◌then◌else◌,
}
use event_stream_rainstorm.Prelude.Sorting.{sort_by}
use event_stream_rainstorm.Prelude.Text.{Text, text, text_eq, text_beq}
use event_stream_rainstorm.FileStore.{
  OperationLogEntry, Replica, Disk, refused, blocked, Link, down, up, no_reply, create_local,
  append_local, create_file, append_file, call_replica, primary_write, count_ok, any_blocked,
  replicated, get_file,
}
use event_stream_rainstorm.FileStore.Merge.{
  contents, read_log, get_operation_log, gathered, add_all, all_ops, final_log, own, remote, Site,
  Peer, disk_of, log_given, Turn, asks, looks, error_after, write_final_log, is_same, reconcile,
  pushed, push_reconciled, is_awaited, any_locked, merge_file,
}
use event_stream_rainstorm.FileStore.Replication.{Holds, create_file-Holds, append_file-Holds}
use event_stream_rainstorm.FileStore.Locking.{
  create, get, calls, call, append_missing-blocked, create_failed-retry,
}
use event_stream_rainstorm.FileStore.Convergence.{lookers, merge_file-perm}
use event_stream_rainstorm.FileStore.Sharing.{merge_file-cut}
use event_stream_rainstorm.FileStore.Merging.{
  IsInjective, Has, Reached, IsOversized, merge_file-oversized,
}

abbrev working : Disk
working = record { write_file = true; open_log = true; write_log = true }

abbrev entry_a : OperationLogEntry
entry_a = record { op_id = text "1-VM1"; entry_data = text "ab" }

abbrev entry_b : OperationLogEntry
entry_b = record { op_id = text "2-VM1"; entry_data = text "cd" }

abbrev empty : Replica
empty = record { file = none; log = none; locked = false }

abbrev one : Replica
one = record { file = some (text "ab"); log = some (entry_a ∷ []); locked = false }

abbrev others : List (Link × Replica)
others = (up working, empty) ∷ (up working, empty) ∷ []

one-Holds : Holds (entry_a ∷ []) one
unfolding contents
one-Holds = record { file = refl; log = refl }

create_file-Holds_example :
    Holds (entry_a ∷ []) (create_file working entry_a empty others).1
    × All (Holds (entry_a ∷ [])) (create_file working entry_a empty others).2
unfolding create_file create_local primary_write call_replica replicated count_ok any_blocked
create_file-Holds_example = create_file-Holds working entry_a empty others refl

append_file-Holds_example :
    Holds
      (entry_a ∷ [] ++ entry_b ∷ [])
      (append_file working entry_b one ((up working, one) ∷ [])).1
    × All
        (Holds (entry_a ∷ [] ++ entry_b ∷ []))
        (append_file working entry_b one ((up working, one) ∷ [])).2
unfolding append_file append_local primary_write call_replica replicated count_ok any_blocked
append_file-Holds_example =
    append_file-Holds working entry_b (entry_a ∷ []) one ((up working, one) ∷ []) one-Holds
      (one-Holds, tt) refl

append_missing-blocked_example :
    ((append_local working entry_a empty).0 ≡ refused)
    × ((call (create working entry_a) (calls (get ∷ []) (append_local working entry_a empty).1)).0
        ≡ blocked)
append_missing-blocked_example =
    append_missing-blocked working entry_a (get ∷ []) (create working entry_a) empty refl refl

create_failed-retry_example :
    let r' = (create_file working entry_a empty ((no_reply working, empty) ∷ [])).1 in
    ((create_file working entry_a empty ((no_reply working, empty) ∷ [])).0 ≡ refused)
    × ((get_file r').0 ≡ refused)
    × ((create_file working entry_b r' others).0 ≡ refused)
unfolding create_local primary_write call_replica replicated count_ok any_blocked
create_failed-retry_example =
    create_failed-retry working working entry_a entry_b empty ((no_reply working, empty) ∷ [])
      others refl refl

-- A hash that tells all files apart.
abbrev same : Text → Text
same s = s

same-IsInjective : IsInjective same
same-IsInjective s t e = e

abbrev short_lines : OperationLogEntry → ℕ
short_lines e = 10

abbrev long_lines : OperationLogEntry → ℕ
long_lines e = 70000

abbrev at : Site → Replica → Peer
at site r = record { site = site; replica = r }

abbrev both : Replica
both = record one { file = some (text "abcd"); log = some (entry_a ∷ entry_b ∷ []) }

abbrev behind : List Peer
behind = at (own working) both ∷ at (remote true (up working)) one ∷ at (remote false down) one ∷ []

-- All calls are made before the first look.
abbrev calls_first : List Turn
calls_first = asks 2 ∷ asks 1 ∷ asks 0 ∷ looks 0 ∷ looks 1 ∷ looks 2 ∷ []

one-IsOversized : IsOversized long_lines one
one-IsOversized = (entry_a, refl, omega arith)

abbrev merged_once : List Peer
merged_once = at (own working) one ∷ at (remote true (up working)) one ∷ []

abbrev emptied : Replica
emptied = record one {
  file = some [];
  log = some (record { op_id = text "3-VM1"; entry_data = [] } ∷ []);
}

abbrev in_turn : List Turn
in_turn = asks 0 ∷ looks 0 ∷ asks 1 ∷ looks 1 ∷ []

merge_file-oversized_example :
    Reached
      (Has [] (record { op_id = text "3-VM1"; entry_data = [] }))
      merged_once
      (emptied ∷ emptied ∷ [])
unfolding merge_file gathered error_after log_given get_operation_log read_log any_locked is_awaited
    final_log all_ops add_all contents push_reconciled pushed disk_of reconcile is_same
    write_final_log sort_by text_beq
merge_file-oversized_example =
    merge_file-oversized same long_lines (text "3-VM1") in_turn merged_once (emptied ∷ emptied ∷ [])
      same-IsInjective (one-IsOversized, (one-IsOversized, tt)) refl

abbrev bytes_of : Text → Text
bytes_of id = if id == text "1-VM1" then text "ab" else text "cd"

abbrev diverged : List Peer
diverged =
    at (own working) one
    ∷ at (remote true down) (record one { log = some (entry_b ∷ entry_a ∷ []) })
    ∷ []

abbrev other_turns : List Turn
other_turns = asks 1 ∷ looks 1 ∷ asks 0 ∷ looks 0 ∷ []

merge_file-perm_example :
    merge_file same short_lines (text "3-VM1") in_turn diverged
    ≡ merge_file same short_lines (text "3-VM1") other_turns diverged
unfolding text_beq lookers
merge_file-perm_example =
    merge_file-perm bytes_of same short_lines (text "3-VM1") in_turn other_turns diverged
      ((refl, tt), ((refl, (refl, tt)), tt)) (tt, (refl, tt)) (Perm.swap 1 0 [])

-- The node has the file in full, and the other replica is out of reach.
abbrev alone : List Peer
alone = at (own working) one ∷ at (remote false down) empty ∷ []

merge_file-cut_example :
    Reached (Has [] (record { op_id = text "3-VM1"; entry_data = [] })) alone (emptied ∷ empty ∷ [])
unfolding merge_file gathered error_after log_given get_operation_log read_log any_locked is_awaited
    final_log all_ops add_all contents push_reconciled pushed disk_of reconcile is_same
    write_final_log sort_by text_beq
merge_file-cut_example =
    merge_file-cut same short_lines (text "3-VM1") 1 (at (remote false down) empty)
      (asks 0 ∷ looks 0 ∷ looks 1 ∷ []) alone (emptied ∷ empty ∷ []) same-IsInjective refl refl
      (tt, (refl, tt)) refl
