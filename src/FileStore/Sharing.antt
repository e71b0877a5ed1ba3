-- ===== src/FileStore/Sharing.antt =====
-- The error variable that the goroutines of `MergeFile` share: what one failed call does to a file.
use event_stream_rainstorm.Prelude.{
  ℕ, ◌≡◌, refl, sym, subst, inl, inr, Bool, true, false, some, List, [], ◌∷◌, All, All-at,
  get_elem?, Option-cases, arith,
}
use event_stream_rainstorm.Prelude.Text.{Text}
use event_stream_rainstorm.FileStore.{OperationLogEntry, Replica}
use event_stream_rainstorm.FileStore.Merge.{
  Site, own, remote, Peer, Turn, asks, looks, error_of, error_after, gathered, merge_file,
}
use event_stream_rainstorm.FileStore.Merging.{IsInjective, Has, Reached, AreEmpty, merge_file_empty}

-- Another node, whose log is not got.
abbrev pub IsCut : Site → Type 0
IsCut (own disk) = ⊥
IsCut (remote log_call link) = log_call ≡ false

-- The node itself, or one that is cut off.
abbrev pub OwnOrCut : Site → Type 0
OwnOrCut (own disk) = Unit
OwnOrCut (remote log_call link) = log_call ≡ false

abbrev pub IsOwnOrCut : Peer → Type 0
IsOwnOrCut p = OwnOrCut p.site

error_of-cut : (failed : Bool) (s : Site) → IsCut s → error_of failed s ≡ true
error_of-cut failed (own disk) h = absurd h
error_of-cut failed (remote true link) h = absurd (ground arith)
error_of-cut failed (remote false link) h = refl

error_of-stays : (s : Site) → OwnOrCut s → error_of true s ≡ true
error_of-stays (own disk) h = refl
error_of-stays (remote true link) h = absurd (ground arith)
error_of-stays (remote false link) h = refl

error_after-stays :
    (peers : List Peer) (i : ℕ) → All IsOwnOrCut peers → error_after true (get_elem? peers i) ≡ true
unfolding error_after
error_after-stays peers i h = elim (Option-cases (get_elem? peers i)) [
  | inl e ↦ rw e refl
  | inr (p, e) ↦ rw e (error_of-stays p.site (All-at IsOwnOrCut peers i h e))
]

gathered-failed :
    (encoded_length : OperationLogEntry → ℕ) (peers : List Peer) (turns : List Turn)
    → All IsOwnOrCut peers
    → AreEmpty (gathered encoded_length peers true turns)
unfolding gathered
gathered-failed encoded_length peers [] h = tt
gathered-failed encoded_length peers (asks i ∷ turns) h =
    subst (λ b. AreEmpty (gathered encoded_length peers b turns))
      (sym (error_after-stays peers i h)) (gathered-failed encoded_length peers turns h)
gathered-failed encoded_length peers (looks i ∷ turns) h =
    (inl refl, gathered-failed encoded_length peers turns h)

gathered-cut :
    (encoded_length : OperationLogEntry → ℕ) (peers : List Peer) (i : ℕ) (p : Peer)
    (turns : List Turn)
    → get_elem? peers i ≡ some p
    → IsCut p.site
    → All IsOwnOrCut peers
    → AreEmpty (gathered encoded_length peers false (asks i ∷ turns))
unfolding gathered error_after
gathered-cut encoded_length peers i p turns e c h =
    rw (e, error_of-cut false p.site c) (gathered-failed encoded_length peers turns h)

-- A merge can empty a file that its node has in full. Where no other replica can be asked for its log
-- and the call to one of them fails before the node's own goroutine looks at the shared error, the
-- node's own log is thrown away, and the merge overwrites the file with nothing on the node itself,
-- and wherever else its result gets to, where the disk makes the writes. The condition: the hash tells
-- files apart.
pub merge_file-cut :
    (hash : Text → Text) (encoded_length : OperationLogEntry → ℕ) (op_id : Text) (i : ℕ) (p : Peer)
    (turns : List Turn) (peers : List Peer) (rs' : List Replica)
    → IsInjective hash
    → get_elem? peers i ≡ some p
    → IsCut p.site
    → All IsOwnOrCut peers
    → merge_file hash encoded_length op_id (asks i ∷ turns) peers ≡ some rs'
    → Reached (Has [] (record { op_id = op_id; entry_data = [] })) peers rs'
merge_file-cut hash encoded_length op_id i p turns peers rs' inj e c h m =
    merge_file_empty hash encoded_length op_id (asks i ∷ turns) peers rs' inj
      (gathered-cut encoded_length peers i p turns e c h) m
