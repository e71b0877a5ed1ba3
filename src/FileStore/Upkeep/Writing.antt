-- ===== src/FileStore/Upkeep/Writing.antt =====
-- Whom a write reaches: the primary and the others are the replicas of the file.
use mathlib.Core.List.{Perm}
use mathlib.Core.List.Perm
use event_stream_rainstorm.Prelude.{
  ℕ, zero, suc, ◌<◌, ◌≡◌, refl, some, List, [], ◌∷◌, map, length, get_elem?, get_elem?-of_lt,
  get_elem?-map, arith,
}
use event_stream_rainstorm.Prelude.Text.{Text}
use event_stream_rainstorm.Ring.{NodeInfo, replicas}
use event_stream_rainstorm.FileStore.Upkeep.{
  WriteCall, all_but, call_hydfs_write, calls, trigger_append,
}

abbrev addresses : List NodeInfo → List Text
addresses ns = map (λ (n : NodeInfo). n.address) ns

all_but-perm :
    (i : ℕ) (ns : List NodeInfo) (n : NodeInfo)
    → get_elem? ns i ≡ some n
    → Perm (n.address ∷ all_but i ns) (addresses ns)
unfolding all_but
all_but-perm i [] n e = ground arith
all_but-perm zero (m ∷ ns) n e =
    let same : n.address ≡ m.address = ground arith in rw same (Perm.refl _)
all_but-perm (suc i) (m ∷ ns) n e =
    Perm.trans (Perm.swap m.address n.address (all_but i ns))
      (Perm.cons m.address (all_but-perm i ns n e))

-- The replicas that a write goes to.
abbrev pub reached : WriteCall → List Text
reached c = c.primary ∷ c.non_primary

-- `TriggerAppend` with a file that it can read sends one write, whose primary is the replica it
-- chose; the primary and the others are exactly the replicas of the file, as they are for a write
-- of `CallHyDFSWrite`.
pub trigger_append-reaches :
    (content : Text) (rs : List NodeInfo) (primary_index : ℕ)
    → primary_index < length rs
    → (c d : WriteCall) × (trigger_append (some content) (replicas rs) primary_index ≡ calls c)
      × (call_hydfs_write (replicas rs) ≡ some d)
      × (get_elem? (addresses rs) primary_index ≡ some c.primary)
      × Perm (reached c) (addresses rs)
      × Perm (reached d) (addresses rs)
unfolding trigger_append call_hydfs_write
trigger_append-reaches content [] primary_index h = absurd (omega arith)
trigger_append-reaches content (m ∷ rs) primary_index h =
    let (n, e) = get_elem?-of_lt (m ∷ rs) primary_index h in
    (
      record { primary = n.address; non_primary = all_but primary_index (m ∷ rs) },
      record { primary = m.address; non_primary = all_but 0 (m ∷ rs) },
      ground arith,
      refl,
      get_elem?-map (λ (x : NodeInfo). x.address) (m ∷ rs) primary_index e,
      all_but-perm primary_index (m ∷ rs) n e,
      all_but-perm 0 (m ∷ rs) m refl,
    )
