-- ===== src/Client/Files/Writing.antt =====
-- The copies of a file after a write of demo/demo.go that the client calls complete.
use event_stream_rainstorm.Prelude.{
  ℕ, suc, ◌≡◌, refl, sym, ap, subst, ◌∙◌, inl, inr, true, false, some, List, [], ◌∷◌, ◌++◌, map,
  length, All, get_elem?, length-map, All-of_at, zero, some-injective, ◌==◌, Bool-cases, arith,
}
use event_stream_rainstorm.Prelude.Text.{Text, text_eq, text_beq_iff}
use event_stream_rainstorm.Ring.{NodeInfo, replicas}
use event_stream_rainstorm.FileStore.{
  OperationLogEntry, Replica, Disk, Answer, ok, refused, blocked, Link, down, up, no_reply,
  create_local, append_local, create_file, append_file, primary_write,
}
use event_stream_rainstorm.FileStore.Replication.{
  Holds, create_local-Holds, append_local-Holds, create_file-ok, append_file-ok, replicated-ok,
  primary_write-works, AnyState,
}
use event_stream_rainstorm.FileStore.Upkeep.{WriteCall}
use event_stream_rainstorm.Client.Files.{
  Store, put_replicas, Written, complete, said, Handler, handled, through, call_primary, exec_write,
}

-- A copy that a get reads: the operations and no lock that is held for ever.
pub record Serves (es : List OperationLogEntry) (r : Replica) : Type 0 where
  pub holds : Holds es r
  pub free : r.locked ≡ false

create_local-Serves :
    (disk : Disk) (entry : OperationLogEntry) (r : Replica)
    → (create_local disk entry r).0 ≡ ok
    → Serves (entry ∷ []) (create_local disk entry r).1
unfolding create_local
create_local-Serves disk entry r h = record {
  holds = create_local-Holds disk entry r h;
  free = ground arith;
}

append_local-Serves :
    (disk : Disk) (entry : OperationLogEntry) (es : List OperationLogEntry) (r : Replica)
    → Serves es r
    → (append_local disk entry r).0 ≡ ok
    → Serves (es ++ entry ∷ []) (append_local disk entry r).1
unfolding append_local
append_local-Serves disk entry es r k h = record {
  holds = append_local-Holds disk entry es r k.holds h;
  free = ground (arith, k.free);
}

create_file-first :
    (disk : Disk) (entry : OperationLogEntry) (r : Replica) (others : List (Link × Replica))
    → (create_file disk entry r others).0 ≡ ok
    → ((create_local disk entry r).0 ≡ ok)
      × ((create_file disk entry r others).1 ≡ (create_local disk entry r).1)
unfolding create_file
create_file-first disk entry r others h = ground arith

append_file-first :
    (disk : Disk) (entry : OperationLogEntry) (r : Replica) (others : List (Link × Replica))
    → (append_file disk entry r others).0 ≡ ok
    → ((append_local disk entry r).0 ≡ ok)
      × ((append_file disk entry r others).1 ≡ (append_local disk entry r).1)
unfolding append_file
append_file-first disk entry r others h = ground arith

length-primary_write :
    (method : Disk → OperationLogEntry → Replica → Answer × Replica) (entry : OperationLogEntry)
    (others : List (Link × Replica))
    → length (primary_write method entry others).1 ≡ length others
unfolding primary_write
length-primary_write method entry [] = refl
length-primary_write method entry ((link, r) ∷ others) =
    omega (arith, length-primary_write method entry others)

-- What a handler makes of the copies, when it succeeds.
abbrev pub Makes : Handler → OperationLogEntry → (Replica → Type 0) → (Replica → Type 0) → Type 0
Makes handler entry P Q =
    (disk : Disk) (r : Replica) (others : List (Link × Replica))
    → P r
    → All (λ (o : Link × Replica). P o.1) others
    → (handler disk entry r others).0 ≡ ok
    → Q (handler disk entry r others).1
      × All Q (handler disk entry r others).2
      × (length (handler disk entry r others).2 ≡ length others)

pub create_file-Makes :
    (entry : OperationLogEntry) → Makes create_file entry AnyState (Serves (entry ∷ []))
create_file-Makes entry disk r others p ps h =
    let (a, e) = create_file-first disk entry r others h in
    let (b, f, l, o) = create_file-ok disk entry r others h in
    (
      subst (Serves (entry ∷ [])) (sym e) (create_local-Serves disk entry r a),
      subst (All (Serves (entry ∷ []))) (sym o) (
          primary_write-works create_local entry AnyState (Serves (entry ∷ []))
            (λ disk r p k. create_local-Serves disk entry r k) others ps (replicated-ok _ b)),
      ap length o ∙ length-primary_write create_local entry others,
    )

pub append_file-Makes :
    (entry : OperationLogEntry) (es : List OperationLogEntry)
    → Makes append_file entry (Serves es) (Serves (es ++ entry ∷ []))
append_file-Makes entry es disk r others p ps h =
    let (a, e) = append_file-first disk entry r others h in
    let (c, b, f, l, o) = append_file-ok disk entry r others h in
    (
      subst (Serves (es ++ entry ∷ [])) (sym e) (append_local-Serves disk entry es r p a),
      subst (All (Serves (es ++ entry ∷ []))) (sym o) (
          primary_write-works append_local entry (Serves es) (Serves (es ++ entry ∷ []))
            (λ disk r p k. append_local-Serves disk entry es r p k) others ps (replicated-ok _ b)),
      ap length o ∙ length-primary_write append_local entry others,
    )

-- All nodes of a list keep copies of one kind.
abbrev pub Everywhere : (Replica → Type 0) → List Text → Store → Type 0
Everywhere P addrs store = All (λ (addr : Text). P (store addr)) addrs

put_replicas-one :
    (P : Replica → Type 0) (addrs : List Text) (rs : List Replica) (store : Store) (i : ℕ)
    (addr : Text)
    → length rs ≡ length addrs
    → All P rs
    → get_elem? addrs i ≡ some addr
    → P (put_replicas addrs rs store addr)
unfolding put_replicas
put_replicas-one P [] rs store i addr e ps h = absurd (ground arith)
put_replicas-one P (a ∷ addrs) [] store i addr e ps h = absurd (omega arith)
put_replicas-one P (a ∷ addrs) (r ∷ rs) store zero addr e ps h =
    let same : addr == a ≡ true = (text_beq_iff addr a).1 (sym (some-injective _ _ h)) in
    rw same ps.0
put_replicas-one P (a ∷ addrs) (r ∷ rs) store (suc i) addr e ps h = elim (Bool-cases (addr == a)) [
  | inl k ↦ rw k ps.0
  | inr k ↦ rw k (put_replicas-one P addrs rs store i addr (omega arith) ps.1 h)
]

put_replicas-Everywhere :
    (P : Replica → Type 0) (addrs : List Text) (rs : List Replica) (store : Store)
    → length rs ≡ length addrs
    → All P rs
    → Everywhere P addrs (put_replicas addrs rs store)
put_replicas-Everywhere P addrs rs store e ps =
    All-of_at (λ addr. P (put_replicas addrs rs store addr)) addrs
      (λ i addr h. put_replicas-one P addrs rs store i addr e ps h)

All-copies :
    (P : Replica → Type 0) (links : Text → Link) (store : Store) (addrs : List Text)
    → Everywhere P addrs store
    → All (λ (o : Link × Replica). P o.1) (map (λ (addr : Text). (links addr, store addr)) addrs)
All-copies P links store [] h = tt
All-copies P links store (a ∷ addrs) h = (h.0, All-copies P links store addrs h.1)

addrs_of : WriteCall → List Text
addrs_of call = call.primary ∷ call.non_primary

said-complete : (a : Answer) → said a ≡ complete → a ≡ ok
said-complete ok h = refl
said-complete refused h = absurd (ground arith)
said-complete blocked h = absurd (ground arith)

through-complete :
    (link : Link) (run : Disk → Answer × Store) (store store' : Store)
    → through link run store ≡ (complete, store')
    → (disk : Disk) × ((run disk).0 ≡ ok) × ((run disk).1 ≡ store')
unfolding through
through-complete down run store store' h =
    absurd (ground (arith, ap (λ (o : Written × Store). o.0) h))
through-complete (up disk) run store store' h = (
  disk,
  said-complete (run disk).0 (ap (λ (o : Written × Store). o.0) h),
  ap (λ (o : Written × Store). o.1) h,
)
through-complete (no_reply disk) run store store' h =
    absurd (ground (arith, ap (λ (o : Written × Store). o.0) h))

module _ (handler : Handler) (entry : OperationLogEntry) (P Q : Replica → Type 0)
    (makes : Makes handler entry P Q) (links : Text → Link) where
  handled-Everywhere :
      (call : WriteCall) (disk : Disk) (store : Store)
      → Everywhere P (addrs_of call) store
      → (handled handler entry call disk links store).0 ≡ ok
      → Everywhere Q (addrs_of call) (handled handler entry call disk links store).1
  unfolding addrs_of
  handled-Everywhere call disk store p h =
      let others = map (λ (addr : Text). (links addr, store addr)) call.non_primary in
      let (q, qs, len) =
        makes disk (store call.primary) others p.0 (All-copies P links store call.non_primary p.1)
          h in
      let copies = handler disk entry (store call.primary) others in
      put_replicas-Everywhere Q (addrs_of call) (copies.1 ∷ copies.2) store
        (omega (
          arith,
          len,
          length-map {B = Link × Replica} (λ (addr : Text). (links addr, store addr))
              call.non_primary,
        ))
        (q, qs)

  call_primary-Everywhere :
      (call : WriteCall) (store store' : Store)
      → Everywhere P (addrs_of call) store
      → call_primary handler entry call links store ≡ (complete, store')
      → Everywhere Q (addrs_of call) store'
  unfolding call_primary
  call_primary-Everywhere call store store' p h =
      let (disk, a, e) =
        through-complete (links call.primary)
          (λ (disk : Disk). handled handler entry call disk links store) store store' h in
      subst (Everywhere Q (addrs_of call)) e (handled-Everywhere call disk store p a)

  -- A write that is complete has made every copy of the file.
  pub exec_write-Everywhere :
      (local_file op_id : Text) (rs : List NodeInfo) (store store' : Store)
      → record { op_id = op_id; entry_data = local_file } ≡ entry
      → Everywhere P (map (λ (n : NodeInfo). n.address) rs) store
      → exec_write handler (some local_file) (replicas rs) op_id links store ≡ (complete, store')
      → Everywhere Q (map (λ (n : NodeInfo). n.address) rs) store'
  unfolding exec_write addrs_of
  exec_write-Everywhere local_file op_id [] store store' e p h = tt
  exec_write-Everywhere local_file op_id (n ∷ ns) store store' e p h =
      let call : WriteCall = record {
        primary = n.address;
        non_primary = map (λ (m : NodeInfo). m.address) ns;
      } in
      call_primary-Everywhere call store store' p
        (ap (λ x. call_primary handler x call links store) (sym e) ∙ h)
