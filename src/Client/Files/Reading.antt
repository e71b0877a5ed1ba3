-- ===== src/Client/Files/Reading.antt =====
-- What a client has written through demo/demo.go is what it reads.
use mathlib.Core.List.{append-nil, append_assoc}
use event_stream_rainstorm.Prelude.{
  ℕ, suc, zero, ◌≡◌, refl, sym, ap, subst, ◌∙◌, inl, inr, Bool, true, some, some-injective, List,
  [], ◌∷◌, ◌++◌, map, get_elem?, get_elem?-map, Bool-cases, arith,
}
use event_stream_rainstorm.Prelude.Text.{Text, text_eq}
use event_stream_rainstorm.Ring.{NodeInfo, replicas}
use event_stream_rainstorm.FileStore.{OperationLogEntry, Replica, ok, Link, create_file, append_file, get_file}
use event_stream_rainstorm.FileStore.Merge.{contents}
use event_stream_rainstorm.FileStore.Replication.{AnyState}
use event_stream_rainstorm.Client.Files.{
  Store, complete, exec_create, exec_append, got, get_first, exec_get,
}
use event_stream_rainstorm.Client.Files.Writing.{
  Serves, Everywhere, exec_write-Everywhere, create_file-Makes, append_file-Makes,
}

-- The appends of a client, one after the other, all of them complete.
pub data Appends (rs : List NodeInfo) : List OperationLogEntry → Store → Store → Type 0 where
  done : {store : Store} → Appends rs [] store store
  next :
      {store store' store'' : Store} {es : List OperationLogEntry} (links : Text → Link)
      (e : OperationLogEntry)
      → exec_append (some e.entry_data) (replicas rs) e.op_id links store ≡ (complete, store')
      → Appends rs es store' store''
      → Appends rs (e ∷ es) store store''

abbrev addrs_of : List NodeInfo → List Text
addrs_of rs = map (λ (n : NodeInfo). n.address) rs

Everywhere-any : (addrs : List Text) (store : Store) → Everywhere AnyState addrs store
Everywhere-any [] store = tt
Everywhere-any (a ∷ addrs) store = (tt, Everywhere-any addrs store)

appends-Everywhere :
    (rs : List NodeInfo) (before es : List OperationLogEntry) (store store' : Store)
    → Everywhere (Serves before) (addrs_of rs) store
    → Appends rs es store store'
    → Everywhere (Serves (before ++ es)) (addrs_of rs) store'
appends-Everywhere rs before [] store store' p done =
    subst (λ (l : List OperationLogEntry). Everywhere (Serves l) (addrs_of rs) store)
      (sym (append-nil before)) p
appends-Everywhere rs before (e ∷ es) store store'' p (next {store' = store'} links f h more) =
    let first =
      exec_write-Everywhere append_file e (Serves before) (Serves (before ++ e ∷ []))
        (append_file-Makes e before) links e.entry_data e.op_id rs store store' refl p h in
    subst (λ (l : List OperationLogEntry). Everywhere (Serves l) (addrs_of rs) store'')
      (append_assoc before (e ∷ []) es)
      (appends-Everywhere rs (before ++ e ∷ []) es store' store'' first more)

get_file-Serves :
    (es : List OperationLogEntry) (r : Replica)
    → Serves es r
    → get_file r ≡ (ok, some (contents es))
unfolding get_file
get_file-Serves es r s = ground (arith, s.free, s.holds.file)

get_first-Serves :
    (es : List OperationLogEntry) (addrs : List Text) (reachable : Text → Bool) (store : Store)
    (i : ℕ) (addr : Text)
    → Everywhere (Serves es) addrs store
    → get_elem? addrs i ≡ some addr
    → reachable addr ≡ true
    → get_first true addrs reachable store ≡ got (contents es)
unfolding get_first
get_first-Serves es [] reachable store i addr p e h = absurd (ground arith)
get_first-Serves es (a ∷ addrs) reachable store zero addr p e h =
    let here : reachable a ≡ true = ap reachable (some-injective _ _ e) ∙ h in
    ground (arith, here, get_file-Serves es (store a) p.0)
get_first-Serves es (a ∷ addrs) reachable store (suc i) addr p e h =
    let further = get_first-Serves es addrs reachable store i addr p.1 e h in
    elim (Bool-cases (reachable a)) [
      | inl k ↦ ground (arith, get_file-Serves es (store a) p.0)
      | inr k ↦ rw k further
    ]

-- After a create and any number of appends, each of which the client has called complete, a get
-- gives the contents of all of them in their order, as long as one of the file's replicas can be
-- reached and the local file can be written, whichever replica answers.
pub exec_get-exec_write :
    (content op_id : Text) (rs : List NodeInfo) (links : Text → Link) (reachable : Text → Bool)
    (es : List OperationLogEntry) (store store' store'' : Store) (i : ℕ) (n : NodeInfo)
    → exec_create (some content) (replicas rs) op_id links store ≡ (complete, store')
    → Appends rs es store' store''
    → get_elem? rs i ≡ some n
    → reachable n.address ≡ true
    → exec_get true (replicas rs) reachable store'' ≡ got (content ++ contents es)
unfolding exec_get contents
exec_get-exec_write content op_id rs links reachable es store store' store'' i n h appends e r =
    let entry : OperationLogEntry = record { op_id = op_id; entry_data = content } in
    let created =
      exec_write-Everywhere create_file entry AnyState (Serves (entry ∷ []))
        (create_file-Makes entry) links content op_id rs store store' refl
        (Everywhere-any (addrs_of rs) store) h in
    get_first-Serves (entry ∷ es) (addrs_of rs) reachable store'' i n.address
      (appends-Everywhere rs (entry ∷ []) es store' store'' created appends)
      (get_elem?-map (λ (m : NodeInfo). m.address) rs i e) r
