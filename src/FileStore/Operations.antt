-- ===== src/FileStore/Operations.antt =====
-- The operation log of a merge does not depend on the order of the logs that go into it.
use mathlib.Core.List.{Perm, Permᴰ, Perm-prop, Nodup, perm_middle}
use mathlib.Core.List.Perm
use mathlib.Core.Logic.{∥∥₁_elim}
use event_stream_rainstorm.Prelude.{
  ◌≡◌, ◌≢◌, refl, sym, ap, subst, ◌∙◌, inl, inr, Option, none, some, List, [], ◌∷◌, ◌++◌, map, All,
  nat_eq, ◌==◌, Bool-cases, arith,
}
use event_stream_rainstorm.Prelude.Dict.{Dict, put, IsMap, put-IsMap, put-All}
use event_stream_rainstorm.Prelude.DictPerm.{
  All-permᴰ, put_respects-perm, put_put-perm, IsMap-Nodup,
}
use event_stream_rainstorm.Prelude.Sorting.{sort_by, sort_by-eq_of_perm}
use event_stream_rainstorm.Prelude.Text.{Text, text_eq, text_order, text_beq_iff}
use event_stream_rainstorm.FileStore.{OperationLogEntry}
use event_stream_rainstorm.FileStore.Merge.{all_ops, add_all, final_log}

-- An operation id stands for one operation: `content` gives the bytes of each.
abbrev pub IsEntryOf : (Text → Text) → OperationLogEntry → Type 0
IsEntryOf content entry = entry.entry_data ≡ content entry.op_id

abbrev Ops : Type 0
Ops = Dict Text OperationLogEntry

abbrev add : OperationLogEntry → Ops → Ops
add entry ops = put entry.op_id entry ops

add_all-IsMap : (es : List OperationLogEntry) (d : Ops) → IsMap d → IsMap (add_all es d)
unfolding add_all
add_all-IsMap [] d m = m
add_all-IsMap (e ∷ es) d m = add_all-IsMap es (add e d) (put-IsMap e.op_id e d m)

add_all_respects-perm :
    (es : List OperationLogEntry) (d d' : Ops)
    → IsMap d
    → IsMap d'
    → Perm d d'
    → Perm (add_all es d) (add_all es d')
unfolding add_all
add_all_respects-perm [] d d' m m' p = p
add_all_respects-perm (e ∷ es) d d' m m' p =
    add_all_respects-perm es (add e d) (add e d') (put-IsMap e.op_id e d m)
      (put-IsMap e.op_id e d' m') (put_respects-perm e.op_id e d d' m m' p)

module _ (content : Text → Text) where
  same_entry :
      (a b : OperationLogEntry)
      → IsEntryOf content a
      → IsEntryOf content b
      → a.op_id ≡ b.op_id
      → a ≡ b
  same_entry a b h k q = ground (arith, ap content q)

  add_add-perm :
      (a b : OperationLogEntry) (d : Ops)
      → IsEntryOf content a
      → IsEntryOf content b
      → IsMap d
      → Perm (add b (add a d)) (add a (add b d))
  add_add-perm a b d h k m = elim (Bool-cases (a.op_id == b.op_id)) [
    | inl e ↦ rw (same_entry a b h k ((text_beq_iff a.op_id b.op_id).0 e)) (Perm.refl _)
    | inr e ↦
        let apart : b.op_id ≢ a.op_id = λ q. ground (arith, text_beq_iff a.op_id b.op_id, sym q) in
        put_put-perm b.op_id a.op_id b a d m apart
  ]

  add_all-permᴰ :
      {es fs : List OperationLogEntry}
      → Permᴰ es fs
      → (d : Ops) → All (IsEntryOf content) es
      → IsMap d
      → Perm (add_all es d) (add_all fs d)
  unfolding add_all
  add_all-permᴰ Permᴰ.nil d h m = Perm.refl _
  add_all-permᴰ (Permᴰ.cons {a} e p) d h m =
      rw (← e) (add_all-permᴰ p (add a d) h.1 (put-IsMap a.op_id a d m))
  add_all-permᴰ (Permᴰ.swap {a} {b} {l = l} e f) d h m =
      rw (← e, ← f)
        (add_all_respects-perm l (add b (add a d)) (add a (add b d))
          (put-IsMap b.op_id b _ (put-IsMap a.op_id a d m))
          (put-IsMap a.op_id a _ (put-IsMap b.op_id b d m)) (add_add-perm a b d h.0 h.1.0 m))
  add_all-permᴰ (Permᴰ.trans p q) d h m =
      Perm.trans (add_all-permᴰ p d h m) (add_all-permᴰ q d (All-permᴰ (IsEntryOf content) p h) m)

abbrev pub or_nil : Option (List OperationLogEntry) → List OperationLogEntry
or_nil none = []
or_nil (some es) = es

-- The entries of all logs.
unfoldable pub flat : List (Option (List OperationLogEntry)) → List OperationLogEntry
flat [] = []
flat (l ∷ logs) = or_nil l ++ flat logs

add_all-append :
    (es fs : List OperationLogEntry) (d : Ops) → add_all (es ++ fs) d ≡ add_all fs (add_all es d)
unfolding add_all
add_all-append [] fs d = refl
add_all-append (e ∷ es) fs d = add_all-append es fs (add e d)

all_ops-flat :
    (logs : List (Option (List OperationLogEntry))) (d : Ops)
    → all_ops logs d ≡ add_all (flat logs) d
unfolding all_ops flat
all_ops-flat [] d = unfold add_all in refl
all_ops-flat (none ∷ logs) d = all_ops-flat logs d
all_ops-flat (some es ∷ logs) d =
    all_ops-flat logs (add_all es d) ∙ sym (add_all-append es (flat logs) d)

append_swap-perm : (xs ys zs : List OperationLogEntry) → Perm (xs ++ (ys ++ zs)) (ys ++ (xs ++ zs))
append_swap-perm [] ys zs = Perm.refl _
append_swap-perm (x ∷ xs) ys zs =
    Perm.trans (Perm.cons x (append_swap-perm xs ys zs)) (Perm.symm (perm_middle ys (xs ++ zs)))

flat-permᴰ :
    {logs logs' : List (Option (List OperationLogEntry))}
    → Permᴰ logs logs'
    → Perm (flat logs) (flat logs')
unfolding flat
flat-permᴰ Permᴰ.nil = Perm.refl _
flat-permᴰ (Permᴰ.cons {a} e p) = rw (← e) (Perm.append_left (or_nil a) (flat-permᴰ p))
flat-permᴰ (Permᴰ.swap {a} {b} {l = l} e f) =
    rw (← e, ← f) (append_swap-perm (or_nil a) (or_nil b) (flat l))
flat-permᴰ (Permᴰ.trans p q) = Perm.trans (flat-permᴰ p) (flat-permᴰ q)

-- The entries of a map of operations stand under their ids.
abbrev IsKeyed : Text × OperationLogEntry → Type 0
IsKeyed o = o.1.op_id ≡ o.0

abbrev AreKeyed : Ops → Type 0
AreKeyed d = All IsKeyed d

add_all-AreKeyed : (es : List OperationLogEntry) (d : Ops) → AreKeyed d → AreKeyed (add_all es d)
unfolding add_all
add_all-AreKeyed [] d h = h
add_all-AreKeyed (e ∷ es) d h = add_all-AreKeyed es (add e d) (put-All IsKeyed e.op_id e d h refl)

keyed_ids :
    (d : Ops)
    → AreKeyed d
    → map (λ (e : OperationLogEntry). e.op_id) (map (λ (o : Text × OperationLogEntry). o.1) d)
      ≡ map (λ (o : Text × OperationLogEntry). o.0) d
keyed_ids [] h = refl
keyed_ids (o ∷ d) h = λ i. h.0 i ∷ keyed_ids d h.1 i

OperationLogEntry-set : IsSet OperationLogEntry
OperationLogEntry-set = hlevel

abbrev pub Logs : Type 0
Logs = List (Option (List OperationLogEntry))

final_log-flat :
    (logs : Logs)
    → final_log logs
      ≡ sort_by
          (λ (entry : OperationLogEntry). entry.op_id)
          (map (λ (o : Text × OperationLogEntry). o.1) (add_all (flat logs) []))
unfolding final_log
final_log-flat logs = rw (all_ops-flat logs []) refl

-- The log of a merge is the same for every order of the logs that go into it.
pub final_log-perm :
    (content : Text → Text) (logs logs' : Logs)
    → All (IsEntryOf content) (flat logs)
    → Perm logs logs'
    → final_log logs ≡ final_log logs'
final_log-perm content logs logs' h p =
    let q : Perm (flat logs) (flat logs') = ∥∥₁_elim p Perm-prop flat-permᴰ in
    let r : Perm (add_all (flat logs) []) (add_all (flat logs') []) =
      ∥∥₁_elim q Perm-prop (λ d. add_all-permᴰ content d [] h tt) in
    let distinct =
      subst Nodup (sym (keyed_ids _ (add_all-AreKeyed (flat logs) [] tt)))
        (IsMap-Nodup _ (add_all-IsMap (flat logs) [] tt)) in
    final_log-flat logs
    ∙ sort_by-eq_of_perm (λ (entry : OperationLogEntry). entry.op_id) OperationLogEntry-set distinct
        (Perm.map (λ (o : Text × OperationLogEntry). o.1) r)
    ∙ sym (final_log-flat logs')
