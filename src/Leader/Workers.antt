-- ===== src/Leader/Workers.antt =====
-- `getSortedStageWorkers` and `getLeastLoadedWorker`.
use event_stream_rainstorm.Prelude.{
  ℕ, zero, suc, ◌+◌, ◌≤◌, ◌<◌, ◌≡◌, refl, sym, ap, subst, ◌∙◌, ◌≢◌, inl, inr, false, none, some,
  List, [], ◌∷◌, map, length, get_elem?, some-injective, All, All-imp, All-at, get_elem?-of_lt, ltb,
  leb, nat_eq, ==_refl, ◌==◌, Bool-cases, Option-cases, arith,
}
use event_stream_rainstorm.Prelude.Dict.{get, has, IsMap}
use event_stream_rainstorm.Prelude.Sorting.{
  nat_order, insert_by, All-insert_by, sort_by, All-sort_by, length-sort_by,
}
use event_stream_rainstorm.Prelude.Text.{Text, text_eq}
use event_stream_rainstorm.Leader.{
  TaskInfo, StageInfo, Leader, values, stage_tasks, get_sorted_stage_workers,
}
use event_stream_rainstorm.Leader.Contiguous.{IsContiguous, IsKeyed}

abbrev id_of : TaskInfo → ℕ
id_of t = t.task_id

-- Sorted by id, and no id twice.
abbrev IsStrict : List TaskInfo → Type 0
IsStrict [] = Unit
IsStrict (t ∷ ts) = All (λ (u : TaskInfo). t.task_id < u.task_id) ts × IsStrict ts

-- No id is that of another task of the list.
abbrev IsFree : ℕ → List TaskInfo → Type 0
IsFree i ts = All (λ (u : TaskInfo). u.task_id ≢ i) ts

insert_by-IsStrict :
    (t : TaskInfo) (ts : List TaskInfo)
    → IsStrict ts
    → IsFree t.task_id ts
    → IsStrict (insert_by id_of t ts)
unfolding insert_by
insert_by-IsStrict t [] s f = (tt, tt)
insert_by-IsStrict t (u ∷ ts) s f = elim (Bool-cases (leb (id_of t) (id_of u))) [
  | inl e ↦
      let lt : t.task_id < u.task_id = ground arith in
      rw e ((lt, All-imp _ _ (λ x h. omega arith) ts s.0), s)
  | inr e ↦
      let lt : u.task_id < t.task_id = ground arith in
      rw e (All-insert_by id_of _ t ts lt s.0, insert_by-IsStrict t ts s.1 f.1)
]

values-IsFree : (d : StageInfo) (i : ℕ) → IsKeyed d → get i d ≡ none → IsFree i (values d)
unfolding values get
values-IsFree [] i k e = tt
values-IsFree ((j, t) ∷ d) i k e = (ground arith, values-IsFree d i k.1 (ground arith))

sorted-IsStrict : (d : StageInfo) → IsMap d → IsKeyed d → IsStrict (sort_by id_of (values d))
unfolding sort_by values
sorted-IsStrict [] m k = tt
sorted-IsStrict ((j, t) ∷ d) m k =
    insert_by-IsStrict t (sort_by id_of (values d)) (sorted-IsStrict d m.1 k.1)
      (All-sort_by id_of _ (values d) (values-IsFree d t.task_id k.1 (ap (λ i. get i d) k.0 ∙ m.0)))

-- Ids that grow, from `lo` on and below `hi`, are at most `hi - lo`.
le_next : (t u : TaskInfo) → t.task_id < u.task_id → t.task_id + 1 ≤ u.task_id
le_next t u h = omega arith

strict_fits :
    (t : TaskInfo) (ts : List TaskInfo) (lo hi : ℕ)
    → IsStrict (t ∷ ts)
    → lo ≤ t.task_id
    → All (λ (u : TaskInfo). u.task_id < hi) (t ∷ ts)
    → lo + length (t ∷ ts) ≤ hi
strict_fits t [] lo hi s h k = let lt = k.0 in omega arith
strict_fits t (u ∷ ts) lo hi s h k =
    let rest = strict_fits u ts (t.task_id + 1) hi s.1 (le_next t u s.0.0) k.1 in omega arith

strict_head :
    (u : TaskInfo) (ts : List TaskInfo) (lo : ℕ)
    → IsStrict (u ∷ ts)
    → All (λ (v : TaskInfo). lo ≤ v.task_id) (u ∷ ts)
    → All (λ (v : TaskInfo). v.task_id < lo + length (u ∷ ts)) (u ∷ ts)
    → u.task_id ≡ lo
strict_head u [] lo s h k = let a = h.0 in let b = k.0 in omega arith
strict_head u (v ∷ ts) lo s h k =
    let rest =
      strict_fits v ts (u.task_id + 1) (lo + length (u ∷ v ∷ ts)) s.1 (le_next u v s.0.0) k.1 in
    let a = h.0 in omega arith

-- Ids that grow, from `lo` on, and are all below `lo` and the number of them, have no gap.
strict_at :
    (ts : List TaskInfo) (lo i : ℕ) (t : TaskInfo)
    → IsStrict ts
    → All (λ (u : TaskInfo). lo ≤ u.task_id) ts
    → All (λ (u : TaskInfo). u.task_id < lo + length ts) ts
    → get_elem? ts i ≡ some t
    → t.task_id ≡ lo + i
strict_at [] lo i t s h k e = ground arith
strict_at (u ∷ ts) lo zero t s h k e =
    ap id_of (some-injective _ _ (sym e)) ∙ strict_head u ts lo s h k ∙ omega arith
strict_at (u ∷ ts) lo (suc i) t s h k e =
    let head = strict_head u ts lo s h k in
    strict_at ts (lo + 1) i t s.1 (All-imp _ _ (λ v m. omega arith) ts s.0)
      (All-imp _ _ (λ v m. omega arith) ts k.1) e
    ∙ omega arith

none≢some : {t : TaskInfo} → none ≡ some t → ⊥
none≢some e = ground arith

entry_kept :
    (j : ℕ) (t : TaskInfo) (d : StageInfo) (u : TaskInfo)
    → get j d ≡ none
    → get u.task_id d ≡ some u
    → get u.task_id ((j, t) ∷ d) ≡ some u
unfolding get
entry_kept j t d u m h = elim (Bool-cases (j == u.task_id)) [
  | inl e ↦
      let q : j ≡ u.task_id = ground arith in
      let a : get j d ≡ some u = ap (λ i. get i d) q ∙ h in absurd (none≢some (sym m ∙ a))
  | inr e ↦ rw (e, h)
]

-- In a map, an entry is what its key gives.
entries_get :
    (d : StageInfo)
    → IsMap d
    → IsKeyed d
    → All (λ (t : TaskInfo). get t.task_id d ≡ some t) (values d)
unfolding get values
entries_get [] m k = tt
entries_get ((j, t) ∷ d) m k = (
  rw (k.0, ==_refl j),
  All-imp _ _ (λ u h. entry_kept j t d u m.0 h) (values d) (entries_get d m.1 k.1),
)

length-values : (d : StageInfo) → length (values d) ≡ length d
unfolding values
length-values [] = refl
length-values ((j, t) ∷ d) = ap suc (length-values d)

not_has : (d : StageInfo) (i : ℕ) → has i d ≡ false → get i d ≡ none
not_has d i h = ground arith

id_below :
    (d : StageInfo) (t : TaskInfo) (n : ℕ)
    → n ≡ length d
    → has t.task_id d ≡ ltb t.task_id (length d)
    → get t.task_id d ≡ some t
    → t.task_id < 0 + n
id_below d t n e h g = ground arith

-- The task at index `i` of the sorted tasks is task `i`.
sorted_at :
    (d : StageInfo) (i : ℕ) → IsContiguous d → get_elem? (sort_by id_of (values d)) i ≡ get i d
sorted_at d i c =
    let ts = sort_by id_of (values d) in
    let found = All-sort_by id_of _ (values d) (entries_get d c.is_map c.keyed) in
    let n : length ts ≡ length d = length-sort_by id_of (values d) ∙ length-values d in
    elim (Option-cases (get_elem? ts i)) [
      | inl e ↦ elim (Bool-cases (ltb i (length d))) [
        | inl f ↦ let (t, g) = get_elem?-of_lt ts i (ground arith) in absurd (none≢some (sym e ∙ g))
        | inr f ↦ e ∙ sym (not_has d i (c.ids i ∙ f))
      ]
      | inr (t, e) ↦
          let k : t.task_id ≡ 0 + i =
            strict_at ts 0 i t (sorted-IsStrict d c.is_map c.keyed)
              (All-imp _ _ (λ u h. omega arith) ts found)
              (All-imp _ _ (λ u h. id_below d u (length ts) n (c.ids u.task_id) h) ts found) e in
          e ∙ sym (subst (λ j. get j d ≡ some t) (k ∙ omega arith) (All-at _ ts i found e))
    ]

map_at :
    (f : TaskInfo → Text) (ts : List TaskInfo) (i : ℕ)
    → get_elem? (map f ts) i ≡ elim (get_elem? ts i) [ none ↦ none | some t ↦ some (f t) ]
map_at f [] i = refl
map_at f (t ∷ ts) zero = refl
map_at f (t ∷ ts) (suc i) = map_at f ts i

-- The worker at index `i`, to which a tuple for task `i` is sent, is the one that hosts task `i`.
pub get_sorted_stage_workers-hosts :
    (stage_id : ℕ) (leader : Leader) (i : ℕ)
    → IsContiguous (stage_tasks stage_id leader)
    → get_elem? (get_sorted_stage_workers stage_id leader) i
      ≡ elim (get i (stage_tasks stage_id leader)) [ none ↦ none | some t ↦ some t.vm_addr ]
unfolding get_sorted_stage_workers
get_sorted_stage_workers-hosts stage_id leader i c =
    let d = stage_tasks stage_id leader in
    map_at (λ t. t.vm_addr) (sort_by id_of (values d)) i
    ∙ ap (λ o. elim o [ none ↦ none | some t ↦ some t.vm_addr ]) (sorted_at d i c)
