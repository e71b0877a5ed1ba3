-- ===== src/Leader/Contiguous.antt =====
-- The ids of the tasks of a stage: they are 0, 1, … without a gap, and scaling keeps them so.
use event_stream_rainstorm.Prelude.{
  ℕ, suc, ◌≤◌, ◌≡◌, refl, ap, ◌∙◌, inl, inr, true, false, none, some, [], ◌∷◌, length, All, ltb,
  nat_eq, is_some, Option-cases, arith,
}
use event_stream_rainstorm.Prelude.Dict.{
  get, has, put, remove, IsMap, get-put, get-remove, put-IsMap, remove-IsMap, length-put,
  length-remove,
}
use event_stream_rainstorm.Leader.{TaskInfo, StageInfo, max_id}

-- Each task stands under its own id.
abbrev pub IsKeyed : StageInfo → Type 0
IsKeyed d = All (λ (e : ℕ × TaskInfo). e.1.task_id ≡ e.0) d

pub record IsContiguous (d : StageInfo) : Type 0 where
  pub is_map : IsMap d
  pub keyed : IsKeyed d
  pub ids : (i : ℕ) → has i d ≡ ltb i (length d)

max_id-has : (d : StageInfo) (m : ℕ) → max_id d ≡ some m → has m d ≡ true
unfolding max_id get
max_id-has [] m e = ground arith
max_id-has ((k, t) ∷ d) m e = ground (arith, max_id-has d m)

max_id-none : (d : StageInfo) (i : ℕ) → max_id d ≡ none → has i d ≡ false
unfolding max_id get
max_id-none [] i e = refl
max_id-none ((k, t) ∷ d) i e = ground arith

max_id-ge : (d : StageInfo) (i m : ℕ) → max_id d ≡ some m → has i d ≡ true → i ≤ m
unfolding max_id get
max_id-ge [] i m e h = ground arith
max_id-ge ((k, t) ∷ d) i m e h = elim (Option-cases (max_id d)) [
  | inl f ↦ ground (arith, max_id-none d i f)
  | inr (n, f) ↦ ground (arith, max_id-ge d i n f)
]

-- The greatest id of a stage of `n + 1` tasks is `n`.
pub max_id_lem : (d : StageInfo) (n : ℕ) → IsContiguous d → length d ≡ suc n → max_id d ≡ some n
max_id_lem d n c e = elim (Option-cases (max_id d)) [
  | inl f ↦ ground (arith, max_id-none d n f, c.ids n)
  | inr (m, f) ↦ ground (arith, max_id-has d m f, max_id-ge d n m f, c.ids n, c.ids m)
]

put-IsKeyed :
    (k : ℕ) (t : TaskInfo) (d : StageInfo) → t.task_id ≡ k → IsKeyed d → IsKeyed (put k t d)
unfolding put
put-IsKeyed k t [] e h = (e, tt)
put-IsKeyed k t ((j, u) ∷ d) e h = ground (arith, put-IsKeyed k t d e h.1)

remove-IsKeyed : (k : ℕ) (d : StageInfo) → IsKeyed d → IsKeyed (remove k d)
unfolding remove
remove-IsKeyed k [] h = tt
remove-IsKeyed k ((j, u) ∷ d) h = ground (arith, remove-IsKeyed k d h.1)

pub put-IsContiguous :
    (t : TaskInfo) (d : StageInfo)
    → IsContiguous d
    → t.task_id ≡ length d
    → IsContiguous (put (length d) t d)
put-IsContiguous t d c e = record {
  is_map = put-IsMap (length d) t d c.is_map;
  keyed = put-IsKeyed (length d) t d e c.keyed;
  ids = λ i.
      ap is_some (get-put (length d) i t d)
      ∙ ground (arith, c.ids i, c.ids (length d), length-put (length d) t d);
}

pub remove-IsContiguous :
    (d : StageInfo) (n : ℕ) → IsContiguous d → length d ≡ suc n → IsContiguous (remove n d)
remove-IsContiguous d n c e = record {
  is_map = remove-IsMap n d c.is_map;
  keyed = remove-IsKeyed n d c.keyed;
  ids = λ i.
      ap is_some (get-remove n i d) ∙ ground (arith, c.ids i, c.ids n, length-remove n d c.is_map);
}
