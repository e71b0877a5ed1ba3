-- ===== src/Leader/Start/Replies.antt =====
-- The replies to `StartTask` as they come in: the tasks that the leader knows of afterwards.
use event_stream_rainstorm.Prelude.{
  ℕ, suc, ◌+◌, ◌≤◌, ◌≡◌, refl, sym, ap, subst, ◌∙◌, inl, inr, true, ◌&&◌, ◌||◌, Option, none, some,
  List, [], ◌∷◌, length, All, nat_eq, ◌==◌, if◌then◌else◌, is_some, Bool-cases, Option-cases, arith,
}
use event_stream_rainstorm.Prelude.Dict.{Dict, get, has, put, IsMap, get-put, put-IsMap, put-All}
use event_stream_rainstorm.Prelude.Text.{Text}
use event_stream_rainstorm.Task.{StartTaskArgs}
use event_stream_rainstorm.Leader.{TaskInfo, StageInfo, LeaderStartArgs, Leader, stage_tasks}
use event_stream_rainstorm.Leader.Start.{Request, enter, enter_all}
use event_stream_rainstorm.Leader.Start.Requests.{listed, place, IsPlaced}

abbrev in_stage : Option StageInfo → StageInfo
in_stage none = []
in_stage (some tasks) = tasks

in_stage-put :
    (k s : ℕ) (tasks : StageInfo) (d : Dict ℕ StageInfo)
    → in_stage (get s (put k tasks d)) ≡ (if k == s then tasks else in_stage (get s d))
in_stage-put k s tasks d = ground (arith, get-put k s tasks d)

has-put-put :
    (k s j t : ℕ) (e : TaskInfo) (d : Dict ℕ StageInfo)
    → has t (in_stage (get s (put k (put j e (in_stage (get k d))) d)))
      ≡ ((k == s && j == t) || has t (in_stage (get s d)))
has-put-put k s j t e d =
    let tasks = in_stage (get k d) in
    ap (has t) (in_stage-put k s (put j e tasks) d) ∙ elim (Bool-cases (k == s)) [
      | inl h ↦
          let q : k ≡ s = ground arith in
          rw h (
            ap is_some (get-put j t e tasks)
            ∙ subst
                (λ i.
                  is_some (if j == t then some e else get t tasks)
                  ≡ (j == t || has t (in_stage (get i d))))
                q (ground arith))
      | inr h ↦ rw h refl
    ]

module _ (args : LeaderStartArgs) (alive : List Text) where
  -- A task stands under its id, on the machine of the plan.
  abbrev pub IsEntry : ℕ → ℕ × TaskInfo → Type 0
  IsEntry s o = (o.1.task_id ≡ o.0) × (place args alive s o.0 ≡ some o.1.vm_addr)

  abbrev pub IsStage : ℕ → StageInfo → Type 0
  IsStage s tasks = IsMap tasks × All (IsEntry s) tasks

  pub record AreStages (leader : Leader) : Type 0 where
    pub is_map : IsMap leader.global_task_map
    pub stages : (s : ℕ) → IsStage s (stage_tasks s leader)

  put-IsStage :
      (k : ℕ) (tasks : StageInfo) (d : Dict ℕ StageInfo)
      → ((s : ℕ) → IsStage s (in_stage (get s d)))
      → IsStage k tasks
      → (s : ℕ) → IsStage s (in_stage (get s (put k tasks d)))
  put-IsStage k tasks d h t s =
      subst (IsStage s) (sym (in_stage-put k s tasks d)) (elim (Bool-cases (k == s)) [
        | inl e ↦ let q : k ≡ s = ground arith in rw e (subst (λ i. IsStage i tasks) q t)
        | inr e ↦ rw e (h s)
      ])

  enter-AreStages :
      (r : Request) (reply : ℕ × Text) (leader : Leader)
      → AreStages leader
      → IsPlaced args alive r
      → AreStages (enter r reply leader)
  unfolding enter stage_tasks
  enter-AreStages r reply leader a p =
      let old = a.stages r.args.stage_id in
      record {
        is_map = put-IsMap _ _ _ a.is_map;
        stages =
            put-IsStage r.args.stage_id _ leader.global_task_map a.stages
              (put-IsMap _ _ _ old.0, put-All (IsEntry r.args.stage_id) _ _ _ old.1 (refl, p));
      }

  pub enter_all-AreStages :
      (start : Text → StartTaskArgs → Option (ℕ × Text)) (rs : List Request) (leader : Leader)
      → AreStages leader
      → All (IsPlaced args alive) rs
      → AreStages (enter_all start rs leader).1
  unfolding enter_all
  enter_all-AreStages start [] leader a p = a
  enter_all-AreStages start (r ∷ rs) leader a p = elim (Option-cases (start r.addr r.args)) [
    | inl e ↦ rw e (enter_all-AreStages start rs leader a p.1)
    | inr (reply, e) ↦ rw e (
        enter_all-AreStages start rs (enter r reply leader) (enter-AreStages r reply leader a p.0)
          p.1)
  ]

-- Every call was answered with a task.
abbrev pub AreGood : (Text → StartTaskArgs → Option (ℕ × Text)) → List Request → Type 0
AreGood start rs = All (λ (r : Request). is_some (start r.addr r.args) ≡ true) rs

module _ (start : Text → StartTaskArgs → Option (ℕ × Text)) where
  count-le : (rs : List Request) (leader : Leader) → (enter_all start rs leader).0 ≤ length rs
  unfolding enter_all
  count-le [] leader = omega arith
  count-le (r ∷ rs) leader = elim (Option-cases (start r.addr r.args)) [
    | inl e ↦ rw e (omega (arith, count-le rs leader))
    | inr (reply, e) ↦ rw e (omega (arith, count-le rs (enter r reply leader)))
  ]

  pub AreGood-of_count :
      (rs : List Request) (leader : Leader)
      → length rs ≤ (enter_all start rs leader).0
      → AreGood start rs
  unfolding enter_all
  AreGood-of_count [] leader h = tt
  AreGood-of_count (r ∷ rs) leader h = elim (Option-cases (start r.addr r.args)) [
    | inl e ↦
        let h' : suc (length rs) ≤ 0 + (enter_all start rs leader).0 =
          subst
            (λ o.
              suc (length rs)
              ≤ (if is_some o then 1 else 0)
                + (enter_all start rs
                    (elim o [ none ↦ leader | some reply ↦ enter r reply leader ])).0)
            e h in
        absurd (omega (arith, count-le rs leader))
    | inr (reply, e) ↦
        let h' : suc (length rs) ≤ 1 + (enter_all start rs (enter r reply leader)).0 =
          subst
            (λ o.
              suc (length rs)
              ≤ (if is_some o then 1 else 0)
                + (enter_all start rs
                    (elim o [ none ↦ leader | some reply ↦ enter r reply leader ])).0)
            e h in
        (rw e refl, AreGood-of_count rs (enter r reply leader) (omega arith))
  ]

  pub count_of-AreGood :
      (rs : List Request) (leader : Leader)
      → AreGood start rs
      → (enter_all start rs leader).0 ≡ length rs
  unfolding enter_all
  count_of-AreGood [] leader h = refl
  count_of-AreGood (r ∷ rs) leader h = elim (Option-cases (start r.addr r.args)) [
    | inl e ↦ absurd (ground arith)
    | inr (reply, e) ↦ rw e (omega (arith, count_of-AreGood rs (enter r reply leader) h.1))
  ]

  has-enter :
      (s t : ℕ) (r : Request) (reply : ℕ × Text) (leader : Leader)
      → has t (stage_tasks s (enter r reply leader))
        ≡ ((r.args.stage_id == s && r.args.task_id == t) || has t (stage_tasks s leader))
  unfolding enter stage_tasks
  has-enter s t r reply leader =
      has-put-put r.args.stage_id s r.args.task_id t _ leader.global_task_map

  pub has-enter_all :
      (s t : ℕ) (rs : List Request) (leader : Leader)
      → AreGood start rs
      → has t (stage_tasks s (enter_all start rs leader).1)
        ≡ (has t (stage_tasks s leader) || listed s t rs)
  unfolding enter_all
  has-enter_all s t [] leader h = ground arith
  has-enter_all s t (r ∷ rs) leader h = elim (Option-cases (start r.addr r.args)) [
    | inl e ↦ absurd (ground arith)
    | inr (reply, e) ↦ rw e (
        has-enter_all s t rs (enter r reply leader) h.1
        ∙ ground (arith, has-enter s t r reply leader))
  ]

  pub total-enter_all :
      (rs : List Request) (leader : Leader)
      → (enter_all start rs leader).1.total_tasks ≡ leader.total_tasks
  unfolding enter_all
  total-enter_all [] leader = refl
  total-enter_all (r ∷ rs) leader = elim (Option-cases (start r.addr r.args)) [
    | inl e ↦ rw e (total-enter_all rs leader)
    | inr (reply, e) ↦ rw e (total-enter_all rs (enter r reply leader) ∙ unfold enter in refl)
  ]
