-- ===== src/Membership/RoundRobin.antt =====
-- The round robin: who is pinged, in which order, and that the index stays in range.
use mathlib.Core.List.{Perm}
use mathlib.Core.List.Perm
use event_stream_rainstorm.Prelude.{
  ℕ, zero, suc, ◌+◌, ◌≤◌, ◌≡◌, refl, inl, inr, List, [], ◌++◌, Bool-cases, Option-cases, length,
  get_elem?, lt-of_get_elem?, leb, nat_eq, ◌==◌, arith,
}
use event_stream_rainstorm.Prelude.Text.{Text}
use event_stream_rainstorm.Membership.{MemberList, Target, Shuffle, ready, pick, round_robin_k}

abbrev pub InRange : MemberList → Type 0
InRange ml = ml.round_robin_index ≤ length ml.round_robin_list

ready-InRange :
    (shuffle : Shuffle) (ml : MemberList) (node_id : Text)
    → InRange ml
    → InRange (ready shuffle ml node_id)
unfolding ready
ready-InRange shuffle ml node_id h = ground arith

pick-InRange :
    (shuffle : ℕ → Shuffle) (k : ℕ) (ml : MemberList) (node_id : Text)
    → InRange ml
    → InRange (pick shuffle k ml node_id).1 × (length (pick shuffle k ml node_id).0 ≤ k)
unfolding pick
pick-InRange shuffle zero ml node_id h = (h, omega arith)
pick-InRange shuffle (suc k) ml node_id h =
    let ml' = ready (shuffle k) ml node_id in
    elim (Option-cases (get_elem? ml'.round_robin_list ml'.round_robin_index)) [
      | inl e ↦ rw (e, pick) (ready-InRange (shuffle k) ml node_id h, omega arith)
      | inr (t, e) ↦
          let (r, l) =
            pick-InRange shuffle k (record ml' { round_robin_index = ml'.round_robin_index + 1 })
              node_id
              (omega (arith, lt-of_get_elem? ml'.round_robin_list ml'.round_robin_index e)) in
          rw (e, pick) (r, omega arith)
    ]

-- The index stays within the list, and at most `num` members are returned, but for the whole list
-- where it is no longer than `num`.
pub round_robin_k-InRange :
    (shuffle : ℕ → Shuffle) (ml : MemberList) (num : ℕ) (node_id : Text)
    → InRange ml
    → InRange (round_robin_k shuffle ml num node_id).1
      × (length (round_robin_k shuffle ml num node_id).0 ≤ num)
unfolding round_robin_k
round_robin_k-InRange shuffle ml num node_id h =
    let ml' = ready (shuffle num) ml node_id in
    let r = ready-InRange (shuffle num) ml node_id h in
    let p = pick-InRange shuffle num ml' node_id r in
    elim (Bool-cases (length ml'.round_robin_list == 0)) [
      | inl e ↦ rw (e, round_robin_k) (r, omega arith)
      | inr e ↦ elim (Bool-cases (leb (length ml'.round_robin_list) num)) [
        | inl f ↦ rw (e, f, round_robin_k) (omega arith, ground arith)
        | inr f ↦ rw (e, f, round_robin_k) p
      ]
    ]

-- `n` calls of `roundRobinK(1)` in a row, with no other call on the list in between.
pub pings : (ℕ → ℕ → Shuffle) → ℕ → MemberList → Text → List Target × MemberList
pings shuffle zero ml node_id = ([], ml)
pings shuffle (suc n) ml node_id =
    let (first, ml') = round_robin_k (shuffle n) ml 1 node_id in
    let (rest, out) = pings shuffle n ml' node_id in (first ++ rest, out)

memberlist-ready :
    (shuffle : Shuffle) (ml : MemberList) (node_id : Text)
    → (ready shuffle ml node_id).memberlist ≡ ml.memberlist
unfolding ready
memberlist-ready shuffle ml node_id = ground arith

memberlist-pick :
    (shuffle : ℕ → Shuffle) (k : ℕ) (ml : MemberList) (node_id : Text)
    → (pick shuffle k ml node_id).1.memberlist ≡ ml.memberlist
unfolding pick
memberlist-pick shuffle zero ml node_id = refl
memberlist-pick shuffle (suc k) ml node_id =
    let ml' = ready (shuffle k) ml node_id in
    ground (
      arith,
      memberlist-pick shuffle k (record ml' { round_robin_index = ml'.round_robin_index + 1 })
          node_id,
      memberlist-ready (shuffle k) ml node_id,
    )

pub memberlist-round_robin_k :
    (shuffle : ℕ → Shuffle) (ml : MemberList) (num : ℕ) (node_id : Text)
    → (round_robin_k shuffle ml num node_id).1.memberlist ≡ ml.memberlist
unfolding round_robin_k
memberlist-round_robin_k shuffle ml num node_id =
    let ml' = ready (shuffle num) ml node_id in
    ground
      (arith, memberlist-pick shuffle num ml' node_id, memberlist-ready (shuffle num) ml node_id)
