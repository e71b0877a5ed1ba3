-- ===== src/Membership/Reports.antt =====
-- `UpdateMemberlist` seen from one record of the message: reports about others reach the list, and
-- reports about the node itself do not harm it.
use event_stream_rainstorm.Prelude.{
  ℕ, ◌≤◌, ◌<◌, ◌≡◌, refl, ◌∙◌, ◌≢◌, inl, inr, true, false, some, List, [], ◌∷◌, ◌++◌, Bool-cases,
  Option-cases, nat_eq, ==_refl, ◌==◌, arith,
}
use event_stream_rainstorm.Prelude.Dict.{Dict, get, put, get-put}
use event_stream_rainstorm.Prelude.Text.{Text, text_eq, text_beq_iff}
use event_stream_rainstorm.Member.{Member, is_alive, is_suspected, is_failed}
use event_stream_rainstorm.Membership.{
  MemberList, refute, absorb, merge_other, merge_all, update_memberlist,
}
use event_stream_rainstorm.Membership.Merge.{
  Advances, Kept, Kept-trans, merge_other-Kept, merge_all-Kept, named, absorb-Advances_next,
  put-Kept, refute-Advances,
}

-- With the node in its own list, a message can be taken in in two parts.
merge_all-append :
    (xs ys : List Member) (node_id : Text) (now : ℕ) (self : Member) (d : Dict Text Member)
    → get node_id d ≡ some self
    → merge_all (xs ++ ys) node_id now d ≡ merge_all ys node_id now (merge_all xs node_id now d)
unfolding merge_all
merge_all-append [] ys node_id now self d g = refl
merge_all-append (x ∷ xs) ys node_id now self d g = elim (Bool-cases (x.id == node_id)) [
  | inl e ↦
      let (self', g', a) =
        put-Kept node_id node_id self self (refute x now self) d g g (refute-Advances x now self) in
      rw (e, g, merge_all) (merge_all-append xs ys node_id now self' _ g')
  | inr e ↦
      let (self', g', a) = merge_other-Kept x now node_id self d g in
      rw (e, merge_all) (merge_all-append xs ys node_id now self' _ g')
]

merge_other_next :
    (next : Member) (now : ℕ) (d : Dict Text Member)
    → named next.state ≡ true
    → is_failed next.state ≡ false
    → Kept next.id next (merge_other next now d)
unfolding merge_other
merge_other_next next now d n f = elim (Option-cases (get next.id d)) [
  | inl e ↦
      rw (e, merge_other, f)
        (record next { last_update_time = now }, simp (get-put, ==_refl) refl, ground arith)
  | inr (c, e) ↦
      rw (e, merge_other)
        (absorb next now c, simp (get-put, ==_refl) refl, absorb-Advances_next next now c n)
]

-- A record about another node in a state that is one of the four and not `Failed` is not lost,
-- wherever it stands in the message: the member is in the list afterwards, with the record's
-- incarnation or a higher one, and in the former case in no better state than reported.
pub update_memberlist-takes_in :
    (ml : MemberList) (before after : List Member) (next : Member) (node_id : Text) (now : ℕ)
    (self : Member)
    → get node_id ml.memberlist ≡ some self
    → next.id ≢ node_id
    → named next.state ≡ true
    → is_failed next.state ≡ false
    → (m' : Member) × (get next.id
          (update_memberlist ml (before ++ next ∷ after) node_id now).memberlist
        ≡ some m')
      × Advances next m'
unfolding update_memberlist
update_memberlist-takes_in ml before after next node_id now self g other_node n f =
    let d = merge_all before node_id now ml.memberlist in
    let e : (next.id == node_id) ≡ false = ground (arith, text_beq_iff next.id node_id) in
    rw (merge_all-append before (next ∷ after) node_id now self ml.memberlist g) (
      unfold merge_all in
      rw e (
        Kept-trans next.id next _ _ (merge_other_next next now d n f)
          λ m h. merge_all-Kept after node_id now next.id m (merge_other next now d) h))

merge_other_ne :
    (next : Member) (now : ℕ) (k : Text) (d : Dict Text Member)
    → (next.id == k) ≡ false
    → get k (merge_other next now d) ≡ get k d
unfolding merge_other
merge_other_ne next now k d h = elim (Option-cases (get next.id d)) [
  | inl e ↦ elim (Bool-cases (is_failed next.state)) [
    | inl f ↦ rw (e, merge_other, f) refl
    | inr f ↦ rw (e, merge_other, f) (simp get-put (rw h refl))
  ]
  | inr (c, e) ↦ rw (e, merge_other) (simp get-put (rw h refl))
]

-- What a node knows of itself: its state and its heartbeat.
abbrev SelfKept : Text → Member → Dict Text Member → Type 0
SelfKept k m d =
    (m' : Member) × (get k d ≡ some m')
    × (m'.state ≡ m.state)
    × (m'.heart_beat_counter ≡ m.heart_beat_counter)
    × (m.incarnation ≤ m'.incarnation)

refute_keeps :
    (next self : Member) (now : ℕ) (node_id : Text) (d : Dict Text Member)
    → SelfKept node_id self (put node_id (refute next now self) d)
unfolding refute
refute_keeps next self now node_id d =
    (refute next now self, simp (get-put, ==_refl) refl, ground arith, ground arith, ground arith)

merge_all-SelfKept :
    (sender : List Member) (node_id : Text) (now : ℕ) (m : Member) (d : Dict Text Member)
    → get node_id d ≡ some m
    → SelfKept node_id m (merge_all sender node_id now d)
unfolding merge_all
merge_all-SelfKept [] node_id now m d g = (m, g, refl, refl, omega arith)
merge_all-SelfKept (next ∷ rest) node_id now m d g = elim (Bool-cases (next.id == node_id)) [
  | inl e ↦
      let (n, h, s, b, i) = refute_keeps next m now node_id d in
      let (p, q, s', b', i') = merge_all-SelfKept rest node_id now n _ h in
      rw (e, g, merge_all) (p, q, s' ∙ s, b' ∙ b, omega arith)
  | inr e ↦
      rw (e, merge_all)
        (merge_all-SelfKept rest node_id now m _ (merge_other_ne next now node_id d e ∙ g))
]

-- A node's own entry stays, with its state and its heartbeat, whatever the others send; only its
-- incarnation may rise.
pub update_memberlist_self :
    (ml : MemberList) (sender : List Member) (node_id : Text) (now : ℕ) (self : Member)
    → get node_id ml.memberlist ≡ some self
    → (m' : Member) × (get node_id (update_memberlist ml sender node_id now).memberlist ≡ some m')
      × (m'.state ≡ self.state)
      × (m'.heart_beat_counter ≡ self.heart_beat_counter)
      × (self.incarnation ≤ m'.incarnation)
unfolding update_memberlist
update_memberlist_self ml sender node_id now self g =
    merge_all-SelfKept sender node_id now self ml.memberlist g

merge_all-refute :
    (after : List Member) (next : Member) (node_id : Text) (now : ℕ) (n : Member)
    (d : Dict Text Member)
    → (next.id == node_id) ≡ true
    → get node_id d ≡ some n
    → (p : Member) × (get node_id (merge_all (next ∷ after) node_id now d) ≡ some p)
      × ((refute next now n).incarnation ≤ p.incarnation)
unfolding merge_all
merge_all-refute after next node_id now n d e q =
    let g' : get node_id (put node_id (refute next now n) d) ≡ some (refute next now n) =
      simp (get-put, ==_refl) refl in
    let (p, r, s', b', i') = merge_all-SelfKept after node_id now (refute next now n) _ g' in
    rw (e, q, merge_all) (p, r, i')

refute_lt :
    (next n self : Member) (now : ℕ)
    → is_suspected next.state ≡ true
    → is_alive self.state ≡ true
    → self.incarnation ≤ next.incarnation
    → n.state ≡ self.state
    → self.incarnation ≤ n.incarnation
    → self.incarnation < (refute next now n).incarnation
unfolding refute
refute_lt next n self now h k i s b = ground arith

-- If the message holds a suspicion of an alive receiver, of its incarnation or a later one, the
-- receiver refutes it: its incarnation rises.
pub update_memberlist-refutes :
    (ml : MemberList) (before after : List Member) (next : Member) (node_id : Text) (now : ℕ)
    (self : Member)
    → get node_id ml.memberlist ≡ some self
    → next.id ≡ node_id
    → is_suspected next.state ≡ true
    → is_alive self.state ≡ true
    → self.incarnation ≤ next.incarnation
    → (m' : Member) × (get node_id
          (update_memberlist ml (before ++ next ∷ after) node_id now).memberlist
        ≡ some m')
      × (self.incarnation < m'.incarnation)
unfolding update_memberlist
update_memberlist-refutes ml before after next node_id now self g same susp alv le =
    let (n, q, s, b, i) = merge_all-SelfKept before node_id now self ml.memberlist g in
    let (p, r, i') =
      merge_all-refute after next node_id now n (merge_all before node_id now ml.memberlist)
        ((text_beq_iff next.id node_id).1 same) q in
    rw (merge_all-append before (next ∷ after) node_id now self ml.memberlist g)
      (p, r, omega (arith, refute_lt next n self now susp alv le s i))
