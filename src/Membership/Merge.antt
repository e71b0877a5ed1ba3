-- ===== src/Membership/Merge.antt =====
-- `UpdateMemberlist`: what the records of another node can and cannot do to a member list.
use event_stream_rainstorm.Prelude.{
  ℕ, ◌≤◌, ◌<◌, ◌≡◌, refl, ◌⊎◌, inl, inr, Bool, true, false, none, some, List, [], ◌∷◌, Bool-cases,
  Option-cases, nat_eq, ◌==◌, arith,
}
use event_stream_rainstorm.Prelude.Dict.{Dict, get, put, get-put}
use event_stream_rainstorm.Prelude.Text.{Text, text_eq, text_beq_iff}
use event_stream_rainstorm.Member.{Member, State, alive, suspected, failed, leave, other, is_failed}
use event_stream_rainstorm.Membership.{
  MemberList, refute, absorb, merge_other, merge_all, update_memberlist,
}

-- How far a state is on its way to `Failed`.
abbrev pub rank : State → ℕ
rank alive = 0
rank suspected = 1
rank leave = 2
rank (other s) = 2
rank failed = 3

-- Within an incarnation a state only gets worse; only a new incarnation starts afresh.
abbrev pub Advances : Member → Member → Type 0
Advances m n =
    (m.incarnation < n.incarnation)
    ⊎ ((m.incarnation ≡ n.incarnation) × (rank m.state ≤ rank n.state))

pub absorb-Advances : (next : Member) (now : ℕ) (m : Member) → Advances m (absorb next now m)
unfolding absorb
absorb-Advances next now m = ground arith

pub refute-Advances : (next : Member) (now : ℕ) (m : Member) → Advances m (refute next now m)
unfolding refute
refute-Advances next now m = ground arith

pub Advances-trans : (a b c : Member) → Advances a b → Advances b c → Advances a c
Advances-trans a b c h k = ground arith

abbrev pub named : State → Bool
named (other s) = false
named _ = true

-- Absorbing yields an upper bound of what was known and what has been heard.
pub absorb-Advances_next :
    (next : Member) (now : ℕ) (m : Member)
    → named next.state ≡ true
    → Advances next (absorb next now m)
unfolding absorb
absorb-Advances_next next now m h = ground arith

-- A member stays in the list under an operation, and advances.
abbrev pub Kept : Text → Member → Dict Text Member → Type 0
Kept k m d = (m' : Member) × (get k d ≡ some m') × Advances m m'

pub put-Kept :
    (j k : Text) (c m n : Member) (d : Dict Text Member)
    → get j d ≡ some c
    → get k d ≡ some m
    → Advances c n
    → Kept k m (put j n d)
put-Kept j k c m n d gj gk a = elim (Bool-cases (j == k)) [
  | inl e ↦ (n, rw (get-put, e) refl, ground (arith, text_beq_iff j k))
  | inr e ↦ (m, rw (get-put, e) gk, ground arith)
]

pub put-Kept_new :
    (j k : Text) (m n : Member) (d : Dict Text Member)
    → get j d ≡ none
    → get k d ≡ some m
    → Kept k m (put j n d)
put-Kept_new j k m n d gj gk = elim (Bool-cases (j == k)) [
  | inl e ↦ absurd (ground (arith, text_beq_iff j k))
  | inr e ↦ (m, rw (get-put, e) gk, ground arith)
]

pub merge_other-Kept :
    (next : Member) (now : ℕ) (k : Text) (m : Member) (d : Dict Text Member)
    → get k d ≡ some m
    → Kept k m (merge_other next now d)
unfolding merge_other
merge_other-Kept next now k m d g = elim (Option-cases (get next.id d)) [
  | inl e ↦ elim (Bool-cases (is_failed next.state)) [
    | inl f ↦ rw (e, merge_other, f) (m, g, ground arith)
    | inr f ↦ rw (e, merge_other, f) (put-Kept_new next.id k m _ d e g)
  ]
  | inr (c, e) ↦ rw (e, merge_other) (put-Kept next.id k c m _ d e g (absorb-Advances next now c))
]

pub Kept-trans :
    (k : Text) (m : Member) (d e : Dict Text Member)
    → Kept k m d
    → ((n : Member) → get k d ≡ some n → Kept k n e)
    → Kept k m e
Kept-trans k m d e (n, g, a) f = let (p, h, b) = f n g in (p, h, Advances-trans m n p a b)

pub merge_all-Kept :
    (sender : List Member) (node_id : Text) (now : ℕ) (k : Text) (m : Member) (d : Dict Text Member)
    → get k d ≡ some m
    → Kept k m (merge_all sender node_id now d)
unfolding merge_all
merge_all-Kept [] node_id now k m d g = (m, g, ground arith)
merge_all-Kept (next ∷ rest) node_id now k m d g = elim (Bool-cases (next.id == node_id)) [
  | inr e ↦
      rw (e, merge_all)
        (Kept-trans k m _ _ (merge_other-Kept next now k m d g)
          λ n h. merge_all-Kept rest node_id now k n (merge_other next now d) h)
  | inl e ↦ elim (Option-cases (get node_id d)) [
    | inl p ↦ rw (e, p, merge_all) (m, g, ground arith)
    | inr (self, p) ↦
        rw (e, p, merge_all)
          (Kept-trans k m _ _ (put-Kept node_id k self m _ d p g (refute-Advances next now self))
            λ n h. merge_all-Kept rest node_id now k n _ h)
  ]
]

-- Whatever another node sends, every member stays in the list, its incarnation never falls, and
-- within an incarnation its state never gets better: no report brings a failed member back but one
-- of a new incarnation.
pub update_memberlist-Advances :
    (ml : MemberList) (sender : List Member) (node_id : Text) (now : ℕ) (k : Text) (m : Member)
    → get k ml.memberlist ≡ some m
    → (m' : Member) × (get k (update_memberlist ml sender node_id now).memberlist ≡ some m')
      × Advances m m'
unfolding update_memberlist
update_memberlist-Advances ml sender node_id now k m g =
    merge_all-Kept sender node_id now k m ml.memberlist g
