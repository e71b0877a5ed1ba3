-- ===== src/Membership/Detection.antt =====
-- The failure detector over time: a silent member is found, a fresh one is left alone, and what
-- `TimeOutCheck` returns is what it has changed.
use mathlib.Core.Option.{some-injective}
use event_stream_rainstorm.Prelude.{
  ℕ, ◌+◌, ◌≤◌, ◌<◌, ◌≡◌, refl, sym, subst, ap, ◌∙◌, inl, inr, true, false, none, some, [], ◌∷◌,
  Bool-cases, All, All-append, length, get_elem?, get_elem?-append_right, ==_refl, ◌==◌, arith,
}
use event_stream_rainstorm.Prelude.Dict.{Dict, IsMap, get}
use event_stream_rainstorm.Prelude.Text.{Text, text_eq, text_beq_iff}
use event_stream_rainstorm.Constants.{t_fail, t_suspect, t_cleanup}
use event_stream_rainstorm.Member.{Member, suspected, failed, is_alive, is_suspected, is_failed}
use event_stream_rainstorm.Membership.{
  MemberList, Protocol, Suspicion, gossip, suspect, to_delete, age, failed_members, time_out_check,
}
use event_stream_rainstorm.Membership.Timeout.{
  IsKeyed, get-time_out_check, time_out_check-IsMap, time_out_check-IsKeyed, age_id,
}

abbrev pub check : MemberList → ℕ → MemberList
check ml now = (time_out_check ml gossip suspect now).1

check_alive :
    (ml : MemberList) (k : Text) (m : Member) (now : ℕ)
    → IsMap ml.memberlist
    → IsKeyed ml.memberlist
    → get k ml.memberlist ≡ some m
    → is_alive m.state ≡ true
    → m.last_update_time + t_fail < now
    → get k (check ml now).memberlist
      ≡ some (record m { state = suspected; last_update_time = now })
unfolding to_delete age
check_alive ml k m now u keyed g a h =
    get-time_out_check ml gossip suspect now k u keyed ∙ rw g (ground arith)

check_suspected :
    (ml : MemberList) (k : Text) (m : Member) (now : ℕ)
    → IsMap ml.memberlist
    → IsKeyed ml.memberlist
    → get k ml.memberlist ≡ some m
    → is_suspected m.state ≡ true
    → m.last_update_time + t_suspect < now
    → get k (check ml now).memberlist ≡ some (record m { state = failed; last_update_time = now })
unfolding to_delete age
check_suspected ml k m now u keyed g a h =
    get-time_out_check ml gossip suspect now k u keyed ∙ rw g (ground arith)

check_failed :
    (ml : MemberList) (k : Text) (m : Member) (now : ℕ)
    → IsMap ml.memberlist
    → IsKeyed ml.memberlist
    → get k ml.memberlist ≡ some m
    → is_failed m.state ≡ true
    → m.last_update_time + t_cleanup < now
    → get k (check ml now).memberlist ≡ none
unfolding to_delete
check_failed ml k m now u keyed g a h =
    get-time_out_check ml gossip suspect now k u keyed ∙ rw g (ground arith)

-- Under gossip with suspicion, a member that nothing is heard of is suspected by the first check
-- after `TFail`, failed by the first after `TSuspect` more, and gone with the first after
-- `TCleanup` more.
pub silent_member_removed :
    (ml : MemberList) (k : Text) (m : Member) (t1 t2 t3 : ℕ)
    → IsMap ml.memberlist
    → IsKeyed ml.memberlist
    → get k ml.memberlist ≡ some m
    → is_alive m.state ≡ true
    → m.last_update_time + t_fail < t1
    → t1 + t_suspect < t2
    → t2 + t_cleanup < t3
    → (get k (check ml t1).memberlist
        ≡ some (record m { state = suspected; last_update_time = t1 }))
      × (get k (check (check ml t1) t2).memberlist
          ≡ some (record m { state = failed; last_update_time = t2 }))
      × (get k (check (check (check ml t1) t2) t3).memberlist ≡ none)
silent_member_removed ml k m t1 t2 t3 u keyed g a h1 h2 h3 =
    let u1 = time_out_check-IsMap ml gossip suspect t1 u in
    let k1 = time_out_check-IsKeyed ml gossip suspect t1 u keyed in
    let u2 = time_out_check-IsMap (check ml t1) gossip suspect t2 u1 in
    let k2 = time_out_check-IsKeyed (check ml t1) gossip suspect t2 u1 k1 in
    let g1 = check_alive ml k m t1 u keyed g a h1 in
    let g2 = check_suspected (check ml t1) k _ t2 u1 k1 g1 refl h2 in
    (g1, g2, check_failed (check (check ml t1) t2) k _ t3 u2 k2 g2 refl h3)

-- In every mode a check leaves an alive member as it is, if it was heard of within `TFail`.
pub fresh_member_kept :
    (ml : MemberList) (protocol : Protocol) (suspicion : Suspicion) (k : Text) (m : Member)
    (now : ℕ)
    → IsMap ml.memberlist
    → IsKeyed ml.memberlist
    → get k ml.memberlist ≡ some m
    → is_alive m.state ≡ true
    → now ≤ m.last_update_time + t_fail
    → get k (time_out_check ml protocol suspicion now).1.memberlist ≡ some m
unfolding to_delete age
fresh_member_kept ml protocol suspicion k m now u keyed g a h =
    get-time_out_check ml protocol suspicion now k u keyed ∙ rw g (ground arith)

-- A round reports a member exactly when it fails it.
age_reports :
    (protocol : Protocol) (suspicion : Suspicion) (now : ℕ) (m : Member)
    → is_failed m.state ≡ false
    → is_failed (age protocol suspicion now m).1.state ≡ true
    → (age protocol suspicion now m).0 ≡ (age protocol suspicion now m).1 ∷ []
unfolding age
age_reports protocol suspicion now m h k = ground arith

age_quiet_failed :
    (protocol : Protocol) (suspicion : Suspicion) (now : ℕ) (m : Member)
    → is_failed m.state ≡ true
    → (age protocol suspicion now m).0 ≡ []
unfolding age
age_quiet_failed protocol suspicion now m h = ground arith

age_quiet :
    (protocol : Protocol) (suspicion : Suspicion) (now : ℕ) (m : Member)
    → is_failed (age protocol suspicion now m).1.state ≡ false
    → (age protocol suspicion now m).0 ≡ []
unfolding age
age_quiet protocol suspicion now m h = ground arith

age_reports_only :
    (P : Member → Type 0) (protocol : Protocol) (suspicion : Suspicion) (now : ℕ) (m : Member)
    → (is_failed m.state ≡ false
        → is_failed (age protocol suspicion now m).1.state ≡ true
        → P (age protocol suspicion now m).1)
    → All P (age protocol suspicion now m).0
age_reports_only P protocol suspicion now m f = elim (Bool-cases (is_failed m.state)) [
  | inl e ↦ subst (All P) (sym (age_quiet_failed protocol suspicion now m e)) tt
  | inr e ↦ elim (Bool-cases (is_failed (age protocol suspicion now m).1.state)) [
    | inl e' ↦ subst (All P) (sym (age_reports protocol suspicion now m e e')) (f e e', tt)
    | inr e' ↦ subst (All P) (sym (age_quiet protocol suspicion now m e')) tt
  ]
]

All-failed_members :
    (P : Member → Type 0) (protocol : Protocol) (suspicion : Suspicion) (now : ℕ)
    (d : Dict Text Member)
    → IsMap d
    → ((k : Text) (m : Member) → get k d ≡ some m → All P (age protocol suspicion now m).0)
    → All P (failed_members protocol suspicion now d)
unfolding failed_members
All-failed_members P protocol suspicion now [] u f = tt
All-failed_members P protocol suspicion now ((j, n) ∷ d) u f =
    All-append P (age protocol suspicion now n).0 _ (f j n (unfold get in rw (==_refl j) refl)) (
      All-failed_members P protocol suspicion now d u.1
        λ k m g. f k m (unfold get in ground (arith, g, u.0, text_beq_iff j k)))

failed_members_at :
    (protocol : Protocol) (suspicion : Suspicion) (now : ℕ) (d : Dict Text Member) (k : Text)
    (m : Member)
    → get k d ≡ some m
    → is_failed m.state ≡ false
    → is_failed (age protocol suspicion now m).1.state ≡ true
    → (i : ℕ) × (get_elem? (failed_members protocol suspicion now d) i
        ≡ some (age protocol suspicion now m).1)
unfolding failed_members get
failed_members_at protocol suspicion now [] k m g h f = cc
failed_members_at protocol suspicion now ((j, n) ∷ d) k m g h f = elim (Bool-cases (j == k)) [
  | inl e ↦
      let same : n ≡ m = ground (arith, e, g) in
      (0, rw (same, age_reports protocol suspicion now m h f) refl)
  | inr e ↦
      let (i, p) = failed_members_at protocol suspicion now d k m (ground (arith, e, g)) h f in
      (
        length (age protocol suspicion now n).0 + i,
        get_elem?-append_right (age protocol suspicion now n).0 _ i ∙ p,
      )
]

not_deleted :
    (protocol : Protocol) (suspicion : Suspicion) (now : ℕ) (m : Member)
    → is_failed m.state ≡ false
    → to_delete protocol suspicion now m ≡ false
unfolding to_delete
not_deleted protocol suspicion now m h = ground arith

get-time_out_check_kept :
    (ml : MemberList) (protocol : Protocol) (suspicion : Suspicion) (now : ℕ) (k : Text)
    (m : Member)
    → IsMap ml.memberlist
    → IsKeyed ml.memberlist
    → get k ml.memberlist ≡ some m
    → is_failed m.state ≡ false
    → get k (time_out_check ml protocol suspicion now).1.memberlist
      ≡ some (age protocol suspicion now m).1
get-time_out_check_kept ml protocol suspicion now k m u keyed g h =
    get-time_out_check ml protocol suspicion now k u keyed
    ∙ rw g (rw (not_deleted protocol suspicion now m h) refl)

-- Each member that a check returns, to be gossiped, stands in the list as it was returned; it is
-- failed now and was not before.
pub time_out_check_returns :
    (ml : MemberList) (protocol : Protocol) (suspicion : Suspicion) (now : ℕ)
    → IsMap ml.memberlist
    → IsKeyed ml.memberlist
    → All
        (λ r.
          (get r.id (time_out_check ml protocol suspicion now).1.memberlist ≡ some r)
          × (is_failed r.state ≡ true)
          × (m : Member) × (get r.id ml.memberlist ≡ some m)
          × (is_failed m.state ≡ false))
        (time_out_check ml protocol suspicion now).0
unfolding time_out_check
time_out_check_returns ml protocol suspicion now u keyed =
    All-failed_members _ protocol suspicion now ml.memberlist u λ k m g.
      age_reports_only _ protocol suspicion now m λ before after.
        let e : (age protocol suspicion now m).1.id ≡ k =
          age_id protocol suspicion now m ∙ keyed k m g in
        (
          ap (λ j. get j (time_out_check ml protocol suspicion now).1.memberlist) e
              ∙ unfold time_out_check in
                get-time_out_check_kept ml protocol suspicion now k m u keyed g before,
          after,
          m,
          ap (λ j. get j ml.memberlist) e ∙ g,
          before,
        )

-- Each member that a check has set to `Failed` is returned.
pub time_out_check_returns_all :
    (ml : MemberList) (protocol : Protocol) (suspicion : Suspicion) (now : ℕ) (k : Text)
    (m m' : Member)
    → IsMap ml.memberlist
    → IsKeyed ml.memberlist
    → get k ml.memberlist ≡ some m
    → is_failed m.state ≡ false
    → get k (time_out_check ml protocol suspicion now).1.memberlist ≡ some m'
    → is_failed m'.state ≡ true
    → (i : ℕ) × (get_elem? (time_out_check ml protocol suspicion now).0 i ≡ some m')
time_out_check_returns_all ml protocol suspicion now k m m' u keyed g before g' after =
    let e : (age protocol suspicion now m).1 ≡ m' =
      some-injective _ _
        (sym (get-time_out_check_kept ml protocol suspicion now k m u keyed g before) ∙ g') in
    let (i, p) = failed_members_at protocol suspicion now ml.memberlist k m g before (rw e after) in
    (i, unfold time_out_check in p ∙ ap some e)
