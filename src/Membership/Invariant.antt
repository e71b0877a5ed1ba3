-- ===== src/Membership/Invariant.antt =====
-- What every history of calls keeps: a member list is a map, keyed by the ids of its members, and
-- the round-robin index is in range.
use event_stream_rainstorm.Prelude.{
  ℕ, ◌≡◌, refl, sym, ◌∙◌, inl, inr, List, [], ◌∷◌, Bool-cases, Option-cases, nat_eq, ◌==◌, arith,
}
use event_stream_rainstorm.Prelude.Dict.{
  Dict, IsMap, get, put, adjust, map_values, get-put, get-adjust, get-map_values, put-IsMap,
  adjust-IsMap,
}
use event_stream_rainstorm.Prelude.Text.{Text, text_eq, text_beq_iff}
use event_stream_rainstorm.Member.{Member, State, is_failed}
use event_stream_rainstorm.Membership.{
  MemberList, Protocol, Suspicion, Shuffle, refute, absorb, merge_other, merge_all,
  update_memberlist, change_state, same_state, time_out_check, add_heart_beat, update_sender_time,
  round_robin_k, reset_other_time, turn_leave,
}
use event_stream_rainstorm.Membership.Timeout.{
  IsKeyed, time_out_check-IsMap, time_out_check-IsKeyed, map_values-IsMap,
}
use event_stream_rainstorm.Membership.RoundRobin.{
  InRange, round_robin_k-InRange, memberlist-round_robin_k,
}

pub data Call : Type 0 where
  update : List Member → ℕ → Call
  change : Text → State → State → ℕ → Call
  time_out : Protocol → Suspicion → ℕ → Call
  heart_beat leaves resets : ℕ → Call
  hears : Text → ℕ → Call
  rounds : (ℕ → Shuffle) → ℕ → Call

unfoldable pub step : Text → MemberList → Call → MemberList
step self ml (update sender now) = update_memberlist ml sender self now
step self ml (change k prev new now) = (change_state ml k prev new now).1
step self ml (time_out protocol suspicion now) = (time_out_check ml protocol suspicion now).1
step self ml (heart_beat now) = add_heart_beat ml self now
step self ml (leaves now) = turn_leave ml self now
step self ml (resets now) = reset_other_time ml self now
step self ml (hears k now) = update_sender_time ml k now
step self ml (rounds shuffle num) = (round_robin_k shuffle ml num self).1

unfoldable pub run : Text → MemberList → List Call → MemberList
run self ml [] = ml
run self ml (c ∷ cs) = run self (step self ml c) cs

pub record IsWellFormed (ml : MemberList) : Type 0 where
  pub unique : IsMap ml.memberlist
  pub keyed : IsKeyed ml.memberlist
  pub in_range : InRange ml

put-IsKeyed :
    (k : Text) (m : Member) (d : Dict Text Member) → m.id ≡ k → IsKeyed d → IsKeyed (put k m d)
put-IsKeyed k m d e keyed j n g =
    ground (arith, sym (get-put k j m d) ∙ g, keyed j n, text_beq_iff k j)

adjust-IsKeyed :
    (k : Text) (f : Member → Member) (d : Dict Text Member)
    → ((m : Member) → (f m).id ≡ m.id)
    → IsKeyed d
    → IsKeyed (adjust k f d)
adjust-IsKeyed k f d same keyed j n g = elim (Option-cases (get j d)) [
  | inl e ↦ ground (arith, sym (get-adjust k j f d) ∙ g, e)
  | inr (m, e) ↦ ground (arith, sym (get-adjust k j f d) ∙ g, e, keyed j m e, same m)
]

refute_id : (next self : Member) (now : ℕ) → (refute next now self).id ≡ self.id
unfolding refute
refute_id next self now = ground arith

absorb_id : (next m : Member) (now : ℕ) → (absorb next now m).id ≡ m.id
unfolding absorb
absorb_id next m now = ground arith

abbrev Good : Dict Text Member → Type 0
Good d = IsMap d × IsKeyed d

merge_other-Good :
    (next : Member) (now : ℕ) (d : Dict Text Member) → Good d → Good (merge_other next now d)
unfolding merge_other
merge_other-Good next now d (u, k) = elim (Option-cases (get next.id d)) [
  | inl e ↦ elim (Bool-cases (is_failed next.state)) [
    | inl f ↦ rw (e, merge_other, f) (u, k)
    | inr f ↦ rw (e, merge_other, f) (put-IsMap _ _ d u, put-IsKeyed _ _ d refl k)
  ]
  | inr (c, e) ↦
      rw (e, merge_other)
        (put-IsMap _ _ d u, put-IsKeyed _ _ d (absorb_id next c now ∙ k next.id c e) k)
]

merge_all-Good :
    (sender : List Member) (self : Text) (now : ℕ) (d : Dict Text Member)
    → Good d
    → Good (merge_all sender self now d)
unfolding merge_all
merge_all-Good [] self now d g = g
merge_all-Good (next ∷ rest) self now d g = elim (Bool-cases (next.id == self)) [
  | inr e ↦ rw (e, merge_all) (merge_all-Good rest self now _ (merge_other-Good next now d g))
  | inl e ↦ elim (Option-cases (get self d)) [
    | inl p ↦ rw (e, p, merge_all) g
    | inr (m, p) ↦
        rw (e, p, merge_all)
          (merge_all-Good rest self now _
            (put-IsMap _ _ d g.0, put-IsKeyed _ _ d (refute_id next m now ∙ g.1 self m p) g.1))
  ]
]

change_state-Good :
    (ml : MemberList) (k : Text) (prev new : State) (now : ℕ)
    → IsWellFormed ml
    → IsWellFormed (change_state ml k prev new now).1
unfolding change_state
change_state-Good ml k prev new now w = elim (Option-cases (get k ml.memberlist)) [
  | inl e ↦ rw (e, change_state) w
  | inr (m, e) ↦ elim (Bool-cases (same_state m.state prev)) [
    | inr f ↦ rw (e, change_state, f) w
    | inl f ↦
        rw (e, change_state, f)
          (record {
            unique = put-IsMap k _ ml.memberlist w.unique;
            keyed = put-IsKeyed k _ ml.memberlist (w.keyed k m e) w.keyed;
            in_range = w.in_range;
          })
  ]
]

map_values-IsKeyed :
    (f : Text → Member → Member) (d : Dict Text Member)
    → ((k : Text) (m : Member) → (f k m).id ≡ m.id)
    → IsKeyed d
    → IsKeyed (map_values f d)
map_values-IsKeyed f d same keyed j n g = elim (Option-cases (get j d)) [
  | inl e ↦ ground (arith, sym (get-map_values f j d) ∙ g, e)
  | inr (m, e) ↦ ground (arith, sym (get-map_values f j d) ∙ g, e, keyed j m e, same j m)
]

step-IsWellFormed :
    (self : Text) (ml : MemberList) (c : Call) → IsWellFormed ml → IsWellFormed (step self ml c)
unfolding step update_memberlist add_heart_beat update_sender_time reset_other_time turn_leave
step-IsWellFormed self ml (update sender now) w =
    let g = merge_all-Good sender self now ml.memberlist (w.unique, w.keyed) in
    record { unique = g.0; keyed = g.1; in_range = w.in_range }
step-IsWellFormed self ml (change k prev new now) w = change_state-Good ml k prev new now w
step-IsWellFormed self ml (time_out protocol suspicion now) w = record {
  unique = time_out_check-IsMap ml protocol suspicion now w.unique;
  keyed = time_out_check-IsKeyed ml protocol suspicion now w.unique w.keyed;
  in_range = unfold time_out_check in w.in_range;
}
step-IsWellFormed self ml (heart_beat now) w = record {
  unique = adjust-IsMap _ _ _ w.unique;
  keyed = adjust-IsKeyed _ _ _ (λ m. refl) w.keyed;
  in_range = w.in_range;
}
step-IsWellFormed self ml (leaves now) w = record {
  unique = adjust-IsMap _ _ _ w.unique;
  keyed = adjust-IsKeyed _ _ _ (λ m. refl) w.keyed;
  in_range = w.in_range;
}
step-IsWellFormed self ml (hears k now) w = record {
  unique = adjust-IsMap _ _ _ w.unique;
  keyed = adjust-IsKeyed _ _ _ (λ m. refl) w.keyed;
  in_range = w.in_range;
}
step-IsWellFormed self ml (resets now) w = record {
  unique = map_values-IsMap _ _ w.unique;
  keyed = map_values-IsKeyed _ _ (λ k m. ground arith) w.keyed;
  in_range = w.in_range;
}
step-IsWellFormed self ml (rounds shuffle num) w = record {
  unique = rw (memberlist-round_robin_k shuffle ml num self) w.unique;
  keyed = rw (memberlist-round_robin_k shuffle ml num self) w.keyed;
  in_range = (round_robin_k-InRange shuffle ml num self w.in_range).0;
}

-- Every history of calls keeps a member list well formed: each id stands once, at its own key, and
-- the round-robin index does not pass the end of its list.
pub run-IsWellFormed :
    (self : Text) (ml : MemberList) (cs : List Call)
    → IsWellFormed ml
    → IsWellFormed (run self ml cs)
unfolding run
run-IsWellFormed self ml [] w = w
run-IsWellFormed self ml (c ∷ cs) w =
    run-IsWellFormed self (step self ml c) cs (step-IsWellFormed self ml c w)
