-- ===== src/Tests/Members.antt =====
-- Runs of the member list and of the ring.
use Prim.Native.Nat.{◌≤◌}
use mathlib.Core.List.{Perm}
use mathlib.Core.List.Perm
use event_stream_rainstorm.Prelude.{
  ℕ, ◌<◌, ◌≡◌, ◌≢◌, refl, none, some, List, [], ◌∷◌, ◌++◌, length, arith,
}
use event_stream_rainstorm.Prelude.Dict.{get, IsMap}
use event_stream_rainstorm.Prelude.Text.{text, text_eq, text_beq, text_beq_iff}
use event_stream_rainstorm.Member.{Member, alive, suspected, failed, ping, ack}
use event_stream_rainstorm.Membership.{
  MemberList, gossip, ping_ack, suspect, update_memberlist, time_out_check, round_robin_k, Shuffle,
}
use event_stream_rainstorm.Membership.Merge.{Advances, update_memberlist-Advances}
use event_stream_rainstorm.Membership.Reports.{
  update_memberlist-takes_in, update_memberlist_self, update_memberlist-refutes,
}
use event_stream_rainstorm.Membership.Timeout.{IsKeyed}
use event_stream_rainstorm.Membership.Detection.{check, silent_member_removed, fresh_member_kept}
use event_stream_rainstorm.Membership.RoundRobin.{InRange, round_robin_k-InRange}
use event_stream_rainstorm.Membership.Invariant.{
  update, time_out, run, IsWellFormed, run-IsWellFormed,
}
use event_stream_rainstorm.Detector.{Node, message_of, handle_message}
use event_stream_rainstorm.Detector.Refutation.{handle_message-refutes}

abbrev self_member : Member
self_member = record {
  id = text "n1";
  address = text "172.22.155.16:9000";
  heart_beat_counter = 3;
  incarnation = 0;
  state = alive;
  last_update_time = 0;
}

abbrev other_member : Member
other_member = record {
  id = text "n2";
  address = text "172.22.159.16:9000";
  heart_beat_counter = 1;
  incarnation = 0;
  state = alive;
  last_update_time = 0;
}

abbrev suspicion_of_self : Member
suspicion_of_self = record self_member { state = suspected }

abbrev newcomer : Member
newcomer = record other_member { id = text "n3" }

abbrev ml : MemberList
ml = record {
  memberlist = (text "n1", self_member) ∷ (text "n2", other_member) ∷ [];
  round_robin_index = 0;
  round_robin_list = [];
  delete_number = 0;
}

ml-IsMap : IsMap ml.memberlist
unfolding get text_beq
ml-IsMap = (refl, (refl, tt))

ml-IsKeyed : IsKeyed ml.memberlist
unfolding get
ml-IsKeyed k m e = ground (arith, text_beq_iff (text "n1") k, text_beq_iff (text "n2") k)

ml-IsWellFormed : IsWellFormed ml
ml-IsWellFormed = record { unique = ml-IsMap; keyed = ml-IsKeyed; in_range = omega arith }

update_memberlist-Advances_example :
    (m' : Member) × (get
        (text "n2")
        (update_memberlist ml (suspicion_of_self ∷ []) (text "n1") 5).memberlist
      ≡ some m')
    × Advances other_member m'
unfolding get text_beq
update_memberlist-Advances_example =
    update_memberlist-Advances ml (suspicion_of_self ∷ []) (text "n1") 5 (text "n2") other_member
      refl

own_entry :
    (m' : Member) × (get
        (text "n1")
        (update_memberlist ml (suspicion_of_self ∷ []) (text "n1") 5).memberlist
      ≡ some m')
    × (m'.state ≡ self_member.state)
    × (m'.heart_beat_counter ≡ self_member.heart_beat_counter)
    × (self_member.incarnation ≤ m'.incarnation)
unfolding get text_beq
own_entry = update_memberlist_self ml (suspicion_of_self ∷ []) (text "n1") 5 self_member refl

refuted_here :
    (m' : Member) × (get
        (text "n1")
        (update_memberlist ml ([] ++ suspicion_of_self ∷ []) (text "n1") 5).memberlist
      ≡ some m')
    × (self_member.incarnation < m'.incarnation)
unfolding get text_beq
refuted_here =
    update_memberlist-refutes ml [] [] suspicion_of_self (text "n1") 5 self_member refl refl refl
      refl (omega arith)

newcomer_is_other : newcomer.id ≢ text "n1"
newcomer_is_other e = ground arith

taken_in :
    (m' : Member) × (get newcomer.id
        (update_memberlist ml (suspicion_of_self ∷ [] ++ newcomer ∷ []) (text "n1") 5).memberlist
      ≡ some m')
    × Advances newcomer m'
unfolding get text_beq
taken_in =
    update_memberlist-takes_in ml (suspicion_of_self ∷ []) [] newcomer (text "n1") 5 self_member
      refl newcomer_is_other refl refl

silent_member_removed_example :
    (get (text "n2") (check ml 1600000000).memberlist
      ≡ some (record other_member { state = suspected; last_update_time = 1600000000 }))
    × (get (text "n2") (check (check ml 1600000000) 3200000000).memberlist
        ≡ some (record other_member { state = failed; last_update_time = 3200000000 }))
    × (get (text "n2") (check (check (check ml 1600000000) 3200000000) 4300000000).memberlist
        ≡ none)
unfolding get text_beq
silent_member_removed_example =
    silent_member_removed ml (text "n2") other_member 1600000000 3200000000 4300000000 ml-IsMap
      ml-IsKeyed refl refl (omega arith) (omega arith) (omega arith)

fresh_member_kept_example :
    get (text "n2") (time_out_check ml gossip suspect 1000).1.memberlist ≡ some other_member
unfolding get text_beq
fresh_member_kept_example =
    fresh_member_kept ml gossip suspect (text "n2") other_member 1000 ml-IsMap ml-IsKeyed refl refl
      (omega arith)

run-IsWellFormed_example :
    IsWellFormed (run (text "n1") ml (update (newcomer ∷ []) 4 ∷ time_out gossip suspect 9 ∷ []))
run-IsWellFormed_example =
    run-IsWellFormed (text "n1") ml (update (newcomer ∷ []) 4 ∷ time_out gossip suspect 9 ∷ [])
      ml-IsWellFormed

abbrev same_order : ℕ → Shuffle
same_order k l = l

round_robin_k-InRange_example :
    InRange (round_robin_k same_order ml 3 (text "n1")).1
    × (length (round_robin_k same_order ml 3 (text "n1")).0 ≤ 3)
round_robin_k-InRange_example = round_robin_k-InRange same_order ml 3 (text "n1") (omega arith)

abbrev pinger : Node
pinger = record {
  id = text "n1";
  memberlist = record ml {
    memberlist =
        (text "n1", self_member) ∷ (text "n2", record other_member { state = suspected }) ∷ [];
  };
  protocol = ping_ack;
  suspicion = suspect;
}

abbrev pinged : Node
pinged = record pinger { id = text "n2"; memberlist = ml }

n2-n1 : text "n2" ≢ text "n1"
unfolding text_beq
n2-n1 e = ground (arith, text_beq_iff (text "n2") (text "n1"))

handle_message-refutes_example :
    let b' = (handle_message 4 (message_of ping pinger) (text "172.22.155.16:9000") pinged).1 in
    let a' = (handle_message 5 (message_of ack b') (text "172.22.159.16:9000") pinger).1 in
    (m : Member) × (get (text "n2") a'.memberlist.memberlist ≡ some m) × (0 < m.incarnation)
unfolding get text_beq
handle_message-refutes_example =
    handle_message-refutes pinger pinged 4 5 (text "172.22.155.16:9000") (text "172.22.159.16:9000")
      (record other_member { state = suspected }) other_member self_member ml-IsWellFormed refl
      n2-n1 refl refl refl refl refl refl
