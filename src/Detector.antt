-- ===== src/Detector.antt =====
-- node/node.go, the failure detector of a node: its messages, pings, heartbeats, checks, the switch of
-- mode and the join, over the member list. What is sent is returned, with the address it goes to.
pub mod Refutation
use event_stream_rainstorm.Prelude.{
  ℕ, Bool, true, false, ◌&&◌, ◌||◌, Option, none, some, List, [], ◌∷◌, map, length, nat_eq, ◌==◌,
  if◌then◌else◌,
}
use event_stream_rainstorm.Prelude.Text.{Text}
use event_stream_rainstorm.Constants.{gossip_num}
use event_stream_rainstorm.Member.{
  Member, alive, suspected, failed, MessageType, ping, ack, gossip, join, other_type, Message,
}
use event_stream_rainstorm.Membership.{
  Protocol, Suspicion, is_gossip, is_ping_ack, is_suspect, is_nosuspect, Target, MemberList,
  Shuffle, get_self_by_id, get_member_list, update_memberlist, change_state, time_out_check,
  add_heart_beat, update_sender_time, round_robin_k, reset_other_time,
}

pub record Node : Type 0 where
  pub id : Text
  pub memberlist : MemberList
  pub protocol : Protocol
  pub suspicion : Suspicion

-- The messages sent, and the node.
abbrev pub Sends : Type 0
Sends = List (Text × Message) × Node

abbrev pub with_list : MemberList → Node → Node
with_list ml node = record node { memberlist = ml }

abbrev pub message_of : MessageType → Node → Message
message_of type node = record {
  type = type;
  memberlist = get_member_list node.memberlist;
  send_id = node.id;
}

unfoldable pub send_gossip_message : (ℕ → Shuffle) → List Member → Node → Sends
send_gossip_message shuffle [] node = ([], node)
send_gossip_message shuffle (m ∷ ms) node =
    let (targets, ml) = round_robin_k shuffle node.memberlist gossip_num node.id in
    (
      map
          (λ (t : Target).
            (t.address, record { type = gossip; memberlist = m ∷ ms; send_id = node.id }))
          targets,
      with_list ml node,
    )

-- `gossip`
unfoldable pub gossip_all : (ℕ → Shuffle) → Node → Sends
unfolding send_gossip_message
gossip_all shuffle node = send_gossip_message shuffle (get_member_list node.memberlist) node

-- `handleMessage`, with `DropRate` 0. An ack also ends the wait of the ping it answers.
unfoldable pub handle_message : ℕ → Message → Text → Node → Sends
handle_message now msg sender node =
    let heard = update_sender_time node.memberlist msg.send_id now in
    let node' = with_list (update_memberlist heard msg.memberlist node.id now) node in
    elim msg.type [
      | ping ↦ ((sender, message_of ack node') ∷ [], node')
      | ack ↦ ([], node')
      | gossip ↦ ([], node')
      | join ↦ ((sender, message_of gossip node') ∷ [], node')
      | other_type t ↦ ([], node')
    ]

-- `pingMember`, up to the wait: the member that is pinged, if there is one.
unfoldable pub ping_member : (ℕ → Shuffle) → Node → Option Target × Sends
ping_member shuffle node =
    let (targets, ml) = round_robin_k shuffle node.memberlist 1 node.id in
    let node' = with_list ml node in
    elim targets [
      | [] ↦ (none, ([], node'))
      | t ∷ ts ↦ (some t, ((t.address, message_of ping node') ∷ [], node'))
    ]

-- `gossipUPdateMember` of what an operation on the list returned.
abbrev report : (ℕ → Shuffle) → List Member × MemberList → Node → Sends
report shuffle result node = send_gossip_message shuffle result.0 (with_list result.1 node)

-- The wait of a ping has ended without an ack. The mode is the one of when it was sent.
unfoldable pub ping_timed_out : (ℕ → Shuffle) → Suspicion → Text → ℕ → Node → Sends
unfolding send_gossip_message
ping_timed_out shuffle now_suspicion target_id now node =
    if is_suspect now_suspicion
    then report shuffle (change_state node.memberlist target_id alive suspected now) node
    else if is_nosuspect now_suspicion
    then report shuffle (change_state node.memberlist target_id alive failed now) node
    else ([], node)

-- A round of `HeartBeatRoutine` under gossip; under ping-ack it is `ping_member`.
unfoldable pub heart_beat_routine : (ℕ → Shuffle) → ℕ → Node → Sends
unfolding gossip_all
heart_beat_routine shuffle now node =
    if is_gossip node.protocol
    then gossip_all shuffle (with_list (add_heart_beat node.memberlist node.id now) node)
    else ([], node)

-- A tick of `TimeOutCheck`.
unfoldable pub time_out_tick : (ℕ → Shuffle) → ℕ → Node → Sends
unfolding send_gossip_message
time_out_tick shuffle now node =
    report shuffle (time_out_check node.memberlist node.protocol node.suspicion now) node

-- `Switch`, in one step; its heartbeat comes after the other times have been reset.
unfoldable pub switch : (ℕ → Shuffle) → Protocol → Suspicion → ℕ → Node → Sends
unfolding gossip_all
switch shuffle protocol suspicion now node =
    let moded = record node { protocol = protocol; suspicion = suspicion } in
    let reset = reset_other_time node.memberlist node.id now in
    if (is_gossip protocol || is_ping_ack protocol)
      && (is_suspect suspicion || is_nosuspect suspicion)
    then if is_gossip protocol
      then gossip_all shuffle (with_list (add_heart_beat reset node.id now) moded)
      else ([], moded)
    else ([], node)

-- `joinMemberList`, the message to the introducer.
unfoldable pub join_member_list : Text → Node → List (Text × Message)
join_member_list introducer_addr node = elim (get_self_by_id node.memberlist node.id) [
  | none ↦ []
  | some self ↦
      (introducer_addr, record { type = join; memberlist = self ∷ []; send_id = node.id }) ∷ []
]
