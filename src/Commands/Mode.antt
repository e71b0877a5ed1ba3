-- ===== src/Commands/Mode.antt =====
-- How the mode of the introducer reaches the other nodes, and which commands change a node.
use event_stream_rainstorm.Prelude.{ℕ, ◌≡◌, refl, some, List, [], ◌∷◌, ◌++◌, nat_eq, arith}
use event_stream_rainstorm.Prelude.Text.{Text, text, text_eq, text_beq, cut}
use event_stream_rainstorm.Lines.{newline}
use event_stream_rainstorm.Member.{Member}
use event_stream_rainstorm.Membership.{
  Shuffle, Protocol, gossip, ping_ack, other_protocol, Suspicion, suspect, nosuspect,
  other_suspicion, get_member_list,
}
use event_stream_rainstorm.Detector.{Node, switch, gossip_all, send_gossip_message}
use event_stream_rainstorm.Commands.{
  split, read_command, Machine, handle_command, switched, adopt, take_mode, mode_line, to_protocol,
  to_suspicion, protocol_text, suspicion_text,
}

-- A mode that a node can be switched to.
abbrev pub IsProtocol : Protocol → Type 0
IsProtocol gossip = Unit
IsProtocol ping_ack = Unit
IsProtocol (other_protocol t) = ⊥

abbrev pub IsSuspicion : Suspicion → Type 0
IsSuspicion suspect = Unit
IsSuspicion nosuspect = Unit
IsSuspicion (other_suspicion t) = ⊥

-- The node runs in this mode.
abbrev pub InMode : Protocol → Suspicion → Node → Type 0
InMode protocol suspicion node = (node.protocol ≡ protocol) × (node.suspicion ≡ suspicion)

send_gossip_message-InMode :
    (p : Protocol) (s : Suspicion) (shuffle : ℕ → Shuffle) (ms : List Member) (node : Node)
    → InMode p s node
    → InMode p s (send_gossip_message shuffle ms node).1
unfolding send_gossip_message
send_gossip_message-InMode p s shuffle [] node h = h
send_gossip_message-InMode p s shuffle (m ∷ ms) node h = h

gossip_all-InMode :
    (p : Protocol) (s : Suspicion) (shuffle : ℕ → Shuffle) (node : Node)
    → InMode p s node
    → InMode p s (gossip_all shuffle node).1
unfolding gossip_all
gossip_all-InMode p s shuffle node h =
    send_gossip_message-InMode p s shuffle (get_member_list node.memberlist) node h

pub switch-InMode :
    (shuffle : ℕ → Shuffle) (now : ℕ) (p : Protocol) (s : Suspicion) (node : Node)
    → IsProtocol p
    → IsSuspicion s
    → InMode p s (switch shuffle p s now node).1
unfolding switch
switch-InMode shuffle now gossip suspect node hp hs =
    gossip_all-InMode gossip suspect shuffle _ (refl, refl)
switch-InMode shuffle now gossip nosuspect node hp hs =
    gossip_all-InMode gossip nosuspect shuffle _ (refl, refl)
switch-InMode shuffle now gossip (other_suspicion t) node hp hs = absurd hs
switch-InMode shuffle now ping_ack suspect node hp hs = (refl, refl)
switch-InMode shuffle now ping_ack nosuspect node hp hs = (refl, refl)
switch-InMode shuffle now ping_ack (other_suspicion t) node hp hs = absurd hs
switch-InMode shuffle now (other_protocol t) s node hp hs = absurd hp

to_protocol-text : (p : Protocol) → IsProtocol p → to_protocol (protocol_text p) ≡ p
unfolding to_protocol text_beq
to_protocol-text gossip h = refl
to_protocol-text ping_ack h = refl
to_protocol-text (other_protocol t) h = absurd h

to_suspicion-text : (s : Suspicion) → IsSuspicion s → to_suspicion (suspicion_text s) ≡ s
unfolding to_suspicion text_beq
to_suspicion-text suspect h = refl
to_suspicion-text nosuspect h = refl
to_suspicion-text (other_suspicion t) h = absurd h

pub switched-InMode :
    (m : Machine) (p : Protocol) (s : Suspicion) (node : Node)
    → IsProtocol p
    → IsSuspicion s
    → InMode p s (switched m (protocol_text p) (suspicion_text s) node).node
unfolding switched
switched-InMode m p s node hp hs =
    rw (to_protocol-text p hp, to_suspicion-text s hs)
      (switch-InMode m.shuffle m.now p s node hp hs)

mode_words :
    (node : Node) (p : Protocol) (s : Suspicion)
    → IsProtocol p
    → IsSuspicion s
    → InMode p s node
    → read_command (mode_line node) ≡ some (text "mode" ∷ protocol_text p ∷ suspicion_text s ∷ [])
unfolding read_command mode_line cut split
mode_words node gossip suspect hp hs i = rw (i.0, i.1) refl
mode_words node gossip nosuspect hp hs i = rw (i.0, i.1) refl
mode_words node gossip (other_suspicion t) hp hs i = absurd hs
mode_words node ping_ack suspect hp hs i = rw (i.0, i.1) refl
mode_words node ping_ack nosuspect hp hs i = rw (i.0, i.1) refl
mode_words node ping_ack (other_suspicion t) hp hs i = absurd hs
mode_words node (other_protocol t) s hp hs i = absurd hp

mode_reply :
    (m : Machine) (node : Node)
    → (handle_command m (text "get_switch" ++ newline ∷ []) node).reply ≡ mode_line node
unfolding handle_command cut text_beq
mode_reply m node = refl

adopt_lem :
    (m : Machine) (protocol suspicion : Text) (node : Node)
    → adopt m (text "mode" ∷ protocol ∷ suspicion ∷ []) node ≡ switched m protocol suspicion node
unfolding adopt text_beq
adopt_lem m protocol suspicion node = refl

take_mode_words :
    (m : Machine) (response : Text) (words : List Text) (node : Node)
    → read_command response ≡ some words
    → take_mode m response node ≡ adopt m words node
unfolding take_mode
take_mode_words m response words node e = ground arith

-- A node that joins comes into the mode of the introducer: it asks with "get_switch" and reads the
-- answer back.
pub take_mode-handle_command :
    (m m' : Machine) (introducer node : Node) (p : Protocol) (s : Suspicion)
    → IsProtocol p
    → IsSuspicion s
    → InMode p s introducer
    → InMode p s
        (take_mode m
          (handle_command m' (text "get_switch" ++ newline ∷ []) introducer).reply
          node).node
take_mode-handle_command m m' introducer node p s hp hs h =
    rw
      (
        mode_reply m' introducer,
        take_mode_words m _ _ node (mode_words introducer p s hp hs h),
        adopt_lem m (protocol_text p) (suspicion_text s) node,
      )
      (switched-InMode m p s node hp hs)
