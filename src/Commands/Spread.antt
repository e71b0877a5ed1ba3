-- ===== src/Commands/Spread.antt =====
-- How a switch of the introducer reaches the members of its list.
use event_stream_rainstorm.Prelude.{
  ◌≡◌, refl, ap, ◌∙◌, true, not, some, List, [], ◌∷◌, ◌++◌, nat_eq, ◌==◌, All, map, select, arith,
}
use event_stream_rainstorm.Prelude.Text.{Text, text, text_eq, text_beq, cut}
use event_stream_rainstorm.Member.{Member}
use event_stream_rainstorm.Membership.{
  Protocol, gossip, ping_ack, other_protocol, Suspicion, suspect, nosuspect, other_suspicion,
  get_member_list,
}
use event_stream_rainstorm.Detector.{Node}
use event_stream_rainstorm.Commands.{
  split, read_command, Machine, handle_command, switch_line, protocol_text, suspicion_text,
  run_command, handle_switch, send_switch_command, host_of,
}
use event_stream_rainstorm.Constants.{command_port}
use event_stream_rainstorm.Commands.Mode.{IsProtocol, IsSuspicion, InMode, switched-InMode}

switch_words :
    (p : Protocol) (s : Suspicion)
    → IsProtocol p
    → IsSuspicion s
    → read_command (switch_line (protocol_text p) (suspicion_text s))
      ≡ some (text "switch" ∷ protocol_text p ∷ suspicion_text s ∷ [])
unfolding read_command switch_line cut split
switch_words gossip suspect hp hs = refl
switch_words gossip nosuspect hp hs = refl
switch_words gossip (other_suspicion t) hp hs = absurd hs
switch_words ping_ack suspect hp hs = refl
switch_words ping_ack nosuspect hp hs = refl
switch_words ping_ack (other_suspicion t) hp hs = absurd hs
switch_words (other_protocol t) s hp hs = absurd hp

run_switch :
    (m : Machine) (args : List Text) (node : Node)
    → run_command m (text "switch") args node ≡ handle_switch m args node
unfolding run_command text_beq
run_switch m args node = refl

pub handle_words :
    (m : Machine) (input command : Text) (args : List Text) (node : Node)
    → read_command input ≡ some (command ∷ args)
    → handle_command m input node ≡ run_command m command args node
unfolding handle_command
handle_words m input command args node e = ground arith

abbrev pub line_of : Protocol → Suspicion → Text
line_of p s = switch_line (protocol_text p) (suspicion_text s)

handle_line :
    (m : Machine) (p : Protocol) (s : Suspicion) (node : Node)
    → IsProtocol p
    → IsSuspicion s
    → handle_command m (line_of p s) node
      ≡ handle_switch m (protocol_text p ∷ suspicion_text s ∷ []) node
handle_line m p s node hp hs =
    handle_words m (line_of p s) (text "switch") _ node (switch_words p s hp hs)
    ∙ run_switch m (protocol_text p ∷ suspicion_text s ∷ []) node

pub handle_line-InMode :
    (m : Machine) (p : Protocol) (s : Suspicion) (node : Node)
    → IsProtocol p
    → IsSuspicion s
    → InMode p s (handle_command m (line_of p s) node).node
handle_line-InMode m p s node hp hs =
    rw (handle_line m p s node hp hs) (unfold handle_switch in switched-InMode m p s node hp hs)

lines_of :
    (m : Machine) (protocol suspicion : Text) (node : Node)
    → m.is_introducer ≡ true
    → (handle_switch m (protocol ∷ suspicion ∷ []) node).lines
      ≡ send_switch_command protocol suspicion
          (handle_switch m (protocol ∷ suspicion ∷ []) node).node
unfolding handle_switch
lines_of m protocol suspicion node h = ground arith

-- The members besides the node itself.
abbrev pub others : Node → List Member
others node = select (λ (m : Member). not (m.id == node.id)) (get_member_list node.memberlist)

abbrev pub command_addr : Member → Text
command_addr m = host_of m.address ++ (text ":" ++ command_port)

sent_lines :
    (p : Protocol) (s : Suspicion) (ms : List Member) (P : Text × Text → Type 0)
    → ((addr : Text) → P (addr, line_of p s))
    → (map (λ (l : Text × Text). l.0) (map (λ (m : Member). (command_addr m, line_of p s)) ms)
        ≡ map command_addr ms)
      × All P (map (λ (m : Member). (command_addr m, line_of p s)) ms)
sent_lines p s [] P h = (refl, tt)
sent_lines p s (m ∷ ms) P h =
    let (e, k) = sent_lines p s ms P h in (ap (λ l. command_addr m ∷ l) e, (h (command_addr m), k))

-- A switch that the introducer is given takes it into the mode, and it sends one line to the command
-- port of each other member of its list; a node that handles such a line comes into the mode too.
pub handle_command-spreads :
    (m : Machine) (introducer : Node) (p : Protocol) (s : Suspicion)
    → IsProtocol p
    → IsSuspicion s
    → m.is_introducer ≡ true
    → let handled = handle_command m (line_of p s) introducer in
      InMode p s handled.node
      × (map (λ (l : Text × Text). l.0) handled.lines ≡ map command_addr (others handled.node))
      × All
          (λ (l : Text × Text).
            (m' : Machine) (node : Node) → InMode p s (handle_command m' l.1 node).node)
          handled.lines
unfolding send_switch_command
handle_command-spreads m introducer p s hp hs i =
    let after = handle_switch m (protocol_text p ∷ suspicion_text s ∷ []) introducer in
    let (e, k) =
      sent_lines p s (others after.node)
        (λ (l : Text × Text).
          (m' : Machine) (node : Node) → InMode p s (handle_command m' l.1 node).node)
        (λ addr m' node. handle_line-InMode m' p s node hp hs) in
    rw
      (
        handle_line m p s introducer hp hs,
        lines_of m (protocol_text p) (suspicion_text s) introducer i,
      )
      (unfold handle_switch in switched-InMode m p s introducer hp hs, e, k)
