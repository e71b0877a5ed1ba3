-- ===== src/Client/Main/Switching.antt =====
-- A switch that is typed to demo/demo.go, at the node that it is sent to.
use event_stream_rainstorm.Prelude.{
  ℕ, ◌≡◌, refl, sym, ap, ◌∙◌, inl, inr, false, not, ◌&&◌, [], ◌∷◌, nat_eq, ◌==◌, Bool-cases, arith,
}
use event_stream_rainstorm.Prelude.Text.{Text, text, text_eq, text_beq, text_beq_iff}
use event_stream_rainstorm.Membership.{Protocol, gossip, ping_ack, Suspicion, suspect, nosuspect}
use event_stream_rainstorm.Detector.{Node}
use event_stream_rainstorm.Commands.{
  Machine, handle_command, switch_line, protocol_text, suspicion_text,
}
use event_stream_rainstorm.Commands.Mode.{IsProtocol, IsSuspicion, InMode}
use event_stream_rainstorm.Commands.Spread.{line_of, handle_line-InMode}
use event_stream_rainstorm.Client.{Run, ok, arg_at}
use event_stream_rainstorm.Client.Main.{
  Action, send_to, intro_address, checked_switch, switch_command, command_action, main,
}

-- A word that the client takes for a protocol is the word of one.
word-protocol :
    (w : Text)
    → (not (w == text "gossip") && not (w == text "ping")) ≡ false
    → (p : Protocol) × IsProtocol p × (protocol_text p ≡ w)
word-protocol w h = elim (Bool-cases (w == text "gossip")) [
  | inl e ↦ (gossip, tt, sym ((text_beq_iff w (text "gossip")).0 e))
  | inr e ↦ (ping_ack, tt, sym ((text_beq_iff w (text "ping")).0 (ground (arith, e))))
]

word-suspicion :
    (w : Text)
    → (not (w == text "suspect") && not (w == text "nosuspect")) ≡ false
    → (s : Suspicion) × IsSuspicion s × (suspicion_text s ≡ w)
word-suspicion w h = elim (Bool-cases (w == text "suspect")) [
  | inl e ↦ (suspect, tt, sym ((text_beq_iff w (text "suspect")).0 e))
  | inr e ↦ (nosuspect, tt, sym ((text_beq_iff w (text "nosuspect")).0 (ground (arith, e))))
]

abbrev line_sent : Run Action → Text
line_sent (ok (send_to addr line)) = line
line_sent r = []

-- The line of a switch that passes the tests is that of a mode.
checked_switch-line :
    (protocol suspicion addr line : Text)
    → checked_switch protocol suspicion ≡ ok (send_to addr line)
    → (p : Protocol) × (s : Suspicion) × IsProtocol p
      × IsSuspicion s
      × (protocol_text p ≡ protocol)
      × (suspicion_text s ≡ suspicion)
      × (line ≡ line_of p s)
unfolding checked_switch
checked_switch-line protocol suspicion addr line h =
    elim (Bool-cases (not (protocol == text "gossip") && not (protocol == text "ping"))) [
      | inl e ↦ absurd (ground arith)
      | inr e ↦
          elim (Bool-cases
            (not (suspicion == text "suspect") && not (suspicion == text "nosuspect"))) [
              | inl f ↦ absurd (ground arith)
              | inr f ↦
                  let (p, hp, ep) = word-protocol protocol e in
                  let (s, hs, es) = word-suspicion suspicion f in
                  let sent : ok (send_to intro_address (switch_line protocol suspicion))
                      ≡ ok (send_to addr line) =
                    rw (e, f) at h in
                  let same : switch_line (protocol_text p) (suspicion_text s)
                      ≡ switch_line protocol suspicion =
                    rw (ep, es) refl in
                  (p, s, hp, hs, ep, es, sym (ap line_sent sent) ∙ sym same)
            ]
    ]

main-checked :
    (now : ℕ) (program protocol suspicion : Text)
    → main now (program ∷ text "switch" ∷ protocol ∷ suspicion ∷ [])
      ≡ checked_switch protocol suspicion
unfolding main command_action switch_command arg_at text_beq
main-checked now program protocol suspicion = refl

-- What the client sends for a switch that is typed is a command by which the node that gets it
-- changes to the mode of these two words, one of the four that there are.
pub main-handle_command :
    (now : ℕ) (program protocol suspicion addr line : Text) (m : Machine) (node : Node)
    → main now (program ∷ text "switch" ∷ protocol ∷ suspicion ∷ []) ≡ ok (send_to addr line)
    → (p : Protocol) × (s : Suspicion) × IsProtocol p
      × IsSuspicion s
      × (protocol_text p ≡ protocol)
      × (suspicion_text s ≡ suspicion)
      × InMode p s (handle_command m line node).node
main-handle_command now program protocol suspicion addr line m node h =
    let (p, s, hp, hs, ep, es, e) =
      checked_switch-line protocol suspicion addr line
        (sym (main-checked now program protocol suspicion) ∙ h) in
    (p, s, hp, hs, ep, es, rw e (handle_line-InMode m p s node hp hs))
