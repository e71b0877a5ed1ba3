-- ===== src/Detector/Refutation.antt =====
-- A suspected node that is pinged answers with a new incarnation, which the suspecting node takes in.
use event_stream_rainstorm.Prelude.{
  ℕ, ◌<◌, ◌≡◌, ◌≢◌, refl, sym, ap, subst, ◌∙◌, true, false, some, some-injective, List, [], ◌∷◌,
  ◌++◌, ◌==◌, if◌then◌else◌, inl, inr, Bool-cases, arith,
}
use event_stream_rainstorm.Prelude.Dict.{Dict, get, get-adjust}
use event_stream_rainstorm.Prelude.Text.{Text, text_eq}
use event_stream_rainstorm.Member.{Member, is_alive, is_suspected, is_failed, ping, ack}
use event_stream_rainstorm.Membership.{
  MemberList, values, get_member_list, update_memberlist, update_sender_time,
}
use event_stream_rainstorm.Membership.Merge.{Advances, named}
use event_stream_rainstorm.Membership.Reports.{
  update_memberlist-takes_in, update_memberlist_self, update_memberlist-refutes,
}
use event_stream_rainstorm.Membership.Invariant.{
  update, hears, step, run, IsWellFormed, run-IsWellFormed,
}
use event_stream_rainstorm.Detector.{Node, message_of, handle_message}

first_found :
    (k : Text) (m : Member) (j : Text) (n : Member) (d : Dict Text Member)
    → (j == k) ≡ true
    → get k ((j, n) ∷ d) ≡ some m
    → n ≡ m
unfolding get
first_found k m j n d h e = some-injective _ _ (sym (ap (λ b. if b then some n else get k d) h) ∙ e)

rest_found :
    (k : Text) (m : Member) (j : Text) (n : Member) (d : Dict Text Member)
    → (j == k) ≡ false
    → get k ((j, n) ∷ d) ≡ some m
    → get k d ≡ some m
unfolding get
rest_found k m j n d h e = sym (ap (λ b. if b then some n else get k d) h) ∙ e

-- An entry of the list stands in a message of the whole list.
get-values :
    (k : Text) (m : Member) (d : Dict Text Member)
    → get k d ≡ some m
    → (before after : List Member) × (values d ≡ before ++ m ∷ after)
unfolding get values
get-values k m [] e = ground arith
get-values k m ((j, n) ∷ d) e = elim (Bool-cases (j == k)) [
  | inl h ↦ ([], values d, ap (λ x. x ∷ values d) (first_found k m j n d h e))
  | inr h ↦
      let (before, after, f) = get-values k m d (rest_found k m j n d h e) in
      (n ∷ before, after, ap (λ l. n ∷ l) f)
]

heard :
    (ml : MemberList) (send_id k : Text) (now : ℕ) (m : Member)
    → get k ml.memberlist ≡ some m
    → (send_id == k) ≡ true
    → get k (update_sender_time ml send_id now).memberlist
      ≡ some (record m { last_update_time = now })
unfolding update_sender_time
heard ml send_id k now m e h =
    ground (arith, get-adjust send_id k (λ m. record m { last_update_time = now }) ml.memberlist)

not_heard :
    (ml : MemberList) (send_id k : Text) (now : ℕ) (m : Member)
    → get k ml.memberlist ≡ some m
    → (send_id == k) ≡ false
    → get k (update_sender_time ml send_id now).memberlist ≡ some m
unfolding update_sender_time
not_heard ml send_id k now m e h =
    ground (arith, get-adjust send_id k (λ m. record m { last_update_time = now }) ml.memberlist)

-- The receiver's entry after `updateSenderTime`: only its time may have changed.
get-update_sender_time :
    (ml : MemberList) (send_id k : Text) (now : ℕ) (m : Member)
    → get k ml.memberlist ≡ some m
    → (m' : Member) × (get k (update_sender_time ml send_id now).memberlist ≡ some m')
      × (m'.id ≡ m.id)
      × (m'.state ≡ m.state)
      × (m'.incarnation ≡ m.incarnation)
unfolding update_sender_time
get-update_sender_time ml send_id k now m e = elim (Bool-cases (send_id == k)) [
  | inl h ↦ (record m { last_update_time = now }, heard ml send_id k now m e h, refl, refl, refl)
  | inr h ↦ (m, not_heard ml send_id k now m e h, refl, refl, refl)
]

-- The pinged node: its answer holds its own entry, alive and of a higher incarnation.
pinged :
    (a b : Node) (now : ℕ) (addr : Text) (suspicion self : Member)
    → IsWellFormed b.memberlist
    → get b.id a.memberlist.memberlist ≡ some suspicion
    → suspicion.id ≡ b.id
    → is_suspected suspicion.state ≡ true
    → get b.id b.memberlist.memberlist ≡ some self
    → is_alive self.state ≡ true
    → suspicion.incarnation ≡ self.incarnation
    → (m : Member) × (get b.id
          (handle_message now (message_of ping a) addr b).1.memberlist.memberlist
        ≡ some m)
      × (m.id ≡ b.id)
      × (is_alive m.state ≡ true)
      × (suspicion.incarnation < m.incarnation)
unfolding handle_message get_member_list run step
pinged a b now addr suspicion self w e i s f l c =
    let b1 = update_sender_time b.memberlist a.id now in
    let list = values a.memberlist.memberlist in
    let (x, gx, ix, sx, nx) = get-update_sender_time b.memberlist a.id b.id now self f in
    let (before, after, v) = get-values b.id suspicion a.memberlist.memberlist e in
    let (m1, g1, lt) =
      update_memberlist-refutes b1 before after suspicion b.id now x gx i s (ap is_alive sx ∙ l)
        (omega (arith, nx, c)) in
    let (m2, g2, st, hb, le) = update_memberlist_self b1 list b.id now x gx in
    let same : m1 ≡ m2 =
      some-injective _ _
        (sym g1 ∙ ap (λ r. get b.id (update_memberlist b1 r b.id now).memberlist) (sym v) ∙ g2) in
    let k =
      (run-IsWellFormed b.id b.memberlist (hears a.id now ∷ update list now ∷ []) w).keyed b.id m2
        g2 in
    let lt' : x.incarnation < m2.incarnation = subst (λ m. x.incarnation < m.incarnation) same lt in
    (m2, g2, k, ap is_alive (st ∙ sx) ∙ l, omega (arith, lt', nx, c))

advanced : (i : ℕ) (m n : Member) → i < m.incarnation → Advances m n → i < n.incarnation
advanced i m n lt ad = ground arith

alive_named :
    (m : Member) → is_alive m.state ≡ true → (named m.state ≡ true) × (is_failed m.state ≡ false)
alive_named m h = ground arith

-- When a node is pinged by one that suspects it at its present incarnation, its answer, once it is
-- taken in, leaves it with a higher incarnation in the list of the node that suspected it.
pub handle_message-refutes :
    (a b : Node) (now now' : ℕ) (addr addr' : Text) (suspicion self self_a : Member)
    → IsWellFormed b.memberlist
    → get a.id a.memberlist.memberlist ≡ some self_a
    → b.id ≢ a.id
    → get b.id a.memberlist.memberlist ≡ some suspicion
    → suspicion.id ≡ b.id
    → is_suspected suspicion.state ≡ true
    → get b.id b.memberlist.memberlist ≡ some self
    → is_alive self.state ≡ true
    → suspicion.incarnation ≡ self.incarnation
    → let b' = (handle_message now (message_of ping a) addr b).1 in
      let a' = (handle_message now' (message_of ack b') addr' a).1 in
      (m : Member) × (get b.id a'.memberlist.memberlist ≡ some m)
      × (suspicion.incarnation < m.incarnation)
unfolding handle_message get_member_list
handle_message-refutes a b now now' addr addr' suspicion self self_a w g ne e i s f l c =
    let b' = (handle_message now (message_of ping a) addr b).1 in
    let a1 = update_sender_time a.memberlist b.id now' in
    let (m, gm, im, al, lt) = pinged a b now addr suspicion self w e i s f l c in
    let (before, after, v) = get-values b.id m b'.memberlist.memberlist gm in
    let (y, gy, iy, sy, ny) = get-update_sender_time a.memberlist b.id a.id now' self_a g in
    let (nm, nf) = alive_named m al in
    let (m3, g3, ad) =
      update_memberlist-takes_in a1 before after m a.id now' y gy (λ q. ne (sym im ∙ q)) nm nf in
    (
      m3,
      ap (λ r. get b.id (update_memberlist a1 r a.id now').memberlist) v
          ∙ ap (λ k. get k (update_memberlist a1 (before ++ m ∷ after) a.id now').memberlist)
              (sym im)
          ∙ g3,
      advanced suspicion.incarnation m m3 lt ad,
    )
