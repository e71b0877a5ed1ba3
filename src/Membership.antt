-- ===== src/Membership.antt =====
-- node/membership_crud.go: the member list of a node. Time is an argument of each call: the clock
-- is read once. The mutex makes each call one step. `rand.Shuffle` is an argument too.
pub mod Merge
pub mod Reports
pub mod Timeout
pub mod Detection
pub mod RoundRobin
pub mod Invariant
use event_stream_rainstorm.Prelude.{
  ℕ, zero, suc, ◌+◌, ◌-◌, Bool, true, false, not, ◌&&◌, Option, none, some, List, [], ◌∷◌, ◌++◌,
  map, length, get_elem?, take, select, ltb, leb, nat_eq, ◌==◌, if◌then◌else◌,
}
use event_stream_rainstorm.Prelude.Dict.{Dict, get, put, remove, adjust, map_values}
use event_stream_rainstorm.Prelude.Text.{Text, text_eq}
use event_stream_rainstorm.Constants.{
  t_fail, t_suspect, t_cleanup, t_suspect_ping_ack, t_fail_gossip_nosuspect, t_cleanup_ping_suspect,
}
use event_stream_rainstorm.Member.{
  Member, State, alive, suspected, failed, leave, other, is_alive, is_suspected, is_failed,
  is_leave,
}

pub data Protocol : Type 0 where
  gossip ping_ack : Protocol
  other_protocol : Text → Protocol

pub data Suspicion : Type 0 where
  suspect nosuspect : Suspicion
  other_suspicion : Text → Suspicion

abbrev pub is_gossip : Protocol → Bool
is_gossip gossip = true
is_gossip _ = false

abbrev pub is_ping_ack : Protocol → Bool
is_ping_ack ping_ack = true
is_ping_ack _ = false

abbrev pub is_suspect : Suspicion → Bool
is_suspect suspect = true
is_suspect _ = false

abbrev pub is_nosuspect : Suspicion → Bool
is_nosuspect nosuspect = true
is_nosuspect _ = false

-- The round-robin list holds pointers to members. Only the id and the address are read through
-- them, and neither is ever written.
pub record Target : Type 0 where
  pub id : Text
  pub address : Text

pub record MemberList : Type 0 where
  pub memberlist : Dict Text Member
  pub round_robin_index : ℕ
  pub round_robin_list : List Target
  pub delete_number : ℕ

abbrev pub new_member_list : MemberList
new_member_list = record {
  memberlist = [];
  round_robin_index = 0;
  round_robin_list = [];
  delete_number = 0;
}

abbrev pub Shuffle : Type 0
Shuffle = List Target → List Target

unfoldable pub get_self_by_id : MemberList → Text → Option Member
get_self_by_id ml node_id = get node_id ml.memberlist

unfoldable pub values : Dict Text Member → List Member
values [] = []
values ((k, m) ∷ d) = m ∷ values d

unfoldable pub get_member_list : MemberList → List Member
unfolding values
get_member_list ml = values ml.memberlist

abbrev target : Member → Target
target m = record { id = m.id; address = m.address }

-- Everybody but the node itself and those that failed.
unfoldable pub candidates : Text → Dict Text Member → List Target
unfolding values
candidates node_id d =
    map target (select (λ m. not (m.id == node_id) && not (is_failed m.state)) (values d))

unfoldable pub select_k_member : Shuffle → MemberList → ℕ → Text → List Target
unfolding candidates
select_k_member shuffle ml num node_id =
    let filtered = shuffle (candidates node_id ml.memberlist) in
    if ltb (length (candidates node_id ml.memberlist)) num then filtered else take num filtered

-- A record about the node itself: a suspicion is refuted by a new incarnation.
unfoldable pub refute : Member → ℕ → Member → Member
refute next now self =
    if is_suspected next.state && is_alive self.state
    then if leb self.incarnation next.incarnation
      then record self { incarnation = self.incarnation + 1; last_update_time = now }
      else self
    else self

-- A record about another node that is in the list already.
unfoldable pub absorb : Member → ℕ → Member → Member
absorb next now current =
    if ltb current.incarnation next.incarnation
    then record current {
      incarnation = next.incarnation;
      state = next.state;
      heart_beat_counter = next.heart_beat_counter;
      last_update_time = now;
    }
    else if is_failed current.state
    then current
    else if is_failed next.state
    then record current { state = failed; last_update_time = now }
    else if is_leave next.state
    then record current { state = failed; last_update_time = now }
    else if next.incarnation == current.incarnation
    then if is_alive current.state
      then if is_alive next.state && ltb current.heart_beat_counter next.heart_beat_counter
        then record current { heart_beat_counter = next.heart_beat_counter; last_update_time = now }
        else if is_suspected next.state
        then record current { state = suspected; last_update_time = now }
        else current
      else current
    else current

unfoldable pub merge_other : Member → ℕ → Dict Text Member → Dict Text Member
merge_other next now d = elim (get next.id d) [
  | some current ↦ put next.id (absorb next now current) d
  | none ↦
      if is_failed next.state then d else put next.id (record next { last_update_time = now }) d
]

-- The loop; it ends early if the node is not in its own list.
unfoldable pub merge_all : List Member → Text → ℕ → Dict Text Member → Dict Text Member
merge_all [] node_id now d = d
merge_all (next ∷ rest) node_id now d =
    if next.id == node_id
    then elim (get node_id d) [
      | none ↦ d
      | some self ↦ merge_all rest node_id now (put node_id (refute next now self) d)
    ]
    else merge_all rest node_id now (merge_other next now d)

unfoldable pub update_memberlist : MemberList → List Member → Text → ℕ → MemberList
update_memberlist ml sender node_id now = record ml {
  memberlist = merge_all sender node_id now ml.memberlist;
}

abbrev pub same_state : State → State → Bool
same_state alive alive = true
same_state suspected suspected = true
same_state failed failed = true
same_state leave leave = true
same_state (other s) (other t) = s == t
same_state _ _ = false

-- The result is the changed member, to be gossiped.
unfoldable pub change_state : MemberList → Text → State → State → ℕ → List Member × MemberList
change_state ml target_id prev new now = elim (get target_id ml.memberlist) [
  | none ↦ ([], ml)
  | some m ↦
      let m' = record m { state = new; last_update_time = now } in
      if same_state m.state prev
      then (m' ∷ [], record ml { memberlist = put target_id m' ml.memberlist })
      else ([], ml)
]

-- `time.Since(t) > limit`
abbrev pub expired : ℕ → Member → ℕ → Bool
expired now m limit = ltb limit (now - m.last_update_time)

-- The first branch of a round: is the member to be deleted?
unfoldable pub to_delete : Protocol → Suspicion → ℕ → Member → Bool
to_delete protocol suspicion now m =
    is_failed m.state
    && (if is_ping_ack protocol && is_suspect suspicion
        then expired now m t_cleanup_ping_suspect
        else expired now m t_cleanup)

-- The second branch, with what it appends to `failedMemberList`.
unfoldable pub age_alive : Protocol → Suspicion → ℕ → Member → List Member × Member
age_alive protocol suspicion now m =
    let m_suspected = record m { state = suspected; last_update_time = now } in
    let m_failed = record m { state = failed; last_update_time = now } in
    if is_alive m.state && is_gossip protocol
    then if is_suspect suspicion && expired now m t_fail
      then ([], m_suspected)
      else if is_nosuspect suspicion && expired now m t_fail_gossip_nosuspect
      then (m_failed ∷ [], m_failed)
      else ([], m)
    else ([], m)

-- The third branch, on the member as the second has left it.
unfoldable pub age_suspected : Protocol → Suspicion → ℕ → Member → List Member × Member
age_suspected protocol suspicion now m =
    let m_failed = record m { state = failed; last_update_time = now } in
    if is_suspected m.state && is_suspect suspicion
    then if is_gossip protocol && expired now m t_suspect
      then (m_failed ∷ [], m_failed)
      else if is_ping_ack protocol && expired now m t_suspect_ping_ack
      then (m_failed ∷ [], m_failed)
      else ([], m)
    else ([], m)

unfoldable pub age : Protocol → Suspicion → ℕ → Member → List Member × Member
unfolding age_alive age_suspected
age protocol suspicion now m =
    let (first, m') = age_alive protocol suspicion now m in
    let (second, m'') = age_suspected protocol suspicion now m' in (first ++ second, m'')

unfoldable pub failed_members : Protocol → Suspicion → ℕ → Dict Text Member → List Member
failed_members protocol suspicion now [] = []
failed_members protocol suspicion now ((k, m) ∷ d) =
    (age protocol suspicion now m).0 ++ failed_members protocol suspicion now d

unfoldable pub delete_ids : Protocol → Suspicion → ℕ → Dict Text Member → List Text
delete_ids protocol suspicion now [] = []
delete_ids protocol suspicion now ((k, m) ∷ d) =
    if to_delete protocol suspicion now m
    then m.id ∷ delete_ids protocol suspicion now d
    else delete_ids protocol suspicion now d

unfoldable pub remove_all : List Text → Dict Text Member → Dict Text Member
remove_all [] d = d
remove_all (k ∷ ks) d = remove_all ks (remove k d)

unfoldable pub time_out_check : MemberList → Protocol → Suspicion → ℕ → List Member × MemberList
time_out_check ml protocol suspicion now =
    let doomed = delete_ids protocol suspicion now ml.memberlist in
    (
      failed_members protocol suspicion now ml.memberlist,
      record ml {
        memberlist =
            remove_all doomed (map_values (λ k m. (age protocol suspicion now m).1) ml.memberlist);
        delete_number = ml.delete_number + length doomed;
      },
    )

unfoldable pub add_heart_beat : MemberList → Text → ℕ → MemberList
add_heart_beat ml node_id now = record ml {
  memberlist =
      adjust node_id
        (λ m. record m { heart_beat_counter = m.heart_beat_counter + 1; last_update_time = now })
        ml.memberlist;
}

unfoldable pub update_sender_time : MemberList → Text → ℕ → MemberList
update_sender_time ml send_id now = record ml {
  memberlist = adjust send_id (λ m. record m { last_update_time = now }) ml.memberlist;
}

unfoldable pub permutation : Shuffle → MemberList → Text → MemberList
permutation shuffle ml node_id = record ml {
  round_robin_list = shuffle (candidates node_id ml.memberlist);
  round_robin_index = 0;
}

-- A list that has been used up is made anew.
unfoldable pub ready : Shuffle → MemberList → Text → MemberList
unfolding permutation
ready shuffle ml node_id =
    if leb (length ml.round_robin_list) ml.round_robin_index
    then permutation shuffle ml node_id
    else ml

-- The loop of `roundRobinK`, with `k` rounds left; `lenroundRobinList` is ever the length of the
-- list. `none` is the `break` on an empty new list; with an index in range it is nothing else.
unfoldable pub pick : (ℕ → Shuffle) → ℕ → MemberList → Text → List Target × MemberList
pick shuffle zero ml node_id = ([], ml)
pick shuffle (suc k) ml node_id =
    let ml' = ready (shuffle k) ml node_id in
    elim (get_elem? ml'.round_robin_list ml'.round_robin_index) [
      | none ↦ ([], ml')
      | some t ↦
          let (ts, out) =
            pick shuffle k (record ml' { round_robin_index = ml'.round_robin_index + 1 }) node_id in
          (t ∷ ts, out)
    ]

unfoldable pub round_robin_k : (ℕ → Shuffle) → MemberList → ℕ → Text → List Target × MemberList
round_robin_k shuffle ml num node_id =
    let ml' = ready (shuffle num) ml node_id in
    let len = length ml'.round_robin_list in
    if len == 0
    then ([], ml')
    else if leb len num
    then (ml'.round_robin_list, record ml' { round_robin_index = len })
    else pick shuffle num ml' node_id

unfoldable pub reset_other_time : MemberList → Text → ℕ → MemberList
reset_other_time ml node_id now = record ml {
  memberlist =
      map_values (λ k m. if k == node_id then m else record m { last_update_time = now })
        ml.memberlist;
}

unfoldable pub turn_leave : MemberList → Text → ℕ → MemberList
turn_leave ml node_id now = record ml {
  memberlist =
      adjust node_id (λ m. record m { state = leave; last_update_time = now }) ml.memberlist;
}
