-- ===== src/Member.antt =====
-- member/member.go, message/message.go, and the state and message names of constants/constants.go.
-- `State` is a string in the source. The program compares it with four names; a member list that
-- comes in as JSON may hold any other text, which is `other`.
use event_stream_rainstorm.Prelude.{ℕ, List, Bool, true, false}
use event_stream_rainstorm.Prelude.Text.{Text}

pub data State : Type 0 where
  alive suspected failed leave : State
  other : Text → State

abbrev pub is_alive : State → Bool
is_alive alive = true
is_alive _ = false

abbrev pub is_suspected : State → Bool
is_suspected suspected = true
is_suspected _ = false

abbrev pub is_failed : State → Bool
is_failed failed = true
is_failed _ = false

abbrev pub is_leave : State → Bool
is_leave leave = true
is_leave _ = false

-- Counters and incarnations start at 0 and only grow; times are nanoseconds.
pub record Member : Type 0 where
  pub id : Text
  pub address : Text
  pub heart_beat_counter : ℕ
  pub incarnation : ℕ
  pub state : State
  pub last_update_time : ℕ

pub data MessageType : Type 0 where
  ping ack gossip join : MessageType
  other_type : Text → MessageType

pub record Message : Type 0 where
  pub type : MessageType
  pub memberlist : List Member
  pub send_id : Text
