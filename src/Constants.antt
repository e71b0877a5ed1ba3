-- ===== src/Constants.antt =====
-- constants/constants.go. Durations are in nanoseconds, as Go's `time.Duration`.
use event_stream_rainstorm.Prelude.{ℕ, ◌*◌}
use event_stream_rainstorm.Prelude.Text.{Text, text}

abbrev millisecond : ℕ
millisecond = 1_000_000

abbrev pub t_fail : ℕ
t_fail = 1500 * millisecond

abbrev pub t_suspect : ℕ
t_suspect = 1500 * millisecond

abbrev pub t_cleanup : ℕ
t_cleanup = 1000 * millisecond

abbrev pub t_suspect_ping_ack : ℕ
t_suspect_ping_ack = 500 * millisecond

abbrev pub t_fail_gossip_nosuspect : ℕ
t_fail_gossip_nosuspect = 3000 * millisecond

abbrev pub t_cleanup_ping_suspect : ℕ
t_cleanup_ping_suspect = 500 * millisecond

abbrev pub gossip_num : ℕ
gossip_num = 3

abbrev pub replica_num : ℕ
replica_num = 3

abbrev pub command_port : Text
command_port = text "9080"

abbrev pub rpc_port : Text
rpc_port = text "9082"
