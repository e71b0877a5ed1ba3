-- ===== src/LogQuery/Switching.antt =====
-- The modes that the log server of distributed_log_querier/server/server.go can set.
use event_stream_rainstorm.Prelude.{Option, none, some, nat_eq}
use event_stream_rainstorm.Prelude.Text.{Text, text_eq}
use event_stream_rainstorm.Detector.{Node}
use event_stream_rainstorm.Commands.Mode.{IsProtocol, IsSuspicion}

-- The node, if there is one, runs in one of the four modes.
abbrev pub HasMode : Option Node → Type 0
HasMode none = Unit
HasMode (some node) = IsProtocol node.protocol × IsSuspicion node.suspicion
