-- ===== src/Messages/AgentMessageFlag.antt =====
-- `AgentMessageFlag` of messages/types.go, a uint64; `plain` is its constant Data.
use ssmlib.Common.{ℕ}

abbrev pub plain : ℕ
plain = 0

abbrev pub syn : ℕ
syn = 1

abbrev pub fin : ℕ
fin = 2

abbrev pub ack : ℕ
ack = 3
