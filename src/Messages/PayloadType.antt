-- ===== src/Messages/PayloadType.antt =====
-- `PayloadType` of messages/types.go, a uint32.
use ssmlib.Common.{ℕ}

abbrev pub undefined : ℕ
undefined = 0

abbrev pub output : ℕ
output = 1

abbrev pub error : ℕ
error = 2

abbrev pub size : ℕ
size = 3

abbrev pub parameter : ℕ
parameter = 4

abbrev pub handshake_request : ℕ
handshake_request = 5

abbrev pub handshake_response : ℕ
handshake_response = 6

abbrev pub handshake_complete : ℕ
handshake_complete = 7

abbrev pub enc_challenge_request : ℕ
enc_challenge_request = 8

abbrev pub enc_challenge_response : ℕ
enc_challenge_response = 9

abbrev pub flag : ℕ
flag = 10
