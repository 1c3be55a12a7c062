-- ===== src/Tftp/Opcode.antt =====
-- The packet types `opcode_t`, the codes `error_code_t` (Assignment_3/lib.h) and the sizes of
-- Assignment_3/config.h. An opcode off the wire may be any 16-bit number.
use ecen_602_projects.Common.{ℕ}

abbrev pub rrq : ℕ
rrq = 1

abbrev pub wrq : ℕ
wrq = 2

abbrev pub data' : ℕ
data' = 3

abbrev pub ack : ℕ
ack = 4

abbrev pub error : ℕ
error = 5

pub data ErrorCode : Type 0 where
  undefined file_not_found access_violation disk_full illegal_op unknown_tid : ErrorCode
  file_exists no_such_user : ErrorCode

abbrev pub code_of : ErrorCode → ℕ
code_of ErrorCode.undefined = 0
code_of ErrorCode.file_not_found = 1
code_of ErrorCode.access_violation = 2
code_of ErrorCode.disk_full = 3
code_of ErrorCode.illegal_op = 4
code_of ErrorCode.unknown_tid = 5
code_of ErrorCode.file_exists = 6
code_of ErrorCode.no_such_user = 7

abbrev pub max_buf_len : ℕ
max_buf_len = 512

abbrev pub max_file_name : ℕ
max_file_name = 255

abbrev pub data_packet_len : ℕ
data_packet_len = 516

abbrev pub max_retry : ℕ
max_retry = 10
