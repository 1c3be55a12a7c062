-- ===== src/Tftp/Session.antt =====
-- What a transfer session exchanges with the network, and its outcome. A session is run on the
-- list of what its calls of `select` and `recvfrom` meet, one entry for each round of the loop.
-- `tftp_recvfrom` is Assignment_3/lib.c lines 353-367.
use ecen_602_projects.Common.{ℕ, List, length, take}
use ecen_602_projects.Memory.{Outcome, ok, ◌>>=◌, memcpy}
use ecen_602_projects.Tftp.Opcode.{data_packet_len}

pub data TftpErr : Type 0 where
  tftp_ok tftp_fail : TftpErr

-- `select` runs into its timeout, or a datagram arrives, or `recvfrom` fails.
pub data Event : Type 0 where
  timeout : Event
  arrival : List ℕ → Event
  broken : Event

-- How a run on a list of events ends: the handler returned, it left an array, or it waits.
pub data Ending : Type 0 where
  returned : TftpErr → Ending
  crashed : Ending
  waiting : Ending

-- The state for the next round, or the end of the handler.
pub data Turn (S : Type 0) : Type 0 where
  next : S → Turn S
  stop : Ending → Turn S

abbrev pub turn_of : {S : Type 0} → Outcome (Turn S) → Turn S
turn_of (ok t) = t
turn_of Outcome.fail = stop (returned tftp_fail)
turn_of Outcome.fault = stop crashed

-- The buffer and the number of bytes after the call; (size_t)-1 on an error, which the callers
-- do not look at.
unfoldable pub tftp_recvfrom : List ℕ → List ℕ → Outcome (List ℕ × ℕ)
tftp_recvfrom buf datagram = do
  let got = take data_packet_len datagram
  buf ← memcpy buf 0 got
  ok (buf, length got)
