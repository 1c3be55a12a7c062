-- ===== src/Tftp/Server/Dispatch.antt =====
-- Which handler a request reaches.
use ecen_602_projects.Common.{
  ℕ, ◌≤◌, ◌<◌, ◌≡◌, refl, List, [], ◌++◌, arith, length, take, drop, take_all, length-take, ◌^◌,
  ◌==◌, if◌then◌else◌,
}
use ecen_602_projects.Memory.{
  ok, fault, memcpy-front, memcpy-fault, big_endian, load_u16-big_endian, bswap_16-big_endian,
}
use ecen_602_projects.Tftp.Opcode
use ecen_602_projects.Tftp.Opcode.{data_packet_len}
use ecen_602_projects.Tftp.Packet.{parse_header}
use ecen_602_projects.Tftp.Request.{Host}
use ecen_602_projects.Tftp.Session.{Event, tftp_recvfrom}
use ecen_602_projects.Tftp.Rrq.{rrq_handler}
use ecen_602_projects.Tftp.Wrq.{wrq_handler}
use ecen_602_projects.Tftp.Server.Defs.{read, wrote, nothing, child, serve}

-- `recvfrom` may return 516 bytes, and the array has 512: a longer request is written past its end.
pub serve-long :
    (host : Host) (buf datagram : List ℕ) (events : List Event)
    → length buf ≡ 512
    → 512 < length datagram
    → serve host buf datagram events ≡ fault
unfolding serve tftp_recvfrom
serve-long host buf datagram events size long =
    rw (memcpy-fault buf (take 516 datagram) 0 (omega (arith, length-take 516 datagram)))

-- A request that fits reaches the handler of its opcode, with the bytes of the last request behind
-- it; a request with another opcode is dropped.
pub serve_lem :
    (host : Host) (buf rest : List ℕ) (opcode : ℕ) (events : List Event)
    → length buf ≡ 512
    → length rest ≤ 510
    → opcode < 2 ^ 16
    → let got = big_endian opcode ++ (rest ++ drop (length (big_endian opcode ++ rest)) buf) in
      serve host buf (big_endian opcode ++ rest) events
      ≡ ok (
          if opcode == Opcode.rrq
          then read (rrq_handler host got events)
          else if opcode == Opcode.wrq
          then wrote (wrq_handler host got events)
          else nothing)
unfolding serve child tftp_recvfrom parse_header
serve_lem host buf rest opcode events size fit small = rw (
  take_all 514 rest (omega arith),
  memcpy-front buf (big_endian opcode ++ rest) (omega arith),
  load_u16-big_endian opcode 0 [] (rest ++ drop (length (big_endian opcode ++ rest)) buf) refl,
  bswap_16-big_endian opcode small,
)
