-- ===== src/Tftp/Tests.antt =====
-- The theorems at concrete inputs, and runs of the handlers.
use ecen_602_projects.Common.{
  ℕ, ◌+◌, ◌≡◌, ◌≢◌, refl, some, none, true, false, List, [], ◌∷◌, ◌++◌, arith, length, drop,
  replicate, map,
}
use mathlib.Core.List.{flatten}
use ecen_602_projects.Memory.{ok}
use ecen_602_projects.Tftp.Opcode
use ecen_602_projects.Tftp.Opcode.{file_not_found, file_exists}
use ecen_602_projects.Tftp.Packet.{parse_trail_buf}
use ecen_602_projects.Tftp.Packet.Layout.{packet}
use ecen_602_projects.Tftp.Packet.Request.{request, parse_trail_buf_lem}
use ecen_602_projects.Tftp.File.{
  netascii, octet, read_netascii, write_netascii, write_data_to_file, cr, lf,
}
use ecen_602_projects.Tftp.File.Read.{encode, encode_byte, stream, Cut, read_netascii-Cut}
use ecen_602_projects.Tftp.File.Write.{write_data_to_file-encode, write_netascii-split}
use ecen_602_projects.Tftp.Request.{Host}
use ecen_602_projects.Tftp.Session.{Event, timeout, arrival, returned, waiting, tftp_ok}
use ecen_602_projects.Tftp.Rrq.{rrq_start, rrq_loop}
use ecen_602_projects.Tftp.Rrq.Content.{Content, in_octet}
use ecen_602_projects.Tftp.Rrq.Rounds.{ack_datagram, IsReady as ReadReady}
use ecen_602_projects.Tftp.Rrq.Retries.{timeouts, rrq_loop-gives_up}
use ecen_602_projects.Tftp.Rrq.Transfer.{blocks, acks, rrq_loop-acks, flatten-blocks}
use ecen_602_projects.Tftp.Wrq.{Wrq, wrq_start, wrq_loop}
use ecen_602_projects.Tftp.Wrq.Rounds.{data_datagram, IsReady as WriteReady}
use ecen_602_projects.Tftp.Wrq.Transfer.{ack_datagrams, wrq_loop-blocks, octet-Stores}
use ecen_602_projects.Tftp.Wrq.Faults.{wrq_loop-old}
use ecen_602_projects.Tftp.Server.Copy.{Copies, reading, writing, copy_octet, copy_netascii}

-- A file of two blocks, and one of a line.
abbrev long_file : List ℕ
long_file = replicate 700 b'x'

abbrev line : List ℕ
line = b'a' ∷ lf ∷ b'b' ∷ cr ∷ []

abbrev name : List ℕ
name = b'f' ∷ []

abbrev octet_mode : List ℕ
octet_mode = octet ++ 0 ∷ 0 ∷ 0 ∷ []

abbrev octet_request : List ℕ
octet_request = request 0 1 name octet_mode []

abbrev netascii_request : List ℕ
netascii_request = request 0 1 name netascii []

-- A host with one file, and one with none.
abbrev holding : List ℕ → Host
holding file = record {
  init_ok = true;
  exists_file = λ _. true;
  open_read = λ _. some file;
  open_append = λ _. true;
  behind_mode = 0 ∷ [];
}

abbrev empty : Host
empty = record {
  init_ok = true;
  exists_file = λ _. false;
  open_read = λ _. none;
  open_append = λ _. true;
  behind_mode = 0 ∷ [];
}

abbrev stored_name : List ℕ
stored_name = name ++ drop 1 (replicate 255 0)

octet_parsed : parse_trail_buf octet_request ≡ ok (stored_name, octet_mode)
octet_parsed = parse_trail_buf_lem 0 1 name octet_mode [] (omega arith) refl (omega arith)

netascii_parsed : parse_trail_buf netascii_request ≡ ok (stored_name, netascii)
netascii_parsed = parse_trail_buf_lem 0 1 name netascii [] (omega arith) refl (omega arith)

copy_octet_example :
    Copies
      (reading (holding long_file) octet_request 1)
      (writing empty octet_request (reading (holding long_file) octet_request 1))
      1
      long_file
copy_octet_example =
    copy_octet (0 ∷ 0 ∷ 0 ∷ []) (0 ∷ 0 ∷ 0 ∷ [])
      (record { parsed = octet_parsed; init = refl; there = refl; opens = refl })
      (record { parsed = octet_parsed; init = refl; absent = refl; opens = refl }) refl refl
      (omega arith)

copy_netascii_example :
    Copies
      (reading (holding line) netascii_request 0)
      (writing empty netascii_request (reading (holding line) netascii_request 0))
      0
      line
unfolding encode encode_byte
copy_netascii_example =
    copy_netascii [] []
      (record { parsed = netascii_parsed; init = refl; there = refl; opens = refl })
      (record { parsed = netascii_parsed; init = refl; absent = refl; opens = refl }) refl refl
      (omega arith) (omega arith)

rrq_start-IsReady : (file : List ℕ) → ReadReady (rrq_start file)
rrq_start-IsReady file = record { send_size = refl; recv_size = refl; block = omega arith }

in_octet_mode : (file : List ℕ) → Content octet_mode (record { file = file; nextchar = none }) file
in_octet_mode file = in_octet (0 ∷ 0 ∷ []) refl refl

rrq_loop-acks_example :
    rrq_loop octet_mode (rrq_start long_file) (acks 1 1)
    ≡ record { sent = blocks 1 1 long_file; ending = returned tftp_ok }
rrq_loop-acks_example =
    rrq_loop-acks octet_mode 1 (rrq_start long_file) long_file (rrq_start-IsReady long_file)
      (in_octet_mode long_file) refl

flatten-blocks_example : flatten (map (drop 4) (blocks 1 1 long_file)) ≡ long_file
flatten-blocks_example = flatten-blocks 1 1 long_file refl

-- An acknowledgement between two timeouts.
abbrev slow : ℕ → List Event
slow n = timeout ∷ arrival (ack_datagram n) ∷ []

abbrev slow_client : List Event
slow_client =
    slow 1
    ++ (slow 2
        ++ (slow 3
            ++ (slow 4 ++ (slow 5 ++ (slow 6 ++ (slow 7 ++ (slow 8 ++ (slow 9 ++ slow 10))))))))

rrq_loop-gives_up_example :
    (rrq_loop octet_mode (rrq_start (replicate 12000 1)) slow_client).ending ≢ waiting
unfolding timeouts
rrq_loop-gives_up_example =
    rrq_loop-gives_up octet_mode slow_client (rrq_start (replicate 12000 1)) (omega arith)
      (omega arith)

abbrev wrq_at : ℕ → Wrq
wrq_at n = record wrq_start { block_num = n; last_block_ack = n }

wrq_start-IsReady : WriteReady wrq_start
wrq_start-IsReady = record { send_size = refl; recv_size = refl; block = omega arith }

wrq_loop-blocks_example :
    wrq_loop octet_mode wrq_start (map arrival (blocks 1 1 long_file))
    ≡ record { sent = ack_datagrams 1 0; ending = returned tftp_ok; file = long_file }
wrq_loop-blocks_example =
    wrq_loop-blocks octet_mode 1 wrq_start long_file long_file wrq_start-IsReady refl refl
      (omega arith) (octet-Stores (0 ∷ 0 ∷ []) 1 long_file)

-- Block 65536 goes out under the number 0: it is acknowledged, and lost.
wrq_loop-old_example :
    wrq_loop octet_mode (wrq_at 65535) (arrival (data_datagram 0 (replicate 512 7)) ∷ []) ≡ record {
      sent = packet Opcode.ack 65535 [] ∷ packet Opcode.ack 0 [] ∷ [];
      ending = waiting;
      file = [];
    }
wrq_loop-old_example =
    wrq_loop-old octet_mode (wrq_at 65535) 0 (replicate 512 7)
      (record { send_size = refl; recv_size = refl; block = omega arith }) refl (omega arith) refl

read_netascii-Cut_example :
    Cut 3 (stream (record { file = line; nextchar = none })) (read_netascii 3 none line)
read_netascii-Cut_example = read_netascii-Cut 3 none line (omega arith)

write_data_to_file-encode_example :
    write_data_to_file (netascii ++ 0 ∷ []) (encode line ++ 7 ∷ []) (length (encode line)) none
    ≡ ok line
write_data_to_file-encode_example = write_data_to_file-encode line (7 ∷ []) [] (omega arith)

write_netascii-split_example :
    write_netascii (length (encode line) + 1) none (encode line ++ cr ∷ 7 ∷ [])
    ≡ ok (line ++ cr ∷ [])
write_netascii-split_example =
    write_netascii-split line [] 7 (omega arith) (omega arith) (omega arith)
