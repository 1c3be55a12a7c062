-- ===== src/Proxy/Transfer/Defs.antt =====
-- cache_recv and cache_send (Assignment_4/lib.c). The results of recv and send are arguments: `none`
-- is -1. A size_t wraps; buffers stay below 2 ^ 31, so that sizes are also numbers of an int.
use ecen_602_projects.Common.{
  ℕ, ◌+◌, ◌-◌, ◌%◌, ◌^◌, Bool, true, false, ◌&&◌, ◌||◌, List, [], ◌∷◌, ◌++◌, Option, none, some,
  ltb, leb, ◌==◌, if◌then◌else◌, length, take, replicate,
}
use ecen_602_projects.Memory.{fault, memcpy, slice, c_string, strcpy}
use ecen_602_projects.Proxy.Links.{Ptr}
use ecen_602_projects.Proxy.Http.{HttpInfo, Scratch, parse_response}
use ecen_602_projects.Proxy.Heap.{
  idle, FdType, dummy, listen, client, server, CacheNode, FdNode, sent, close, Cmd, pure, lift,
  ◌>>=◌, ◌>>◌, load_cache, load_fd, update_cache, update_fd, act,
}

abbrev pub max_data_size : ℕ
max_data_size = 1500

-- What the proxy finds in memory that it has not written: the arrays of the parsers, the bytes that
-- realloc adds, and those behind an array on the stack and on the heap.
pub record Env : Type 0 where
  pub junk : ℕ → Scratch
  pub grown : List ℕ
  pub behind_stack : List ℕ
  pub behind_heap : List ℕ

abbrev pub is_server : FdType → Bool
is_server server = true
is_server dummy = false
is_server listen = false
is_server client = false

abbrev pub is_client : FdType → Bool
is_client client = true
is_client dummy = false
is_client listen = false
is_client server = false

abbrev pub bytes_of : Option (List ℕ) → List ℕ
bytes_of none = []
bytes_of (some bytes) = bytes

-- The buffer with room for the bytes, and its size.
unfoldable pub make_room : Env → CacheNode → ℕ → ℕ → CacheNode
make_room env c offset numbytes =
    if leb ((c.buffer_size + 2 ^ 64 - offset) % 2 ^ 64) numbytes
    then record c {
      buffer = some (bytes_of c.buffer ++ env.grown);
      buffer_size = c.buffer_size + max_data_size;
    }
    else c

unfoldable pub starts_with : List ℕ → List ℕ → Bool
starts_with [] s = true
starts_with (c ∷ needle) [] = false
starts_with (c ∷ needle) (d ∷ s) = (c == d) && starts_with needle s

-- strstr(s, needle) != NULL
unfoldable pub contains : List ℕ → List ℕ → Bool
contains needle [] = starts_with needle []
contains needle (d ∷ s) = starts_with needle (d ∷ s) || contains needle s

abbrev pub not_modified : List ℕ
not_modified = b'3' ∷ b'0' ∷ b'4' ∷ []

-- The end of a transfer.
unfoldable pub finish : Ptr → Cmd (Unit {0})
finish p = do
  f ← load_fd p
  act (close f.fd)
  update_fd p (λ f. record f { status = idle; offset = 0 })

-- The client is given the cached answer in place of the one that the server did not send.
unfoldable pub reuse : Ptr → Cmd (Unit {0})
reuse p = do
  f ← load_fd p
  c ← load_cache f.cache_node
  backup ← load_cache f.cache_node_backup
  date ← lift (strcpy backup.http_info.date c.http_info.date)
  update_cache f.cache_node_backup
      (λ b. record b { http_info = record (b.http_info) { date = date } })
  update_fd f.proxied (λ g. record g { cache_node = f.cache_node_backup })
  finish p

unfoldable pub check_modified : Ptr → HttpInfo → Cmd (Unit {0})
check_modified p http_info = do
  status ← lift (c_string http_info.status)
  (if contains not_modified status then reuse p else pure tt)

-- The header is parsed in what the first call of recv gave, behind which the array is zero.
unfoldable pub first_response : Env → Ptr → List ℕ → Cmd (Unit {0})
first_response env p bytes = do
  f ← load_fd p
  c ← load_cache f.cache_node
  http_info ← lift (
      parse_response env.junk
        ((bytes ++ replicate (max_data_size - length bytes) 0) ++ env.behind_stack) c.http_info)
  update_cache f.cache_node (λ c. record c { http_info = http_info })
  (if f.flag == 1 then check_modified p http_info else pure tt)
  update_cache f.cache_node
      (λ c. record c { http_info = record (c.http_info) { info_complete = true } })

unfoldable pub server_received : Env → Ptr → List ℕ → Cmd (Unit {0})
server_received env p bytes = do
  f ← load_fd p
  c ← load_cache f.cache_node
  (if c.http_info.info_complete then pure tt else first_response env p bytes)
  (if length bytes == 0 then finish p else pure tt)

unfoldable pub client_received : Ptr → Cmd (Unit {0})
client_received p = update_fd p (λ f. record f { status = idle; offset = 0 })

unfoldable pub keep_bytes : Env → Ptr → List ℕ → Cmd (Unit {0})
keep_bytes env p bytes = do
  f ← load_fd p
  c ← load_cache f.cache_node
  buffer ← lift (memcpy (bytes_of (make_room env c f.offset (length bytes)).buffer) f.offset bytes)
  update_cache f.cache_node
      (λ c. record (make_room env c f.offset (length bytes)) { buffer = some buffer })
  update_fd p (λ f. record f { offset = (f.offset + length bytes) % 2 ^ 64 })

-- A result -1 makes memcpy copy SIZE_MAX bytes.
unfoldable pub cache_recv : Env → Ptr → Option (List ℕ) → Cmd ℕ
cache_recv env p none = lift fault
cache_recv env p (some bytes) = do
  keep_bytes env p bytes
  f ← load_fd p
  (if is_client f.fd_type then client_received p else pure tt)
  (if is_server f.fd_type then server_received env p bytes else pure tt)
  pure (length bytes)

abbrev pub get_text : List ℕ
get_text = b'G' ∷ b'E' ∷ b'T' ∷ b' ' ∷ []

abbrev pub version_text : List ℕ
version_text =
    b' ' ∷ b'H' ∷ b'T' ∷ b'T' ∷ b'P' ∷ b'/' ∷ b'1' ∷ b'.' ∷ b'0' ∷ 13 ∷ 10 ∷ b'H' ∷ b'o' ∷ b's'
    ∷ b't' ∷ b':' ∷ b' ' ∷ []

abbrev pub since_text : List ℕ
since_text =
    13 ∷ 10 ∷ b'I' ∷ b'f' ∷ b'-' ∷ b'M' ∷ b'o' ∷ b'd' ∷ b'i' ∷ b'f' ∷ b'i' ∷ b'e' ∷ b'd' ∷ b'-'
    ∷ b'S' ∷ b'i' ∷ b'n' ∷ b'c' ∷ b'e' ∷ b':' ∷ b' ' ∷ []

abbrev pub end_text : List ℕ
end_text = 13 ∷ 10 ∷ 13 ∷ 10 ∷ []

-- sprintf into an array of 500 bytes.
unfoldable pub conditional_get : HttpInfo → Cmd (List ℕ)
conditional_get http_info = do
  path ← lift (c_string http_info.path)
  host ← lift (c_string http_info.host)
  date ← lift (c_string http_info.date)
  lift (
      memcpy (replicate 500 0) 0 (
        get_text
        ++ (path ++ (version_text ++ (host ++ (since_text ++ (date ++ (end_text ++ 0 ∷ []))))))))

-- The array that send reads, and where it begins in it.
unfoldable pub send_buffer : FdNode → CacheNode → Cmd (List ℕ × ℕ)
send_buffer f c =
    if is_server f.fd_type && (f.flag == 1)
    then (do
      backup ← load_cache f.cache_node_backup
      text ← conditional_get backup.http_info
      pure (text, 0))
    else pure (bytes_of c.buffer, f.offset)

-- The offset behind a call of send that took `n` bytes, or failed: off_t + -1.
abbrev pub advance : ℕ → Option ℕ → ℕ
advance offset (some n) = (offset + n) % 2 ^ 64
advance offset none = (offset + 2 ^ 64 - 1) % 2 ^ 64

abbrev pub taken : Option ℕ → ℕ
taken none = 0
taken (some n) = n

-- An int; if it is negative, send reads it as a size_t.
unfoldable pub send_size : CacheNode → FdNode → ℕ
send_size c f =
    let remain_size = c.buffer_size - f.offset in
    if ltb c.buffer_size f.offset
    then c.buffer_size + 2 ^ 64 - f.offset
    else if ltb max_data_size remain_size
    then max_data_size
    else remain_size

-- The comparison of the offset with the size is unsigned.
unfoldable pub sent_so_far : Ptr → ℕ → ℕ → Cmd (Unit {0})
sent_so_far p offset buffer_size =
    if leb buffer_size offset
    then update_fd p (λ f. record f { status = idle; offset = 0 })
    else update_fd p (λ f. record f { offset = offset })

-- `result` bytes of the ones that are handed to send go out.
unfoldable pub cache_send : Ptr → Option ℕ → Cmd (Option ℕ)
cache_send p result = do
  f ← load_fd p
  c ← load_cache f.cache_node
  (buffer, start) ← send_buffer f c
  bytes ← lift (slice buffer start (send_size c f))
  act (sent f.fd (take (taken result) bytes))
  sent_so_far p (advance f.offset result) c.buffer_size
  pure result
