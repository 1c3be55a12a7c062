-- ===== src/Proxy/Tests/Setup.antt =====
-- A small world for the tests of the proxy.
use ecen_602_projects.Common.{
  length-replicate, length, ◌<◌, ℕ, ◌≤◌, ◌≡◌, refl, true, false, Option, none, some, List, [], ◌∷◌,
  arith, replicate, ◌==◌, if◌then◌else◌,
}
use ecen_602_projects.Proxy.Links.{Ptr, null}
use ecen_602_projects.Proxy.Http.{HttpInfo, Scratch, empty_info}
use ecen_602_projects.Proxy.Heap.{
  NodeStatus, idle, reading, writing, FdType, dummy, client, server, CacheNode, FdNode, World,
}
use ecen_602_projects.Proxy.Cache.{CacheQueue}
use ecen_602_projects.Proxy.Cache.Queue.{Cells, IsQueue}
use ecen_602_projects.Proxy.Fds.{FdList}
use ecen_602_projects.Proxy.Fds.Order.{IsList}
use ecen_602_projects.Proxy.Transfer.{Env, send_size}
use ecen_602_projects.Proxy.Transfer.Receive.{Fits}
use ecen_602_projects.Proxy.Transfer.Conditional.{Cached, IsCached}
use ecen_602_projects.Proxy.Service.{Ready}

-- The answer for the path of one letter on the host of one letter.
abbrev pub info : ℕ → HttpInfo
info path = record {
  host = b'h' ∷ 0 ∷ [];
  path = path ∷ 0 ∷ [];
  user_agent = 0 ∷ [];
  connection = 0 ∷ [];
  status = 0 ∷ [];
  content_length = 0 ∷ [];
  date = b'd' ∷ 0 ∷ [];
  info_complete = true;
}

-- A node with an answer of three bytes.
abbrev pub page : ℕ → CacheNode
page path = record {
  prev = null;
  next = null;
  buffer = some (b'y' ∷ b'e' ∷ b's' ∷ []);
  buffer_size = 3;
  http_info = info path;
  status = idle;
}

abbrev pub node : Option ℕ → FdType → NodeStatus → Ptr → FdNode
node fd fd_type status cache_node = record {
  prev = null;
  next = null;
  proxied = null;
  fd = fd;
  fd_type = fd_type;
  status = status;
  cache_node = cache_node;
  cache_node_backup = 2;
  offset = 0;
  flag = 1;
}

abbrev pub edge : FdNode
edge = node none dummy idle null

abbrev pub reader : FdNode
reader = node (some 7) client reading 3

abbrev pub writer : FdNode
writer = node (some 7) client writing 2

abbrev pub answers : FdNode
answers = node (some 8) server reading 3

abbrev pub asks : FdNode
asks = node (some 8) server writing 9

-- The pages a and b in the cache at 1 and 2, the page c at 3, a request of 600 bytes at 9; descriptors
-- at 4, 5 and 6, others at 7 and 8.
abbrev pub world : FdNode → FdNode → World
world middle other = record {
  caches = λ a.
      if a == 1
      then some (record (page b'a') { next = 2 })
      else if a == 2
      then some (record (page b'b') { prev = 1 })
      else if a == 3
      then some (page b'c')
      else if a == 9
      then some (record (page b'c') { buffer = some (replicate 600 0); buffer_size = 600 })
      else none;
  fds = λ a.
      if a == 4
      then some (record edge { next = 5 })
      else if a == 5
      then some (record middle { prev = 4; next = 6 })
      else if a == 6
      then some (record edge { prev = 5 })
      else if a == 7
      then some other
      else none;
  fresh = 10;
  out = [];
}

abbrev pub queue : CacheQueue
queue = record { max_slot = 2; front = 1; rear = 2 }

abbrev pub cells : Cells
cells = (1, page b'a') ∷ (2, page b'b') ∷ []

pub cells-IsQueue : IsQueue (world reader writer) queue cells
cells-IsQueue = record {
  links = (refl, (refl, tt));
  distinct = (omega arith, refl, (omega arith, refl, tt));
  front = refl;
  rear = refl;
}

-- The list of descriptors with `middle` between its ends.
abbrev pub around : FdNode → List (Ptr × FdNode)
around middle = (4, edge) ∷ (5, middle) ∷ (6, edge) ∷ []

pub around-IsList : (middle other : FdNode) → IsList (world middle other) (around middle)
around-IsList middle other =
    ((refl, (refl, (refl, tt))), (omega arith, refl, (omega arith, refl, (omega arith, refl, tt))))

abbrev pub scratch : Scratch
scratch = record { key = []; value = [] }

abbrev pub env : Env
env = record {
  junk = λ n. scratch;
  grown = replicate 1500 7;
  behind_stack = [];
  behind_heap = 0 ∷ [];
}

pub page-Fits : Fits 0 (page b'c')
page-Fits = record { size = refl; within = omega arith; small = omega arith }

-- The page b with its links.
abbrev pub second : CacheNode
second = record (page b'b') { prev = 1 }

pub second-Fits : Fits 0 second
second-Fits = record { size = refl; within = omega arith; small = omega arith }

abbrev pub hello : List ℕ
hello = b'h' ∷ b'i' ∷ []

abbrev pub cached : Cached
cached = record {
  path = b'b' ∷ [];
  host = b'h' ∷ [];
  date = b'd' ∷ [];
  path_rest = [];
  host_rest = [];
  date_rest = [];
}

pub cached-IsCached : IsCached cached (info b'b')
cached-IsCached = record {
  path = refl;
  host = refl;
  date = refl;
  plain = (omega arith, omega arith, omega arith);
  sizes = (omega arith, omega arith, omega arith);
}

pub size_3 : 3 ≤ send_size second writer
unfolding send_size
size_3 = omega arith

abbrev pub list : FdList
list = record { front = 4; rear = 6; max_client = 3 }

abbrev pub ready : Ready
ready = record {
  readable = λ fd. false;
  writable = λ fd. true;
  accepted = none;
  received = λ left p. none;
  taken = λ left p. some 3;
  connected = λ left p. none;
}

-- A request for a path of one letter, in memory of ones.
abbrev pub site : List ℕ
site = b'h' ∷ b'.' ∷ b't' ∷ b'e' ∷ b's' ∷ b't' ∷ []

abbrev pub team : List ℕ
team = b'T' ∷ b'e' ∷ b'a' ∷ b'm' ∷ b'4' ∷ []

abbrev pub ones : ℕ → Scratch
ones n = record { key = replicate n 1; value = replicate n 1 }

pub ones-length : (n : ℕ) → (length (ones n).key ≡ n) × (length (ones n).value ≡ n)
ones-length n = (length-replicate n 1, length-replicate n 1)

pub room :
    (length site < length empty_info.host)
    × (length team < length empty_info.user_agent)
    × (1 ≤ length empty_info.path)
unfolding empty_info
room =
    let z : ℕ = 0 in
    omega (arith, length-replicate 253 z, length-replicate 10 z, length-replicate 100 z)
