-- ===== src/Dns/Session.antt =====
-- Sessions of iris/irisnet/jdns/jdns.c in unicast mode (`mode` 0): their objects, and the callbacks.
pub mod Pointers
pub mod Text
pub mod Ids
pub mod Servers
pub mod Cache
pub mod Requests
pub mod Responses
pub mod Writes
pub mod Messages
pub mod Step
pub mod Waiting
mod Runs
pub mod Queries
pub mod Kept
use ambrosia.Prelude.{
  ℕ, suc, ◌+◌, ◌≡◌, Bool, true, false, not, Option, none, some, List, [], ◌∷◌, ◌++◌, ◌==◌, map,
  if◌then◌else◌,
}
use ambrosia.Dns.Memory.{Outcome, done, fault, ◌>>=◌}
use ambrosia.Dns.Util.Address.{Address}
use ambrosia.Dns.Util.Record.{Rr}
use ambrosia.Dns.Util.Response.{Response}

-- `name_server_t`
pub record NameServer : Type 0 where
  pub id : ℕ
  pub address : Address
  pub port : ℕ

-- `query_t`. `self` is the pointer to it, which `cname_parent`, `cname_child` and the datagrams hold;
-- reading through a pointer to a query that was removed is a fault. A -1 is `none`: in `dns_id`, in
-- `step` (deactivated) and in `time_start` (no timer). The arrays are lists.
pub record Query : Type 0 where
  pub self : ℕ
  pub id : ℕ
  pub req_ids : List ℕ
  pub dns_id : Option ℕ
  pub qname : List ℕ
  pub qtype : ℕ
  pub step : Option ℕ
  pub servers_tried : List ℕ
  pub servers_failed : List ℕ
  pub retrying : Bool
  pub time_start : Option ℕ
  pub time_next : ℕ
  pub trycache : Bool
  pub cname_chain_count : ℕ
  pub cname_parent : Option ℕ
  pub cname_child : Option ℕ

-- `datagram_t`
pub record Datagram : Type 0 where
  pub handle : ℕ
  pub dest_address : Address
  pub dest_port : ℕ
  pub bytes : List ℕ
  pub query : ℕ
  pub query_send_type : ℕ
  pub ns_id : ℕ

-- `cache_item_t`. Without a record it says that the name does not exist. `ttl` is an `int`, as its
-- 32 bits in two's complement.
pub record CacheItem : Type 0 where
  pub qname : List ℕ
  pub qtype : Option ℕ
  pub time_start : ℕ
  pub ttl : ℕ
  pub rr : Option Rr

-- `JDNS_STATUS_*`
pub data Status : Type 0 where
  status_success status_nxdomain status_error status_timeout : Status

-- `jdns_event_t`
pub data Event : Type 0 where
  event_response : ℕ → Status → Option Response → Event
  event_shutdown : Event

-- The field `shutdown`: 0, 1 and 2.
pub data Shutdown : Type 0 where
  running requested stopped : Shutdown

-- The callbacks: the clock at its n-th reading, and whether the n-th `udp_write` takes its datagram.
pub record Callbacks : Type 0 where
  pub time_now : ℕ → ℕ
  pub udp_write : ℕ → Bool

-- `struct jdns_session`. `allocated` is the number of queries made so far, the next one's pointer;
-- `readings` and `writes` count the calls of `time_now` and `udp_write`, and `written` holds the
-- datagrams that `udp_write` took.
pub record Session : Type 0 where
  pub shutdown : Shutdown
  pub next_qid : ℕ
  pub next_req_id : ℕ
  pub next_dns_id : ℕ
  pub last_time : ℕ
  pub next_timer : ℕ
  pub next_name_server_id : ℕ
  pub handle : ℕ
  pub handle_readable : Bool
  pub handle_writable : Bool
  pub port : ℕ
  pub name_servers : List NameServer
  pub queries : List Query
  pub outgoing : List Datagram
  pub events : List Event
  pub cache : List CacheItem
  pub allocated : ℕ
  pub readings : ℕ
  pub writes : ℕ
  pub written : List Datagram

-- `jdns_session_new`, with the number that `rand_int` gave.
unfoldable pub jdns_session_new : ℕ → Session
jdns_session_new rand = record {
  shutdown = running;
  next_qid = 0;
  next_req_id = 1;
  next_dns_id = rand;
  last_time = 0;
  next_timer = 0;
  next_name_server_id = 0;
  handle = 0;
  handle_readable = false;
  handle_writable = true;
  port = 0;
  name_servers = [];
  queries = [];
  outgoing = [];
  events = [];
  cache = [];
  allocated = 0;
  readings = 0;
  writes = 0;
  written = [];
}

-- `jdns_init_unicast`, with what `udp_bind` returned; `none` is the return of 0.
unfoldable pub jdns_init_unicast : Session → ℕ → Option ℕ → Option Session
jdns_init_unicast s port none = none
jdns_init_unicast s port (some ret) =
    if ret == 0 then none else some (record s { handle = ret; port = port })

-- A reading of the clock.
abbrev pub clock : Callbacks → Session → ℕ
clock cb s = cb.time_now s.readings

abbrev pub clock_read : Session → Session
clock_read s = record s { readings = suc s.readings }

-- The loops that remove items: what passes the test stays.
abbrev pub keep_if {ℓ} : {A : Type ℓ} → (A → Bool) → List A → List A
keep_if p [] = []
keep_if p (x ∷ xs) = let rest = keep_if p xs in if p x then x ∷ rest else rest

-- `list_remove` of a query.
abbrev pub remove_query : ℕ → List Query → List Query
remove_query self [] = []
remove_query self (q ∷ qs) =
    let rest = remove_query self qs in if q.self == self then qs else q ∷ rest

-- A query through its pointer.
abbrev pub query_at : ℕ → List Query → Outcome Query
query_at self [] = fault
query_at self (q ∷ qs) = let rest = query_at self qs in if q.self == self then done q else rest

-- The fields of a query, written through its pointer.
abbrev pub put_query : Query → List Query → List Query
put_query q [] = []
put_query q (p ∷ qs) = let rest = put_query q qs in if p.self == q.self then q ∷ qs else p ∷ rest

abbrev pub set_query : Session → Query → Session
set_query s q = record s { queries = put_query q s.queries }

unfoldable pub remove_query_datagrams : ℕ → List Datagram → List Datagram
remove_query_datagrams self outgoing = keep_if (λ a. not (a.query == self)) outgoing

unfoldable pub remove_name_server_datagrams : ℕ → List Datagram → List Datagram
remove_name_server_datagrams ns_id outgoing = keep_if (λ a. not (a.ns_id == ns_id)) outgoing

-- `_remove_query_datagrams` and `list_remove`, as they stand together.
unfoldable pub drop_query : Session → ℕ → Session
drop_query s self = record s {
  queries = remove_query self s.queries;
  outgoing = remove_query_datagrams self s.outgoing;
}

-- The loops that report an event to any requests listening.
unfoldable pub report : Status → List ℕ → List Event
report status [] = []
report status (id ∷ ids) = event_response id status none ∷ report status ids

-- `_append_event`, for several.
abbrev pub append_events : Session → List Event → Session
append_events s es = record s { events = s.events ++ es }

abbrev pub is_num : Option ℕ → ℕ → Bool
is_num none n = false
is_num (some m) n = m == n

abbrev pub is_some {ℓ} : {A : Type ℓ} → Option A → Bool
is_some none = false
is_some (some a) = true
