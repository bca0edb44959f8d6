-- ===== src/Dns/Session/Servers/Added.antt =====
-- The name servers that are removed, and one that is added.
use ambrosia.Prelude.{
  ℕ, suc, ◌+◌, ◌^◌, ◌≤◌, ◌<◌, ◌≡◌, inl, inr, refl, ap, true, false, List, [], ◌∷◌, ◌++◌, map,
  length, ltb, ◌==◌, arith, Bool-cases,
}
use ambrosia.Prelude.Search.{All, Pairwise, Pairwise-add}
use ambrosia.Dns.Memory.{done, Ensures, Ensures-bind}
use ambrosia.Dns.Util.Address.{
  Address, Ip, v4, v6, jdns_address_copy, jdns_address_set_ipv4, jdns_address_set_ipv6,
  jdns_address_cmp_iff,
}
use ambrosia.Dns.Session.{
  Session, Query, NameServer, keep_if, drop_query, append_events, report, status_timeout,
}
use ambrosia.Dns.Session.Ids.{has_id, remove_if_there}
use ambrosia.Dns.Session.Ids.Fresh.{server_ids, get_next_name_server_id-Ensures}
use ambrosia.Dns.Session.Servers.{
  Given, is_given, given_in, known_in, query_name_server_gone, all_gone, remove_servers, add_server,
}

-- One name server tried and one failed at most.
abbrev pub Few : Query → Type 0
Few q = (length q.servers_tried ≤ 1) × (length q.servers_failed ≤ 1)

-- The ids of name servers differ.
abbrev pub Differ : NameServer → NameServer → Type 0
Differ a b = (a.id == b.id) ≡ false

pub remove_if_there-few :
    (array : List ℕ) (val : ℕ)
    → length array ≤ 1
    → (left : List ℕ) × (remove_if_there array val ≡ done left) × (length left ≤ 1)
remove_if_there-few array val h =
    let one : ltb 1 (length array) ≡ false = ground arith in
    elim (Bool-cases (has_id array val)) [
      | inl hit ↦ ([], rw (hit, one) refl, omega arith)
      | inr miss ↦ (array, rw miss refl, h)
    ]

pub all_gone-Few :
    (ns_id : ℕ) (qs : List Query)
    → All Few qs
    → (qs' : List Query) × (all_gone ns_id qs ≡ done qs') × All Few qs'
unfolding all_gone query_name_server_gone
all_gone-Few ns_id [] h = ([], refl, tt)
all_gone-Few ns_id (q ∷ qs) (few, h) =
    let (tried, et, ht) = remove_if_there-few q.servers_tried ns_id few.0 in
    let (failed, ef, hf) = remove_if_there-few q.servers_failed ns_id few.1 in
    let (qs', e, h') = all_gone-Few ns_id qs h in
    (
      record q { servers_tried = tried; servers_failed = failed } ∷ qs',
      rw (et, ef, e) refl,
      ((ht, hf), h'),
    )

abbrev pub Removed : List Given → List NameServer → Session → Session → Type 0
Removed nslist servers s t =
    (t.name_servers ≡ keep_if (given_in nslist) servers)
    × (t.next_name_server_id ≡ s.next_name_server_id)

pub remove_servers-Removed :
    (nslist : List Given) (servers : List NameServer) (s : Session)
    → All Few s.queries
    → (t : Session) × (remove_servers nslist servers s ≡ done t) × Removed nslist servers s t
unfolding remove_servers
remove_servers-Removed nslist [] s h = (record s { name_servers = [] }, refl, (refl, refl))
remove_servers-Removed nslist (ns ∷ servers) s h = elim (Bool-cases (given_in nslist ns)) [
  | inl stays ↦
      let (t, e, (kept, same)) = remove_servers-Removed nslist servers s h in
      (
        record t { name_servers = ns ∷ t.name_servers },
        rw (stays, e) refl,
        (rw stays (ap (◌∷◌ ns) kept), same),
      )
  | inr goes ↦
      let (qs, eq, few) = all_gone-Few ns.id s.queries h in
      let (t, e, (kept, same)) =
        remove_servers-Removed nslist servers
          (record s {
            outgoing = ambrosia.Dns.Session.remove_name_server_datagrams ns.id s.outgoing;
            queries = qs;
          })
          few in
      (t, rw (goes, eq, e) refl, (rw goes kept, same))
]

pub copy-addr : (a : Address) (p : Ip) → a.addr ≡ p → (jdns_address_copy a).addr ≡ p
unfolding jdns_address_copy jdns_address_set_ipv4 jdns_address_set_ipv6
copy-addr a (v4 x) e = rw e refl
copy-addr a (v6 x) e = rw e refl

pub same_port : (a : ℕ) → (a == a) ≡ true
same_port a = ground arith

pub copy_is_given :
    (id : ℕ) (i : Given)
    → is_given (record { id = id; address = jdns_address_copy i.address; port = i.port }) i ≡ true
copy_is_given id i =
    rw
      (
        (jdns_address_cmp_iff (jdns_address_copy i.address) i.address).1
            (copy-addr i.address i.address.addr refl),
        same_port i.port,
      )
      refl

pub known_in-append :
    (xs ys : List NameServer) (i : Given) → known_in xs i ≡ true → known_in (xs ++ ys) i ≡ true
known_in-append [] ys i h = absurd (ground arith)
known_in-append (x ∷ xs) ys i h = elim (Bool-cases (is_given x i)) [
  | inl hit ↦ rw hit refl
  | inr miss ↦ rw (miss, known_in-append xs ys i (rw miss at h)) refl
]

pub known_in-last :
    (xs : List NameServer) (x : NameServer) (i : Given)
    → is_given x i ≡ true
    → known_in (xs ++ (x ∷ [])) i ≡ true
known_in-last [] x i h = rw h refl
known_in-last (y ∷ xs) x i h = elim (Bool-cases (is_given y i)) [
  | inl hit ↦ rw hit refl
  | inr miss ↦ rw (miss, known_in-last xs x i h) refl
]

pub has_id-Differ :
    (xs : List NameServer) (x : NameServer)
    → has_id (map (λ n. n.id) xs) x.id ≡ false
    → All (λ y. Differ y x) xs
has_id-Differ [] x h = tt
has_id-Differ (y ∷ xs) x h = elim (Bool-cases (y.id == x.id)) [
  | inl hit ↦ absurd (ground arith)
  | inr miss ↦ (miss, has_id-Differ xs x (rw miss at h))
]

pub server_ids-append :
    (xs : List NameServer) (x : NameServer)
    → length (map (λ n. n.id) (xs ++ (x ∷ []))) ≡ suc (length (map (λ n. n.id) xs))
server_ids-append [] x = refl
server_ids-append (y ∷ xs) x = ap suc (server_ids-append xs x)

-- What the additions make of a session: the list grows by name servers that were given, each one
-- given is there, and the ids differ.
abbrev pub Added : List Given → Session → Session → Type 0
Added nslist s t =
    (added : List NameServer) × (t.name_servers ≡ s.name_servers ++ added)
    × All (λ i. known_in t.name_servers i ≡ true) nslist
    × All (λ ns. given_in nslist ns ≡ true) added
    × Pairwise Differ t.name_servers

abbrev pub Room : ℕ → Session → Type 0
Room n s =
    (s.next_name_server_id < 2 ^ 31)
    × (suc (length (server_ids s) + n) ≤ 2 ^ 31)
    × Pairwise Differ s.name_servers

abbrev pub AddedOne : Session → Given → Session → Type 0
AddedOne s i t =
    (ns : NameServer) × (t.name_servers ≡ s.name_servers ++ (ns ∷ []))
    × (is_given ns i ≡ true)
    × ((n : ℕ) → Room (suc n) s → Room n t)

pub add_server-AddedOne :
    (s : Session) (i : Given) (n : ℕ) → Room (suc n) s → Ensures (AddedOne s i) (add_server s i)
unfolding add_server
add_server-AddedOne s i n (fits, few, apart) =
    Ensures-bind _ (AddedOne s i) (ambrosia.Dns.Session.Ids.get_next_name_server_id s) _
      (get_next_name_server_id-Ensures s fits (omega (arith, few)))
      (λ (id, t) ((free, from, small, from', next_fits), same).
        let ns : NameServer = record {
          id = id;
          address = jdns_address_copy i.address;
          port = i.port;
        } in
        let servers : t.name_servers ≡ s.name_servers = ap (λ (u : Session). u.name_servers) same in
        (
          ns,
          ap (λ xs. xs ++ (ns ∷ [])) servers,
          copy_is_given id i,
          λ m (fits', few', apart'). (
            next_fits,
            rw servers (omega (arith, few', server_ids-append s.name_servers ns)),
            rw servers (
                Pairwise-add Differ s.name_servers ns apart'
                  (has_id-Differ s.name_servers ns free)),
          ),
        ))
