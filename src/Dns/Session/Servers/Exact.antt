-- ===== src/Dns/Session/Servers/Exact.antt =====
-- The name servers that `jdns_set_nameservers` leaves.
use ambrosia.Prelude.{
  ℕ, suc, ◌+◌, ◌^◌, ◌≤◌, ◌<◌, ◌≡◌, inl, inr, refl, sym, ap, ◌∙◌, Bool, true, false, List, [], ◌∷◌,
  ◌++◌, map, append-nil, append_assoc, length, ◌==◌, arith, Bool-cases,
}
use ambrosia.Prelude.Search.{All, All-append, All-map, Pairwise}
use ambrosia.Dns.Memory.{done, Ensures, Ensures-bind, Ensures-map}
use ambrosia.Dns.Session.{Session, NameServer, keep_if}
use ambrosia.Dns.Session.Cache.Kept.{keep_if-All, All-keep_if}
use ambrosia.Dns.Session.Ids.Fresh.{server_ids}
use ambrosia.Dns.Session.Servers.{
  Given, is_given, given_in, known_in, add_server, add_servers, jdns_set_nameservers,
}
use ambrosia.Dns.Session.Servers.Added.{
  Few, Differ, remove_servers-Removed, known_in-append, known_in-last, Added, Room, AddedOne,
  add_server-AddedOne,
}

given_in-more :
    (i : Given) (nslist : List Given) (ns : NameServer)
    → given_in nslist ns ≡ true
    → given_in (i ∷ nslist) ns ≡ true
given_in-more i nslist ns h = ground (arith, h)

given_in-first :
    (i : Given) (nslist : List Given) (ns : NameServer)
    → is_given ns i ≡ true
    → given_in (i ∷ nslist) ns ≡ true
given_in-first i nslist ns h = rw h refl

All-given :
    (i : Given) (nslist : List Given) (xs : List NameServer)
    → All (λ ns. given_in nslist ns ≡ true) xs
    → All (λ ns. given_in (i ∷ nslist) ns ≡ true) xs
All-given i nslist =
    All-map (λ ns. given_in nslist ns ≡ true) (λ ns. given_in (i ∷ nslist) ns ≡ true)
      (given_in-more i nslist)

Added-present :
    (i : Given) (nslist : List Given) (s t : Session)
    → known_in s.name_servers i ≡ true
    → Added nslist s t
    → Added (i ∷ nslist) s t
Added-present i nslist s t there (added, e, known, given, apart) = (
  added,
  e,
  (rw e (known_in-append s.name_servers added i there), known),
  All-given i nslist added given,
  apart,
)

Added-one :
    (i : Given) (nslist : List Given) (s u t : Session) (ns : NameServer)
    → u.name_servers ≡ s.name_servers ++ (ns ∷ [])
    → is_given ns i ≡ true
    → Added nslist u t
    → Added (i ∷ nslist) s t
Added-one i nslist s u t ns e this (added, e', known, given, apart) = (
  ns ∷ added,
  e' ∙ ap (λ xs. xs ++ added) e ∙ append_assoc s.name_servers (ns ∷ []) added,
  (
    rw e' (known_in-append u.name_servers added i (rw e (known_in-last s.name_servers ns i this))),
    known,
  ),
  (given_in-first i nslist ns this, All-given i nslist added given),
  apart,
)

fewer : (n : ℕ) (s : Session) → Room (suc n) s → Room n s
fewer n s (fits, few, apart) = (fits, omega (arith, few), apart)

add_servers-Added :
    (nslist : List Given) (s : Session)
    → Room (length nslist) s
    → Ensures (Added nslist s) (add_servers nslist s)
unfolding add_servers
add_servers-Added [] s (fits, few, apart) = ([], sym (append-nil s.name_servers), tt, tt, apart)
add_servers-Added (i ∷ nslist) s room = elim (Bool-cases (known_in s.name_servers i)) [
  | inl there ↦ rw there (
      Ensures-map (add_servers nslist s) (λ t. Added-present i nslist s t there)
        (add_servers-Added nslist s (fewer (length nslist) s room)))
  | inr new ↦ rw new (
      Ensures-bind (AddedOne s i) (Added (i ∷ nslist) s) (add_server s i) (add_servers nslist)
        (add_server-AddedOne s i (length nslist) room)
        (λ u (ns, e, this, left).
          Ensures-map (add_servers nslist u) (λ t. Added-one i nslist s u t ns e this)
            (add_servers-Added nslist u (left (length nslist) room))))
]

-- The name servers after a change to `nslist`: those of before that are in it, in their order and as
-- they were, then new ones; each is in `nslist`, each of `nslist` is there, and the ids differ.
abbrev pub Exactly : List Given → Session → Session → Type 0
Exactly nslist s t =
    (added : List NameServer) × (t.name_servers ≡ keep_if (given_in nslist) s.name_servers ++ added)
    × All (λ ns. given_in nslist ns ≡ true) t.name_servers
    × All (λ i. known_in t.name_servers i ≡ true) nslist
    × Pairwise Differ t.name_servers

Pairwise-keep_if :
    (p : NameServer → Bool) (xs : List NameServer)
    → Pairwise Differ xs
    → Pairwise Differ (keep_if p xs)
Pairwise-keep_if p [] h = tt
Pairwise-keep_if p (x ∷ xs) h = elim (Bool-cases (p x)) [
  | inl stays ↦ rw stays (All-keep_if (Differ x) p xs h.0, Pairwise-keep_if p xs h.1)
  | inr goes ↦ rw goes (Pairwise-keep_if p xs h.1)
]

length-keep_if :
    (p : NameServer → Bool) (xs : List NameServer)
    → length (map (λ n. n.id) (keep_if p xs)) ≤ length (map (λ n. n.id) xs)
length-keep_if p [] = omega arith
length-keep_if p (x ∷ xs) = ground (arith, length-keep_if p xs)

Exactly-Added :
    (nslist : List Given) (s kept t : Session)
    → kept.name_servers ≡ keep_if (given_in nslist) s.name_servers
    → Added nslist kept t
    → Exactly nslist s t
Exactly-Added nslist s kept t same (added, e, known, given, apart) =
    let split = e ∙ ap (λ xs. xs ++ added) same in
    (
      added,
      split,
      rw split (
          All-append _ (keep_if (given_in nslist) s.name_servers) added
            (keep_if-All (given_in nslist) s.name_servers) given),
      known,
      apart,
    )

-- Jdns_set_nameservers with at least one name server, where no query has tried, or has seen
-- fail, more than one, the ids of the name servers differ, their counter is in range and fewer
-- than 2 ^ 31 are in use: it ends without a fault. The name servers are then those that were
-- given, with ids that differ; those that were there before stay as they were, in their order,
-- in front.
pub jdns_set_nameservers-Exactly :
    (s : Session) (i : Given) (rest : List Given)
    → All Few s.queries
    → s.next_name_server_id < 2 ^ 31
    → suc (length (server_ids s) + length (i ∷ rest)) ≤ 2 ^ 31
    → Pairwise Differ s.name_servers
    → Ensures (Exactly (i ∷ rest) s) (jdns_set_nameservers s (i ∷ rest))
unfolding jdns_set_nameservers
jdns_set_nameservers-Exactly s i rest few fits room apart =
    let nslist = i ∷ rest in
    let (kept, e, (same, counter)) = remove_servers-Removed nslist s.name_servers s few in
    let enough : Room (length nslist) kept = (
      rw counter fits,
      rw same (omega (arith, room, length-keep_if (given_in nslist) s.name_servers)),
      rw same (Pairwise-keep_if (given_in nslist) s.name_servers apart),
    ) in
    let some_given : (length nslist == 0) ≡ false = ground arith in
    rw (e, some_given)
      (Ensures-bind (Added nslist kept) (Exactly nslist s) (add_servers nslist kept) done
        (add_servers-Added nslist kept enough) (λ t h. Exactly-Added nslist s kept t same h))
