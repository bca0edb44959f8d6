-- ===== src/Dns/Util/Record/Copy.antt =====
-- `_jdns_rr_data_reset` and `jdns_rr_copy` on records whose union holds what their type uses.
use ambrosia.Prelude.{
  ℕ, ◌≡◌, refl, ap, Option, none, some, Option-cases, Bool-cases, inl, inr, List, [], ◌∷◌, ◌==◌,
  subst,
}
use ambrosia.Dns.Memory.{done}
use ambrosia.Dns.Util.Text.{c_string}
use ambrosia.Dns.Util.Address.{
  Address, Ip, v4, v6, jdns_address_copy, jdns_address_set_ipv4, jdns_address_set_ipv6,
}
use ambrosia.Dns.Util.Params.{Server, copied, jdns_server_copy}
use ambrosia.Dns.Util.Record.{
  Known, Kind, Fits, fits_address, fits_server, fits_name, fits_texts, fits_hinfo, Rr, IsTyped,
  kind, reset_known, data_reset, set_known, copy_known, jdns_rr_copy,
}

reset_known_lem : {c : Kind} {k : Known} → Fits c k → reset_known c k ≡ done none
reset_known_lem fits_address = refl
reset_known_lem fits_server = refl
reset_known_lem fits_name = refl
reset_known_lem fits_texts = refl
reset_known_lem fits_hinfo = refl

pub Fits-some : {c : Kind} {k : Known} → Fits c k → (j : Known) → some k ≡ some j → Fits c j
Fits-some {c = c} {k = k} h j e =
    subst (Fits c) (ap (λ (o : Option Known). elim o [ none ↦ k | some x ↦ x ]) e) h

abbrev known_record : Rr → ℕ → Known → Rr
known_record r type k = record {
  owner = r.owner;
  ttl = r.ttl;
  type = some type;
  qclass = r.qclass;
  rdlength = 0;
  rdata = [];
  known = some k;
}

-- Setting the data of a known type ends well on a record whose union holds what its type uses, and
-- gives such a record again: the new type and data, no raw data, and the rest as it was.
pub set_known-IsTyped :
    (r : Rr) (type : ℕ) (k : Known)
    → IsTyped r
    → Fits (kind type) k
    → (r' : Rr) × (set_known r type k ≡ done r')
      × (r'.type ≡ some type)
      × (r'.known ≡ some k)
      × (r'.rdata ≡ [])
      × (r'.owner ≡ r.owner)
      × (r'.ttl ≡ r.ttl)
      × (r'.qclass ≡ r.qclass)
      × IsTyped r'
unfolding set_known data_reset
set_known-IsTyped r type k ok fits =
    (known_record r type k, ends, refl, refl, refl, refl, refl, refl, Fits-some fits)
  where
    ends : set_known r type k ≡ done (known_record r type k)
    ends = elim (Option-cases r.known) [
      | inl e ↦ rw e refl
      | inr (j, e) ↦ rw (e, reset_known_lem (ok j e)) refl
    ]

c_string-c_string : (s : List ℕ) → c_string (c_string s) ≡ c_string s
c_string-c_string [] = refl
c_string-c_string (x ∷ xs) = elim (Bool-cases (x == 0)) [
  | inl end ↦ rw end refl
  | inr more ↦ rw (more, more, c_string-c_string xs) refl
]

address_copy-copy : (a : Address) → jdns_address_copy (jdns_address_copy a) ≡ jdns_address_copy a
unfolding jdns_address_copy jdns_address_set_ipv4 jdns_address_set_ipv6
address_copy-copy a = go a.addr
  where
    go :
        (p : Ip)
        → jdns_address_copy (jdns_address_copy (record { addr = p; c_str = [] }))
          ≡ jdns_address_copy (record { addr = p; c_str = [] })
    go (v4 x) = refl
    go (v6 x) = refl

copied-copied : (o : Option (List ℕ)) → copied c_string (copied c_string o) ≡ copied c_string o
copied-copied none = refl
copied-copied (some n) = rw (c_string-c_string n) refl

server_copy-copy : (s : Server) → jdns_server_copy (jdns_server_copy s) ≡ jdns_server_copy s
unfolding jdns_server_copy
server_copy-copy s = rw (copied-copied s.name) refl

copy_known_lem :
    {c : Kind} {k : Known}
    → Fits c k
    → (k' : Known) × (copy_known c k ≡ done k') × (copy_known c k' ≡ done k') × Fits c k'
copy_known_lem (fits_address {a = a}) = (_, refl, rw (address_copy-copy a) refl, fits_address)
copy_known_lem (fits_server {s = s}) = (_, refl, rw (server_copy-copy s) refl, fits_server)
copy_known_lem (fits_name {n = n}) = (_, refl, rw (c_string-c_string n) refl, fits_name)
copy_known_lem fits_texts = (_, refl, refl, fits_texts)
copy_known_lem fits_hinfo = (_, refl, refl, fits_hinfo)

abbrev copy_record : Rr → Option Known → Rr
copy_record r known = record {
  owner = copied c_string r.owner;
  ttl = r.ttl;
  type = r.type;
  qclass = 0;
  rdlength = r.rdlength;
  rdata = r.rdata;
  known = known;
}

-- The copy of a record whose union holds what its type uses: it keeps the type, the time to live
-- and the raw data, its class is 0 whatever the record's was, and a copy of it is the same again.
pub jdns_rr_copy-jdns_rr_copy :
    (r : Rr)
    → IsTyped r
    → (c : Rr) × (jdns_rr_copy r ≡ done c)
      × (c.type ≡ r.type)
      × (c.ttl ≡ r.ttl)
      × (c.rdata ≡ r.rdata)
      × (c.qclass ≡ 0)
      × (jdns_rr_copy c ≡ done c)
      × IsTyped c
unfolding jdns_rr_copy
jdns_rr_copy-jdns_rr_copy r ok = elim (Option-cases r.known) [
  | inl e ↦ (
    copy_record r none,
    rw e refl,
    refl,
    refl,
    refl,
    refl,
    rw (copied-copied r.owner) refl,
    λ k ek. cc,
  )
  | inr (k, e) ↦
      let (k', once, twice, fits) = copy_known_lem (ok k e) in
      (
        copy_record r (some k'),
        rw (e, once) refl,
        refl,
        refl,
        refl,
        refl,
        rw (twice, copied-copied r.owner) refl,
        Fits-some fits,
      )
]
