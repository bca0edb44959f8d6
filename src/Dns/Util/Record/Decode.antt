-- ===== src/Dns/Util/Record/Decode.antt =====
-- `jdns_rr_from_resource` of iris/irisnet/jdns/jdns_util.c: the record of a resource of a packet.
use ambrosia.Prelude.{
  ◌%◌, ◌^◌, ℕ, zero, suc, ◌+◌, none, some, List, [], ◌∷◌, ltb, ◌==◌, if◌then◌else◌,
}
use ambrosia.Dns.Memory.{Outcome, done, error, stuck, ◌>>=◌, peek, copy}
use ambrosia.Dns.Label.{readlabel}
use ambrosia.Dns.Wire.{net2short, net2long}
use ambrosia.Dns.Packet.{Resource, Packet}
use ambrosia.Dns.Util.Text.{c_string}
use ambrosia.Dns.Util.Address.{jdns_address_set_ipv4, jdns_address_set_ipv6}
use ambrosia.Dns.Util.Record.{
  Rr, jdns_rr_new, jdns_rr_set_a, jdns_rr_set_aaaa, jdns_rr_set_mx, jdns_rr_set_srv,
  jdns_rr_set_cname, jdns_rr_set_ptr, jdns_rr_set_txt, jdns_rr_set_hinfo, jdns_rr_set_ns,
}

-- `jdns_packet_resource_read_name`, which must end where the data ends.
unfoldable pub read_name_at_end : Resource → Packet → ℕ → Outcome (List ℕ)
read_name_at_end pr ref at = do
  (end, name) ← readlabel pr.rdata ref.raw_data at
  if end == pr.rdlength then done name else error

-- The text at `at`, and the place behind it.
unfoldable pub read_text_string : Resource → ℕ → Outcome (List ℕ × ℕ)
read_text_string pr at =
    let text = (do
      len ← peek pr.rdata at
      let body = (copy pr.rdata (at + 1) len >>= λ out. done (out, at + 1 + len))
      if ltb pr.rdlength (at + 1 + len) then error else body) in
    if ltb pr.rdlength (at + 1) then error else text

unfoldable pub read_texts : Resource → ℕ → ℕ → Outcome (List (List ℕ))
read_texts pr zero at = stuck
read_texts pr (suc fuel) at =
    let round = (do
      (str, next) ← read_text_string pr at
      rest ← read_texts pr fuel next
      done (str ∷ rest)) in
    if ltb at pr.rdlength then round else done []

abbrev pub decode_a : Resource → Outcome Rr
decode_a pr =
    let decoded =
      (net2long pr.rdata 0 >>= λ ip. jdns_rr_set_a jdns_rr_new (jdns_address_set_ipv4 ip)) in
    if pr.rdlength == 4 then decoded else error

abbrev pub decode_aaaa : Resource → Outcome Rr
decode_aaaa pr =
    let decoded =
      (copy pr.rdata 0 16 >>= λ ip. jdns_rr_set_aaaa jdns_rr_new (jdns_address_set_ipv6 ip)) in
    if pr.rdlength == 16 then decoded else error

abbrev pub decode_mx : Resource → Packet → Outcome Rr
decode_mx pr ref =
    let decoded = (do
      priority ← net2short pr.rdata 0
      name ← read_name_at_end pr ref 2
      jdns_rr_set_mx jdns_rr_new name priority) in
    if ltb pr.rdlength 2 then error else decoded

abbrev pub decode_srv : Resource → Packet → Outcome Rr
decode_srv pr ref =
    let decoded = (do
      priority ← net2short pr.rdata 0
      weight ← net2short pr.rdata 2
      port ← net2short pr.rdata 4
      name ← read_name_at_end pr ref 6
      jdns_rr_set_srv jdns_rr_new name port priority weight) in
    if ltb pr.rdlength 6 then error else decoded

-- Each text takes a byte at least.
abbrev pub decode_txt : Resource → Outcome Rr
decode_txt pr = read_texts pr (suc pr.rdlength) 0 >>= λ texts. jdns_rr_set_txt jdns_rr_new texts

abbrev pub decode_hinfo : Resource → Outcome Rr
decode_hinfo pr = do
  (cpu, at) ← read_text_string pr 0
  (os, end) ← read_text_string pr at
  if end == pr.rdlength then jdns_rr_set_hinfo jdns_rr_new cpu os else error

abbrev pub decode_other : Resource → Outcome Rr
decode_other pr = done (record {
  owner = none;
  ttl = 0;
  type = some pr.qtype;
  qclass = 0;
  rdlength = 0;
  rdata = [];
  known = none;
})

-- The `switch` on `qtype`.
unfoldable pub decode : Resource → Packet → Outcome Rr
decode pr ref =
    if pr.qtype == 1
    then decode_a pr
    else if pr.qtype == 28
    then decode_aaaa pr
    else if pr.qtype == 15
    then decode_mx pr ref
    else if pr.qtype == 33
    then decode_srv pr ref
    else if pr.qtype == 5
    then (read_name_at_end pr ref 0 >>= jdns_rr_set_cname jdns_rr_new)
    else if pr.qtype == 12
    then (read_name_at_end pr ref 0 >>= jdns_rr_set_ptr jdns_rr_new)
    else if pr.qtype == 16
    then decode_txt pr
    else if pr.qtype == 13
    then decode_hinfo pr
    else if pr.qtype == 2
    then (read_name_at_end pr ref 0 >>= jdns_rr_set_ns jdns_rr_new)
    else decode_other pr

-- 255 is `JDNS_RTYPE_ANY`.
unfoldable pub jdns_rr_from_resource : Resource → Packet → Outcome Rr
jdns_rr_from_resource pr ref =
    let decoded = (do
      rr ← decode pr ref
      done (record {
        owner = some (c_string pr.qname);
        ttl = pr.ttl % 2 ^ 32;
        type = rr.type;
        qclass = pr.qclass;
        rdlength = pr.rdlength;
        rdata = pr.rdata;
        known = rr.known;
      })) in
    if pr.qtype == 255 then error else decoded
