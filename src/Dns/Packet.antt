-- ===== src/Dns/Packet.antt =====
-- Packets and how they are read: `jdns_packet_import` of iris/irisnet/jdns/jdns_packet.c, with the
-- structures of iris/irisnet/jdns/jdns_packet.h. A value list of the source is a list; the copies
-- that it makes of its items are the items.
pub mod Safety
pub mod Export
pub mod Query
pub mod Header
pub mod RoundTrip
use ambrosia.Prelude.{
  ℕ, zero, suc, ◌+◌, ◌/◌, ◌%◌, ◌^◌, Bool, true, false, not, Option, none, some, List, [], ◌∷◌, ◌++◌,
  length, drop, ltb, ◌==◌, if◌then◌else◌, bit_and,
}
use ambrosia.Dns.Memory.{Outcome, done, error, fault, stuck, ◌>>=◌, peek, copy}
use ambrosia.Dns.Label.{readlabel}
use ambrosia.Dns.Wire.{net2short, net2long}

pub record Question : Type 0 where
  pub qname : List ℕ
  pub qtype : ℕ
  pub qclass : ℕ

-- `jdns_packet_write_t`
pub data Write : Type 0 where
  raw_bytes name_text : List ℕ → Write

pub record Resource : Type 0 where
  pub qname : List ℕ
  pub qtype : ℕ
  pub qclass : ℕ
  pub ttl : ℕ
  pub rdlength : ℕ
  pub rdata : List ℕ
  pub writelog : List Write

pub record Opts : Type 0 where
  pub qr : ℕ
  pub opcode : ℕ
  pub aa : ℕ
  pub tc : ℕ
  pub rd : ℕ
  pub ra : ℕ
  pub z : ℕ
  pub rcode : ℕ

pub record Packet : Type 0 where
  pub id : ℕ
  pub opts : Opts
  pub qdcount : ℕ
  pub ancount : ℕ
  pub nscount : ℕ
  pub arcount : ℕ
  pub questions : List Question
  pub answer_records : List Resource
  pub authority_records : List Resource
  pub additional_records : List Resource
  pub fully_parsed : Bool
  pub raw_data : List ℕ

-- One round of `process_qsection`: the question at `offset`, and where the next item stands.
unfoldable pub question_at : List ℕ → ℕ → Outcome (Question × ℕ)
question_at buf offset = do
  (at, name) ← readlabel (drop offset buf) buf 0
  let from = offset + at
  let rest = (do
    qtype ← net2short buf from
    qclass ← net2short buf (from + 2)
    done (record { qname = name; qtype = qtype; qclass = qclass }, from + 4))
  if ltb (length buf) (from + 4) then error else rest

-- One round of `process_rrsection`.
unfoldable pub resource_at : List ℕ → ℕ → Outcome (Resource × ℕ)
resource_at buf offset = do
  (at, name) ← readlabel (drop offset buf) buf 0
  let from = offset + at
  let rest = (do
    qtype ← net2short buf from
    qclass ← net2short buf (from + 2)
    ttl ← net2long buf (from + 4)
    rdlength ← net2short buf (from + 8)
    let body = (do
      rdata ← copy buf (from + 10) rdlength
      done (
        record {
          qname = name;
          qtype = qtype;
          qclass = qclass;
          ttl = ttl;
          rdlength = rdlength;
          rdata = rdata;
          writelog = [];
        },
        from + 10 + rdlength,
      ))
    if ltb (length buf) (from + 10 + rdlength) then error else body)
  if ltb (length buf) (from + 10) then error else rest

-- `process_qsection` and `process_rrsection`, over how an item is read. The items before an error
-- stay in `dest`; `none` is the return of 0, else the value is `*bufp` at the end.
unfoldable pub process_section {ℓ} :
    {A : Type ℓ}
    → (List ℕ → ℕ → Outcome (A × ℕ))
    → List ℕ
    → ℕ
    → ℕ
    → List A
    → Outcome (List A × Option ℕ)
process_section item buf zero offset dest = done (dest, some offset)
process_section item buf (suc count) offset dest = elim (item buf offset) [
  | done (a, next) ↦ process_section item buf count next (dest ++ (a ∷ []))
  | error ↦ done (dest, none)
  | fault ↦ fault
  | stuck ↦ stuck
]

-- A section after one that failed stays empty (`goto skip`).
unfoldable pub then_section {ℓ} :
    {A : Type ℓ}
    → (List ℕ → ℕ → Outcome (A × ℕ))
    → List ℕ
    → ℕ
    → Option ℕ
    → Outcome (List A × Option ℕ)
then_section item buf count none = done ([], none)
then_section item buf count (some offset) = process_section item buf count offset []

abbrev pub flag : ℕ → ℕ → ℕ
flag byte mask = if bit_and byte mask == 0 then 0 else 1

unfoldable pub read_opts : ℕ → ℕ → Opts
read_opts a b = record {
  qr = flag a 0x80;
  opcode = bit_and a 0x78 / 2 ^ 3;
  aa = flag a 0x04;
  tc = flag a 0x02;
  rd = flag a 0x01;
  ra = flag b 0x80;
  z = bit_and b 0x70 / 2 ^ 4;
  rcode = bit_and b 0x0f;
}

-- `data` is a pointer and `size` its length; the source also refuses a null pointer.
unfoldable pub jdns_packet_import : List ℕ → Outcome Packet
jdns_packet_import buf =
    if length buf == 0 then error else if ltb (length buf) 12 then error else (do
      id ← net2short buf 0
      a ← peek buf 2
      b ← peek buf 3
      qdcount ← net2short buf 4
      ancount ← net2short buf 6
      nscount ← net2short buf 8
      arcount ← net2short buf 10
      (questions, q_end) ← process_section question_at buf qdcount 12 []
      (answers, an_end) ← then_section resource_at buf ancount q_end
      (authority, ns_end) ← then_section resource_at buf nscount an_end
      (additional, ar_end) ← then_section resource_at buf arcount ns_end
      done (record {
        id = id;
        opts = read_opts a b;
        qdcount = qdcount;
        ancount = ancount;
        nscount = nscount;
        arcount = arcount;
        questions = questions;
        answer_records = answers;
        authority_records = authority;
        additional_records = additional;
        fully_parsed = elim ar_end [ none ↦ false | some _ ↦ true ];
        raw_data = buf;
      }))
