-- ===== src/Dns/Packet/Header.antt =====
-- The header that `jdns_packet_export` writes, as `jdns_packet_import` reads it, for packets without
-- records.
use ambrosia.Prelude.{
  ℕ, ◌+◌, ◌*◌, ◌%◌, ◌^◌, bit_or, ◌<◌, ◌≡◌, refl, ap, true, false, some, List, [], ◌++◌, append-nil,
  length, ltb, ◌==◌, arith,
}
use ambrosia.Prelude.Bits.{IsByte, AreBytes}
use ambrosia.Dns.Memory.{done, peek-done}
use ambrosia.Dns.Compress.Write.{AreBytes-append}
use ambrosia.Dns.Wire.{net2short, short2net, net2short-short2net}
use ambrosia.Dns.Packet.{
  Packet, Opts, read_opts, question_at, process_section, then_section, jdns_packet_import,
}
use ambrosia.Dns.Packet.Export.{set_flag, header, write_opts}
use ambrosia.Dns.Packet.Query.{AllFitting}

set_flag-IsByte : (field mask byte : ℕ) → IsByte byte → IsByte (set_flag field mask byte)
set_flag-IsByte field mask byte h = ground arith

-- The twelve bytes of the header, and its numbers where they stand.
write_opts-AreBytes : (o : Opts) → AreBytes (write_opts o)
unfolding write_opts
write_opts-AreBytes o =
    let opcode = bit_or (set_flag o.qr 0x80 0) (o.opcode % 256 * 2 ^ 3) % 256 in
    let aa = set_flag-IsByte o.aa 0x04 opcode (omega arith) in
    let tc = set_flag-IsByte o.tc 0x02 _ aa in (set_flag-IsByte o.rd 0x01 _ tc, (omega arith, tt))

pub header-AreBytes : (p : Packet) → AreBytes (header p)
unfolding short2net
header-AreBytes p = (
  omega arith,
  (
    omega arith,
    AreBytes-append (write_opts p.opts) _ (write_opts-AreBytes p.opts) (
      omega arith,
      (
        omega arith,
        (
          omega arith,
          (omega arith, (omega arith, (omega arith, (omega arith, (omega arith, tt))))),
        ),
      ),
    ),
  ),
)

module _ (p : Packet) (ext : List ℕ) where
  length-header : length (header p ++ ext) ≡ 12 + length ext
  unfolding short2net write_opts
  length-header = omega arith

  id_there : p.id < 65536 → net2short (header p ++ ext) 0 ≡ done p.id
  unfolding short2net write_opts
  id_there h = net2short-short2net p.id [] _ 0 refl h

  qdcount_there :
      length p.questions < 65536 → net2short (header p ++ ext) 4 ≡ done (length p.questions)
  unfolding short2net write_opts
  qdcount_there h =
      net2short-short2net (length p.questions) (short2net p.id ++ write_opts p.opts) _ 4 refl h

  ancount_there : p.answer_records ≡ [] → net2short (header p ++ ext) 6 ≡ done 0
  unfolding short2net write_opts net2short
  ancount_there e = rw e refl

  nscount_there : p.authority_records ≡ [] → net2short (header p ++ ext) 8 ≡ done 0
  unfolding short2net write_opts net2short
  nscount_there e = rw e refl

  arcount_there : p.additional_records ≡ [] → net2short (header p ++ ext) 10 ≡ done 0
  unfolding short2net write_opts net2short
  arcount_there e = rw e refl

pub header_size : (p : Packet) → length (header p) ≡ 12
header_size p = ground (arith, ap length (append-nil (header p)), length-header p [])

-- A packet without records that fits the fields of a datagram.
pub record IsQuery (p : Packet) : Type 0 where
  pub small_id : p.id < 65536
  pub few_questions : length p.questions < 65536
  pub fitting : AllFitting p.questions
  pub no_answers : p.answer_records ≡ []
  pub no_authority : p.authority_records ≡ []
  pub no_additional : p.additional_records ≡ []

-- The packet that is read back.
pub record IsSame (p : Packet) (buf : List ℕ) (q : Packet) : Type 0 where
  pub same_id : q.id ≡ p.id
  pub same_questions : q.questions ≡ p.questions
  pub answers_empty : q.answer_records ≡ []
  pub authority_empty : q.authority_records ≡ []
  pub additional_empty : q.additional_records ≡ []
  pub all_read : q.fully_parsed ≡ true
  pub same_data : q.raw_data ≡ buf

abbrev read_back : Packet → ℕ → ℕ → List ℕ → Packet
read_back p a b buf = record {
  id = p.id;
  opts = read_opts a b;
  qdcount = length p.questions;
  ancount = 0;
  nscount = 0;
  arcount = 0;
  questions = p.questions;
  answer_records = [];
  authority_records = [];
  additional_records = [];
  fully_parsed = true;
  raw_data = buf;
}

pub import_header :
    (p : Packet) (ext : List ℕ) (end : ℕ)
    → IsQuery p
    → process_section question_at (header p ++ ext) (length p.questions) 12 []
      ≡ done (p.questions, some end)
    → (q : Packet) × (jdns_packet_import (header p ++ ext) ≡ done q) × IsSame p (header p ++ ext) q
unfolding jdns_packet_import then_section process_section
import_header p ext end query e =
    let buf = header p ++ ext in
    let long = length-header p ext in
    let some_data : (length buf == 0) ≡ false = ground (arith, long) in
    let enough : ltb (length buf) 12 ≡ false = ground (arith, long) in
    let (a, ea) = peek-done buf 2 (omega (arith, long)) in
    let (b, eb) = peek-done buf 3 (omega (arith, long)) in
    let i = id_there p ext query.small_id in
    let qd = qdcount_there p ext query.few_questions in
    let an = ancount_there p ext query.no_answers in
    let ns = nscount_there p ext query.no_authority in
    let ar = arcount_there p ext query.no_additional in
    (
      read_back p a b buf,
      rw (some_data, enough, i, ea, eb, qd, an, ns, ar, e) refl,
      record {
        same_id = refl;
        same_questions = refl;
        answers_empty = refl;
        authority_empty = refl;
        additional_empty = refl;
        all_read = refl;
        same_data = refl;
      },
    )
