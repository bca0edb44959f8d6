-- ===== src/Dns/Packet/Export.antt =====
-- How packets are written: `append_qsection`, `append_rrsection` and `jdns_packet_export` of
-- iris/irisnet/jdns/jdns_packet.c. The bytes from the packet's start to `buf` are a list that grows
-- at its end; `last` is `start` and the size of the allocation.
use ambrosia.Prelude.{
  ℕ, ◌+◌, ◌-◌, ◌*◌, ◌%◌, ◌^◌, List, [], ◌∷◌, ◌++◌, length, take, drop, ltb, ◌==◌, if◌then◌else◌,
  bit_or,
}
use ambrosia.Dns.Memory.{Outcome, done, error, ◌>>=◌}
use ambrosia.Dns.Compress.{Lookup, writelabel}
use ambrosia.Dns.Wire.{short2net, long2net}
use ambrosia.Dns.Packet.{Question, Write, Resource, Opts, Packet, raw_bytes, name_text}

-- One round of `append_qsection`.
unfoldable pub append_question : Question → List ℕ → ℕ → Lookup → Outcome (List ℕ × Lookup)
append_question q block size lookup = do
  (named, known) ← writelabel q.qname block (size - length block) lookup
  let full = named ++ (short2net q.qtype ++ short2net q.qclass)
  if ltb size (length named + 4) then error else done (full, known)

unfoldable pub append_qsection : List Question → List ℕ → ℕ → Lookup → Outcome (List ℕ × Lookup)
append_qsection [] block size lookup = done (block, lookup)
append_qsection (q ∷ rest) block size lookup = do
  (next, known) ← append_question q block size lookup
  append_qsection rest next size known

-- The write log of a record (`// play write log`).
unfoldable pub play_log : List Write → List ℕ → ℕ → Lookup → Outcome (List ℕ × Lookup)
play_log [] block size lookup = done (block, lookup)
play_log (raw_bytes value ∷ log) block size lookup =
    let rest = play_log log (block ++ value) size lookup in
    if ltb size (length block + length value) then error else rest
play_log (name_text value ∷ log) block size lookup = do
  (next, known) ← writelabel value block (size - length block) lookup
  play_log log next size known

-- `short2net(i - 2, &rdlengthp)`: the length goes into the two bytes that were skipped.
unfoldable pub put_rdlength : ℕ → List ℕ → List ℕ
put_rdlength at block = take at block ++ (short2net (length block - at - 2) ++ drop (at + 2) block)

-- One round of `append_rrsection`. The bytes that it skips are zero, as is the whole allocation.
unfoldable pub append_resource : Resource → List ℕ → ℕ → Lookup → Outcome (List ℕ × Lookup)
append_resource r block size lookup = do
  (named, known) ← writelabel r.qname block (size - length block) lookup
  let fixed = named ++ (short2net r.qtype ++ (short2net r.qclass ++ long2net r.ttl))
  let rest = (do
    (full, later) ← play_log r.writelog (fixed ++ (0 ∷ 0 ∷ [])) size known
    done (put_rdlength (length fixed) full, later))
  if ltb size (length named + 10) then error else rest

unfoldable pub append_rrsection : List Resource → List ℕ → ℕ → Lookup → Outcome (List ℕ × Lookup)
append_rrsection [] block size lookup = done (block, lookup)
append_rrsection (r ∷ rest) block size lookup = do
  (next, known) ← append_resource r block size lookup
  append_rrsection rest next size known

-- `if(flag) buf[i] |= mask`, which stores a byte.
abbrev pub set_flag : ℕ → ℕ → ℕ → ℕ
set_flag field mask byte = if field == 0 then byte else bit_or byte mask % 256

-- The two bytes of the options, from zero.
unfoldable pub write_opts : Opts → List ℕ
write_opts o =
    let qr = set_flag o.qr 0x80 0 in
    let opcode = bit_or qr (o.opcode % 256 * 2 ^ 3) % 256 in
    let first = set_flag o.rd 0x01 (set_flag o.tc 0x02 (set_flag o.aa 0x04 opcode)) in
    let z = bit_or (set_flag o.ra 0x80 0) (o.z % 256 * 2 ^ 4) % 256 in
    first ∷ (bit_or z (o.rcode % 256) % 256) ∷ []

abbrev pub header : Packet → List ℕ
header p =
    short2net p.id
    ++ (write_opts p.opts
        ++ (short2net (length p.questions)
            ++ (short2net (length p.answer_records)
                ++ (short2net (length p.authority_records)
                    ++ short2net (length p.additional_records)))))

-- The packet with its counts and its raw data. On `error` the source has dropped the raw data that
-- the packet had, and changed nothing else.
unfoldable pub jdns_packet_export : Packet → ℕ → Outcome Packet
jdns_packet_export p maxsize = if ltb maxsize 12 then error else (do
  (questions, a) ← append_qsection p.questions (header p) maxsize []
  (answers, b) ← append_rrsection p.answer_records questions maxsize a
  (authority, c) ← append_rrsection p.authority_records answers maxsize b
  (block, d) ← append_rrsection p.additional_records authority maxsize c
  done (record {
    id = p.id;
    opts = p.opts;
    qdcount = length p.questions;
    ancount = length p.answer_records;
    nscount = length p.authority_records;
    arcount = length p.additional_records;
    questions = p.questions;
    answer_records = p.answer_records;
    authority_records = p.authority_records;
    additional_records = p.additional_records;
    fully_parsed = p.fully_parsed;
    raw_data = block;
  }))
