-- ===== src/Dns/Runs.antt =====
-- Concrete runs of the DNS code, and its theorems at concrete inputs.
use ambrosia.Prelude.{
  ℕ, ◌≡◌, ◌≢◌, refl, ◌↔◌, ◌⊎◌, ◌≤◌, true, false, List, [], ◌∷◌, ◌++◌, length, arith,
}
use ambrosia.Dns.Memory.{done, Ensures}
use ambrosia.Dns.Label.{readlabel, read_loop, follow, read_label, copy_label, hop, getoffset}
use ambrosia.Dns.Label.Spells.{Spells, dotted}
use ambrosia.Dns.Label.Exact.{readlabel_iff}
use ambrosia.Dns.Name.{
  jdns_packet_name_isvalid, sublabels_ok, convert_loop, name_to_label, wire_label, invalid,
}
use ambrosia.Dns.Name.Valid.{AreLabels, isvalid_iff}
use ambrosia.Prelude.Bits.{AreBytes}
use ambrosia.Dns.Name.Encode.{wire, name_to_label_cases}
use ambrosia.Dns.Compress.{
  into, matchlabel, match_at, match_hop, match_labels, same_bytes, Lookup, find_entry, shorten,
  new_entries, writelabel,
}
use ambrosia.Dns.Compress.Name.{Wrote, readlabel-writelabel}
use ambrosia.Dns.Compress.Total.{writelabel-Ensures}
use ambrosia.Dns.Compress.Equal.{SpellsAt, matchlabel_sound}
use ambrosia.Dns.Wire.{short2net}
use ambrosia.Dns.Packet.{Packet, read_opts, jdns_packet_import}
use ambrosia.Dns.Packet.Export.{
  append_question, append_qsection, append_rrsection, write_opts, jdns_packet_export,
}
use ambrosia.Dns.Packet.Header.{IsQuery, IsSame}
use ambrosia.Dns.Packet.RoundTrip.{jdns_packet_export-Ensures}
use ambrosia.Dns.Packet.Safety.{IsParsed, jdns_packet_import-Ensures}

-- `a.b.` at 0, and at 5 `c` with a pointer to 0.
abbrev message : List ℕ
message = 1 ∷ b'a' ∷ 1 ∷ b'b' ∷ 0 ∷ 1 ∷ b'c' ∷ 0xc0 ∷ 0 ∷ []

abbrev text : List ℕ
text = b'c' ∷ b'.' ∷ b'a' ∷ b'.' ∷ b'b' ∷ b'.' ∷ []

compressed : readlabel message message 5 ≡ done (9, text)
unfolding readlabel read_loop follow read_label copy_label hop getoffset
compressed = refl

readlabel_iff_example : (readlabel message message 5 ≡ done (9, text)) ↔ (
    (ls : List (List ℕ)) × Spells message message 5 8 ls 9
    × (text ≡ dotted ls)
    × (length text ≤ 255))
readlabel_iff_example = readlabel_iff message message 5 9 text (omega arith) (omega arith)

-- The pointer at 0 leads to itself.
abbrev looping : List ℕ
looping = 0xc0 ∷ 0 ∷ []

isvalid_iff_example :
    (jdns_packet_name_isvalid text ≡ true)
    ↔ ((ls : List (List ℕ)) × (ls ≢ []) × AreLabels ls × (text ≡ dotted ls) × (length text ≤ 254))
isvalid_iff_example = isvalid_iff text

abbrev host : List (List ℕ)
host = (b'c' ∷ b'o' ∷ []) ∷ (b'm' ∷ []) ∷ []

abbrev host_bytes : AreBytes (dotted host)
unfolding dotted
host_bytes = (omega arith, (omega arith, (omega arith, (omega arith, (omega arith, tt)))))

abbrev host_wire : List ℕ
host_wire = 2 ∷ b'c' ∷ b'o' ∷ 1 ∷ b'm' ∷ 0 ∷ []

abbrev host_entries : Lookup
host_entries =
    record { offset = 0; value = host_wire } ∷ record { offset = 3; value = 1 ∷ b'm' ∷ 0 ∷ [] } ∷ []

written : writelabel (dotted host) [] 20 [] ≡ done (host_wire, host_entries)
unfolding writelabel name_to_label jdns_packet_name_isvalid sublabels_ok convert_loop shorten
    new_entries find_entry dotted
written = refl

readlabel-writelabel_example :
    readlabel (host_wire ++ (7 ∷ [])) (host_wire ++ (7 ∷ [])) 0 ≡ done (6, dotted host)
readlabel-writelabel_example =
    readlabel-writelabel (dotted host) [] 20 [] host_wire host_entries (7 ∷ []) (tt, tt) host_bytes
      (omega arith, tt) (omega arith) written

writelabel-Ensures_example : Ensures (Wrote (dotted host) [] 20) (writelabel (dotted host) [] 20 [])
writelabel-Ensures_example =
    writelabel-Ensures (dotted host) [] 20 [] (tt, tt) host_bytes (omega arith)

-- `a.` at 0 and at 3.
abbrev twice : List ℕ
twice = 1 ∷ b'a' ∷ 0 ∷ 1 ∷ b'a' ∷ 0 ∷ []

abbrev a_label : List (List ℕ)
a_label = (b'a' ∷ []) ∷ []

at_first : SpellsAt twice (into twice 0) a_label
at_first = (
  8,
  3,
  Spells.label twice 0 8 1 2 (b'a' ∷ []) [] 3 refl (omega arith) (omega arith) (omega arith) refl
      refl (Spells.root twice 2 8 3 refl refl),
)

at_second : SpellsAt twice (into twice 3) a_label
at_second = (
  8,
  6,
  Spells.label twice 3 8 1 5 (b'a' ∷ []) [] 6 refl (omega arith) (omega arith) (omega arith) refl
      refl (Spells.root twice 5 8 6 refl refl),
)

twice_bytes : AreBytes twice
twice_bytes =
    (omega arith, (omega arith, (omega arith, (omega arith, (omega arith, (omega arith, tt))))))

matches : matchlabel twice 30 (into twice 0) (into twice 3) 8 8 ≡ done true
unfolding matchlabel match_at match_hop match_labels same_bytes
matches = refl

matchlabel_sound_example : a_label ≡ a_label
matchlabel_sound_example =
    matchlabel_sound twice 30 (into twice 0) (into twice 3) 8 8 a_label a_label twice_bytes
      (twice_bytes, λ e. refl) (twice_bytes, λ e. refl) matches at_first at_second

-- A query for the address of `a.`.
abbrev query : List ℕ
query = 0 ∷ 7 ∷ 1 ∷ 0 ∷ 0 ∷ 1 ∷ 0 ∷ 0 ∷ 0 ∷ 0 ∷ 0 ∷ 0 ∷ 1 ∷ b'a' ∷ 0 ∷ 0 ∷ 1 ∷ 0 ∷ 1 ∷ []

query_bytes : AreBytes query
query_bytes = (
  omega arith,
  (
    omega arith,
    (
      omega arith,
      (
        omega arith,
        (
          omega arith,
          (
            omega arith,
            (
              omega arith,
              (
                omega arith,
                (
                  omega arith,
                  (
                    omega arith,
                    (
                      omega arith,
                      (
                        omega arith,
                        (
                          omega arith,
                          (
                            omega arith,
                            (
                              omega arith,
                              (omega arith, (omega arith, (omega arith, (omega arith, tt)))),
                            ),
                          ),
                        ),
                      ),
                    ),
                  ),
                ),
              ),
            ),
          ),
        ),
      ),
    ),
  ),
)

jdns_packet_import-Ensures_example : Ensures (IsParsed query) (jdns_packet_import query)
jdns_packet_import-Ensures_example = jdns_packet_import-Ensures query query_bytes

name_to_label_cases_example :
    ((jdns_packet_name_isvalid text ≡ false) × (name_to_label text ≡ invalid))
    ⊎ ((ls : List (List ℕ)) × (ls ≢ [])
        × AreLabels ls
        × (text ≡ dotted ls)
        × (name_to_label text ≡ wire_label (wire ls ++ (0 ∷ [])))
        × (length (wire ls ++ (0 ∷ [])) ≤ 255))
name_to_label_cases_example = name_to_label_cases text

-- The same query, to be written.
abbrev asked : Packet
asked = record {
  id = 7;
  opts = read_opts 1 0;
  qdcount = 0;
  ancount = 0;
  nscount = 0;
  arcount = 0;
  questions = record { qname = b'a' ∷ b'.' ∷ []; qtype = 1; qclass = 1 } ∷ [];
  answer_records = [];
  authority_records = [];
  additional_records = [];
  fully_parsed = false;
  raw_data = [];
}

abbrev exported : Packet
exported = record {
  id = 7;
  opts = read_opts 1 0;
  qdcount = 1;
  ancount = 0;
  nscount = 0;
  arcount = 0;
  questions = record { qname = b'a' ∷ b'.' ∷ []; qtype = 1; qclass = 1 } ∷ [];
  answer_records = [];
  authority_records = [];
  additional_records = [];
  fully_parsed = false;
  raw_data = query;
}

export_run : jdns_packet_export asked 64 ≡ done exported
unfolding jdns_packet_export append_qsection append_question append_rrsection write_opts short2net
    writelabel name_to_label jdns_packet_name_isvalid sublabels_ok convert_loop shorten new_entries
    find_entry read_opts
export_run = refl

asked-IsQuery : IsQuery asked
asked-IsQuery = record {
  small_id = omega arith;
  few_questions = omega arith;
  fitting = (((omega arith, (omega arith, tt)), omega arith, omega arith), tt);
  no_answers = refl;
  no_authority = refl;
  no_additional = refl;
}

jdns_packet_export-Ensures_example :
    Ensures
      (λ p'. (q : Packet) × (jdns_packet_import p'.raw_data ≡ done q) × IsSame asked p'.raw_data q)
      (jdns_packet_export asked 64)
jdns_packet_export-Ensures_example = jdns_packet_export-Ensures asked 64 asked-IsQuery (omega arith)
