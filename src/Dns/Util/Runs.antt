-- ===== src/Dns/Util/Runs.antt =====
-- Concrete runs of the objects' code, and its theorems at concrete inputs.
use ambrosia.Prelude.{
  ℕ, ◌+◌, ◌-◌, ◌*◌, ◌≡◌, ◌⊎◌, refl, true, false, some, List, [], ◌∷◌, ◌++◌, arith,
}
use ambrosia.Dns.Memory.{done, fault, Ensures}
use ambrosia.Dns.Packet.{Resource, Packet, read_opts}
use ambrosia.Dns.Util.Items.{Items}
use ambrosia.Dns.Util.Text.{jdns_string_split, split_loop, jdns_string_index_of}
use ambrosia.Dns.Util.Text.Split.{joined, AllFree, jdns_string_split-joined}
use ambrosia.Dns.Util.Address.{jdns_address_set_ipv4, jdns_address_set_ipv6}
use ambrosia.Dns.Util.Address.Parse.{
  ℤ, pos, v4_loop, set_cstr_v4, fill_zeros, v6_loop, set_cstr_v6, jdns_address_set_cstr,
}
use ambrosia.Dns.Util.Record.{Rr, IsTyped, jdns_rr_new, texts}
use ambrosia.Dns.Util.Record.Decode.{jdns_rr_from_resource}
use ambrosia.Dns.Util.Record.Decoded.{Decoded, jdns_rr_from_resource-Ensures}

abbrev three : Items ℕ
three = record { item = 1 ∷ 2 ∷ 3 ∷ []; value_list = true; auto_delete = false }

abbrev path : List ℕ
path = b'a' ∷ b':' ∷ b':' ∷ b'b' ∷ []

jdns_string_split-joined_example :
    (items : List (List ℕ)) × (jdns_string_split path b':' ≡ done items)
    × AllFree b':' items
    × ((path ≡ joined b':' items) ⊎ (path ++ (b':' ∷ []) ≡ joined b':' items))
jdns_string_split-joined_example = jdns_string_split-joined path b':'

abbrev note : List (List ℕ)
note = (b'h' ∷ b'i' ∷ []) ∷ []

new_IsTyped : IsTyped jdns_rr_new
new_IsTyped k e = cc

-- A text record of class 1.
abbrev text_record : Rr
text_record = record {
  owner = some (b'a' ∷ b'.' ∷ []);
  ttl = 120;
  type = some 16;
  qclass = 1;
  rdlength = 3;
  rdata = 2 ∷ b'h' ∷ b'i' ∷ [];
  known = some (texts note);
}

abbrev resource : Resource
resource = record {
  qname = b'a' ∷ b'.' ∷ [];
  qtype = 16;
  qclass = 1;
  ttl = 120;
  rdlength = 3;
  rdata = 2 ∷ b'h' ∷ b'i' ∷ [];
  writelog = [];
}

abbrev packet : Packet
packet = record {
  id = 7;
  opts = read_opts 0x81 0x80;
  qdcount = 0;
  ancount = 1;
  nscount = 0;
  arcount = 0;
  questions = [];
  answer_records = resource ∷ [];
  authority_records = [];
  additional_records = [];
  fully_parsed = true;
  raw_data = [];
}

jdns_rr_from_resource-Ensures_example :
    Ensures (Decoded resource) (jdns_rr_from_resource resource packet)
jdns_rr_from_resource-Ensures_example =
    jdns_rr_from_resource-Ensures resource packet (omega arith, (omega arith, (omega arith, tt)))
      refl

-- A reading of decimal digits, in the place of `strtol`.
abbrev digits : ℕ → ℕ → List ℕ → ℤ
digits base value [] = pos value
digits base value (c ∷ cs) = digits base (value * base + (c - 48)) cs

abbrev number : ℕ → List ℕ → ℤ
number base text = digits base 0 text

-- `1.2.3.4`, the same with a fifth part, and with a fifth part that is no byte.
abbrev four : List ℕ
four = b'1' ∷ b'.' ∷ b'2' ∷ b'.' ∷ b'3' ∷ b'.' ∷ b'4' ∷ []

four_parts : jdns_address_set_cstr number four ≡ done (jdns_address_set_ipv4 0x01020304)
unfolding jdns_address_set_cstr set_cstr_v4 v4_loop
four_parts = refl

five_parts : jdns_address_set_cstr number (four ++ (b'.' ∷ b'5' ∷ [])) ≡ fault
unfolding jdns_address_set_cstr set_cstr_v4 v4_loop
five_parts = refl

bad_fifth_part :
    jdns_address_set_cstr number (four ++ (b'.' ∷ b'9' ∷ b'9' ∷ b'9' ∷ []))
    ≡ done (jdns_address_set_ipv4 0x01020304)
unfolding jdns_address_set_cstr set_cstr_v4 v4_loop
bad_fifth_part = refl

-- `::1`
loopback :
    jdns_address_set_cstr number (b':' ∷ b':' ∷ b'1' ∷ [])
    ≡ done
        (jdns_address_set_ipv6 (0 ∷ 0 ∷ 0 ∷ 0 ∷ 0 ∷ 0 ∷ 0 ∷ 0 ∷ 0 ∷ 0 ∷ 0 ∷ 0 ∷ 0 ∷ 0 ∷ 0 ∷ 1 ∷ []))
unfolding jdns_address_set_cstr set_cstr_v6 v6_loop fill_zeros jdns_string_split split_loop
    jdns_string_index_of
loopback = refl

-- `1:2:3` fills six of the sixteen bytes.
three_groups : jdns_address_set_cstr number (b'1' ∷ b':' ∷ b'2' ∷ b':' ∷ b'3' ∷ []) ≡ fault
unfolding jdns_address_set_cstr set_cstr_v6 v6_loop fill_zeros jdns_string_split split_loop
    jdns_string_index_of
three_groups = refl
