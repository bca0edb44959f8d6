-- ===== src/Dns/Util/Record.antt =====
-- `jdns_rr_t` of iris/irisnet/jdns/jdns_util.c: a resource record with its data decoded, when its
-- type is one that the library knows.
pub mod Decode
pub mod Copy
pub mod Decoded
use ambrosia.Prelude.{
  ℕ, zero, suc, ◌+◌, ◌≤◌, ◌<◌, ◌≡◌, refl, Bool, true, false, ◌||◌, Option, none, some, List, [],
  ◌∷◌, ◌++◌, length, ltb, ◌==◌, if◌then◌else◌, arith,
}
use ambrosia.Dns.Memory.{Outcome, done, error, fault, stuck, ◌>>=◌}
use ambrosia.Dns.Name.{jdns_packet_name_isvalid}
use ambrosia.Dns.Util.Text.{c_string}
use ambrosia.Dns.Util.Address.{Address, jdns_address_copy}
use ambrosia.Dns.Util.Params.{
  Server, copied, jdns_server_new, jdns_server_copy, jdns_server_set_name,
}

-- The union `data`.
pub data Known : Type 0 where
  address : Address → Known
  server : Server → Known
  name : List ℕ → Known
  texts : List (List ℕ) → Known
  hinfo : List ℕ → List ℕ → Known

-- `ttl` is an `int`, as its 32 bits in two's complement. A `type` of -1 is `none`, and so is `known` where `haveKnown` is 0. `rdata` has `rdlength` bytes,
-- or is null.
pub record Rr : Type 0 where
  pub owner : Option (List ℕ)
  pub ttl : ℕ
  pub type : Option ℕ
  pub qclass : ℕ
  pub rdlength : ℕ
  pub rdata : List ℕ
  pub known : Option Known

-- The member of the union that a type uses.
pub data Kind : Type 0 where
  of_address of_server of_name of_texts of_hinfo of_other : Kind

abbrev pub kind : ℕ → Kind
kind type =
    if (type == 1) || (type == 28)
    then of_address
    else if (type == 15) || (type == 33)
    then of_server
    else if (type == 5) || ((type == 12) || (type == 2))
    then of_name
    else if type == 16
    then of_texts
    else if type == 13
    then of_hinfo
    else of_other

abbrev pub jdns_rr_new : Rr
jdns_rr_new = record {
  owner = none;
  ttl = 0;
  type = none;
  qclass = 0;
  rdlength = 0;
  rdata = [];
  known = none;
}

-- The member is the one that the type uses. Reading another member is undefined.
pub data Fits : Kind → Known → Type 0 where
  fits_address : {a : Address} → Fits of_address (address a)
  fits_server : {s : Server} → Fits of_server (server s)
  fits_name : {n : List ℕ} → Fits of_name (name n)
  fits_texts : {t : List (List ℕ)} → Fits of_texts (texts t)
  fits_hinfo : {cpu os : List ℕ} → Fits of_hinfo (hinfo cpu os)

-- `_jdns_rr_data_reset`, its frees of the known data included.
abbrev pub reset_known : Kind → Known → Outcome (Option Known)
reset_known of_address (address a) = done none
reset_known of_server (server s) = done none
reset_known of_name (name n) = done none
reset_known of_texts (texts t) = done none
reset_known of_hinfo (hinfo cpu os) = done none
reset_known of_other k = done none
reset_known _ _ = fault

abbrev pub kind_of : Option ℕ → Kind
kind_of none = of_other
kind_of (some type) = kind type

unfoldable pub data_reset : Rr → Outcome Rr
data_reset r =
    elim r.known [ none ↦ done none | some k ↦ reset_known (kind_of r.type) k ] >>= λ known.
    done (record {
      owner = r.owner;
      ttl = r.ttl;
      type = none;
      qclass = r.qclass;
      rdlength = 0;
      rdata = [];
      known = known;
    })

abbrev pub copy_known : Kind → Known → Outcome Known
copy_known of_address (address a) = done (address (jdns_address_copy a))
copy_known of_server (server s) = done (server (jdns_server_copy s))
copy_known of_name (name n) = done (name (c_string n))
copy_known of_texts (texts t) = done (texts t)
copy_known of_hinfo (hinfo cpu os) = done (hinfo cpu os)
copy_known _ _ = fault

-- The `type`, the data and the known data of `r`, as `_jdns_rr_data_copy` leaves them in a new
-- record; `qclass` is not among them.
unfoldable pub jdns_rr_copy : Rr → Outcome Rr
jdns_rr_copy r =
    elim r.known [
      | none ↦ done none
      | some k ↦ (copy_known (kind_of r.type) k >>= λ c. done (some c))
    ]
    >>= λ known. done (record {
      owner = copied c_string r.owner;
      ttl = r.ttl;
      type = r.type;
      qclass = 0;
      rdlength = r.rdlength;
      rdata = r.rdata;
      known = known;
    })

unfoldable pub jdns_rr_set_owner : Rr → List ℕ → Rr
jdns_rr_set_owner r n = record {
  owner = some (c_string n);
  ttl = r.ttl;
  type = r.type;
  qclass = r.qclass;
  rdlength = r.rdlength;
  rdata = r.rdata;
  known = r.known;
}

unfoldable pub jdns_rr_set_record : Rr → ℕ → List ℕ → Outcome Rr
jdns_rr_set_record r type rdata = do
  clean ← data_reset r
  done (record {
    owner = clean.owner;
    ttl = clean.ttl;
    type = some type;
    qclass = clean.qclass;
    rdlength = length rdata;
    rdata = rdata;
    known = clean.known;
  })

-- What the setters of known types do: reset, then the type and its member.
unfoldable pub set_known : Rr → ℕ → Known → Outcome Rr
set_known r type k = do
  clean ← data_reset r
  done (record {
    owner = clean.owner;
    ttl = clean.ttl;
    type = some type;
    qclass = clean.qclass;
    rdlength = clean.rdlength;
    rdata = clean.rdata;
    known = some k;
  })

abbrev pub jdns_rr_set_a : Rr → Address → Outcome Rr
jdns_rr_set_a r a = set_known r 1 (address (jdns_address_copy a))

abbrev pub jdns_rr_set_aaaa : Rr → Address → Outcome Rr
jdns_rr_set_aaaa r a = set_known r 28 (address (jdns_address_copy a))

abbrev pub mx_server : List ℕ → ℕ → Server
mx_server n priority = record {
  name = (jdns_server_set_name jdns_server_new n).name;
  port = 0;
  priority = priority;
  weight = 0;
}

abbrev pub jdns_rr_set_mx : Rr → List ℕ → ℕ → Outcome Rr
jdns_rr_set_mx r n priority = set_known r 15 (server (mx_server n priority))

abbrev pub srv_server : List ℕ → ℕ → ℕ → ℕ → Server
srv_server n port priority weight = record {
  name = (jdns_server_set_name jdns_server_new n).name;
  port = port;
  priority = priority;
  weight = weight;
}

abbrev pub jdns_rr_set_srv : Rr → List ℕ → ℕ → ℕ → ℕ → Outcome Rr
jdns_rr_set_srv r n port priority weight =
    set_known r 33 (server (srv_server n port priority weight))

abbrev pub jdns_rr_set_cname : Rr → List ℕ → Outcome Rr
jdns_rr_set_cname r n = set_known r 5 (name (c_string n))

abbrev pub jdns_rr_set_ptr : Rr → List ℕ → Outcome Rr
jdns_rr_set_ptr r n = set_known r 12 (name (c_string n))

abbrev pub jdns_rr_set_txt : Rr → List (List ℕ) → Outcome Rr
jdns_rr_set_txt r t = set_known r 16 (texts t)

abbrev pub jdns_rr_set_hinfo : Rr → List ℕ → List ℕ → Outcome Rr
jdns_rr_set_hinfo r cpu os = set_known r 13 (hinfo cpu os)

abbrev pub jdns_rr_set_ns : Rr → List ℕ → Outcome Rr
jdns_rr_set_ns r n = set_known r 2 (name (c_string n))

-- `jdns_packet_name_isvalid(s, _ustrlen(s))`; the length of a null pointer is undefined.
abbrev valid_name : Option (List ℕ) → Outcome Bool
valid_name none = fault
valid_name (some s) = done (jdns_packet_name_isvalid (c_string s))

abbrev all_short : List (List ℕ) → Bool
all_short [] = true
all_short (t ∷ ts) = let rest = all_short ts in if ltb 255 (length t) then false else rest

-- The `switch` of `jdns_rr_verify`; a record without known data passes it.
abbrev verify_known : Kind → Known → Outcome Bool
verify_known of_address k = done true
verify_known of_other k = done true
verify_known of_server (server s) = valid_name s.name
verify_known of_name (name n) = valid_name (some n)
verify_known of_texts (texts t) = done (all_short t)
verify_known of_hinfo (hinfo cpu os) =
    done (if ltb 255 (length cpu) then false else if ltb 255 (length os) then false else true)
verify_known _ _ = fault

unfoldable pub jdns_rr_verify : Rr → Outcome Bool
jdns_rr_verify r = elim r.type [
  | none ↦ done false
  | some type ↦ (do
    valid ← valid_name r.owner
    let rest : Outcome Bool = elim r.known [
      | none ↦ done true
      | some k ↦ verify_known (kind type) k
    ]
    if valid then rest else done false)
]

-- The union holds the member that the type uses.
abbrev pub IsTyped : Rr → Type 0
IsTyped r = (k : Known) → r.known ≡ some k → Fits (kind_of r.type) k
