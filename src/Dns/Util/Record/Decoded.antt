-- ===== src/Dns/Util/Record/Decoded.antt =====
-- `jdns_rr_from_resource` on the resources of a packet.
use ambrosia.Prelude.{
  ◌%◌, ◌^◌, ℕ, zero, suc, ◌+◌, ◌≤◌, ◌<◌, ◌≡◌, ◌≢◌, refl, subst, false, Option, none, some,
  Bool-cases, inl, inr, List, length, ltb, ◌==◌, if◌then◌else◌, arith,
}
use ambrosia.Prelude.Bits.{AreBytes}
use ambrosia.Dns.Memory.{Outcome, ◌>>=◌, peek-done, copy-done, Ensures, Ensures-bind}
use ambrosia.Dns.Label.{readlabel}
use ambrosia.Dns.Label.Safety.{readlabel-Ensures, InBounds}
use ambrosia.Dns.Wire.{net2short-done, net2long-done}
use ambrosia.Dns.Packet.{Resource, Packet}
use ambrosia.Dns.Util.Text.{c_string}
use ambrosia.Dns.Util.Record.{
  Known, Kind, of_other, Fits, fits_address, fits_server, fits_name, fits_texts, fits_hinfo, Rr,
  kind, set_known, data_reset, jdns_rr_new,
}
use ambrosia.Dns.Util.Record.Decode.{
  read_name_at_end, read_text_string, read_texts, decode_a, decode_aaaa, decode_mx, decode_srv,
  decode_txt, decode_hinfo, decode, jdns_rr_from_resource,
}

-- A record of a known type has the type's data, another has none.
abbrev pub Member : Kind → Option Known → Type 0
Member c (some k) = Fits c k
Member of_other none = Unit
Member _ none = ⊥

abbrev Typed : ℕ → Rr → Type 0
Typed type rr = (rr.type ≡ some type) × Member (kind type) rr.known

name_Ensures :
    (pr : Resource) (ref : Packet) (at : ℕ)
    → Ensures (λ (n : List ℕ). Unit) (read_name_at_end pr ref at)
unfolding read_name_at_end
name_Ensures pr ref at =
    Ensures-bind (InBounds pr.rdata at) (λ _. Unit) (readlabel pr.rdata ref.raw_data at) _
      (readlabel-Ensures pr.rdata ref.raw_data at)
      (λ (end, n) h. elim (Bool-cases (end == pr.rdlength)) [ inl e ↦ rw e tt | inr e ↦ rw e tt ])

module _ (pr : Resource) (whole : length pr.rdata ≡ pr.rdlength) where
  text_Ensures :
      (at : ℕ)
      → Ensures (λ (p : List ℕ × ℕ). (at < p.1) × (p.1 ≤ pr.rdlength)) (read_text_string pr at)
  unfolding read_text_string
  text_Ensures at = elim (Bool-cases (ltb pr.rdlength (at + 1))) [
    | inl short ↦ rw short tt
    | inr long ↦
        let (len, el) = peek-done pr.rdata at (ground arith) in
        elim (Bool-cases (ltb pr.rdlength (at + 1 + len))) [
          | inl cut ↦ rw (long, el, cut) tt
          | inr there ↦
              rw (long, el, there, copy-done pr.rdata (at + 1) len (ground arith))
                (omega arith, ground arith)
        ]
  ]

  texts_Ensures :
      (fuel at : ℕ)
      → pr.rdlength < at + fuel
      → at ≤ pr.rdlength
      → Ensures (λ (ts : List (List ℕ)). Unit) (read_texts pr fuel at)
  unfolding read_texts
  texts_Ensures zero at h k = absurd (omega arith)
  texts_Ensures (suc fuel) at h k = elim (Bool-cases (ltb at pr.rdlength)) [
    | inr end ↦ rw end tt
    | inl more ↦ rw more (
        Ensures-bind (λ (p : List ℕ × ℕ). (at < p.1) × (p.1 ≤ pr.rdlength)) (λ _. Unit)
          (read_text_string pr at) _ (text_Ensures at)
          (λ (str, next) n.
            Ensures-bind (λ _. Unit) (λ _. Unit) (read_texts pr fuel next) _
              (texts_Ensures fuel next (omega arith) n.1) (λ rest u. tt)))
  ]

set_new :
    (type : ℕ) (k : Known)
    → Fits (kind type) k
    → Ensures (Typed type) (set_known jdns_rr_new type k)
unfolding set_known data_reset
set_new type k fits = (refl, fits)

module _ (pr : Resource) (ref : Packet) (bytes : AreBytes pr.rdata)
    (whole : length pr.rdata ≡ pr.rdlength) where
  mx_Ensures : Ensures (Typed 15) (decode_mx pr ref)
  mx_Ensures = elim (Bool-cases (ltb pr.rdlength 2)) [
    | inl short ↦ rw short tt
    | inr long ↦
        let (v, ev, bv) = net2short-done pr.rdata 0 bytes (ground arith) in
        rw (long, ev)
          (Ensures-bind (λ (n : List ℕ). Unit) (Typed 15) (read_name_at_end pr ref 2) _
            (name_Ensures pr ref 2) (λ n u. set_new 15 _ fits_server))
  ]

  named_Ensures :
      (type : ℕ)
      → (known : List ℕ → Known) → ((n : List ℕ) → Fits (kind type) (known n))
      → Ensures
          (Typed type)
          (read_name_at_end pr ref 0 >>= λ n. set_known jdns_rr_new type (known n))
  named_Ensures type known fits =
      Ensures-bind (λ (n : List ℕ). Unit) (Typed type) (read_name_at_end pr ref 0) _
        (name_Ensures pr ref 0) (λ n u. set_new type (known n) (fits n))

  a_Ensures : Ensures (Typed 1) (decode_a pr)
  a_Ensures = elim (Bool-cases (pr.rdlength == 4)) [
    | inr other ↦ rw other tt
    | inl four ↦
        let (v, ev, bv) = net2long-done pr.rdata 0 bytes (ground arith) in
        rw (four, ev) (set_new 1 _ fits_address)
  ]

  aaaa_Ensures : Ensures (Typed 28) (decode_aaaa pr)
  aaaa_Ensures = elim (Bool-cases (pr.rdlength == 16)) [
    | inr other ↦ rw other tt
    | inl full ↦ rw (full, copy-done pr.rdata 0 16 (ground arith)) (set_new 28 _ fits_address)
  ]

  srv_Ensures : Ensures (Typed 33) (decode_srv pr ref)
  srv_Ensures = elim (Bool-cases (ltb pr.rdlength 6)) [
    | inl short ↦ rw short tt
    | inr long ↦
        let (p, ep, bp) = net2short-done pr.rdata 0 bytes (ground arith) in
        let (w, ew, bw) = net2short-done pr.rdata 2 bytes (ground arith) in
        let (o, eo, bo) = net2short-done pr.rdata 4 bytes (ground arith) in
        rw (long, ep, ew, eo)
          (Ensures-bind (λ (n : List ℕ). Unit) (Typed 33) (read_name_at_end pr ref 6) _
            (name_Ensures pr ref 6) (λ n u. set_new 33 _ fits_server))
  ]

  txt_Ensures : Ensures (Typed 16) (decode_txt pr)
  txt_Ensures =
      Ensures-bind (λ (ts : List (List ℕ)). Unit) (Typed 16) (read_texts pr (suc pr.rdlength) 0) _
        (texts_Ensures pr whole (suc pr.rdlength) 0 (omega arith) (omega arith))
        (λ ts u. set_new 16 _ fits_texts)

  abbrev Read : ℕ → List ℕ × ℕ → Type 0
  Read at p = (at < p.1) × (p.1 ≤ pr.rdlength)

  hinfo_Ensures : Ensures (Typed 13) (decode_hinfo pr)
  hinfo_Ensures =
      Ensures-bind (Read 0) (Typed 13) (read_text_string pr 0) _ (text_Ensures pr whole 0)
        (λ (cpu, at) h.
          Ensures-bind (Read at) (Typed 13) (read_text_string pr at) _ (text_Ensures pr whole at)
            (λ (os, end) k. elim (Bool-cases (end == pr.rdlength)) [
              | inl same ↦ rw same (set_new 13 _ fits_hinfo)
              | inr other ↦ rw other tt
            ]))

  -- One test of the `switch`.
  case_Ensures :
      (type : ℕ) (m rest : Outcome Rr)
      → Ensures (Typed type) m
      → ((pr.qtype == type) ≡ false → Ensures (Typed pr.qtype) rest)
      → Ensures (Typed pr.qtype) (if pr.qtype == type then m else rest)
  case_Ensures type m rest h k = elim (Bool-cases (pr.qtype == type)) [
    | inl same ↦
        let e : type ≡ pr.qtype = ground arith in
        rw same (subst (λ (t : ℕ). Ensures (Typed t) m) e h)
    | inr other ↦ rw other (k other)
  ]

  decode-Ensures : Ensures (Typed pr.qtype) (decode pr ref)
  unfolding decode
  decode-Ensures = case_Ensures 1 _ _ a_Ensures (λ e1. case_Ensures 28 _ _ aaaa_Ensures (λ e28.
      case_Ensures 15 _ _ mx_Ensures (λ e15. case_Ensures 33 _ _ srv_Ensures (λ e33.
        case_Ensures 5 _ _ (named_Ensures 5 _ (λ n. fits_name)) (λ e5.
          case_Ensures 12 _ _ (named_Ensures 12 _ (λ n. fits_name)) (λ e12.
            case_Ensures 16 _ _ txt_Ensures (λ e16. case_Ensures 13 _ _ hinfo_Ensures (λ e13.
              case_Ensures 2 _ _ (named_Ensures 2 _ (λ n. fits_name))
                (λ e2. (refl, rw (e1, e28, e15, e33, e5, e12, e16, e13, e2) tt))))))))))

-- What the record of a resource is: the resource's own fields, its time to live as an `int`, and the data of a known type decoded.
abbrev pub Decoded : Resource → Rr → Type 0
Decoded pr rr =
    (rr.owner ≡ some (c_string pr.qname))
    × (rr.type ≡ some pr.qtype)
    × (rr.qclass ≡ pr.qclass)
    × (rr.ttl ≡ pr.ttl % 2 ^ 32)
    × (rr.rdata ≡ pr.rdata)
    × (rr.rdlength ≡ pr.rdlength)
    × Member (kind pr.qtype) rr.known
    × (pr.qtype ≢ 255)

-- For a resource whose `rdlength` bytes are there, and any packet to look names up in,
-- `jdns_rr_from_resource` ends and reads nothing outside their data. It fails, or gives a record
-- with the resource's fields, its time to live cut to the 32 bits of an `int`, in which the data of
-- a known type is decoded, as the member of the union that the type uses, and no data is for another
-- type; it fails for the type ANY.
pub jdns_rr_from_resource-Ensures :
    (pr : Resource) (ref : Packet)
    → AreBytes pr.rdata
    → length pr.rdata ≡ pr.rdlength
    → Ensures (Decoded pr) (jdns_rr_from_resource pr ref)
unfolding jdns_rr_from_resource
jdns_rr_from_resource-Ensures pr ref bytes whole = elim (Bool-cases (pr.qtype == 255)) [
  | inl any ↦ rw any tt
  | inr other ↦ rw other (
      Ensures-bind (Typed pr.qtype) (Decoded pr) (decode pr ref) _
        (decode-Ensures pr ref bytes whole)
        (λ rr h. (refl, h.0, refl, refl, refl, refl, h.1, λ e. ground arith)))
]
