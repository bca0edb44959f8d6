-- ===== src/Dns/Packet/Safety.antt =====
-- `jdns_packet_import` on any datagram.
use ambrosia.Prelude.{
  ℕ, zero, suc, ◌+◌, ◌^◌, ◌≤◌, ◌<◌, ◌≡◌, refl, inl, inr, true, false, Option, none, some, List, [],
  ◌∷◌, ◌++◌, length, length-append, drop, ltb, ◌==◌, Bool-cases, arith, subst,
}
use ambrosia.Prelude.Bits.{AreBytes}
use ambrosia.Dns.Memory.{
  Outcome, done, error, fault, stuck, peek-done, copy-done, Ensures, Ensures-bind, Ensures-of,
}
use ambrosia.Dns.Label.{readlabel}
use ambrosia.Dns.Label.Safety.{readlabel-Ensures, InBounds}
use ambrosia.Dns.Label.Complete.{length-slice}
use ambrosia.Dns.Wire.{net2short-done, net2long-done}
use ambrosia.Dns.Packet.{
  Question, Resource, Packet, question_at, resource_at, process_section, then_section,
  jdns_packet_import,
}

abbrev pub All {ℓ} : {A : Type ℓ} → (A → Type 0) → List A → Type 0
All P [] = Unit {0}
All P (x ∷ xs) = P x × All P xs

pub All-snoc {ℓ} :
    {A : Type ℓ} (P : A → Type 0) (xs : List A) (x : A) → All P xs → P x → All P (xs ++ (x ∷ []))
All-snoc P [] x h k = (k, tt)
All-snoc P (y ∷ xs) x h k = (h.0, All-snoc P xs x h.1 k)

-- The name fits a C buffer of 255 bytes, and the numbers their 16 bits.
abbrev pub IsQuestion : Question → Type 0
IsQuestion q = (length q.qname ≤ 255) × (q.qtype < 65536) × (q.qclass < 65536)

abbrev pub IsResource : Resource → Type 0
IsResource r =
    (length r.qname ≤ 255)
    × (r.qtype < 65536)
    × (r.qclass < 65536)
    × (r.ttl < 2 ^ 32)
    × (length r.rdata ≡ r.rdlength)

-- An item that is good, and the place behind it, in the packet.
abbrev Item {ℓ} : {A : Type ℓ} → (A → Type 0) → List ℕ → A × ℕ → Type 0
Item P buf p = P p.0 × (p.1 ≤ length buf)

question_at-Ensures :
    (buf : List ℕ) (offset : ℕ)
    → AreBytes buf
    → offset ≤ length buf
    → Ensures (Item IsQuestion buf) (question_at buf offset)
unfolding question_at
question_at-Ensures buf offset bytes inside =
    Ensures-bind (InBounds (drop offset buf) 0) (Item IsQuestion buf)
      (readlabel (drop offset buf) buf 0) _ (readlabel-Ensures (drop offset buf) buf 0)
      (λ (at, name) h. elim (Bool-cases (ltb (length buf) (offset + at + 4))) [
        | inl short ↦ rw short tt
        | inr long ↦
            let (t, et, bt) = net2short-done buf (offset + at) bytes (ground arith) in
            let (c, ec, bc) = net2short-done buf (offset + at + 2) bytes (ground arith) in
            rw (long, et, ec) ((h.2, bt, bc), ground arith)
      ])

resource_at-Ensures :
    (buf : List ℕ) (offset : ℕ)
    → AreBytes buf
    → offset ≤ length buf
    → Ensures (Item IsResource buf) (resource_at buf offset)
unfolding resource_at
resource_at-Ensures buf offset bytes inside =
    Ensures-bind (InBounds (drop offset buf) 0) (Item IsResource buf)
      (readlabel (drop offset buf) buf 0) _ (readlabel-Ensures (drop offset buf) buf 0)
      (λ (at, name) h. elim (Bool-cases (ltb (length buf) (offset + at + 10))) [
        | inl short ↦ rw short tt
        | inr long ↦
            let (t, et, bt) = net2short-done buf (offset + at) bytes (ground arith) in
            let (c, ec, bc) = net2short-done buf (offset + at + 2) bytes (ground arith) in
            let (l, el, bl) = net2long-done buf (offset + at + 4) bytes (ground arith) in
            let (n, en, bn) = net2short-done buf (offset + at + 8) bytes (ground arith) in
            elim (Bool-cases (ltb (length buf) (offset + at + 10 + n))) [
              | inl cut ↦ rw (long, et, ec, el, en, cut) tt
              | inr whole ↦
                  let inner : offset + at + 10 + n ≤ length buf = ground arith in
                  rw (long, et, ec, el, en, whole, copy-done buf (offset + at + 10) n inner)
                    ((h.2, bt, bc, bl, length-slice buf (offset + at + 10) n inner), inner)
            ]
      ])

-- What a section holds: good items, as many as it announces if it was read to its end.
abbrev pub Section {ℓ} : {A : Type ℓ} → (A → Type 0) → List ℕ → ℕ → List A × Option ℕ → Type 0
Section P buf count (items, end) =
    All P items
    × (length items ≤ count)
    × ((offset : ℕ) → end ≡ some offset → (length items ≡ count) × (offset ≤ length buf))

module _ {ℓ} {A : Type ℓ} (P : A → Type 0) (item : List ℕ → ℕ → Outcome (A × ℕ)) (buf : List ℕ)
    (good : (offset : ℕ) → offset ≤ length buf → Ensures (Item P buf) (item buf offset)) where
  process_section-Ensures :
      (count offset total : ℕ) (dest : List A)
      → offset ≤ length buf
      → All P dest
      → length dest + count ≡ total
      → Ensures (Section P buf total) (process_section item buf count offset dest)
  unfolding process_section
  process_section-Ensures zero offset total dest inside h e =
      (h, omega arith, λ o eo. (omega arith, ground arith))
  process_section-Ensures (suc count) offset total dest inside h e =
      round (item buf offset) (good offset inside) (λ a next pa inner.
        process_section-Ensures count next total (dest ++ (a ∷ [])) inner (All-snoc P dest a h pa)
          (omega (arith, length-append dest (a ∷ []))))
    where
      round :
          (m : Outcome (A × ℕ))
          → Ensures (Item P buf) m
          → ((a : A) (next : ℕ)
              → P a
              → next ≤ length buf
              → Ensures
                  (Section P buf total)
                  (process_section item buf count next (dest ++ (a ∷ []))))
          → Ensures (Section P buf total) (elim m [
            | done (a, next) ↦ process_section item buf count next (dest ++ (a ∷ []))
            | error ↦ done (dest, none)
            | fault ↦ fault
            | stuck ↦ stuck
          ])
      round (done (a, next)) i k = k a next i.0 i.1
      round error i k = (h, omega arith, λ o eo. cc)
      round fault i k = i
      round stuck i k = i

  -- A section that was read to its end follows one that was.
  abbrev Later : ℕ → Option ℕ → List A × Option ℕ → Type 0
  Later count from p = Section P buf count p × ((o : ℕ) → p.1 ≡ some o → (f : ℕ) × (from ≡ some f))

  then_section-Ensures :
      (count : ℕ) (from : Option ℕ)
      → ((offset : ℕ) → from ≡ some offset → offset ≤ length buf)
      → Ensures (Later count from) (then_section item buf count from)
  unfolding then_section
  then_section-Ensures count none inside = ((tt, omega arith, λ o eo. cc), λ o eo. cc)
  then_section-Ensures count (some offset) inside =
      Ensures-of (Section P buf count) (Later count (some offset))
        (process_section item buf count offset [])
        (process_section-Ensures count offset count [] (inside offset refl) tt (omega arith))
        (λ p e. (section p e, λ o eo. (offset, refl)))
    where
      section :
          (p : List A × Option ℕ)
          → process_section item buf count offset [] ≡ done p
          → Section P buf count p
      section p e =
          let h : Ensures (Section P buf count) (process_section item buf count offset []) =
            process_section-Ensures count offset count [] (inside offset refl) tt (omega arith) in
          subst (Ensures (Section P buf count)) e h

module _ (buf : List ℕ)
    (good : (offset : ℕ)
      → offset ≤ length buf
      → Ensures (Item IsResource buf) (resource_at buf offset)) where
  -- When the last section was read to its end, so was each one before it.
  all_read :
      {qd an ns ar : ℕ} (qs : List Question) (ans aus ads : List Resource) (eq ea en er : Option ℕ)
      → Section IsQuestion buf qd (qs, eq)
      → Later IsResource resource_at buf good an eq (ans, ea)
      → Later IsResource resource_at buf good ns ea (aus, en)
      → Later IsResource resource_at buf good ar en (ads, er)
      → elim er [ none ↦ false | some _ ↦ true ] ≡ true
      → (length qs ≡ qd) × (length ans ≡ an) × (length aus ≡ ns) × (length ads ≡ ar)
  all_read qs ans aus ads eq ea en none hq ha hn hr e = ground (arith, e)
  all_read qs ans aus ads eq ea en (some o) hq ha hn hr e =
      let (f, ef) = hr.1 o refl in
      let (g, eg) = hn.1 f ef in
      let (h, eh) = ha.1 g eg in
      ((hq.2 h eh).0, (ha.0.2 g eg).0, (hn.0.2 f ef).0, (hr.0.2 o refl).0)

-- What a packet that was read keeps of the datagram.
pub record IsParsed (buf : List ℕ) (p : Packet) : Type 0 where
  pub id_fits : p.id < 65536
  pub all_questions : All IsQuestion p.questions
  pub all_answers : All IsResource p.answer_records
  pub all_authority : All IsResource p.authority_records
  pub all_additional : All IsResource p.additional_records
  pub within_counts :
      (length p.questions ≤ p.qdcount)
      × (length p.answer_records ≤ p.ancount)
      × (length p.authority_records ≤ p.nscount)
      × (length p.additional_records ≤ p.arcount)
  pub complete :
      p.fully_parsed ≡ true
      → (length p.questions ≡ p.qdcount)
        × (length p.answer_records ≡ p.ancount)
        × (length p.authority_records ≡ p.nscount)
        × (length p.additional_records ≡ p.arcount)
  pub keeps_data : p.raw_data ≡ buf

-- On any bytes `jdns_packet_import` ends and reads nothing outside the datagram. It fails, or gives a
-- packet whose items are within the limits of their fields and as many as announced at most, each
-- record's data being as long as its `rdlength`; when it says that all was parsed, each section has
-- as many items as announced.
pub jdns_packet_import-Ensures :
    (buf : List ℕ) → AreBytes buf → Ensures (IsParsed buf) (jdns_packet_import buf)
unfolding jdns_packet_import
jdns_packet_import-Ensures buf bytes = elim (Bool-cases (length buf == 0)) [
  | inl empty ↦ rw empty tt
  | inr some_data ↦ elim (Bool-cases (ltb (length buf) 12)) [
    | inl short ↦ rw (some_data, short) tt
    | inr long ↦
        let (id, ei, bi) = net2short-done buf 0 bytes (ground arith) in
        let (a, ea) = peek-done buf 2 (ground arith) in
        let (b, eb) = peek-done buf 3 (ground arith) in
        let (qd, eq, bq) = net2short-done buf 4 bytes (ground arith) in
        let (an, en, bn) = net2short-done buf 6 bytes (ground arith) in
        let (ns, es, bs) = net2short-done buf 8 bytes (ground arith) in
        let (ar, er, br) = net2short-done buf 10 bytes (ground arith) in
        let q = question_at-Ensures buf in
        let r = resource_at-Ensures buf in
        rw (some_data, long, ei, ea, eb, eq, en, es, er)
          (Ensures-bind (Section IsQuestion buf qd) (IsParsed buf)
            (process_section question_at buf qd 12 []) _
            (process_section-Ensures IsQuestion question_at buf (λ o. q o bytes) qd 12 qd []
              (ground arith) tt (omega arith))
            (λ (qs, q_end) hq.
              Ensures-bind (Later IsResource resource_at buf (λ o. r o bytes) an q_end)
                (IsParsed buf) (then_section resource_at buf an q_end) _
                (then_section-Ensures IsResource resource_at buf (λ o. r o bytes) an q_end
                  (λ o e. (hq.2 o e).1))
                (λ (ans, an_end) ha.
                  Ensures-bind (Later IsResource resource_at buf (λ o. r o bytes) ns an_end)
                    (IsParsed buf) (then_section resource_at buf ns an_end) _
                    (then_section-Ensures IsResource resource_at buf (λ o. r o bytes) ns an_end
                      (λ o e. (ha.0.2 o e).1))
                    (λ (aus, ns_end) hn.
                      Ensures-bind (Later IsResource resource_at buf (λ o. r o bytes) ar ns_end)
                        (IsParsed buf) (then_section resource_at buf ar ns_end) _
                        (then_section-Ensures IsResource resource_at buf (λ o. r o bytes) ar ns_end
                          (λ o e. (hn.0.2 o e).1))
                        (λ (ads, ar_end) hr. record {
                          id_fits = bi;
                          all_questions = hq.0;
                          all_answers = ha.0.0;
                          all_authority = hn.0.0;
                          all_additional = hr.0.0;
                          within_counts = (hq.1, ha.0.1, hn.0.1, hr.0.1);
                          complete =
                              all_read buf (λ o. r o bytes) qs ans aus ads q_end an_end ns_end
                                ar_end hq ha hn hr;
                          keeps_data = refl;
                        })))))
  ]
]
