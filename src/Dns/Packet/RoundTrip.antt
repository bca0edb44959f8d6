-- ===== src/Dns/Packet/RoundTrip.antt =====
-- `jdns_packet_export` followed by `jdns_packet_import`, for packets without records, as queries are.
use ambrosia.Prelude.{
  ℕ, ◌+◌, ◌-◌, ◌≤◌, ◌≡◌, sym, ap, subst, ◌∙◌, some, inl, inr, List, [], ◌∷◌, append-nil, length,
  ltb, Bool-cases, arith,
}
use ambrosia.Dns.Memory.{Ensures, Ensures-of, Ensures-bind, done, >>=-eq-done}
use ambrosia.Dns.Compress.{Lookup}
use ambrosia.Dns.Packet.{
  Question, Resource, Packet, question_at, process_section, jdns_packet_import,
}
use ambrosia.Dns.Packet.Export.{
  append_question, header, append_qsection, append_rrsection, jdns_packet_export,
}
use ambrosia.Dns.Compress.{writelabel}
use ambrosia.Dns.Compress.Name.{IsBlock, Wrote}
use ambrosia.Dns.Compress.Total.{writelabel-Ensures}
use ambrosia.Dns.Packet.Query.{
  ReadsOne, append_question-ReadsOne, done-eq, AllFitting, append_qsection-Reads,
}
use ambrosia.Dns.Packet.Header.{IsQuery, IsSame, header_size, header-AreBytes, import_header}

no_records :
    (rs : List Resource) (block : List ℕ) (size : ℕ) (lookup : Lookup) (q : List ℕ × Lookup)
    → rs ≡ []
    → append_rrsection rs block size lookup ≡ done q
    → q.0 ≡ block
unfolding append_rrsection
no_records [] block size lookup q e h = ap (λ (x : List ℕ × Lookup). x.0) (sym (done-eq _ _ h))
no_records (r ∷ rs) block size lookup q e h = cc

-- What a query was exported to is its questions.
export_block :
    (p : Packet) (maxsize : ℕ) (p' : Packet)
    → IsQuery p
    → jdns_packet_export p maxsize ≡ done p'
    → (12 ≤ maxsize)
      × ((known : Lookup) × (append_qsection p.questions (header p) maxsize []
            ≡ done (p'.raw_data, known)))
unfolding jdns_packet_export
export_block p maxsize p' query e = elim (Bool-cases (ltb maxsize 12)) [
  | inl small ↦ absurd (ground (arith, rw (small, jdns_packet_export) at e))
  | inr enough ↦
      let e0 = rw (enough, jdns_packet_export) at e in
      let ((block, k), e1, f1) =
        >>=-eq-done (append_qsection p.questions (header p) maxsize []) _ e0 in
      let ((b2, k2), e2, f2) =
        >>=-eq-done (append_rrsection p.answer_records block maxsize k) _ f1 in
      let ((b3, k3), e3, f3) =
        >>=-eq-done (append_rrsection p.authority_records b2 maxsize k2) _ f2 in
      let ((b4, k4), e4, f4) =
        >>=-eq-done (append_rrsection p.additional_records b3 maxsize k3) _ f3 in
      let same : p'.raw_data ≡ block =
        ap (λ (q : Packet). q.raw_data) (sym (done-eq _ _ f4))
        ∙ no_records p.additional_records b3 maxsize k3 (b4, k4) query.no_additional e4
        ∙ no_records p.authority_records b2 maxsize k2 (b3, k3) query.no_authority e3
        ∙ no_records p.answer_records block maxsize k (b2, k2) query.no_answers e2 in
      (ground arith, (k, rw same e1))
]

-- A query that `jdns_packet_export` wrote, within 16384 bytes, is read back by `jdns_packet_import`:
-- the id and the questions as they were, no records, and the whole datagram parsed.
jdns_packet_import-jdns_packet_export :
    (p : Packet) (maxsize : ℕ) (p' : Packet)
    → IsQuery p
    → maxsize ≤ 16384
    → jdns_packet_export p maxsize ≡ done p'
    → (q : Packet) × (jdns_packet_import p'.raw_data ≡ done q) × IsSame p p'.raw_data q
jdns_packet_import-jdns_packet_export p maxsize p' query room e =
    let (long, (known, written)) = export_block p maxsize p' query e in
    let twelve = header_size p in
    let (ok, (ext, x), fits, rest) =
      append_qsection-Reads p.questions (header p) maxsize [] (p'.raw_data, known) query.fitting
        (header-AreBytes p, tt) (omega (arith, twelve)) room written in
    let read : process_section question_at p'.raw_data (length p.questions) 12 []
        ≡ done (p.questions, some (length p'.raw_data)) =
      rw (append-nil p'.raw_data, twelve) at (rest [] [] tt) in
    subst (λ (b : List ℕ). (q : Packet) × (jdns_packet_import b ≡ done q) × IsSame p b q) (sym x)
      (import_header p ext (length p'.raw_data) query (
        subst
          (λ (b : List ℕ).
            process_section question_at b (length p.questions) 12 []
            ≡ done (p.questions, some (length p'.raw_data)))
          x read))

-- `jdns_packet_export` ends on a query of any size, and reads nothing outside its buffers.
append_qsection-Ends :
    (qs : List Question) (block : List ℕ) (size : ℕ) (lookup : Lookup)
    → AllFitting qs
    → IsBlock block lookup
    → length block ≤ size
    → size ≤ 16384
    → Ensures (λ _. Unit {0}) (append_qsection qs block size lookup)
unfolding append_qsection append_question
append_qsection-Ends [] block size lookup fit ok inside room = tt
append_qsection-Ends (q ∷ qs) block size lookup fit ok inside room =
    Ensures-bind (ReadsOne q block size) (λ _. Unit {0}) (append_question q block size lookup) _
      (Ensures-of (λ _. Unit {0}) (ReadsOne q block size) (append_question q block size lookup)
        (Ensures-bind (λ _. Unit {0}) (λ _. Unit {0})
          (writelabel q.qname block (size - length block) lookup) _
          (Ensures-of (Wrote q.qname block (size - length block)) (λ _. Unit {0})
            (writelabel q.qname block (size - length block) lookup)
            (writelabel-Ensures q.qname block (size - length block) lookup ok fit.0.0 (omega arith))
            (λ p e. tt))
          (λ (named, known) u. elim (Bool-cases (ltb size (length named + 4))) [
            | inl over ↦ rw over tt
            | inr there ↦ rw there tt
          ]))
        (λ p e. append_question-ReadsOne q block size fit.0 lookup p ok inside room e))
      (λ (next, known) h. append_qsection-Ends qs next size known fit.1 h.0 h.2 room)

no_records_Ends :
    (rs : List Resource) (block : List ℕ) (size : ℕ) (lookup : Lookup)
    → rs ≡ []
    → Ensures (λ _. Unit {0}) (append_rrsection rs block size lookup)
unfolding append_rrsection
no_records_Ends [] block size lookup e = tt
no_records_Ends (r ∷ rs) block size lookup e = cc

export-Ends :
    (p : Packet) (maxsize : ℕ)
    → IsQuery p
    → maxsize ≤ 16384
    → Ensures (λ _. Unit {0}) (jdns_packet_export p maxsize)
unfolding jdns_packet_export
export-Ends p maxsize query room = elim (Bool-cases (ltb maxsize 12)) [
  | inl small ↦ rw small tt
  | inr enough ↦
      let twelve = header_size p in
      rw enough (
        Ensures-bind (λ _. Unit {0}) (λ _. Unit {0})
          (append_qsection p.questions (header p) maxsize []) _
          (append_qsection-Ends p.questions (header p) maxsize [] query.fitting
            (header-AreBytes p, tt) (ground (arith, twelve)) room)
          (λ (b1, l1) u1.
            Ensures-bind (λ _. Unit {0}) (λ _. Unit {0})
              (append_rrsection p.answer_records b1 maxsize l1) _
              (no_records_Ends p.answer_records b1 maxsize l1 query.no_answers)
              (λ (b2, l2) u2.
                Ensures-bind (λ _. Unit {0}) (λ _. Unit {0})
                  (append_rrsection p.authority_records b2 maxsize l2) _
                  (no_records_Ends p.authority_records b2 maxsize l2 query.no_authority)
                  (λ (b3, l3) u3.
                    Ensures-bind (λ _. Unit {0}) (λ _. Unit {0})
                      (append_rrsection p.additional_records b3 maxsize l3) _
                      (no_records_Ends p.additional_records b3 maxsize l3 query.no_additional)
                      (λ p4 u4. tt)))))
]

-- On a query and within 16384 bytes `jdns_packet_export` ends and reads nothing outside its buffers.
-- It fails, or what it wrote is read back by `jdns_packet_import`: the id and the questions as they
-- were, no records, and the whole datagram parsed.
pub jdns_packet_export-Ensures :
    (p : Packet) (maxsize : ℕ)
    → IsQuery p
    → maxsize ≤ 16384
    → Ensures
        (λ p'. (q : Packet) × (jdns_packet_import p'.raw_data ≡ done q) × IsSame p p'.raw_data q)
        (jdns_packet_export p maxsize)
jdns_packet_export-Ensures p maxsize query room =
    Ensures-of (λ _. Unit {0})
      (λ p'. (q : Packet) × (jdns_packet_import p'.raw_data ≡ done q) × IsSame p p'.raw_data q)
      (jdns_packet_export p maxsize) (export-Ends p maxsize query room)
      (λ p' e. jdns_packet_import-jdns_packet_export p maxsize p' query room e)
