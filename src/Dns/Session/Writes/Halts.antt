-- ===== src/Dns/Session/Writes/Halts.antt =====
-- What a look at a query in `_unicast_do_writes` of iris/irisnet/jdns/jdns.c does with a response that
-- the cache has comes to an end.
use ambrosia.Prelude.{
  ℕ, suc, ◌+◌, ◌^◌, ◌≤◌, ◌<◌, ◌≡◌, refl, ap, Bool, true, false, Option, none, some, List, [], ◌∷◌,
  ◌++◌, length, map, leb, ◌==◌, if◌then◌else◌, arith, Bool-cases, inl, inr,
}
use ambrosia.Dns.Memory.{Outcome, done, error, fault, stuck, ◌>>=◌, Ensures}
use ambrosia.Dns.Util.Record.{
  Rr, Known, address, server, name, texts, hinfo, Kind, of_address, of_server, of_name, of_texts,
  of_hinfo, kind_of, copy_known, jdns_rr_copy,
}
use ambrosia.Dns.Util.Response.{Response, array_copy, jdns_response_copy}
use ambrosia.Dns.Session.{Session, Query, Event, query_at, put_query, append_events, is_some}
use ambrosia.Dns.Session.Ids.{next_id, rounds, get_next_qid}
use ambrosia.Dns.Session.Ids.Fresh.{Fresh, query_ids, next_id-Fresh}
use ambrosia.Dns.Session.Requests.{add_query, get_query, new_query}
use ambrosia.Dns.Session.Responses.{
  report_copies, tell_parent, report_error, report_nxdomain, finish, lone_cname, target, adopt_for,
  adopt, succeed, follow, answer_for, respond, process_answer, process_response,
}
use ambrosia.Dns.Session.Writes.{requery, use_cached, is_empty}

-- The outcome is not stuck, and what it gives, if it gives a value, has `P`.
abbrev pub Halts {ℓ} : {A : Type ℓ} → (A → Type 0) → Outcome A → Type 0
Halts P (done a) = P a
Halts P error = Unit
Halts P fault = Unit
Halts P stuck = ⊥

abbrev pub Any {ℓ} : {A : Type ℓ} → A → Type 0
Any a = Unit {0}

pub Halts-bind {ℓ κ} :
    {A : Type ℓ} {B : Type κ} (P : A → Type 0) (Q : B → Type 0) (m : Outcome A) (f : A → Outcome B)
    → Halts P m
    → ((a : A) → P a → Halts Q (f a))
    → Halts Q (m >>= f)
Halts-bind P Q (done a) f h k = k a h
Halts-bind P Q error f h k = tt
Halts-bind P Q fault f h k = tt
Halts-bind P Q stuck f h k = absurd h

pub Halts-if {ℓ} :
    {A : Type ℓ} (P : A → Type 0) (b : Bool) (x y : Outcome A)
    → Halts P x
    → Halts P y
    → Halts P (if b then x else y)
Halts-if P true x y h k = h
Halts-if P false x y h k = k

pub Halts-Ensures {ℓ} : {A : Type ℓ} (P : A → Type 0) (m : Outcome A) → Ensures P m → Halts P m
Halts-Ensures P (done a) h = h
Halts-Ensures P error h = tt
Halts-Ensures P fault h = absurd h
Halts-Ensures P stuck h = absurd h

-- There are ids for `n` more queries.
abbrev pub HasIds : ℕ → Session → Type 0
HasIds n s = (s.next_qid < 2 ^ 31) × (n + length (query_ids s) ≤ 2 ^ 31)

one_longer :
    (qs : List Query) (q : Query)
    → length (map (λ (x : Query). x.id) (qs ++ (q ∷ [])))
      ≡ suc (length (map (λ (x : Query). x.id) qs))
one_longer [] q = refl
one_longer (x ∷ qs) q = ap suc (one_longer qs q)

as_long :
    (q : Query) (qs : List Query)
    → length (map (λ (x : Query). x.id) (put_query q qs)) ≡ length (map (λ (x : Query). x.id) qs)
as_long q [] = refl
as_long q (x ∷ qs) = elim (Bool-cases (x.self == q.self)) [
  | inl hit ↦ rw hit refl
  | inr miss ↦ rw miss (ap suc (as_long q qs))
]

add_query-Halts :
    (n : ℕ) (s : Session) (qname : List ℕ) (qtype : ℕ)
    → HasIds (suc n) s
    → Halts (λ (self, t). HasIds n t) (add_query s qname qtype)
unfolding add_query get_next_qid
add_query-Halts n s qname qtype (fits, few) =
    Halts-bind (λ (id, t). (t.next_qid < 2 ^ 31) × (t.queries ≡ s.queries)) _ (get_next_qid s) _
      (Halts-bind (Fresh 0 (query_ids s)) _
        (next_id 0 (rounds (query_ids s)) (query_ids s) s.next_qid) _
        (Halts-Ensures (Fresh 0 (query_ids s)) _ (
          next_id-Fresh 0 (query_ids s) (omega arith) s.next_qid (omega arith) fits
            (omega (arith, few))))
        (λ (id, src) h. (h.4, refl)))
      (λ (id, t) (h, same).
        let longer = one_longer t.queries (new_query t.allocated id qname qtype) in
        (h, rw (longer, same) (omega (arith, few))))

query_at-Halts : (self : ℕ) (qs : List Query) → Halts Any (query_at self qs)
query_at-Halts self [] = tt
query_at-Halts self (q ∷ qs) =
    Halts-if Any (q.self == self) (done q) (query_at self qs) tt (query_at-Halts self qs)

copy_known-Halts : (c : Kind) (k : Known) → Halts Any (copy_known c k)
copy_known-Halts of_address (address a) = tt
copy_known-Halts of_server (server s) = tt
copy_known-Halts of_name (name n) = tt
copy_known-Halts of_texts (texts ts) = tt
copy_known-Halts of_hinfo (hinfo cpu os) = tt
copy_known-Halts _ _ = tt

copy_maybe-Halts :
    (c : Kind) (known : Option Known)
    → Halts {A = Option Known} Any
        (elim known [ none ↦ done none | some k ↦ (copy_known c k >>= λ k'. done (some k')) ])
copy_maybe-Halts c none = tt
copy_maybe-Halts c (some k) =
    Halts-bind Any Any (copy_known c k) _ (copy_known-Halts c k) (λ k' h. tt)

pub jdns_rr_copy-Halts : (rr : Rr) → Halts Any (jdns_rr_copy rr)
unfolding jdns_rr_copy
jdns_rr_copy-Halts rr =
    Halts-bind Any Any _ _ (copy_maybe-Halts (kind_of rr.type) rr.known) (λ known h. tt)

array_copy-Halts : (rs : List Rr) → Halts Any (array_copy rs)
unfolding array_copy
array_copy-Halts [] = tt
array_copy-Halts (rr ∷ rs) =
    Halts-bind Any Any (jdns_rr_copy rr) _ (jdns_rr_copy-Halts rr)
      (λ c h. Halts-bind Any Any (array_copy rs) _ (array_copy-Halts rs) (λ cs h'. tt))

report_copies-Halts : (r : Response) (ids : List ℕ) → Halts Any (report_copies r ids)
unfolding report_copies jdns_response_copy
report_copies-Halts r [] = tt
report_copies-Halts r (id ∷ ids) =
    Halts-bind Any Any (jdns_response_copy r) _
      (Halts-bind Any Any (array_copy r.answer_records) _ (array_copy-Halts r.answer_records)
        (λ a h.
          Halts-bind Any Any (array_copy r.authority_records) _
            (array_copy-Halts r.authority_records)
            (λ b h'.
              Halts-bind Any Any (array_copy r.additional_records) _
                (array_copy-Halts r.additional_records) (λ c h''. tt))))
      (λ c h. Halts-bind Any Any (report_copies r ids) _ (report_copies-Halts r ids) (λ es h'. tt))

-- Events that are made without an end are none.
abbrev AllHalt : (List ℕ → Outcome (List Event)) → Type 0
AllHalt events = (ids : List ℕ) → Halts Any (events ids)

finish-Halts :
    (own others : List ℕ → Outcome (List Event)) (s : Session) (q : Query)
    → AllHalt own
    → AllHalt others
    → Halts Any (finish own others s q)
unfolding finish tell_parent
finish-Halts own others s q h k = Halts-bind Any Any (own q.req_ids) _ (h q.req_ids) (λ es u.
    Halts-bind Any Any (tell_parent others q.cname_parent (append_events s es)) _
      (to_parent q.cname_parent (append_events s es)) (λ t v. tt))
  where
    to_parent : (parent : Option ℕ) (t : Session) → Halts Any (tell_parent others parent t)
    to_parent none t = tt
    to_parent (some parent) t =
        Halts-bind Any Any (query_at parent t.queries) _ (query_at-Halts parent t.queries)
          (λ cq u. Halts-bind Any Any (others cq.req_ids) _ (k cq.req_ids) (λ es v. tt))

succeed-Halts : (s : Session) (r : Response) (self : ℕ) → Halts Any (succeed s r self)
unfolding succeed
succeed-Halts s r self =
    Halts-bind Any Any (query_at self s.queries) _ (query_at-Halts self s.queries) (λ q u.
      Halts-if Any (is_some q.cname_child) (done (false, s)) _ tt (
        finish-Halts (report_copies r) (report_copies r) s q (report_copies-Halts r)
          (report_copies-Halts r)))

target-Halts : (known : Option Known) → Halts Any (target known)
target-Halts none = tt
target-Halts (some (address a)) = tt
target-Halts (some (server s)) = tt
target-Halts (some (name n)) = tt
target-Halts (some (texts ts)) = tt
target-Halts (some (hinfo cpu os)) = tt

adopt_for-Halts :
    (s : Session) (q new_q : Query) (parent : Option ℕ) → Halts Any (adopt_for s q new_q parent)
unfolding adopt_for
adopt_for-Halts s q new_q none = tt
adopt_for-Halts s q new_q (some parent) =
    Halts-bind Any Any (query_at parent _) _ (query_at-Halts parent _) (λ p u. tt)

follow-Halts :
    (s : Session) (r : Response) (q : Query) (known : Option Known)
    → HasIds 1 s
    → Halts Any (follow s r q known)
unfolding follow get_query adopt
follow-Halts s r q known room = Halts-bind Any Any (target known) _ (target-Halts known) (λ qname u.
    Halts-bind (λ (child, t). HasIds 0 t) Any (add_query s qname q.qtype) _
      (add_query-Halts 0 s qname q.qtype room)
      (λ (child, t) v.
        Halts-bind Any Any (adopt t q child) _
          (Halts-bind Any Any (query_at child t.queries) _ (query_at-Halts child t.queries)
            (λ new_q w. adopt_for-Halts t q new_q q.cname_parent))
          (λ x w. succeed-Halts x r q.self)))

answer_for-Halts :
    (s : Session) (r : Response) (q : Query) (cname : Option (Option Known))
    → HasIds 1 s
    → Halts Any (answer_for s r q cname)
unfolding answer_for
answer_for-Halts s r q none room = succeed-Halts s r q.self
answer_for-Halts s r q (some known) room =
    Halts-if Any (leb 16 q.cname_chain_count) _ (follow s r q known)
      (finish-Halts report_error report_error s q (λ ids. tt) (λ ids. tt))
      (follow-Halts s r q known room)

process_response-Halts :
    (s : Session) (r : Response) (nxdomain : Bool) (self : ℕ)
    → HasIds 1 s
    → Halts Any (process_response s (some r) nxdomain self)
unfolding process_response respond process_answer
process_response-Halts s r nxdomain self room =
    Halts-bind Any Any (query_at self s.queries) _ (query_at-Halts self s.queries) (λ q u.
      Halts-if Any nxdomain _ _
        (finish-Halts report_nxdomain report_error s q (λ ids. tt) (λ ids. tt))
        (answer_for-Halts s r q (lone_cname r.answer_records q.qtype) room))

requery-Halts :
    (s : Session) (q : Query) (soon : Bool) → HasIds 2 s → Halts (HasIds 1) (requery s q soon)
unfolding requery get_query
requery-Halts s q false room = (room.0, omega (arith, room.1))
requery-Halts s q true room =
    Halts-bind (λ (self, t). HasIds 1 t) (HasIds 1) (add_query s q.qname q.qtype) _
      (add_query-Halts 1 s q.qname q.qtype room)
      (λ (self, t) room'.
        Halts-bind Any (HasIds 1) (query_at self t.queries) _ (query_at-Halts self t.queries)
          (λ new_q u. (
            room'.0,
            rw (as_long (record new_q { retrying = true; trycache = false }) t.queries) room'.1,
          )))

pub use_cached-Halts :
    (s : Session) (q : Query) (r : Response) (soon : Bool)
    → HasIds 2 s
    → Halts Any (use_cached s q r soon)
unfolding use_cached
use_cached-Halts s q r soon room =
    Halts-bind (HasIds 1) Any (requery s q soon) _ (requery-Halts s q soon room) (λ t room'.
      Halts-bind Any Any (process_response t (some r) (is_empty r) q.self) _
        (process_response-Halts t r (is_empty r) q.self room') (λ x u. tt))
