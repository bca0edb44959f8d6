-- ===== src/Dns/Session/Responses/Returns.antt =====
-- The outcome of `_process_response` of iris/irisnet/jdns/jdns.c.
use ambrosia.Prelude.{
  ℕ, zero, suc, ◌^◌, ◌<◌, ◌≤◌, ◌≡◌, inl, inr, refl, sym, ap, ◌∙◌, subst, Bool, false, ◌&&◌, not,
  Option, none, some, List, [], ◌∷◌, ◌++◌, length, leb, ◌==◌, if◌then◌else◌, arith, Bool-cases,
}
use ambrosia.Prelude.Search.{All}
use ambrosia.Dns.Memory.{Outcome, done, Ensures}
use ambrosia.Dns.Util.Record.{Rr, Known, Fits, fits_name, kind, kind_of, of_name}
use ambrosia.Dns.Util.Record.Decoded.{Member}
use ambrosia.Dns.Util.Response.{Response}
use ambrosia.Dns.Session.{Session, Query, Event, append_events, query_at, is_num, is_some}
use ambrosia.Dns.Session.Ids.{has_id, next_id, int_wrap, rounds, get_next_qid}
use ambrosia.Dns.Session.Ids.Fresh.{query_ids, next_id-Fresh}
use ambrosia.Dns.Session.Requests.{get_query, add_query}
use ambrosia.Dns.Session.Responses.{
  report_copies, tell_parent, report_error, report_nxdomain, finish, all_errored, lone_cname,
  target, chained, adopt_for, adopt, succeed, follow, answer_for, respond, process_answer,
  process_response,
}
use ambrosia.Dns.Session.Pointers.{query_at-fresh}
use ambrosia.Dns.Session.Kept.{given_by, IsSession, AddedQuery, add_query-AddedQuery}
use ambrosia.Dns.Session.Responses.Kept.{small_selfs}
use ambrosia.Dns.Session.Responses.Answers.{told_ids, TellsIf}
use ambrosia.Dns.Session.Responses.Still.{StillAt}
use ambrosia.Dns.Session.Responses.Told.{
  IsThere, added-StillAt, adopt_for-StillAt, process_response-Tells,
}
use ambrosia.Dns.Session.Responses.Copies.{
  Returns, Returns-bind, Returns-if, IsWhole, IsReadable, report_copies-Returns,
}

tell_parent-Returns :
    (others : List ℕ → Outcome (List Event)) (parent : Option ℕ) (s : Session)
    → ((ids : List ℕ) → Returns (others ids))
    → IsThere s parent
    → Returns (tell_parent others parent s)
unfolding tell_parent
tell_parent-Returns others none s k up = (s, refl)
tell_parent-Returns others (some parent) s k (cq, e) =
    rw e (Returns-bind (others cq.req_ids) _ (k cq.req_ids) (λ es e'. (_, refl)))

finish-Returns :
    (own others : List ℕ → Outcome (List Event)) (s : Session) (q : Query)
    → ((ids : List ℕ) → Returns (own ids))
    → ((ids : List ℕ) → Returns (others ids))
    → IsThere s q.cname_parent
    → Returns (finish own others s q)
unfolding finish
finish-Returns own others s q h k up = Returns-bind (own q.req_ids) _ (h q.req_ids) (λ es e.
    Returns-bind (tell_parent others q.cname_parent (append_events s es)) _
      (tell_parent-Returns others q.cname_parent (append_events s es) k (there_too es up))
      (λ t e'. (_, refl)))
  where
    there_too :
        (es : List Event) → IsThere s q.cname_parent → IsThere (append_events s es) q.cname_parent
    there_too es up = by_parent q.cname_parent up
      where
        by_parent : (o : Option ℕ) → IsThere s o → IsThere (append_events s es) o
        by_parent none up = tt
        by_parent (some parent) up = up

IsThere-StillAt : (s t : Session) (o : Option ℕ) → StillAt s t → IsThere s o → IsThere t o
IsThere-StillAt s t none still up = tt
IsThere-StillAt s t (some parent) still (cq, e) =
    let (cq', e', ids, root) = still.1 parent cq e in (cq', e')

succeed-Returns :
    (s u : Session) (r : Response) (q : Query)
    → IsReadable r
    → StillAt s u
    → query_at q.self s.queries ≡ done q
    → IsThere s q.cname_parent
    → Returns (succeed u r q.self)
unfolding succeed
succeed-Returns s u r q readable still there up =
    let (q', found, ids, parent) = still.1 q.self q there in
    rw found (
      Returns-if (is_some q'.cname_child) (done (false, u)) _ (λ waits. (_, refl))
        (λ ends.
          finish-Returns (report_copies r) (report_copies r) u q'
            (λ l. report_copies-Returns r l readable) (λ l. report_copies-Returns r l readable)
            (subst (IsThere u) (sym parent) (IsThere-StillAt s u q.cname_parent still up))))

-- The target of the CNAME is there.
lone_cname-Member :
    (rs : List Rr) (qtype : ℕ) (known : Option Known)
    → All IsWhole rs
    → lone_cname rs qtype ≡ some known
    → Member of_name known
lone_cname-Member [] qtype known h e = absurd (ground arith)
lone_cname-Member (rr ∷ []) qtype known h e = by_type rr.type rr.known h.0 e
  where
    or_known : Option (Option Known) → Option Known
    or_known none = known
    or_known (some k) = k

    by_type :
        (type : Option ℕ) (k : Option Known)
        → Member (kind_of type) k
        → (if is_num type 5 && not (qtype == 5) then some k else none) ≡ some known
        → Member of_name known
    by_type none k h e = absurd (ground arith)
    by_type (some m) k h e = elim (Bool-cases (m == 5)) [
      | inr other ↦ let nothing = rw other at e in absurd (ground arith)
      | inl cname ↦ elim (Bool-cases (qtype == 5)) [
        | inl asked ↦ let nothing = rw (cname, asked) at e in absurd (ground arith)
        | inr other ↦
            let five : m ≡ 5 = ground arith in
            let same : k ≡ known = ap or_known (rw (cname, other) at e) in
            subst (Member of_name) same (subst (λ x. Member (kind x) k) five h)
      ]
    ]
lone_cname-Member (rr ∷ rr' ∷ rs) qtype known h e = absurd (ground arith)

target-Returns : (known : Option Known) → Member of_name known → Returns (target known)
target-Returns none h = absurd h
target-Returns (some k) h = by_member k h
  where
    by_member : (k : Known) → Fits of_name k → Returns (target (some k))
    by_member k fits_name = (_, refl)

pub next_id-Returns :
    (P : ℕ × ℕ → Type 0) (start fuel : ℕ) (used : List ℕ) (src : ℕ)
    → Ensures P (next_id start fuel used src)
    → Returns (next_id start fuel used src)
unfolding next_id
next_id-Returns P start zero used src h = absurd h
next_id-Returns P start (suc fuel) used src h = elim (Bool-cases (has_id used src)) [
  | inl taken ↦ rw taken (next_id-Returns P start fuel used (int_wrap src start) (rw taken at h))
  | inr free ↦ rw free (_, refl)
]

-- There is an id for one more query.
abbrev pub HasQid : Session → Type 0
HasQid s = (s.next_qid < 2 ^ 31) × (suc (length (query_ids s)) ≤ 2 ^ 31)

pub add_query-Returns :
    (s : Session) (qname : List ℕ) (qtype : ℕ) → HasQid s → Returns (add_query s qname qtype)
unfolding add_query get_next_qid
add_query-Returns s qname qtype (fits, few) =
    let fresh =
      next_id-Fresh 0 (query_ids s) (omega arith) s.next_qid (omega arith) fits
        (omega (arith, few)) in
    Returns-bind (get_next_qid s) _
      (Returns-bind (next_id 0 (rounds (query_ids s)) (query_ids s) s.next_qid) _
        (next_id-Returns _ 0 (rounds (query_ids s)) (query_ids s) s.next_qid fresh)
        (λ (id, src) e. (_, refl)))
      (λ (id, t) e. (_, refl))

adopt_for-Returns :
    (s t : Session) (q new_q : Query) (parent : Option ℕ)
    → IsSession s
    → t.queries ≡ s.queries ++ (new_q ∷ [])
    → t.events ≡ s.events
    → new_q.self ≡ s.allocated
    → IsThere s parent
    → Returns (adopt_for t q new_q parent)
unfolding adopt_for
adopt_for-Returns s t q new_q none h eq ee at up = (_, refl)
adopt_for-Returns s t q new_q (some parent) h eq ee at (cq, e) =
    let still = added-StillAt s t new_q (chained new_q q parent) h eq ee at at in
    let (p, found, ids, root) = still.1 parent cq e in rw found (_, refl)

follow-Returns :
    (s : Session) (r : Response) (q : Query) (known : Option Known)
    → IsSession s
    → query_at q.self s.queries ≡ done q
    → IsThere s q.cname_parent
    → IsReadable r
    → HasQid s
    → Member of_name known
    → Returns (follow s r q known)
unfolding follow get_query adopt
follow-Returns s r q known h there up readable room named =
    Returns-bind (target known) _ (target-Returns known named) (λ qname e.
      Returns-bind (add_query s qname q.qtype) _ (add_query-Returns s qname q.qtype room)
        (λ (child, t) e'.
          let (new_q, eq, ea, ec, ee, at, self, step, chain, reqs, root, next_) =
            given_by (AddedQuery s) (add_query s qname q.qtype) (child, t) e'
              (add_query-AddedQuery s qname q.qtype) in
          let found : query_at child t.queries ≡ done new_q =
            ap (λ x. query_at x t.queries) at
            ∙ ap (query_at s.allocated) eq
            ∙ query_at-fresh s.allocated s.queries new_q (small_selfs s h) self in
          rw found (
            Returns-bind (adopt_for t q new_q q.cname_parent) _
              (adopt_for-Returns s t q new_q q.cname_parent h eq ee self up)
              (λ u e''.
                succeed-Returns s u r q readable
                  (given_by (StillAt s) (adopt_for t q new_q q.cname_parent) u e''
                    (adopt_for-StillAt s t q new_q q.cname_parent h there eq ee self))
                  there up))))

still_same : (s : Session) → StillAt s s
still_same s = (refl, λ self p e. (p, e, refl, refl))

errors_Returns : (ids : List ℕ) → Returns (report_error ids)
errors_Returns ids = (_, refl)

answer_for-Returns :
    (s : Session) (r : Response) (q : Query) (cname : Option (Option Known))
    → IsSession s
    → query_at q.self s.queries ≡ done q
    → IsThere s q.cname_parent
    → IsReadable r
    → HasQid s
    → ((known : Option Known) → cname ≡ some known → Member of_name known)
    → Returns (answer_for s r q cname)
unfolding answer_for
answer_for-Returns s r q none h there up readable room named =
    succeed-Returns s s r q readable (still_same s) there up
answer_for-Returns s r q (some known) h there up readable room named =
    Returns-if (leb 16 q.cname_chain_count) _ (follow s r q known)
      (λ long. finish-Returns report_error report_error s q errors_Returns errors_Returns up)
      (λ short. follow-Returns s r q known h there up readable room (named known refl))

-- A response that can be read, or none.
abbrev pub CanRead : Option Response → Type 0
CanRead none = Unit {0}
CanRead (some r) = IsReadable r

respond-Returns :
    (s : Session) (r : Option Response) (nxdomain : Bool) (q : Query)
    → IsSession s
    → query_at q.self s.queries ≡ done q
    → IsThere s q.cname_parent
    → CanRead r
    → HasQid s
    → Returns (respond s r nxdomain q)
unfolding respond process_answer
respond-Returns s none nxdomain q h there up readable room =
    Returns-if (all_errored s.name_servers q) _ (done (false, s))
      (λ all. finish-Returns report_error report_error s q errors_Returns errors_Returns up)
      (λ some_left. (_, refl))
respond-Returns s (some r) nxdomain q h there up readable room =
    Returns-if nxdomain _ (answer_for s r q (lone_cname r.answer_records q.qtype))
      (λ gone. finish-Returns report_nxdomain report_error s q (λ ids. (_, refl)) errors_Returns up)
      (λ exists.
        answer_for-Returns s r q (lone_cname r.answer_records q.qtype) h there up readable room
          (λ known. lone_cname-Member r.answer_records q.qtype known readable.whole_answers))

-- A response to a query is processed to the end, without a fault, where no two queries have one
-- pointer, there is an id for one more query, the query that waits for it as the parent, if any,
-- is still there, and the records of the response have the data that their types use. Where the
-- query ends (the return of 1), each of its requests and then each of the parent's gets one
-- event, in order; where it goes on, no request gets one.
pub process_response-Returns :
    (s : Session) (r : Option Response) (nxdomain : Bool) (q : Query)
    → IsSession s
    → HasQid s
    → query_at q.self s.queries ≡ done q
    → IsThere s q.cname_parent
    → CanRead r
    → (x : Bool × Session) × (process_response s r nxdomain q.self ≡ done x)
      × TellsIf s (told_ids s q) x
unfolding process_response
process_response-Returns s r nxdomain q h room there up readable =
    let (x, e) : Returns (process_response s r nxdomain q.self) =
      rw there (respond-Returns s r nxdomain q h there up readable room) in
    (
      x,
      e,
      given_by (TellsIf s (told_ids s q)) (process_response s r nxdomain q.self) x e
          (process_response-Tells s r nxdomain q h there up),
    )
