-- ===== src/Dns/Session/Responses/Told.antt =====
-- Which requests a response is reported to.
use ambrosia.Prelude.{
  ℕ, ◌≡◌, refl, sym, ap, ◌∙◌, subst, Bool, true, false, Option, none, some, List, [], ◌∷◌, ◌++◌,
  append-nil, leb, if◌then◌else◌,
}
use ambrosia.Dns.Memory.{done}
use ambrosia.Dns.Util.Record.{Known}
use ambrosia.Dns.Util.Response.{Response}
use ambrosia.Dns.Session.{
  Session, Query, status_error, status_nxdomain, report, append_events, query_at, set_query,
  put_query, remove_query, is_some,
}
use ambrosia.Dns.Session.Requests.{get_query, add_query}
use ambrosia.Dns.Session.Responses.{
  report_copies, tell_parent, report_error, report_nxdomain, finish, all_errored, lone_cname,
  target, chained, adopt_for, adopt, succeed, follow, answer_for, respond, process_answer,
  process_response,
}
use ambrosia.Dns.Session.Pointers.{query_at_self, query_at-append, query_at-fresh, put_query-fresh}
use ambrosia.Dns.Session.Kept.{
  Gives, Gives-bind, Gives-any, Gives-map, Gives-given, Gives-if, IsSession, AddedQuery,
  add_query-AddedQuery,
}
use ambrosia.Dns.Session.Responses.Kept.{small_selfs}
use ambrosia.Dns.Session.Responses.Answers.{
  Answers, report_error-Reports, report_nxdomain-Reports, report_copies-Reports, ids_at, parent_ids,
  Tells, told_ids, TellsIf, finish-Tells,
}
use ambrosia.Dns.Session.Responses.Still.{StillAt, StillAt-set}

-- The parent, where there is one, has not been removed.
abbrev pub IsThere : Session → Option ℕ → Type 0
IsThere s none = Unit {0}
IsThere s (some parent) = (cq : Query) × (query_at parent s.queries ≡ done cq)

parent_ids-StillAt :
    (s t : Session) (parent : Option ℕ)
    → StillAt s t
    → IsThere s parent
    → parent_ids t parent ≡ parent_ids s parent
parent_ids-StillAt s t none still h = refl
parent_ids-StillAt s t (some parent) (events, still) (cq, e) =
    let (cq', e', ids, up) = still parent cq e in ap ids_at e' ∙ ids ∙ sym (ap ids_at e)

told_ids-StillAt :
    (s t : Session) (q q' : Query)
    → StillAt s t
    → IsThere s q.cname_parent
    → q'.req_ids ≡ q.req_ids
    → q'.cname_parent ≡ q.cname_parent
    → told_ids t q' ≡ told_ids s q
told_ids-StillAt s t q q' still h ids parent =
    ap (λ xs. xs ++ parent_ids t q'.cname_parent) ids
    ∙ ap (λ o. q.req_ids ++ parent_ids t o) parent
    ∙ ap (λ xs. q.req_ids ++ xs) (parent_ids-StillAt s t q.cname_parent still h)

nothing_told : (s t : Session) → t.events ≡ s.events → Tells s [] t
nothing_told s t e = ([], e ∙ sym (append-nil s.events), tt)

succeed-Tells :
    (s t : Session) (r : Response) (q : Query)
    → StillAt s t
    → query_at q.self s.queries ≡ done q
    → IsThere s q.cname_parent
    → Gives (TellsIf s (told_ids s q)) (succeed t r q.self)
unfolding succeed
succeed-Tells s t r q still there h =
    let (q', found, ids, parent) = still.1 q.self q there in
    let same = told_ids-StillAt s t q q' still h ids parent in
    let told =
      finish-Tells (report_copies r) (report_copies r) t q' (report_copies-Reports r)
        (report_copies-Reports r) in
    rw found (
      Gives-if (TellsIf s (told_ids s q)) (is_some q'.cname_child) (done (false, t))
        (finish (report_copies r) (report_copies r) t q') (λ waits. nothing_told s t still.0)
        (λ ends.
          Gives-map (finish (report_copies r) (report_copies r) t q')
            (λ (b, u). told_from s t u (told_ids s q) (told_ids t q') b still.0 same) told))
  where
    told_from :
        (s t u : Session) (ids ids' : List ℕ) (b : Bool)
        → t.events ≡ s.events
        → ids' ≡ ids
        → Tells t (if b then ids' else []) u
        → Tells s (if b then ids else []) u
    told_from s t u ids ids' b e same (es, e', a) =
        (es, e' ∙ ap (λ xs. xs ++ es) e, subst (λ xs. Answers (if b then xs else []) es) same a)

pub added-StillAt :
    (s t : Session) (new_q q : Query)
    → IsSession s
    → t.queries ≡ s.queries ++ (new_q ∷ [])
    → t.events ≡ s.events
    → new_q.self ≡ s.allocated
    → q.self ≡ s.allocated
    → StillAt s (set_query t q)
added-StillAt s t new_q q h eq ee at at' = (
  ee,
  λ self p e. (
    p,
    ap (query_at self) (
          ap (put_query q) eq
          ∙ put_query-fresh s.allocated s.queries new_q q (small_selfs s h) at at')
        ∙ query_at-append self s.queries (q ∷ []) p e,
    refl,
    refl,
  ),
)

pub adopt_for-StillAt :
    (s t : Session) (q new_q : Query) (parent : Option ℕ)
    → IsSession s
    → query_at q.self s.queries ≡ done q
    → t.queries ≡ s.queries ++ (new_q ∷ [])
    → t.events ≡ s.events
    → new_q.self ≡ s.allocated
    → Gives (StillAt s) (adopt_for t q new_q parent)
unfolding adopt_for
adopt_for-StillAt s t q new_q none h there eq ee at =
    let c = chained new_q q q.self in
    let still = added-StillAt s t new_q c h eq ee at at in
    let (q', found, ids, parent) = still.1 q.self q there in
    StillAt-set s (set_query t c) q'
      (record q { cname_child = some new_q.self; time_start = none; dns_id = none }) still found
      (sym ids) (sym parent)
adopt_for-StillAt s t q new_q (some parent) h there eq ee at =
    let c = chained new_q q parent in
    let still = added-StillAt s t new_q c h eq ee at at in
    Gives-bind (λ p. query_at parent (set_query t c).queries ≡ done p) (StillAt s)
      (query_at parent (set_query t c).queries) _ (Gives-given _)
      (λ p e.
        let self = query_at_self parent (set_query t c).queries p e in
        StillAt-set s (set_query t c) p (record p { cname_child = some new_q.self }) still
          (ap (λ x. query_at x (set_query t c).queries) self ∙ e) refl refl)

follow-Tells :
    (s : Session) (r : Response) (q : Query) (known : Option Known)
    → IsSession s
    → query_at q.self s.queries ≡ done q
    → IsThere s q.cname_parent
    → Gives (TellsIf s (told_ids s q)) (follow s r q known)
unfolding follow get_query adopt
follow-Tells s r q known h there up =
    let P = TellsIf s (told_ids s q) in
    Gives-bind (λ _. Unit {0}) P (target known) _ (Gives-any _)
      (λ qname h'.
        Gives-bind (AddedQuery s) P (add_query s qname q.qtype) _
          (add_query-AddedQuery s qname q.qtype)
          (λ (child, t) (new_q, eq, ea, ec, ee, at, self, step, chain, reqs, root, next_).
            let found : query_at child t.queries ≡ done new_q =
              ap (λ x. query_at x t.queries) at
              ∙ ap (query_at s.allocated) eq
              ∙ query_at-fresh s.allocated s.queries new_q (small_selfs s h) self in
            rw found (
              Gives-bind (StillAt s) P (adopt_for t q new_q q.cname_parent) _
                (adopt_for-StillAt s t q new_q q.cname_parent h there eq ee self)
                (λ u still. succeed-Tells s u r q still there up))))

still_same : (s : Session) → StillAt s s
still_same s = (refl, λ self p e. (p, e, refl, refl))

answer_for-Tells :
    (s : Session) (r : Response) (q : Query) (cname : Option (Option Known))
    → IsSession s
    → query_at q.self s.queries ≡ done q
    → IsThere s q.cname_parent
    → Gives (TellsIf s (told_ids s q)) (answer_for s r q cname)
unfolding answer_for
answer_for-Tells s r q none h there up = succeed-Tells s s r q (still_same s) there up
answer_for-Tells s r q (some known) h there up =
    Gives-if (TellsIf s (told_ids s q)) (leb 16 q.cname_chain_count) _ (follow s r q known)
      (λ long. finish-Tells report_error report_error s q report_error-Reports report_error-Reports)
      (λ short. follow-Tells s r q known h there up)

respond-Tells :
    (s : Session) (r : Option Response) (nxdomain : Bool) (q : Query)
    → IsSession s
    → query_at q.self s.queries ≡ done q
    → IsThere s q.cname_parent
    → Gives (TellsIf s (told_ids s q)) (respond s r nxdomain q)
unfolding respond process_answer
respond-Tells s none nxdomain q h there up =
    Gives-if (TellsIf s (told_ids s q)) (all_errored s.name_servers q) _ (done (false, s))
      (λ all. finish-Tells report_error report_error s q report_error-Reports report_error-Reports)
      (λ some_left. nothing_told s s refl)
respond-Tells s (some r) nxdomain q h there up =
    Gives-if (TellsIf s (told_ids s q)) nxdomain _
      (answer_for s r q (lone_cname r.answer_records q.qtype))
      (λ gone.
        finish-Tells report_nxdomain report_error s q report_nxdomain-Reports report_error-Reports)
      (λ exists. answer_for-Tells s r q (lone_cname r.answer_records q.qtype) h there up)

-- On a response to a query of a session in which no two queries have one pointer, with the query
-- that waits for it as the parent, if any, still there: where the query ends (the return of 1),
-- each of its requests and then each of the parent's gets one event, in order; where it goes on,
-- no request gets one. This is what holds if nothing faults.
pub process_response-Tells :
    (s : Session) (r : Option Response) (nxdomain : Bool) (q : Query)
    → IsSession s
    → query_at q.self s.queries ≡ done q
    → IsThere s q.cname_parent
    → Gives (TellsIf s (told_ids s q)) (process_response s r nxdomain q.self)
unfolding process_response
process_response-Tells s r nxdomain q h there up =
    rw there (respond-Tells s r nxdomain q h there up)

tell_error :
    (s : Session) (parent : Option ℕ)
    → IsThere s parent
    → (t : Session) × (tell_parent report_error parent s ≡ done t)
      × (t.events ≡ s.events ++ report status_error (parent_ids s parent))
unfolding tell_parent report
tell_error s none h = (s, refl, sym (append-nil s.events))
tell_error s (some parent) (cq, e) = (
  record s {
    events = s.events ++ report status_error cq.req_ids;
    queries = remove_query parent s.queries;
  },
  rw e refl,
  rw e refl,
)

-- An error, once every name server has failed, and the answer that the name does not exist end a query
-- without a fault: its requests get the error or NXDOMAIN, the parent's the error, and the parent is
-- removed.
pub process_response_failed :
    (s : Session) (r : Response) (q : Query)
    → query_at q.self s.queries ≡ done q
    → IsThere s q.cname_parent
    → (all_errored s.name_servers q ≡ true
        → (t : Session) × (process_response s none false q.self ≡ done (true, t))
          × (t.events
              ≡ (s.events ++ report status_error q.req_ids)
                ++ report status_error (parent_ids s q.cname_parent)))
      × ((t : Session) × (process_response s (some r) true q.self ≡ done (true, t))
          × (t.events
              ≡ (s.events ++ report status_nxdomain q.req_ids)
                ++ report status_error (parent_ids s q.cname_parent)))
unfolding process_response respond finish
process_response_failed s r q there up =
    let (t, e, told) =
      tell_error (append_events s (report status_error q.req_ids)) q.cname_parent up in
    let (u, e', told') =
      tell_error (append_events s (report status_nxdomain q.req_ids)) q.cname_parent up in
    (λ all. (t, rw (there, all, e) refl, told), (u, rw (there, e') refl, told'))
