-- ===== src/Dns/Session/Waiting/Responses.antt =====
-- The requests that wait and those that are told where a response comes: `_process_response` of
-- iris/irisnet/jdns/jdns.c.
use ambrosia.Prelude.{
  ℕ, ◌≡◌, refl, sym, ap, ◌∙◌, subst, Bool, false, Option, none, some, List, [], ◌∷◌, ◌++◌, leb,
  ◌==◌, if◌then◌else◌, arith,
}
use ambrosia.Dns.Memory.{Outcome, done}
use ambrosia.Dns.Util.Record.{Known}
use ambrosia.Dns.Util.Response.{Response}
use ambrosia.Dns.Session.{
  Session, Query, Event, append_events, query_at, set_query, remove_query, drop_query, is_some,
}
use ambrosia.Dns.Session.Requests.{get_query, add_query}
use ambrosia.Dns.Session.Responses.{
  report_copies, tell_parent, report_error, report_nxdomain, finish, all_errored, lone_cname,
  target, chained, adopt_for, adopt, succeed, follow, answer_for, respond, process_answer,
  process_response,
}
use ambrosia.Dns.Session.Responses.Answers.{
  Answers, Reports, report_error-Reports, report_nxdomain-Reports, report_copies-Reports,
}
use ambrosia.Dns.Session.Responses.Kept.{still_there, small_selfs}
use ambrosia.Dns.Session.Pointers.{query_at_self, query_at-All, query_at-fresh}
use ambrosia.Dns.Session.Queries.{remove_query_comm}
use ambrosia.Dns.Session.Kept.{
  Gives, Gives-bind, Gives-any, Gives-given, Gives-if, IsQueryOf, IsSession, AddedQuery,
  add_query-AddedQuery,
}
use ambrosia.Dns.Session.Waiting.{
  Holds, IsFit, Before, Holds-set, Holds-told, Holds-added, query_at-remove_query,
}

-- What holds once the query is removed, where it is to be.
abbrev pub HoldsAfter : ℕ → ℕ → ℕ → Bool × Session → Type 0
HoldsAfter id n self (remove, t) = Holds id n (if remove then drop_query t self else t)

module _ (id n : ℕ) where
  -- The parent is told and removed, and the query, which was told, is.
  tell_parent-Holds :
      (events : List ℕ → Outcome (List Event)) (s : Session) (q : Query) (es : List Event)
      (parent : Option ℕ)
      → Reports events
      → Holds id n s
      → query_at q.self s.queries ≡ done q
      → Answers q.req_ids es
      → Before parent q.self
      → Gives
          (λ t. Holds id n (drop_query t q.self))
          (tell_parent events parent (append_events s es))
  unfolding tell_parent drop_query
  tell_parent-Holds events s q es none h hold there a before =
      Holds-told id n s (drop_query (append_events s es) q.self) q es hold there a refl refl
  tell_parent-Holds events s q es (some parent) h hold there a before =
      Gives-bind (λ cq. query_at parent s.queries ≡ done cq) (λ t. Holds id n (drop_query t q.self))
        (query_at parent s.queries) _ (Gives-given _)
        (λ cq e.
          Gives-bind (Answers cq.req_ids) (λ t. Holds id n (drop_query t q.self))
            (events cq.req_ids) _ (h cq.req_ids)
            (λ es' a'.
              let apart : (q.self == parent) ≡ false = ground arith in
              let first : Session = record s {
                queries = remove_query q.self s.queries;
                events = s.events ++ es;
              } in
              let both : Session = record s {
                queries = remove_query parent s.queries;
                events = (s.events ++ es) ++ es';
              } in
              let at : cq.self ≡ parent = query_at_self parent s.queries cq e in
              Holds-told id n first (drop_query both q.self) cq es'
                (Holds-told id n s first q es hold there a refl refl)
                (ap (λ x. query_at x first.queries) at
                  ∙ query_at-remove_query parent q.self s.queries apart
                  ∙ e)
                a'
                (remove_query_comm q.self parent s.queries
                  ∙ ap (λ x. remove_query x first.queries) (sym at))
                refl))

  finish-Holds :
      (own others : List ℕ → Outcome (List Event)) (s : Session) (q : Query)
      → Reports own
      → Reports others
      → Holds id n s
      → query_at q.self s.queries ≡ done q
      → Gives (HoldsAfter id n q.self) (finish own others s q)
  unfolding finish
  finish-Holds own others s q h k hold there =
      Gives-bind (Answers q.req_ids) (HoldsAfter id n q.self) (own q.req_ids) _ (h q.req_ids)
        (λ es a.
          Gives-bind (λ t. Holds id n (drop_query t q.self)) (HoldsAfter id n q.self)
            (tell_parent others q.cname_parent (append_events s es)) _
            (tell_parent-Holds others s q es q.cname_parent k hold there a
              (query_at-All IsFit q.self s.queries q hold.0 there).1)
            (λ t k'. k'))

  succeed-Holds :
      (s : Session) (r : Response) (self : ℕ)
      → Holds id n s
      → Gives (HoldsAfter id n self) (succeed s r self)
  unfolding succeed
  succeed-Holds s r self hold =
      Gives-bind (λ q. query_at self s.queries ≡ done q) (HoldsAfter id n self)
        (query_at self s.queries) _ (Gives-given _)
        (λ q e.
          let at : q.self ≡ self = query_at_self self s.queries q e in
          Gives-if (HoldsAfter id n self) (is_some q.cname_child) (done (false, s)) _
            (λ waits. hold)
            (λ ends.
              subst
                (λ x. Gives (HoldsAfter id n x) (finish (report_copies r) (report_copies r) s q)) at
                (finish-Holds (report_copies r) (report_copies r) s q (report_copies-Reports r)
                  (report_copies-Reports r) hold (ap (λ x. query_at x s.queries) at ∙ e))))

  adopt_for-Holds :
      (s t : Session) (q new_q : Query) (parent : Option ℕ)
      → IsSession s
      → query_at q.self s.queries ≡ done q
      → t.queries ≡ s.queries ++ (new_q ∷ [])
      → new_q.self ≡ s.allocated
      → query_at new_q.self t.queries ≡ done new_q
      → Before parent q.self
      → Holds id n t
      → Gives (Holds id n) (adopt_for t q new_q parent)
  unfolding adopt_for
  adopt_for-Holds s t q new_q none h there eq at found before hold =
      let c = chained new_q q q.self in
      let (less, few, chain) = query_at-All (IsQueryOf s.allocated) q.self s.queries q h.0 there in
      let fit = query_at-All IsFit new_q.self t.queries new_q hold.0 found in
      let there' = still_there s t new_q c q q.self h eq at at there in
      let hold' = Holds-set id n t new_q c hold found (fit.0, omega (arith, at)) refl in
      Holds-set id n (set_query t c) q
        (record q { cname_child = some new_q.self; time_start = none; dns_id = none }) hold' there'
        (query_at-All IsFit q.self (set_query t c).queries q hold'.0 there') refl
  adopt_for-Holds s t q new_q (some parent) h there eq at found before hold =
      let c = chained new_q q parent in
      let (less, few, chain) = query_at-All (IsQueryOf s.allocated) q.self s.queries q h.0 there in
      let fit = query_at-All IsFit new_q.self t.queries new_q hold.0 found in
      let hold' = Holds-set id n t new_q c hold found (fit.0, omega (arith, at)) refl in
      Gives-bind (λ p. query_at parent (set_query t c).queries ≡ done p) (Holds id n)
        (query_at parent (set_query t c).queries) _ (Gives-given _)
        (λ p e.
          let self = query_at_self parent (set_query t c).queries p e in
          Holds-set id n (set_query t c) p (record p { cname_child = some new_q.self }) hold'
            (ap (λ x. query_at x (set_query t c).queries) self ∙ e)
            (query_at-All IsFit parent (set_query t c).queries p hold'.0 e) refl)

  follow-Holds :
      (s : Session) (r : Response) (q : Query) (known : Option Known)
      → IsSession s
      → query_at q.self s.queries ≡ done q
      → Holds id n s
      → Gives (HoldsAfter id n q.self) (follow s r q known)
  unfolding follow get_query adopt
  follow-Holds s r q known h there hold =
      Gives-bind (λ _. Unit {0}) (HoldsAfter id n q.self) (target known) _ (Gives-any _)
        (λ qname h'.
          Gives-bind (AddedQuery s) (HoldsAfter id n q.self) (add_query s qname q.qtype) _
            (add_query-AddedQuery s qname q.qtype)
            (λ (child, t) added.
              let (new_q, eq, ea, ec, ee, at, self, step, chain, reqs, root, next_) = added in
              let found : query_at child t.queries ≡ done new_q =
                ap (λ x. query_at x t.queries) at
                ∙ ap (query_at s.allocated) eq
                ∙ query_at-fresh s.allocated s.queries new_q (small_selfs s h) self in
              rw found (
                Gives-bind (Holds id n) (HoldsAfter id n q.self)
                  (adopt_for t q new_q q.cname_parent) _
                  (adopt_for-Holds s t q new_q q.cname_parent h there eq self
                    (ap (λ x. query_at x t.queries) (self ∙ sym at) ∙ found)
                    (query_at-All IsFit q.self s.queries q hold.0 there).1
                    (Holds-added id n s (child, t) hold added))
                  (λ u hold'. succeed-Holds u r q.self hold'))))

  answer_for-Holds :
      (s : Session) (r : Response) (q : Query) (cname : Option (Option Known))
      → IsSession s
      → query_at q.self s.queries ≡ done q
      → Holds id n s
      → Gives (HoldsAfter id n q.self) (answer_for s r q cname)
  unfolding answer_for
  answer_for-Holds s r q none h there hold = succeed-Holds s r q.self hold
  answer_for-Holds s r q (some known) h there hold =
      Gives-if (HoldsAfter id n q.self) (leb 16 q.cname_chain_count) _ (follow s r q known)
        (λ long.
          finish-Holds report_error report_error s q report_error-Reports report_error-Reports hold
            there)
        (λ short. follow-Holds s r q known h there hold)

  respond-Holds :
      (s : Session) (r : Option Response) (nxdomain : Bool) (q : Query)
      → IsSession s
      → query_at q.self s.queries ≡ done q
      → Holds id n s
      → Gives (HoldsAfter id n q.self) (respond s r nxdomain q)
  unfolding respond process_answer
  respond-Holds s none nxdomain q h there hold =
      Gives-if (HoldsAfter id n q.self) (all_errored s.name_servers q) _ (done (false, s))
        (λ all.
          finish-Holds report_error report_error s q report_error-Reports report_error-Reports hold
            there)
        (λ some_left. hold)
  respond-Holds s (some r) nxdomain q h there hold =
      Gives-if (HoldsAfter id n q.self) nxdomain _
        (answer_for s r q (lone_cname r.answer_records q.qtype))
        (λ gone.
          finish-Holds report_nxdomain report_error s q report_nxdomain-Reports report_error-Reports
            hold there)
        (λ exists. answer_for-Holds s r q (lone_cname r.answer_records q.qtype) h there hold)

  pub process_response-Holds :
      (s : Session) (r : Option Response) (nxdomain : Bool) (q : Query)
      → IsSession s
      → query_at q.self s.queries ≡ done q
      → Holds id n s
      → Gives (HoldsAfter id n q.self) (process_response s r nxdomain q.self)
  unfolding process_response
  process_response-Holds s r nxdomain q h there hold =
      rw there (respond-Holds s r nxdomain q h there hold)
