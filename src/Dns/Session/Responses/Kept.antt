-- ===== src/Dns/Session/Responses/Kept.antt =====
-- What a response keeps of a session, and the work that it leaves.
use ambrosia.Prelude.{
  ℕ, suc, ◌≤◌, ◌<◌, ◌≡◌, refl, sym, ap, ◌∙◌, subst, Bool, false, Option, none, some, List, [], ◌∷◌,
  ◌++◌, leb, arith,
}
use ambrosia.Prelude.Search.{All, All-map}
use ambrosia.Dns.Memory.{Outcome, done}
use ambrosia.Dns.Util.Record.{Known}
use ambrosia.Dns.Util.Response.{Response}
use ambrosia.Dns.Session.{Session, Query, Event, query_at, set_query, put_query, is_some}
use ambrosia.Dns.Session.Requests.{get_query, add_query}
use ambrosia.Dns.Session.Responses.{
  follow, answer_for, respond, chained, adopt_for, finish, report_error, report_nxdomain,
  report_copies, all_errored, lone_cname, target, adopt, succeed, process_answer, process_response,
}
use ambrosia.Dns.Session.Writes.{weight}
use ambrosia.Dns.Session.Queries.{At, At-put_query, At-append, left-put_query, left-append}
use ambrosia.Dns.Session.Pointers.{
  query_at_self, query_at-All, query_at-append, query_at-fresh, put_query-fresh,
}
use ambrosia.Dns.Session.Kept.{
  Gives, Gives-bind, Gives-any, Gives-map, Gives-if, IsQueryOf, IsSession, AreQueries-put,
  AreQueries-add, StepOk, Gives-given, AddedQuery, add_query-AddedQuery,
}
use ambrosia.Dns.Session.Responses.Ends.{Grows, Ends, finish-Ends, gain}

pub Grows-set :
    (k : ℕ) (s t : Session) (p q : Query)
    → Grows k s t
    → query_at q.self t.queries ≡ done p
    → IsQueryOf t.allocated q
    → weight q ≤ weight p
    → Grows k s (set_query t q)
Grows-set k s t p q (h, same, less, stays) e ok light = (
  AreQueries-put t.allocated q t.queries ok h,
  same,
  λ n. omega (arith, less n, left-put_query n t.queries p q e light),
  λ n self place. At-put_query n self q t.queries (stays n self place),
)

pub small_selfs : (s : Session) → IsSession s → All (λ q. q.self < s.allocated) s.queries
small_selfs s h =
    All-map (IsQueryOf s.allocated) (λ q. q.self < s.allocated) (λ x (less, few, short). less)
      s.queries h.0

-- A new query was added, and written over.
pub added-Grows :
    (k : ℕ) (s t : Session) (new_q q : Query)
    → IsSession s
    → t.queries ≡ s.queries ++ (new_q ∷ [])
    → t.allocated ≡ suc s.allocated
    → t.cache ≡ s.cache
    → new_q.self ≡ s.allocated
    → q.self ≡ s.allocated
    → StepOk q.step
    → q.cname_chain_count ≤ 16
    → weight q ≤ k
    → Grows k s (set_query t q)
added-Grows k s t new_q q h eq ea ec at at' step chain light =
    let written =
      ap (put_query q) eq
      ∙ put_query-fresh s.allocated s.queries new_q q (small_selfs s h) at at' in
    (
      rw (ea, written) (AreQueries-add s.allocated q s.queries at' step chain h),
      ec,
      λ n. rw written (omega (arith, light, left-append n s.queries q)),
      λ n self place. rw written (At-append n self s.queries (q ∷ []) place),
    )

-- A query of before is found where a new one was added and written over.
pub still_there :
    (s t : Session) (new_q q p : Query) (self : ℕ)
    → IsSession s
    → t.queries ≡ s.queries ++ (new_q ∷ [])
    → new_q.self ≡ s.allocated
    → q.self ≡ s.allocated
    → query_at self s.queries ≡ done p
    → query_at self (set_query t q).queries ≡ done p
still_there s t new_q q p self h eq at at' e =
    ap (query_at self)
      (ap (put_query q) eq ∙ put_query-fresh s.allocated s.queries new_q q (small_selfs s h) at at')
    ∙ query_at-append self s.queries (q ∷ []) p e

chained_weight :
    (new_q q : Query) (parent : ℕ)
    → q.cname_chain_count < 16
    → weight (chained new_q q parent) ≤ gain q
unfolding weight
chained_weight new_q q parent short = ground arith

ap_step : {step : Option ℕ} → step ≡ some 0 → StepOk step
ap_step e = rw e (omega arith)

same_weight :
    (p q : Query)
    → p.trycache ≡ q.trycache
    → p.cname_chain_count ≡ q.cname_chain_count
    → weight q ≤ weight p
unfolding weight
same_weight p q e e' = rw (e, e') (omega arith)

adopt_for-Grows :
    (s t : Session) (q new_q : Query) (parent : Option ℕ)
    → IsSession s
    → query_at q.self s.queries ≡ done q
    → q.cname_chain_count < 16
    → t.queries ≡ s.queries ++ (new_q ∷ [])
    → t.allocated ≡ suc s.allocated
    → t.cache ≡ s.cache
    → new_q.self ≡ s.allocated
    → new_q.step ≡ some 0
    → Gives (Grows (gain q) s) (adopt_for t q new_q parent)
unfolding adopt_for
adopt_for-Grows s t q new_q none h there short eq ea ec at step =
    let c = chained new_q q q.self in
    let grows =
      added-Grows (gain q) s t new_q c h eq ea ec at at (ap_step step) (omega arith)
        (chained_weight new_q q q.self short) in
    let (less, few, chain) = query_at-All (IsQueryOf s.allocated) q.self s.queries q h.0 there in
    Grows-set (gain q) s (set_query t c) q
      (record q { cname_child = some new_q.self; time_start = none; dns_id = none }) grows
      (still_there s t new_q c q q.self h eq at at there) (rw ea (omega arith, few, chain))
      (same_weight q (record q { cname_child = some new_q.self; time_start = none; dns_id = none })
        refl refl)
adopt_for-Grows s t q new_q (some parent) h there short eq ea ec at step =
    let c = chained new_q q parent in
    let grows =
      added-Grows (gain q) s t new_q c h eq ea ec at at (ap_step step) (omega arith)
        (chained_weight new_q q parent short) in
    Gives-bind (λ p. query_at parent (set_query t c).queries ≡ done p) (Grows (gain q) s)
      (query_at parent (set_query t c).queries) _ (Gives-given _)
      (λ p e.
        let self = query_at_self parent (set_query t c).queries p e in
        Grows-set (gain q) s (set_query t c) p (record p { cname_child = some new_q.self }) grows
          (ap (λ x. query_at x (set_query t c).queries) self ∙ e)
          (query_at-All (IsQueryOf t.allocated) parent (set_query t c).queries p grows.0.0 e)
          (same_weight p (record p { cname_child = some new_q.self }) refl refl))

adopt-Grows :
    (s t : Session) (q : Query) (child : ℕ)
    → IsSession s
    → query_at q.self s.queries ≡ done q
    → q.cname_chain_count < 16
    → AddedQuery s (child, t)
    → Gives (Grows (gain q) s) (adopt t q child)
unfolding adopt
adopt-Grows s t q child h there short
      (new_q, eq, ea, ec, ee, at, self, step, chain, reqs, root, next_) =
    let found : query_at child t.queries ≡ done new_q =
      ap (λ x. query_at x t.queries) at
      ∙ ap (query_at s.allocated) eq
      ∙ query_at-fresh s.allocated s.queries new_q (small_selfs s h) self in
    rw found (adopt_for-Grows s t q new_q q.cname_parent h there short eq ea ec self step)

pub Grows-refl : (k : ℕ) (s : Session) → IsSession s → Grows k s s
Grows-refl k s h = (h, refl, λ n. omega arith, λ n self place. place)

-- What ends a query of a session that has grown.
Ends-Grows :
    (n self k : ℕ) (s t : Session) (x : Bool × Session)
    → Grows k s t
    → Ends n self t 0 x
    → Ends n self s k x
Ends-Grows n self k s t (remove, u) (h, same, less, stays) (h', same', less') =
    (h', same' ∙ same, omega (arith, less (suc n), less'))

-- The query at `n` gets a success, or waits for its child.
succeed-Ends :
    (n k : ℕ) (s t : Session) (r : Response) (self : ℕ)
    → Grows k s t
    → At n self s.queries
    → Gives (Ends n self s k) (succeed t r self)
unfolding succeed
succeed-Ends n k s t r self grows place =
    let (h, same, less, stays) = grows in
    Gives-bind (λ q. query_at self t.queries ≡ done q) (Ends n self s k) (query_at self t.queries) _
      (Gives-given _)
      (λ q e.
        let here_ = query_at_self self t.queries q e in
        Gives-if (Ends n self s k) (is_some q.cname_child) (done (false, t))
          (finish (report_copies r) (report_copies r) t q) (λ waits. (h, same, less (suc n)))
          (λ ends.
            Gives-map (finish (report_copies r) (report_copies r) t q)
              (λ x e'. Ends-Grows n self k s t x grows (subst (λ y. Ends n y t 0 x) here_ e'))
              (finish-Ends (report_copies r) (report_copies r) n t q h
                (subst (λ y. At n y t.queries) (sym here_) (stays n self place)))))

follow-Ends :
    (n : ℕ) (s : Session) (r : Response) (q : Query) (known : Option Known)
    → IsSession s
    → query_at q.self s.queries ≡ done q
    → At n q.self s.queries
    → q.cname_chain_count < 16
    → Gives (Ends n q.self s (gain q)) (follow s r q known)
unfolding follow get_query
follow-Ends n s r q known h there place short =
    Gives-bind (λ _. Unit {0}) (Ends n q.self s (gain q)) (target known) _ (Gives-any _)
      (λ qname h'.
        Gives-bind (AddedQuery s) (Ends n q.self s (gain q)) (add_query s qname q.qtype) _
          (add_query-AddedQuery s qname q.qtype)
          (λ (child, t) added.
            Gives-bind (Grows (gain q) s) (Ends n q.self s (gain q)) (adopt t q child) _
              (adopt-Grows s t q child h there short added)
              (λ u grows. succeed-Ends n (gain q) s u r q.self grows place)))

finish-gain :
    (own others : List ℕ → Outcome (List Event)) (n : ℕ) (s : Session) (q : Query)
    → IsSession s
    → At n q.self s.queries
    → Gives (Ends n q.self s (gain q)) (finish own others s q)
finish-gain own others n s q h place =
    Gives-map (finish own others s q)
      (λ x. Ends-Grows n q.self (gain q) s s x (Grows-refl (gain q) s h))
      (finish-Ends own others n s q h place)

answer_for-Ends :
    (n : ℕ) (s : Session) (r : Response) (q : Query) (cname : Option (Option Known))
    → IsSession s
    → query_at q.self s.queries ≡ done q
    → At n q.self s.queries
    → Gives (Ends n q.self s (gain q)) (answer_for s r q cname)
unfolding answer_for
answer_for-Ends n s r q none h there place =
    succeed-Ends n (gain q) s s r q.self (Grows-refl (gain q) s h) place
answer_for-Ends n s r q (some known) h there place =
    Gives-if (Ends n q.self s (gain q)) (leb 16 q.cname_chain_count) _ (follow s r q known)
      (λ long. finish-gain report_error report_error n s q h place)
      (λ short. follow-Ends n s r q known h there place (ground arith))

respond-Ends :
    (n : ℕ) (s : Session) (r : Option Response) (nxdomain : Bool) (q : Query)
    → IsSession s
    → query_at q.self s.queries ≡ done q
    → At n q.self s.queries
    → Gives (Ends n q.self s (gain q)) (respond s r nxdomain q)
unfolding respond process_answer
respond-Ends n s none nxdomain q h there place =
    Gives-if (Ends n q.self s (gain q)) (all_errored s.name_servers q)
      (finish report_error report_error s q) (done (false, s))
      (λ all. finish-gain report_error report_error n s q h place)
      (λ some_left. (h, refl, omega arith))
respond-Ends n s (some r) nxdomain q h there place =
    Gives-if (Ends n q.self s (gain q)) nxdomain (finish report_nxdomain report_error s q)
      (answer_for s r q (lone_cname r.answer_records q.qtype))
      (λ gone. finish-gain report_nxdomain report_error n s q h place)
      (λ exists. answer_for-Ends n s r q (lone_cname r.answer_records q.qtype) h there place)

-- A response to the query at `n`.
pub process_response-Ends :
    (n : ℕ) (s : Session) (r : Option Response) (nxdomain : Bool) (q : Query)
    → IsSession s
    → query_at q.self s.queries ≡ done q
    → At n q.self s.queries
    → Gives (Ends n q.self s (gain q)) (process_response s r nxdomain q.self)
unfolding process_response
process_response-Ends n s r nxdomain q h there place =
    rw there (respond-Ends n s r nxdomain q h there place)
