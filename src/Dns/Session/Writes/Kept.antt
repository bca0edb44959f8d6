-- ===== src/Dns/Session/Writes/Kept.antt =====
-- The rounds of `_unicast_do_writes`: what they keep of a session, and that they come to an end.
use ambrosia.Prelude.{
  ℕ, suc, ◌+◌, ◌≤◌, ◌<◌, ◌≡◌, refl, ap, ◌∙◌, subst, Bool, true, false, ◌||◌, Option, none, some,
  length, ◌==◌, if◌then◌else◌, arith,
}
use ambrosia.Dns.Memory.{done}
use ambrosia.Dns.Util.Response.{Response}
use ambrosia.Dns.Session.{Session, Query, query_at, put_query, drop_query}
use ambrosia.Dns.Session.Ids.{get_next_dns_id}
use ambrosia.Dns.Session.Requests.{get_query, add_query}
use ambrosia.Dns.Session.Responses.{process_response}
use ambrosia.Dns.Session.Responses.Kept.{
  Grows-refl, added-Grows, still_there, small_selfs, process_response-Ends,
}
use ambrosia.Dns.Session.Responses.Ends.{Grows, Ends, gain}
use ambrosia.Dns.Session.Queries.{left, At-get, left-get, left-put_query}
use ambrosia.Dns.Session.Pointers.{query_at-get, query_at-All, query_at-fresh}
use ambrosia.Dns.Session.Kept.{
  Gives, Gives-bind, Gives-if, IsQueryOf, StepOk, AreQueries-put, AreQueries-remove, AddedQuery,
  add_query-AddedQuery,
}
use ambrosia.Dns.Session.Writes.{
  start_over, pick_server, transmit, with_dns_id, give_up, send_now, send_at, requery, is_empty,
  use_cached, weight,
}
use ambrosia.Dns.Session.Writes.Transmits.{
  Like, Like-refl, Steps, Seen, weight_pos, removed_Steps, start_over-Like, Transmitted,
  transmit-Transmitted,
}

pub Seen-there : (n : ℕ) (s : Session) (q : Query) → Seen n s q → query_at q.self s.queries ≡ done q
Seen-there n s q (h, e) = query_at-get n s.queries q h.1 e

Seen-IsQueryOf : (n : ℕ) (s : Session) (q : Query) → Seen n s q → IsQueryOf s.allocated q
Seen-IsQueryOf n s q seen =
    query_at-All (IsQueryOf s.allocated) q.self s.queries q seen.0.0 (Seen-there n s q seen)

-- The query at `n` written with the next step.
written_Steps :
    (n m : ℕ) (s u : Session) (q r : Query)
    → Seen n s q
    → u.queries ≡ put_query r s.queries
    → u.allocated ≡ s.allocated
    → u.cache ≡ s.cache
    → Like r (record q { step = some (suc m) })
    → m < 8
    → Steps n s (false, u)
unfolding weight
written_Steps n m s u q r seen eu au cu like few =
    let (less, step, chain) = Seen-IsQueryOf n s q seen in
    let found : query_at r.self s.queries ≡ done q =
      ap (λ x. query_at x s.queries) like.same_self ∙ Seen-there n s q seen in
    let light : weight r ≤ weight q = rw (like.same_chain, like.same_cache) (omega arith) in
    let ok : IsQueryOf s.allocated r =
      (rw like.same_self less, rw like.same_step (omega (arith, few)), rw like.same_chain chain) in
    (
      rw (au, eu) (AreQueries-put s.allocated r s.queries ok seen.0),
      cu,
      rw eu (
          omega (
            arith,
            left-put_query (suc n) s.queries q r found light,
            left-get n s.queries q seen.1,
            weight_pos q,
          )),
    )

-- The session and the query that a transmission starts from.
send_now-Steps :
    (now n m : ℕ) (s t : Session) (q p : Query)
    → Seen n s q
    → t.queries ≡ s.queries
    → t.allocated ≡ s.allocated
    → t.cache ≡ s.cache
    → Like p q
    → q.step ≡ some m
    → m < 8
    → Gives (Steps n s) (send_now now (t, p))
unfolding send_now
send_now-Steps now n m s t q p seen eq ea ec like step few =
    let ready = start_over (length t.name_servers) p in
    let like' = start_over-Like (length t.name_servers) p in
    let ready_step = like'.same_step ∙ like.same_step ∙ step in
    Gives-bind (Transmitted t ready m) (Steps n s)
      (transmit now t ready (pick_server ready t.name_servers)) _
      (transmit-Transmitted now m t ready (pick_server ready t.name_servers) ready_step)
      (λ u (r, eu, au, cu, self, chain, cache, after, ids, parent, events).
        written_Steps n m s u q r seen (eu ∙ ap (put_query r) eq) (au ∙ ea) (cu ∙ ec)
          (record {
            same_self = self ∙ like'.same_self ∙ like.same_self;
            same_chain = chain ∙ like'.same_chain ∙ like.same_chain;
            same_cache = cache ∙ like'.same_cache ∙ like.same_cache;
            same_step = after;
            same_ids = ids ∙ like'.same_ids ∙ like.same_ids;
            same_parent = parent ∙ like'.same_parent ∙ like.same_parent;
          })
          few)

few_steps : (m k : ℕ) → m ≤ 8 → (m == 8) || (k == 0) ≡ false → m < 8
few_steps m k h e = ground arith

given_up_Steps : (n : ℕ) (s : Session) (q : Query) → Seen n s q → Steps n s (true, give_up s q)
unfolding give_up drop_query
given_up_Steps n s q seen = removed_Steps n s q seen

pub drawn_Like : (q : Query) (id : ℕ) → Like (record q { dns_id = some id }) q
drawn_Like q id = record {
  same_self = refl;
  same_chain = refl;
  same_cache = refl;
  same_step = refl;
  same_ids = refl;
  same_parent = refl;
}

with_dns_id-Steps :
    (now n m : ℕ) (s : Session) (q : Query) (id : Option ℕ)
    → Seen n s q
    → q.step ≡ some m
    → m < 8
    → Gives (Steps n s) (send_now now (with_dns_id s q id))
unfolding get_next_dns_id
with_dns_id-Steps now n m s q (some id) seen step few =
    send_now-Steps now n m s s q q seen refl refl refl (Like-refl q) step few
with_dns_id-Steps now n m s q none seen step few =
    let drawn = get_next_dns_id s in
    send_now-Steps now n m s drawn.1 q (record q { dns_id = some drawn.0 }) seen refl refl refl
      (drawn_Like q drawn.0) step few

pub send_at-Steps :
    (now n : ℕ) (s : Session) (q : Query) (step : Option ℕ)
    → Seen n s q
    → q.step ≡ step
    → Gives (Steps n s) (send_at now s q step)
unfolding send_at
send_at-Steps now n s q none seen e = removed_Steps n s q seen
send_at-Steps now n s q (some m) seen e =
    let (less, step, chain) = Seen-IsQueryOf n s q seen in
    let small : m ≤ 8 = subst StepOk e step in
    Gives-if (Steps n s) ((m == 8) || (length s.name_servers == 0)) (done (true, give_up s q))
      (send_now now (with_dns_id s q q.dns_id)) (λ over. given_up_Steps n s q seen)
      (λ more.
        with_dns_id-Steps now n m s q q.dns_id seen e
          (few_steps m (length s.name_servers) small more))

-- The query in the background is added, and the one at `n` is still found.
abbrev pub Requeried : Session → Query → Session → Type 0
Requeried s q t = Grows 1 s t × (query_at q.self t.queries ≡ done q)

pub requery-Requeried :
    (n : ℕ) (s : Session) (q : Query) (soon : Bool)
    → Seen n s q
    → Gives (Requeried s q) (requery s q soon)
unfolding requery get_query weight
requery-Requeried n s q soon seen =
    Gives-if (Requeried s q) soon _ (done s)
      (λ h.
        Gives-bind (AddedQuery s) (Requeried s q) (add_query s q.qname q.qtype) _
          (add_query-AddedQuery s q.qname q.qtype)
          (λ (self, t) (new_q, eq, ea, ec, ee, at, at', step, chain, reqs, root, next_).
            let found : query_at self t.queries ≡ done new_q =
              ap (λ x. query_at x t.queries) at
              ∙ ap (query_at s.allocated) eq
              ∙ query_at-fresh s.allocated s.queries new_q (small_selfs s seen.0) at' in
            let slow : Query = record new_q { retrying = true; trycache = false } in
            rw found (
              added-Grows 1 s t new_q slow seen.0 eq ea ec at' at' (rw step (omega arith))
                  (rw chain (omega arith)) (omega arith),
              still_there s t new_q slow q q.self seen.0 eq at' at' (Seen-there n s q seen),
            )))
      (λ h. (Grows-refl 1 s seen.0, Seen-there n s q seen))

trycache-weight :
    (q : Query) → q.trycache ≡ true → q.cname_chain_count ≤ 16 → suc (suc (gain q)) ≤ weight q
unfolding weight
trycache-weight q cache short = rw cache (ground arith)

ended_Steps :
    (n : ℕ) (s t : Session) (q : Query) (x : Bool × Session)
    → Seen n s q
    → q.trycache ≡ true
    → t.cache ≡ s.cache
    → left (suc n) t.queries ≤ left (suc n) s.queries + 1
    → Ends n q.self t (gain q) x
    → Steps n s (x.0, if x.0 then drop_query x.1 q.self else x.1)
unfolding drop_query
ended_Steps n s t q (true, u) seen cache same less (h, same', less') =
    let (small, step, chain) = Seen-IsQueryOf n s q seen in
    (
      AreQueries-remove u.allocated q.self u.queries h,
      same' ∙ same,
      omega (arith, less, less', left-get n s.queries q seen.1, trycache-weight q cache chain),
    )
ended_Steps n s t q (false, u) seen cache same less (h, same', less') =
    let (small, step, chain) = Seen-IsQueryOf n s q seen in
    (
      h,
      same' ∙ same,
      omega (arith, less, less', left-get n s.queries q seen.1, trycache-weight q cache chain),
    )

pub use_cached-Steps :
    (n : ℕ) (s : Session) (q : Query) (r : Response) (soon : Bool)
    → Seen n s q
    → q.trycache ≡ true
    → Gives (Steps n s) (use_cached s q r soon)
unfolding use_cached
use_cached-Steps n s q r soon seen cache =
    Gives-bind (Requeried s q) (Steps n s) (requery s q soon) _ (requery-Requeried n s q soon seen)
      (λ t ((h, same, less, stays), there).
        let place = stays n q.self (At-get n s.queries q seen.1) in
        Gives-bind (Ends n q.self t (gain q)) (Steps n s)
          (process_response t (some r) (is_empty r) q.self) _
          (process_response-Ends n t (some r) (is_empty r) q h there place)
          (λ x ends. ended_Steps n s t q x seen cache same (less (suc n)) ends))
