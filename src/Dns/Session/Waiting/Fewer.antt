-- ===== src/Dns/Session/Waiting/Fewer.antt =====
-- What `jdns_cancel_query` of iris/irisnet/jdns/jdns.c leaves of the requests that wait.
use ambrosia.Prelude.{
  ℕ, zero, suc, ◌≤◌, ◌≡◌, inl, inr, refl, ap, ◌∙◌, Bool, true, false, ◌&&◌, not, Option, none, some,
  List, [], ◌∷◌, length, ltb, ◌==◌, if◌then◌else◌, arith, Bool-cases,
}
use ambrosia.Dns.Memory.{done}
use ambrosia.Dns.Session.{
  Session, Callbacks, Query, query_at, put_query, set_query, remove_query, drop_query, is_some,
}
use ambrosia.Dns.Session.Ids.{has_id, remove_if_there}
use ambrosia.Dns.Session.Requests.{
  cancel_at, unicast_cancel, cancel_child, cancelled, cancel_rest, cancel_request, cancel_loop,
  jdns_cancel_query,
}
use ambrosia.Dns.Session.Kept.{Gives, Gives-bind, Gives-any, Gives-if}
use ambrosia.Dns.Session.Waiting.{waiting, count}

remove_if_there-nil :
    (ids : List ℕ) (made : ℕ)
    → has_id ids made ≡ true
    → Gives (λ left. left ≡ []) (remove_if_there ids made)
remove_if_there-nil [] made e = absurd (ground arith)
remove_if_there-nil (x ∷ []) made e = rw e refl
remove_if_there-nil (x ∷ y ∷ ids) made e =
    let many : ltb 1 (length (x ∷ y ∷ ids)) ≡ true = ground arith in rw (e, many) tt

none_left : (ids : List ℕ) → (length ids == 0) ≡ true → ids ≡ []
none_left [] e = refl
none_left (x ∷ ids) e = absurd (ground arith)

module _ (id : ℕ) where
  waiting-put_query-nil :
      (q : Query) (qs : List Query) → q.req_ids ≡ [] → waiting id (put_query q qs) ≤ waiting id qs
  unfolding waiting count
  waiting-put_query-nil q [] e = omega arith
  waiting-put_query-nil q (x ∷ qs) e = elim (Bool-cases (x.self == q.self)) [
    | inl hit ↦ rw hit (omega (arith, ap (count id) e))
    | inr miss ↦ rw miss (omega (arith, waiting-put_query-nil q qs e))
  ]

  waiting-remove_query-le :
      (self : ℕ) (qs : List Query) → waiting id (remove_query self qs) ≤ waiting id qs
  unfolding waiting
  waiting-remove_query-le self [] = omega arith
  waiting-remove_query-le self (x ∷ qs) = elim (Bool-cases (x.self == self)) [
    | inl hit ↦ rw hit (omega arith)
    | inr miss ↦ rw miss (omega (arith, waiting-remove_query-le self qs))
  ]

  -- The request does not wait more often, and no event is new.
  abbrev pub Fewer : Session → Session → Type 0
  Fewer s t = (waiting id t.queries ≤ waiting id s.queries) × (t.events ≡ s.events)

  cancel_at-Fewer :
      (cb : Callbacks) (s : Session) (q : Query) (step : Option ℕ)
      → q.req_ids ≡ []
      → Fewer s (cancel_at cb s q step)
  unfolding drop_query
  cancel_at-Fewer cb s q (some zero) e = (waiting-remove_query-le q.self s.queries, refl)
  cancel_at-Fewer cb s q (some (suc n)) e = (waiting-put_query-nil _ s.queries e, refl)
  cancel_at-Fewer cb s q none e = (waiting-put_query-nil _ s.queries e, refl)

  -- A query without requests is written, and then cancelled.
  set_cancel-Fewer :
      (cb : Callbacks) (s : Session) (q : Query)
      → q.req_ids ≡ []
      → Fewer s (cancel_at cb (set_query s q) q q.step)
  set_cancel-Fewer cb s q e =
      let (few, same) = cancel_at-Fewer cb (set_query s q) q q.step e in
      (omega (arith, few, waiting-put_query-nil q s.queries e), same)

  abbrev FewerLeft : Session → Session × Query → Type 0
  FewerLeft s (t, p) = Fewer s t × (p.req_ids ≡ [])

  cancel_child-FewerLeft :
      (cb : Callbacks) (s : Session) (q : Query) (child : Option ℕ)
      → q.req_ids ≡ []
      → Gives (FewerLeft s) (cancel_child cb s q child)
  unfolding cancel_child unicast_cancel
  cancel_child-FewerLeft cb s q none e = ((omega arith, refl), e)
  cancel_child-FewerLeft cb s q (some child) e =
      Gives-bind (λ _. Unit {0}) (FewerLeft s) (query_at child s.queries) _ (Gives-any _)
        (λ c h. either c (length c.req_ids == 0) refl)
    where
      either :
          (c : Query) (b : Bool)
          → (length c.req_ids == 0) ≡ b
          → FewerLeft s (
              if b
              then (
                cancel_at cb
                    (set_query s (record c { cname_parent = none }))
                    (record c { cname_parent = none })
                    c.step,
                record q { cname_child = none },
              )
              else (s, q))
      either c true e' =
          (set_cancel-Fewer cb s (record c { cname_parent = none }) (none_left c.req_ids e'), e)
      either c false e' = ((omega arith, refl), e)

  cancel_rest-Fewer :
      (cb : Callbacks) (s : Session) (q : Query)
      → q.req_ids ≡ []
      → Gives (Fewer s) (cancel_rest cb s q)
  unfolding cancel_rest unicast_cancel
  cancel_rest-Fewer cb s q e =
      let set = waiting-put_query-nil q s.queries e in
      Gives-if (Fewer s) ((length q.req_ids == 0) && not (is_some q.cname_parent)) _
        (done (set_query s q))
        (λ alone.
          Gives-bind (FewerLeft (set_query s q)) (Fewer s)
            (cancel_child cb (set_query s q) q q.cname_child) (cancelled cb)
            (cancel_child-FewerLeft cb (set_query s q) q q.cname_child e)
            (λ (t, p) ((few, same), e').
              let (few', same') = set_cancel-Fewer cb t p e' in
              (omega (arith, set, few, few'), same' ∙ same)))
        (λ shared. (set, refl))

  cancel_loop-Fewer :
      (cb : Callbacks) (s : Session) (qs : List Query) (made : ℕ)
      → Gives (Fewer s) (cancel_loop cb s qs made)
  unfolding cancel_loop cancel_request
  cancel_loop-Fewer cb s [] made = (omega arith, refl)
  cancel_loop-Fewer cb s (q ∷ qs) made =
      Gives-if (Fewer s) (has_id q.req_ids made) _ _
        (λ e.
          Gives-bind (λ left. left ≡ []) (Fewer s) (remove_if_there q.req_ids made) _
            (remove_if_there-nil q.req_ids made e)
            (λ left e'. cancel_rest-Fewer cb s (record q { req_ids = left }) e'))
        (λ e. cancel_loop-Fewer cb s qs made)

  pub jdns_cancel_query-Fewer :
      (cb : Callbacks) (s : Session) (made : ℕ) → Gives (Fewer s) (jdns_cancel_query cb s made)
  unfolding jdns_cancel_query
  jdns_cancel_query-Fewer cb s made = cancel_loop-Fewer cb s s.queries made
