-- ===== src/Dns/Session/Waiting/Cancels.antt =====
-- The requests that wait where one is cancelled: `jdns_cancel_query` of iris/irisnet/jdns/jdns.c.
use ambrosia.Prelude.{
  ℕ, zero, suc, ◌≡◌, inl, inr, refl, ap, ◌∙◌, Bool, true, false, ◌&&◌, not, Option, none, some,
  List, [], ◌∷◌, length, ltb, ◌==◌, if◌then◌else◌, arith, Bool-cases,
}
use ambrosia.Prelude.Search.{All, Pairwise}
use ambrosia.Dns.Memory.{done}
use ambrosia.Dns.Session.{
  Session, Callbacks, Query, query_at, put_query, set_query, remove_query, drop_query, is_some,
}
use ambrosia.Dns.Session.Ids.{has_id, remove_if_there}
use ambrosia.Dns.Session.Requests.{
  cancel_at, unicast_cancel, cancel_child, cancelled, cancel_rest, cancel_request, cancel_loop,
  jdns_cancel_query,
}
use ambrosia.Dns.Session.Pointers.{
  Apart, query_at_self, query_at-All, All-put_query, All-remove_query, Pairwise-put_query,
}
use ambrosia.Dns.Session.Kept.{Gives, Gives-bind, Gives-given, Gives-if, IsSession}
use ambrosia.Dns.Session.Waiting.{Holds, IsFit, Idle, Before, waiting, count}

-- Every query is the one that its pointer reads.
abbrev There : List Query → List Query → Type 0
There qs ys = All (λ y. query_at y.self qs ≡ done y) ys

There-behind : (x : Query) (qs ys : List Query) → All (Apart x) ys → There qs ys → There (x ∷ qs) ys
There-behind x qs [] apart h = tt
There-behind x qs (y ∷ ys) apart h =
    let miss = apart.0 in (rw miss h.0, There-behind x qs ys apart.1 h.1)

all_There : (qs : List Query) → Pairwise Apart qs → There qs qs
all_There [] h = tt
all_There (q ∷ qs) h =
    let hit : (q.self == q.self) ≡ true = ground arith in
    (rw hit refl, There-behind q qs qs h.0 (all_There qs h.1))

Idle-free : (step : Option ℕ) (ids : List ℕ) → ids ≡ [] → Idle step ids
Idle-free none ids free = free
Idle-free (some m) ids free = tt

-- The request is the only one, or removing it faults.
remove_if_there-only :
    (ids : List ℕ) (made id : ℕ)
    → has_id ids made ≡ true
    → (made == id) ≡ false
    → Gives (λ left. (left ≡ []) × (count id ids ≡ 0)) (remove_if_there ids made)
unfolding count
remove_if_there-only [] made id e other = absurd (ground arith)
remove_if_there-only (x ∷ []) made id e other =
    let at : x ≡ made = ground arith in
    let miss : (x == id) ≡ false = ground arith in rw e (refl, rw miss refl)
remove_if_there-only (x ∷ y ∷ ids) made id e other =
    let many : ltb 1 (length (x ∷ y ∷ ids)) ≡ true = ground arith in rw (e, many) tt

module _ (id n : ℕ) where
  -- No query of the pointer has the request.
  abbrev Quiet : ℕ → List Query → Type 0
  Quiet self qs = All (λ p. (p.self == self) ≡ true → count id p.req_ids ≡ 0) qs

  Quiet-query_at :
      (self : ℕ) (qs : List Query) (q : Query)
      → Pairwise Apart qs
      → query_at self qs ≡ done q
      → count id q.req_ids ≡ 0
      → Quiet self qs
  Quiet-query_at self [] q h e free = tt
  Quiet-query_at self (x ∷ qs) q h e free = elim (Bool-cases (x.self == self)) [
    | inl hit ↦
        let same : x ≡ q = ground arith in
        (λ e'. ap (λ (y : Query). count id y.req_ids) same ∙ free, others qs h.0 (ground arith))
    | inr miss ↦ (λ e'. absurd (ground arith), Quiet-query_at self qs q h.1 (rw miss at e) free)
  ]
    where
      others : (ys : List Query) → All (Apart x) ys → x.self ≡ self → Quiet self ys
      others [] a at = tt
      others (y ∷ ys) a at = let apart = a.0 in (λ e'. absurd (ground arith), others ys a.1 at)

  waiting-put-Quiet :
      (q : Query) (qs : List Query)
      → Quiet q.self qs
      → count id q.req_ids ≡ 0
      → waiting id (put_query q qs) ≡ waiting id qs
  unfolding waiting
  waiting-put-Quiet q [] h free = refl
  waiting-put-Quiet q (x ∷ qs) h free = elim (Bool-cases (x.self == q.self)) [
    | inl hit ↦ rw hit (omega (arith, free, h.0 hit))
    | inr miss ↦ rw miss (omega (arith, waiting-put-Quiet q qs h.1 free))
  ]

  waiting-remove-Quiet :
      (self : ℕ) (qs : List Query)
      → Quiet self qs
      → waiting id (remove_query self qs) ≡ waiting id qs
  unfolding waiting
  waiting-remove-Quiet self [] h = refl
  waiting-remove-Quiet self (x ∷ qs) h = elim (Bool-cases (x.self == self)) [
    | inl hit ↦ rw hit (omega (arith, h.0 hit))
    | inr miss ↦ rw miss (omega (arith, waiting-remove-Quiet self qs h.1))
  ]

  -- A query that waits for nobody is written.
  put-Quiet-Holds :
      (s : Session) (q : Query)
      → Holds id n s
      → Quiet q.self s.queries
      → q.req_ids ≡ []
      → IsFit q
      → Holds id n (set_query s q)
  unfolding count
  put-Quiet-Holds s q hold quiet free fit = (
    All-put_query IsFit q s.queries fit hold.0,
    omega (arith, waiting-put-Quiet q s.queries quiet (ap (count id) free), hold.1),
  )

  Quiet-put :
      (self : ℕ) (q : Query) (qs : List Query)
      → q.req_ids ≡ []
      → Quiet self qs
      → Quiet self (put_query q qs)
  unfolding count
  Quiet-put self q qs free h =
      All-put_query (λ p. (p.self == self) ≡ true → count id p.req_ids ≡ 0) q qs
        (λ e. ap (count id) free) h

  cancel_at-Holds :
      (cb : Callbacks) (s : Session) (q : Query) (step : Option ℕ)
      → Holds id n s
      → Quiet q.self s.queries
      → q.req_ids ≡ []
      → Before q.cname_parent q.self
      → Holds id n (cancel_at cb s q step)
  unfolding drop_query
  cancel_at-Holds cb s q (some zero) hold quiet free before = (
    All-remove_query IsFit q.self s.queries hold.0,
    omega (arith, waiting-remove-Quiet q.self s.queries quiet, hold.1),
  )
  cancel_at-Holds cb s q (some (suc m)) hold quiet free before =
      put-Quiet-Holds s _ hold quiet free (free, before)
  cancel_at-Holds cb s q none hold quiet free before =
      put-Quiet-Holds s _ hold quiet free (free, before)

  Quiet-cancel_at :
      (cb : Callbacks) (s : Session) (q : Query) (step : Option ℕ) (self : ℕ)
      → q.req_ids ≡ []
      → Quiet self s.queries
      → Quiet self (cancel_at cb s q step).queries
  unfolding drop_query
  Quiet-cancel_at cb s q (some zero) self free h =
      All-remove_query (λ p. (p.self == self) ≡ true → count id p.req_ids ≡ 0) q.self s.queries h
  Quiet-cancel_at cb s q (some (suc m)) self free h = Quiet-put self _ s.queries free h
  Quiet-cancel_at cb s q none self free h = Quiet-put self _ s.queries free h

  -- The session and the query that `cancel_child` gives.
  abbrev Freed : Session × Query → Type 0
  Freed (s, q) =
      Holds id n s × Quiet q.self s.queries × (q.req_ids ≡ []) × Before q.cname_parent q.self

  cancel_child-Freed :
      (cb : Callbacks) (s : Session) (q : Query) (child : Option ℕ)
      → Pairwise Apart s.queries
      → Freed (s, q)
      → Gives Freed (cancel_child cb s q child)
  unfolding cancel_child unicast_cancel count
  cancel_child-Freed cb s q none apart h = h
  cancel_child-Freed cb s q (some child) apart (hold, quiet, free, before) =
      Gives-bind (λ c. query_at child s.queries ≡ done c) Freed (query_at child s.queries) _
        (Gives-given _) (λ c e. either c e (length c.req_ids == 0) refl)
    where
      none_left : (ids : List ℕ) → (length ids == 0) ≡ true → ids ≡ []
      none_left [] e = refl
      none_left (x ∷ ids) e = absurd (ground arith)

      either :
          (c : Query)
          → query_at child s.queries ≡ done c
          → (b : Bool) → (length c.req_ids == 0) ≡ b
          → Freed (
              if b
              then (
                cancel_at cb
                    (set_query s (record c { cname_parent = none }))
                    (record c { cname_parent = none })
                    c.step,
                record q { cname_child = none },
              )
              else (s, q))
      either c e false e' = (hold, quiet, free, before)
      either c e true e' =
          let bare = none_left c.req_ids e' in
          let p : Query = record c { cname_parent = none } in
          let at = query_at_self child s.queries c e in
          let there : query_at c.self s.queries ≡ done c = ap (λ x. query_at x s.queries) at ∙ e in
          let quiet' = Quiet-query_at c.self s.queries c apart there (ap (count id) bare) in
          let hold' = put-Quiet-Holds s p hold quiet' bare (Idle-free c.step c.req_ids bare, tt) in
          (
            cancel_at-Holds cb (set_query s p) p c.step hold'
                (Quiet-put c.self p s.queries bare quiet') bare tt,
            Quiet-cancel_at cb (set_query s p) p c.step q.self bare
                (Quiet-put q.self p s.queries bare quiet),
            free,
            before,
          )

  cancel_rest-Holds :
      (cb : Callbacks) (s : Session) (q : Query)
      → Pairwise Apart s.queries
      → Freed (s, q)
      → Gives (Holds id n) (cancel_rest cb s q)
  unfolding cancel_rest unicast_cancel
  cancel_rest-Holds cb s q apart (hold, quiet, free, before) =
      let set = put-Quiet-Holds s q hold quiet free (Idle-free q.step q.req_ids free, before) in
      Gives-if (Holds id n) ((length q.req_ids == 0) && not (is_some q.cname_parent)) _
        (done (set_query s q))
        (λ e.
          Gives-bind Freed (Holds id n) (cancel_child cb (set_query s q) q q.cname_child)
            (cancelled cb)
            (cancel_child-Freed cb (set_query s q) q q.cname_child
              (Pairwise-put_query q s.queries apart)
              (set, Quiet-put q.self q s.queries free quiet, free, before))
            (λ (t, p) (hold', quiet', free', before').
              cancel_at-Holds cb (set_query t p) p p.step
                (put-Quiet-Holds t p hold' quiet' free' (Idle-free p.step p.req_ids free', before'))
                (Quiet-put p.self p t.queries free' quiet') free' before'))
        (λ e. set)

  cancel_loop-Holds :
      (cb : Callbacks) (s : Session) (qs : List Query) (made : ℕ)
      → Pairwise Apart s.queries
      → Holds id n s
      → There s.queries qs
      → (made == id) ≡ false
      → Gives (Holds id n) (cancel_loop cb s qs made)
  unfolding cancel_loop cancel_request
  cancel_loop-Holds cb s [] made apart hold there other = hold
  cancel_loop-Holds cb s (q ∷ qs) made apart hold there other =
      Gives-if (Holds id n) (has_id q.req_ids made) _ _
        (λ e.
          Gives-bind (λ left. (left ≡ []) × (count id q.req_ids ≡ 0)) (Holds id n)
            (remove_if_there q.req_ids made) _ (remove_if_there-only q.req_ids made id e other)
            (λ left (free, rare).
              cancel_rest-Holds cb s (record q { req_ids = left }) apart
                (
                  hold,
                  Quiet-query_at q.self s.queries q apart there.0 rare,
                  free,
                  (query_at-All IsFit q.self s.queries q hold.0 there.0).1,
                )))
        (λ e. cancel_loop-Holds cb s qs made apart hold there.1 other)

  -- Cancelling a request changes nothing of the others.
  pub jdns_cancel_query-Holds :
      (cb : Callbacks) (s : Session) (made : ℕ)
      → IsSession s
      → Holds id n s
      → (made == id) ≡ false
      → Gives (Holds id n) (jdns_cancel_query cb s made)
  unfolding jdns_cancel_query
  jdns_cancel_query-Holds cb s made h hold other =
      cancel_loop-Holds cb s s.queries made h.1 hold (all_There s.queries h.1) other
