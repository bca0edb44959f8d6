-- ===== src/Dns/Session/Waiting.antt =====
-- The requests of a session that wait for an event, and those that got one: how often a request stands
-- in the queries and in the events.
pub mod Responses
pub mod Writes
pub mod Steps
pub mod Servers
pub mod Requests
pub mod Found
pub mod Asked
pub mod Cancels
pub mod Fewer
pub mod History
use ambrosia.Prelude.{
  ℕ, zero, suc, ◌+◌, ◌<◌, ◌≡◌, inl, inr, refl, sym, ap, ◌∙◌, Bool, true, false, Option, none, some,
  List, [], ◌∷◌, ◌++◌, ◌==◌, if◌then◌else◌, arith, Bool-cases,
}
use ambrosia.Prelude.Search.{All, All-append}
use ambrosia.Dns.Memory.{done}
use ambrosia.Dns.Session.{
  Session, Query, Event, event_response, event_shutdown, query_at, put_query, set_query,
  remove_query, drop_query,
}
use ambrosia.Dns.Session.Pointers.{query_at-All, All-put_query, All-remove_query}
use ambrosia.Dns.Session.Kept.{AddedQuery}
use ambrosia.Dns.Session.Responses.Answers.{Answers}

unfoldable pub count : ℕ → List ℕ → ℕ
count id [] = 0
count id (x ∷ ids) = (if x == id then 1 else 0) + count id ids

pub count-append : (id : ℕ) (xs ys : List ℕ) → count id (xs ++ ys) ≡ count id xs + count id ys
unfolding count
count-append id [] ys = omega arith
count-append id (x ∷ xs) ys = omega (arith, count-append id xs ys)

-- How often the request stands in the queries.
unfoldable pub waiting : ℕ → List Query → ℕ
waiting id [] = 0
waiting id (q ∷ qs) = count id q.req_ids + waiting id qs

-- How many events are for the request.
unfoldable pub told : ℕ → List Event → ℕ
told id [] = 0
told id (event_response to status r ∷ es) = (if to == id then 1 else 0) + told id es
told id (event_shutdown ∷ es) = told id es

pub waiting-append :
    (id : ℕ) (qs ps : List Query) → waiting id (qs ++ ps) ≡ waiting id qs + waiting id ps
unfolding waiting
waiting-append id [] ps = omega arith
waiting-append id (q ∷ qs) ps = omega (arith, waiting-append id qs ps)

pub told-append : (id : ℕ) (es more : List Event) → told id (es ++ more) ≡ told id es + told id more
unfolding told
told-append id [] more = omega arith
told-append id (event_response to status r ∷ es) more = omega (arith, told-append id es more)
told-append id (event_shutdown ∷ es) more = told-append id es more

pub told-Answers :
    (id : ℕ) (ids : List ℕ) (es : List Event) → Answers ids es → told id es ≡ count id ids
unfolding told count
told-Answers id [] [] h = refl
told-Answers id [] (e ∷ es) h = absurd h
told-Answers id (x ∷ ids) [] h = absurd h
told-Answers id (x ∷ ids) (event_response to status r ∷ es) (same, h) =
    rw same (ap (λ n. (if x == id then 1 else 0) + n) (told-Answers id ids es h))
told-Answers id (x ∷ ids) (event_shutdown ∷ es) h = absurd h

pub waiting-put_query :
    (id : ℕ) (q p : Query) (qs : List Query)
    → query_at q.self qs ≡ done p
    → waiting id (put_query q qs) + count id p.req_ids ≡ waiting id qs + count id q.req_ids
unfolding waiting
waiting-put_query id q p [] e = absurd (ground arith)
waiting-put_query id q p (x ∷ qs) e = elim (Bool-cases (x.self == q.self)) [
  | inl hit ↦
      let same : x ≡ p = ground arith in
      rw hit (omega (arith, ap (λ (y : Query). count id y.req_ids) same))
  | inr miss ↦ rw miss (omega (arith, waiting-put_query id q p qs (rw miss at e)))
]

pub waiting-remove_query :
    (id self : ℕ) (p : Query) (qs : List Query)
    → query_at self qs ≡ done p
    → waiting id (remove_query self qs) + count id p.req_ids ≡ waiting id qs
unfolding waiting
waiting-remove_query id self p [] e = absurd (ground arith)
waiting-remove_query id self p (x ∷ qs) e = elim (Bool-cases (x.self == self)) [
  | inl hit ↦
      let same : x ≡ p = ground arith in
      rw hit (omega (arith, ap (λ (y : Query). count id y.req_ids) same))
  | inr miss ↦ rw miss (omega (arith, waiting-remove_query id self p qs (rw miss at e)))
]

pub query_at-remove_query :
    (self other : ℕ) (qs : List Query)
    → (other == self) ≡ false
    → query_at self (remove_query other qs) ≡ query_at self qs
query_at-remove_query self other [] h = refl
query_at-remove_query self other (x ∷ qs) h = elim (Bool-cases (x.self == other)) [
  | inl hit ↦ let miss : (x.self == self) ≡ false = ground arith in rw hit (rw miss refl)
  | inr miss ↦ rw miss (rw (query_at-remove_query self other qs h) refl)
]

-- A query without a step has no requests.
abbrev pub Idle : Option ℕ → List ℕ → Type 0
Idle none ids = ids ≡ []
Idle (some n) ids = Unit {0}

abbrev pub Before : Option ℕ → ℕ → Type 0
Before none self = Unit {0}
Before (some parent) self = parent < self

-- A query that is inactive has no requests, and its parent, if any, was made before it.
abbrev pub IsFit : Query → Type 0
IsFit q = Idle q.step q.req_ids × Before q.cname_parent q.self

-- The request waits and was told `n` times in all.
abbrev pub Holds : ℕ → ℕ → Session → Type 0
Holds id n s = All IsFit s.queries × (waiting id s.queries + told id s.events ≡ n)

pub Holds-set :
    (id n : ℕ) (s : Session) (p q : Query)
    → Holds id n s
    → query_at q.self s.queries ≡ done p
    → IsFit q
    → q.req_ids ≡ p.req_ids
    → Holds id n (set_query s q)
Holds-set id n s p q (fit, total) e ok ids = (
  All-put_query IsFit q s.queries ok fit,
  omega (arith, waiting-put_query id q p s.queries e, ap (count id) ids),
)

-- A query that has no requests is removed.
pub Holds-drop :
    (id n : ℕ) (s : Session) (q : Query)
    → Holds id n s
    → query_at q.self s.queries ≡ done q
    → q.req_ids ≡ []
    → Holds id n (drop_query s q.self)
unfolding drop_query count
Holds-drop id n s q (fit, total) e none_left = (
  All-remove_query IsFit q.self s.queries fit,
  omega (arith, waiting-remove_query id q.self q s.queries e, ap (count id) none_left),
)

-- A query is removed, and its requests are told.
pub Holds-told :
    (id n : ℕ) (s t : Session) (q : Query) (es : List Event)
    → Holds id n s
    → query_at q.self s.queries ≡ done q
    → Answers q.req_ids es
    → t.queries ≡ remove_query q.self s.queries
    → t.events ≡ s.events ++ es
    → Holds id n t
Holds-told id n s t q es (fit, total) e a eq ee = (
  rw eq (All-remove_query IsFit q.self s.queries fit),
  rw (eq, ee)
      (omega (
        arith,
        waiting-remove_query id q.self q s.queries e,
        told-append id s.events es,
        told-Answers id q.req_ids es a,
      )),
)

pub Holds-added :
    (id n : ℕ) (s : Session) (x : ℕ × Session) → Holds id n s → AddedQuery s x → Holds id n x.1
unfolding waiting count
Holds-added id n s x (fit, total) (q, eq, ea, ec, ee, at, at', step, chain, reqs, parent, next_) = (
  rw eq (All-append IsFit s.queries (q ∷ []) fit ((idle, before), tt)),
  rw (eq, ee) (omega (arith, waiting-append id s.queries (q ∷ []), ap (count id) reqs)),
)
  where
    idle : Idle q.step q.req_ids
    idle = rw step tt

    before : Before q.cname_parent q.self
    before = rw parent tt
