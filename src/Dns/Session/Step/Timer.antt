-- ===== src/Dns/Session/Step/Timer.antt =====
-- The timer that a step sets, and the end of a session.
use ambrosia.Prelude.{
  ℕ, ◌+◌, ◌-◌, ◌≤◌, ◌≡◌, ◌⊎◌, inl, inr, refl, ap, ◌∙◌, Bool, true, false, ◌||◌, subst, sym, Option,
  none, some, List, [], ◌∷◌, ◌++◌, map, ltb, arith, Bool-cases,
}
use ambrosia.Prelude.Search.{All}
use ambrosia.Dns.Memory.{done}
use ambrosia.Dns.Session.{
  Session, Callbacks, Query, CacheItem, running, stopped, event_shutdown, clock, clock_read,
  is_some,
}
use ambrosia.Dns.Session.Kept.{Gives, Gives-bind, Gives-any}
use ambrosia.Dns.Session.Cache.{time_left, expire}
use ambrosia.Dns.Session.Requests.{request_shutdown, jdns_shutdown}
use ambrosia.Dns.Session.Writes.{unicast_do_writes}
use ambrosia.Dns.Session.Messages.{Incoming, unicast_do_reads}
use ambrosia.Dns.Session.Step.{
  Flags, no_flags, or_zero, smaller, with_timer, query_timer, cache_timer, set_timer, next_timer_of,
  step_at, step_now, step_running, at_time, jdns_step, jdns_step_unicast,
}

-- What is left of the timer of each query that has one, and of the time of each item of the cache.
abbrev pub query_time : ℕ → ℕ → Option ℕ → List ℕ
query_time now time_next none = []
query_time now time_next (some time_start) = ((time_start + time_next) - now) ∷ []

abbrev pub query_times : ℕ → List Query → List ℕ
query_times now [] = []
query_times now (q ∷ qs) = query_time now q.time_next q.time_start ++ query_times now qs

abbrev pub times : ℕ → Session → List ℕ
times now s =
    query_times now s.queries ++ map (λ (i : CacheItem). or_zero (time_left now i)) s.cache

-- `n` is in the list, and nothing in it is less.
abbrev pub OneOf : ℕ → List ℕ → Type 0
OneOf n [] = ⊥
OneOf n (x ∷ xs) = (n ≡ x) ⊎ OneOf n xs

abbrev pub IsLeast : ℕ → List ℕ → Type 0
IsLeast n ns = OneOf n ns × All (λ m. n ≤ m) ns

abbrev least : List ℕ → Option ℕ → Option ℕ
least [] a = a
least (n ∷ ns) a = least ns (smaller a n)

least-append : (xs ys : List ℕ) (a : Option ℕ) → least (xs ++ ys) a ≡ least ys (least xs a)
least-append [] ys a = refl
least-append (x ∷ xs) ys a = least-append xs ys (smaller a x)

query_timer-least :
    (now : ℕ) (qs : List Query) (a : Option ℕ) → query_timer now qs a ≡ least (query_times now qs) a
unfolding query_timer
query_timer-least now [] a = refl
query_timer-least now (q ∷ qs) a =
    query_timer-least now qs (with_timer now q.time_next q.time_start a)
    ∙ one now q.time_next q.time_start a (query_times now qs)
  where
    one :
        (now time_next : ℕ) (start a : Option ℕ) (ns : List ℕ)
        → least ns (with_timer now time_next start a)
          ≡ least (query_time now time_next start ++ ns) a
    one now time_next none a ns = refl
    one now time_next (some start) a ns = refl

cache_timer-least :
    (now : ℕ) (cache : List CacheItem) (a : Option ℕ)
    → cache_timer now cache a ≡ least (map (λ (i : CacheItem). or_zero (time_left now i)) cache) a
unfolding cache_timer
cache_timer-least now [] a = refl
cache_timer-least now (i ∷ cache) a = cache_timer-least now cache _

-- What is left of the items of the cache.
abbrev cache_times : ℕ → List CacheItem → List ℕ
cache_times now cache = map (λ (i : CacheItem). or_zero (time_left now i)) cache

next_timer_of-least : (now : ℕ) (s : Session) → next_timer_of now s ≡ least (times now s) none
unfolding next_timer_of
next_timer_of-least now s =
    cache_timer-least now s.cache (query_timer now s.queries none)
    ∙ ap (least (cache_times now s.cache)) (query_timer-least now s.queries none)
    ∙ sym (least-append (query_times now s.queries) (cache_times now s.cache) none)

least-some : (ns : List ℕ) (n : ℕ) → (m : ℕ) × (least ns (some n) ≡ some m) × IsLeast m (n ∷ ns)
least-some [] n = (n, refl, (inl refl, (omega arith, tt)))
least-some (x ∷ ns) n = elim (Bool-cases (ltb x n)) [
  | inl less ↦
      let (m, e, (which, (low, all))) = least-some ns x in
      (m, rw less e, (inr which, (ground arith, (low, all))))
  | inr more ↦
      let (m, e, (which, (low, all))) = least-some ns n in
      (
        m,
        rw more e,
        (
          elim which [ inl here ↦ inl here | inr there ↦ inr (inr there) ],
          (low, (ground arith, all)),
        ),
      )
]

-- What the user is told: a timer of two thousandths more than the least of the times, or none
-- where there is no time.
abbrev pub IsTimed : ℕ → Flags × Session → Type 0
IsTimed now (flags, t) =
    ((flags.step_timer ≡ true) × (n : ℕ) × (t.next_timer ≡ n + 2) × IsLeast n (times now t))
    ⊎ ((flags.step_timer ≡ false) × (times now t ≡ []))

by_least :
    (now : ℕ) (handle : Bool) (s : Session) (ns : List ℕ)
    → times now s ≡ ns
    → IsTimed now (
      record { step_timer = is_some (least ns none); step_handle = handle },
      set_timer s (least ns none),
    )
by_least now handle s [] e = inr (refl, e)
by_least now handle s (n ∷ ns) e =
    let (m, el, lowest) = least-some ns n in rw el (inl (refl, m, refl, rw e lowest))

step_running-IsTimed :
    (cb : Callbacks) (now : ℕ) (incoming : List Incoming) (s : Session)
    → Gives (IsTimed now) (step_running cb now incoming s)
unfolding step_running
step_running-IsTimed cb now incoming s =
    Gives-bind (λ _. Unit {0}) (IsTimed now)
      (unicast_do_writes cb now (record s { cache = expire now s.cache })) _ (Gives-any _)
      (λ (need_write, t) h.
        Gives-bind (λ _. Unit {0}) (IsTimed now) (unicast_do_reads now incoming t) _ (Gives-any _)
          (λ (need_read, u) k.
            rw (next_timer_of-least now u)
              (by_least now (need_read || need_write) u (times now u) refl)))

-- Whatever a step of a running session gives: either it asks for a timer, and the time of the
-- next step is just two thousandths more than the least that is left of the timer of a query or
-- of the time of an item of the cache, which is 0 where it has run out; or it asks for none, no
-- query has a timer and the cache is empty.
pub jdns_step-IsTimed :
    (cb : Callbacks) (incoming : List Incoming) (s : Session)
    → s.shutdown ≡ running
    → Gives (IsTimed (clock cb s)) (jdns_step cb incoming s)
unfolding jdns_step step_at step_now jdns_step_unicast
jdns_step-IsTimed cb incoming s run =
    subst (λ sh. Gives (IsTimed (clock cb s)) (step_at cb incoming s sh)) (sym run)
      (Gives-bind (IsTimed (clock cb s)) (IsTimed (clock cb s))
        (step_running cb (clock cb s) incoming (clock_read s)) (at_time (clock cb s))
        (step_running-IsTimed cb (clock cb s) incoming (clock_read s)) (λ (flags, t) h. h))

-- A session that is running is shut down by the next step, which only adds the event that says so;
-- every later step leaves it as it is and asks for nothing.
pub jdns_step-jdns_shutdown :
    (cb cb' : Callbacks) (incoming incoming' : List Incoming) (s : Session)
    → s.shutdown ≡ running
    → (t : Session) × (jdns_step cb incoming (jdns_shutdown s) ≡ done (no_flags, t))
      × (t.events ≡ s.events ++ (event_shutdown ∷ []))
      × (t.queries ≡ s.queries)
      × (t.outgoing ≡ s.outgoing)
      × (jdns_step cb' incoming' t ≡ done (no_flags, t))
unfolding jdns_step step_at step_now jdns_step_unicast jdns_shutdown
jdns_step-jdns_shutdown cb cb' incoming incoming' s run = (
  record (clock_read s) {
    shutdown = stopped;
    events = s.events ++ (event_shutdown ∷ []);
    last_time = clock cb s;
  },
  ap (λ sh. step_at cb incoming (jdns_shutdown s) (request_shutdown sh)) run,
  refl,
  refl,
  refl,
  refl,
)
