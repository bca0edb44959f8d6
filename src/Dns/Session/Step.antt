-- ===== src/Dns/Session/Step.antt =====
-- `jdns_step` of iris/irisnet/jdns/jdns.c, in unicast mode.
pub mod Timer
pub mod Kept
pub mod Reachable
use ambrosia.Prelude.{
  ℕ, zero, suc, ◌+◌, ◌-◌, ◌≤◌, ◌≡◌, ◌⊎◌, inl, inr, refl, Bool, true, false, ◌||◌, Option, none,
  some, List, [], ◌∷◌, ◌++◌, ltb, if◌then◌else◌, arith, Bool-cases,
}
use ambrosia.Dns.Memory.{Outcome, done, ◌>>=◌}
use ambrosia.Dns.Session.{
  Session, Callbacks, Query, CacheItem, Shutdown, running, requested, stopped, event_shutdown,
  append_events, clock, clock_read, is_some,
}
use ambrosia.Dns.Session.Cache.{is_negative, time_left, expire}
use ambrosia.Dns.Session.Writes.{unicast_do_writes}
use ambrosia.Dns.Session.Messages.{Incoming, unicast_do_reads}

-- The bits `JDNS_STEP_TIMER` and `JDNS_STEP_HANDLE` of what a step returns.
pub record Flags : Type 0 where
  pub step_timer : Bool
  pub step_handle : Bool

abbrev pub no_flags : Flags
no_flags = record { step_timer = false; step_handle = false }

-- `if(smallest_time == -1 || timeleft < smallest_time)`
abbrev pub smaller : Option ℕ → ℕ → Option ℕ
smaller none timeleft = some timeleft
smaller (some smallest) timeleft = if ltb timeleft smallest then some timeleft else some smallest

-- `if(timeleft < 0) timeleft = 0;`
abbrev pub or_zero : ℕ → ℕ
or_zero timeleft = if is_negative timeleft then 0 else timeleft

-- `timeleft` is 0 where it would be less: a subtraction on the natural numbers stops there.
abbrev pub with_timer : ℕ → ℕ → Option ℕ → Option ℕ → Option ℕ
with_timer now time_next none smallest = smallest
with_timer now time_next (some time_start) smallest =
    smaller smallest ((time_start + time_next) - now)

unfoldable pub query_timer : ℕ → List Query → Option ℕ → Option ℕ
query_timer now [] smallest = smallest
query_timer now (q ∷ qs) smallest =
    query_timer now qs (with_timer now q.time_next q.time_start smallest)

unfoldable pub cache_timer : ℕ → List CacheItem → Option ℕ → Option ℕ
cache_timer now [] smallest = smallest
cache_timer now (i ∷ cache) smallest =
    cache_timer now cache (smaller smallest (or_zero (time_left now i)))

abbrev pub set_timer : Session → Option ℕ → Session
set_timer s none = s
set_timer s (some smallest) = record s { next_timer = smallest + 2 }

-- `// calculate next timer (based on queries and cache)`
unfoldable pub next_timer_of : ℕ → Session → Option ℕ
next_timer_of now s = cache_timer now s.cache (query_timer now s.queries none)

unfoldable pub step_running : Callbacks → ℕ → List Incoming → Session → Outcome (Flags × Session)
step_running cb now incoming s = do
  (need_write, t) ← unicast_do_writes cb now (record s { cache = expire now s.cache })
  (need_read, u) ← unicast_do_reads now incoming t
  done (
    record { step_timer = is_some (next_timer_of now u); step_handle = need_read || need_write },
    set_timer u (next_timer_of now u),
  )

-- `jdns_step_unicast`, over the field `shutdown`.
unfoldable pub jdns_step_unicast :
    Callbacks → ℕ → List Incoming → Session → Shutdown → Outcome (Flags × Session)
jdns_step_unicast cb now incoming s requested =
    done (no_flags, record s { events = s.events ++ (event_shutdown ∷ []); shutdown = stopped })
jdns_step_unicast cb now incoming s running = step_running cb now incoming s
jdns_step_unicast cb now incoming s stopped = step_running cb now incoming s

abbrev pub at_time : ℕ → Flags × Session → Outcome (Flags × Session)
at_time now (flags, s) = done (flags, record s { last_time = now })

-- From the reading of the clock on.
unfoldable pub step_now : Callbacks → List Incoming → Session → Shutdown → Outcome (Flags × Session)
step_now cb incoming s shutdown =
    jdns_step_unicast cb (clock cb s) incoming (clock_read s) shutdown >>= at_time (clock cb s)

-- `jdns_step`, over the field `shutdown`.
unfoldable pub step_at : Callbacks → List Incoming → Session → Shutdown → Outcome (Flags × Session)
step_at cb incoming s stopped = done (no_flags, s)
step_at cb incoming s running = step_now cb incoming s running
step_at cb incoming s requested = step_now cb incoming s requested

unfoldable pub jdns_step : Callbacks → List Incoming → Session → Outcome (Flags × Session)
jdns_step cb incoming s = step_at cb incoming s s.shutdown

unfoldable pub jdns_next_timer : Session → ℕ
jdns_next_timer s = s.next_timer
