-- ===== src/Dns/Session/Step/Kept.antt =====
-- What `jdns_step` keeps of a session.
use ambrosia.Prelude.{ℕ, ◌≡◌, refl, sym, ◌∙◌, subst, Option, none, some, List}
use ambrosia.Dns.Session.{
  Session, Callbacks, Shutdown, running, requested, stopped, clock, clock_read,
}
use ambrosia.Dns.Session.Cache.{expire}
use ambrosia.Dns.Session.Cache.Kept.{IsLive, expire-IsLive}
use ambrosia.Dns.Session.Kept.{Gives, Gives-bind, Gives-map, IsSession}
use ambrosia.Dns.Session.Writes.{unicast_do_writes}
use ambrosia.Dns.Session.Writes.Rounds.{Keeps, unicast_do_writes-Keeps}
use ambrosia.Dns.Session.Messages.{Incoming, unicast_do_reads}
use ambrosia.Dns.Session.Messages.Kept.{IsCurrent, unicast_do_reads-IsCurrent}
use ambrosia.Dns.Session.Step.{
  Flags, set_timer, next_timer_of, step_running, jdns_step_unicast, at_time, step_now, step_at,
  jdns_step,
}

timer_IsCurrent :
    (now : ℕ) (s : Session) (smallest : Option ℕ)
    → IsCurrent now s
    → IsCurrent now (set_timer s smallest)
timer_IsCurrent now s none h = h
timer_IsCurrent now s (some smallest) h = h

step_running-IsCurrent :
    (cb : Callbacks) (now : ℕ) (incoming : List Incoming) (s : Session)
    → IsSession s
    → Gives (λ (flags, t). IsCurrent now t) (step_running cb now incoming s)
unfolding step_running
step_running-IsCurrent cb now incoming s h =
    let fresh : Session = record s { cache = expire now s.cache } in
    Gives-bind (λ (need_write, t). Keeps fresh t) (λ (flags, t). IsCurrent now t)
      (unicast_do_writes cb now fresh) _ (unicast_do_writes-Keeps cb now fresh h)
      (λ (need_write, t) (k, same).
        Gives-bind (λ (need_read, u). IsCurrent now u) (λ (flags, u). IsCurrent now u)
          (unicast_do_reads now incoming t) _
          (unicast_do_reads-IsCurrent now incoming t
            (k, subst (IsLive now) (sym same) (expire-IsLive now s.cache)))
          (λ (need_read, u) k'. timer_IsCurrent now u (next_timer_of now u) k'))

-- What a step leaves: a session as it should be, and where it was running, items that are new or have
-- not expired.
abbrev pub Stepped : Callbacks → Session → Flags × Session → Type 0
Stepped cb s (flags, t) = IsSession t × (s.shutdown ≡ running → IsLive (clock cb s) t.cache)

by_shutdown :
    (cb : Callbacks) (incoming : List Incoming) (s : Session) (shutdown : Shutdown)
    → s.shutdown ≡ shutdown
    → IsSession s
    → Gives (Stepped cb s) (step_at cb incoming s shutdown)
unfolding step_at step_now jdns_step_unicast
by_shutdown cb incoming s running e h =
    Gives-bind (λ (flags, t). IsCurrent (clock cb s) t) (Stepped cb s)
      (step_running cb (clock cb s) incoming (clock_read s)) (at_time (clock cb s))
      (step_running-IsCurrent cb (clock cb s) incoming (clock_read s) h)
      (λ (flags, t) (k, live). (k, λ e'. live))
by_shutdown cb incoming s requested e h = (h, λ e'. absurd (other_than (sym e ∙ e')))
  where
    other_than : ¬ (requested ≡ running)
    other_than e = cc
by_shutdown cb incoming s stopped e h = (h, λ e'. absurd (other_than (sym e ∙ e')))
  where
    other_than : ¬ (stopped ≡ running)
    other_than e = cc

-- A step keeps a session, and where it was running its cache is live.
pub jdns_step-Stepped :
    (cb : Callbacks) (incoming : List Incoming) (s : Session)
    → IsSession s
    → Gives (Stepped cb s) (jdns_step cb incoming s)
unfolding jdns_step
jdns_step-Stepped cb incoming s h = by_shutdown cb incoming s s.shutdown refl h

-- Whatever a step gives of a running session in which no two queries have one pointer, none was
-- transmitted more than 8 times and no chain is longer than 16, is such a session again, and
-- everything in its cache was added at the time of the step or has not expired by it, as the
-- code tests it.
pub jdns_step-IsCurrent :
    (cb : Callbacks) (incoming : List Incoming) (s : Session)
    → IsSession s
    → s.shutdown ≡ running
    → Gives (λ (flags, t). IsCurrent (clock cb s) t) (jdns_step cb incoming s)
jdns_step-IsCurrent cb incoming s h runs =
    Gives-map (jdns_step cb incoming s) (λ (flags, t) (k, live). (k, live runs))
      (jdns_step-Stepped cb incoming s h)
