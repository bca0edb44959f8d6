-- ===== src/Dns/Session/Step/Reachable.antt =====
-- The sessions that the calls of the library make, and what holds of all of them.
use ambrosia.Prelude.{
  ℕ, ◌≡◌, ◌==◌, ap, subst, inl, inr, Bool-cases, arith, Option, none, some, List, [], ◌∷◌,
}
use ambrosia.Dns.Memory.{done}
use ambrosia.Dns.Session.{Session, Callbacks, Event, jdns_session_new, jdns_init_unicast}
use ambrosia.Dns.Session.Kept.{given_by, IsSession}
use ambrosia.Dns.Session.Servers.{Given, jdns_set_nameservers}
use ambrosia.Dns.Session.Servers.Kept.{jdns_set_nameservers-IsSession}
use ambrosia.Dns.Session.Requests.{
  jdns_query, jdns_cancel_query, first_event, jdns_next_event, jdns_shutdown,
  jdns_set_handle_readable, jdns_set_handle_writable,
}
use ambrosia.Dns.Session.Requests.Kept.{jdns_query-IsSession, jdns_cancel_query-IsSession}
use ambrosia.Dns.Session.Messages.{Incoming}
use ambrosia.Dns.Session.Step.{Flags, jdns_step}
use ambrosia.Dns.Session.Step.Kept.{Stepped, jdns_step-Stepped}

-- A call of the library, with the datagrams that wait where it is a step.
pub data Call : Type 0 where
  calls_nameservers : List Given → Call
  calls_query : List ℕ → ℕ → Call
  calls_cancel : ℕ → Call
  calls_step : List Incoming → Call
  calls_event calls_shutdown calls_readable calls_writable : Call

-- What a call makes of a session, where it returns.
pub data Calls (cb : Callbacks) : Session → Call → Session → Type 0 where
  nameservers :
      {s t : Session} {nslist : List Given}
      → jdns_set_nameservers s nslist ≡ done t
      → Calls cb s (calls_nameservers nslist) t
  queries :
      {s t : Session} {name : List ℕ} {qtype id : ℕ}
      → jdns_query s name qtype ≡ done (id, t)
      → Calls cb s (calls_query name qtype) t
  cancels :
      {s t : Session} {id : ℕ} → jdns_cancel_query cb s id ≡ done t → Calls cb s (calls_cancel id) t
  steps :
      {s t : Session} {incoming : List Incoming} {flags : Flags}
      → jdns_step cb incoming s ≡ done (flags, t)
      → Calls cb s (calls_step incoming) t
  takes_event : {s t : Session} → t ≡ (jdns_next_event s).1 → Calls cb s calls_event t
  shuts_down : {s t : Session} → t ≡ jdns_shutdown s → Calls cb s calls_shutdown t
  readable : {s t : Session} → t ≡ jdns_set_handle_readable s → Calls cb s calls_readable t
  writable : {s t : Session} → t ≡ jdns_set_handle_writable s → Calls cb s calls_writable t

-- The sessions that a new one becomes.
pub data Reachable (cb : Callbacks) : Session → Type 0 where
  starts :
      {s : Session} (rand port : ℕ) (bound : Option ℕ)
      → jdns_init_unicast (jdns_session_new rand) port bound ≡ some s
      → Reachable cb s
  goes_on : {s t : Session} {call : Call} → Reachable cb s → Calls cb s call t → Reachable cb t

event_IsSession : (s : Session) (es : List Event) → IsSession s → IsSession (first_event s es).1
event_IsSession s [] h = h
event_IsSession s (e ∷ es) h = h

call_IsSession :
    (cb : Callbacks) (s t : Session) (call : Call) → Calls cb s call t → IsSession s → IsSession t
unfolding jdns_next_event jdns_shutdown jdns_set_handle_readable jdns_set_handle_writable
call_IsSession cb s t (calls_nameservers nslist) (nameservers e) h =
    given_by IsSession (jdns_set_nameservers s nslist) t e
      (jdns_set_nameservers-IsSession s nslist h)
call_IsSession cb s t (calls_query name qtype) (queries {id = id} e) h =
    given_by (λ (x : ℕ × Session). IsSession x.1) (jdns_query s name qtype) (id, t) e
      (jdns_query-IsSession s name qtype h)
call_IsSession cb s t (calls_cancel id) (cancels e) h =
    given_by IsSession (jdns_cancel_query cb s id) t e (jdns_cancel_query-IsSession cb s id h)
call_IsSession cb s t (calls_step incoming) (steps {flags = flags} e) h =
    (given_by (Stepped cb s) (jdns_step cb incoming s) (flags, t) e
      (jdns_step-Stepped cb incoming s h)).0
call_IsSession cb s t calls_event (takes_event e) h = rw e (event_IsSession s s.events h)
call_IsSession cb s t calls_shutdown (shuts_down e) h = rw e h
call_IsSession cb s t calls_readable (readable e) h = rw e h
call_IsSession cb s t calls_writable (writable e) h = rw e h

bound_IsSession :
    (rand port : ℕ) (bound : Option ℕ) (s : Session)
    → jdns_init_unicast (jdns_session_new rand) port bound ≡ some s
    → IsSession s
unfolding jdns_init_unicast jdns_session_new
bound_IsSession rand port none s e = absurd (ground arith)
bound_IsSession rand port (some ret) s e = elim (Bool-cases (ret == 0)) [
  | inl failed ↦ absurd (ground arith)
  | inr bound ↦ let same = rw bound at e in subst IsSession (ap (from_some s) same) (tt, tt)
]
  where
    from_some : Session → Option Session → Session
    from_some s none = s
    from_some s (some t) = t

-- In every session that the calls of the library make of a new one, no two queries have one
-- pointer, none was transmitted more than 8 times, and no chain of CNAMEs is longer than 16.
pub Reachable-IsSession : (cb : Callbacks) (s : Session) → Reachable cb s → IsSession s
Reachable-IsSession cb s (starts rand port bound e) = bound_IsSession rand port bound s e
Reachable-IsSession cb s (goes_on {s = t} {call = call} r c) =
    call_IsSession cb t s call c (Reachable-IsSession cb t r)
