-- ===== src/Dns/Session/Waiting/History.antt =====
-- The calls of a session of iris/irisnet/jdns/jdns.c, one after the other, and the requests that they
-- make, cancel and report.
use ambrosia.Prelude.{
  ℕ, suc, ◌+◌, ◌≤◌, ◌≡◌, inl, inr, Bool-cases, refl, sym, ap, ◌∙◌, subst, false, Option, none, some,
  List, [], ◌∷◌, ◌==◌, arith,
}
use ambrosia.Prelude.Search.{All}
use ambrosia.Dns.Memory.{done}
use ambrosia.Dns.Session.{Session, Callbacks, Event, jdns_session_new, jdns_init_unicast}
use ambrosia.Dns.Session.Ids.{has_id}
use ambrosia.Dns.Session.Kept.{given_by, IsSession}
use ambrosia.Dns.Session.Servers.{Given, jdns_set_nameservers}
use ambrosia.Dns.Session.Requests.{
  jdns_query, jdns_cancel_query, first_event, jdns_next_event, jdns_shutdown,
  jdns_set_handle_readable, jdns_set_handle_writable,
}
use ambrosia.Dns.Session.Messages.{Incoming}
use ambrosia.Dns.Session.Step.{Flags, jdns_step}
use ambrosia.Dns.Session.Step.Reachable
use ambrosia.Dns.Session.Step.Reachable.{Reachable, Reachable-IsSession}
use ambrosia.Dns.Session.Waiting.{Holds, IsFit, waiting, told, told-append, count}
use ambrosia.Dns.Session.Waiting.Steps.{jdns_step-Holds}
use ambrosia.Dns.Session.Waiting.Servers.{jdns_set_nameservers-Holds}
use ambrosia.Dns.Session.Waiting.Requests.{HoldsMore, jdns_query-HoldsMore}
use ambrosia.Dns.Session.Waiting.Cancels.{jdns_cancel_query-Holds}
use ambrosia.Dns.Session.Waiting.Fewer.{Fewer, jdns_cancel_query-Fewer}

-- A session after some calls, with the ids that `jdns_query` returned, those that were cancelled, and
-- the events that `jdns_next_event` returned.
pub data History (cb : Callbacks) : Session → List ℕ → List ℕ → List Event → Type 0 where
  starts :
      {s : Session} (rand port : ℕ) (bound : Option ℕ)
      → jdns_init_unicast (jdns_session_new rand) port bound ≡ some s
      → History cb s [] [] []
  asks :
      {s t : Session} {asked cancelled : List ℕ} {given : List Event} {id : ℕ} (name : List ℕ)
      (qtype : ℕ)
      → History cb s asked cancelled given
      → jdns_query s name qtype ≡ done (id, t)
      → History cb t (id ∷ asked) cancelled given
  cancels :
      {s t : Session} {asked cancelled : List ℕ} {given : List Event} {id : ℕ}
      → History cb s asked cancelled given
      → jdns_cancel_query cb s id ≡ done t
      → History cb t asked (id ∷ cancelled) given
  takes :
      {s t : Session} {asked cancelled : List ℕ} {given : List Event} {e : Event}
      → History cb s asked cancelled given
      → jdns_next_event s ≡ (some e, t)
      → History cb t asked cancelled (e ∷ given)
  steps :
      {s t : Session} {asked cancelled : List ℕ} {given : List Event} (incoming : List Incoming)
      (flags : Flags)
      → History cb s asked cancelled given
      → jdns_step cb incoming s ≡ done (flags, t)
      → History cb t asked cancelled given
  nameservers :
      {s t : Session} {asked cancelled : List ℕ} {given : List Event} (nslist : List Given)
      → History cb s asked cancelled given
      → jdns_set_nameservers s nslist ≡ done t
      → History cb t asked cancelled given
  shuts_down :
      {s : Session} {asked cancelled : List ℕ} {given : List Event}
      → History cb s asked cancelled given
      → History cb (jdns_shutdown s) asked cancelled given
  readable :
      {s : Session} {asked cancelled : List ℕ} {given : List Event}
      → History cb s asked cancelled given
      → History cb (jdns_set_handle_readable s) asked cancelled given
  writable :
      {s : Session} {asked cancelled : List ℕ} {given : List Event}
      → History cb s asked cancelled given
      → History cb (jdns_set_handle_writable s) asked cancelled given

module _ (cb : Callbacks) where
  History-Reachable :
      {s : Session} {asked cancelled : List ℕ} {given : List Event}
      → History cb s asked cancelled given
      → Reachable cb s
  History-Reachable (starts rand port bound e) = Reachable.starts rand port bound e
  History-Reachable (asks name qtype h e) =
      Reachable.goes_on (History-Reachable h) (Reachable.queries e)
  History-Reachable (cancels h e) = Reachable.goes_on (History-Reachable h) (Reachable.cancels e)
  History-Reachable (takes h e) =
      Reachable.goes_on (History-Reachable h) (Reachable.takes_event (ap (λ x. x.1) (sym e)))
  History-Reachable (steps incoming flags h e) =
      Reachable.goes_on (History-Reachable h) (Reachable.steps e)
  History-Reachable (nameservers nslist h e) =
      Reachable.goes_on (History-Reachable h) (Reachable.nameservers e)
  History-Reachable (shuts_down h) =
      Reachable.goes_on (History-Reachable h) (Reachable.shuts_down refl)
  History-Reachable (readable h) = Reachable.goes_on (History-Reachable h) (Reachable.readable refl)
  History-Reachable (writable h) = Reachable.goes_on (History-Reachable h) (Reachable.writable refl)

  -- An event is taken from the front.
  abbrev Taken : ℕ → Session → Event → Session → Type 0
  Taken id s e t =
      (t.queries ≡ s.queries) × (told id t.events + told id (e ∷ []) ≡ told id s.events)

  first_event-Taken :
      (id : ℕ) (s t : Session) (e : Event) (es : List Event)
      → s.events ≡ es
      → first_event s es ≡ (some e, t)
      → Taken id s e t
  first_event-Taken id s t e [] at h =
      let nothing = ap (λ (y : Option Event × Session). y.0) h in absurd (ground arith)
  first_event-Taken id s t e (x ∷ es) at h =
      let left : record s { events = es } ≡ t = ap (λ y. y.1) h in
      let same : x ≡ e = ap (λ y. from_some y.0) h in
      (
        ap (λ (u : Session). u.queries) (sym left),
        rw (← left, ← same, at) (omega (arith, told-append id (x ∷ []) es)),
      )
    where
      from_some : Option Event → Event
      from_some none = x
      from_some (some y) = y

  start_empty :
      (id rand port : ℕ) (bound : Option ℕ) (s : Session)
      → jdns_init_unicast (jdns_session_new rand) port bound ≡ some s
      → Holds id 0 s
  unfolding jdns_init_unicast jdns_session_new waiting told
  start_empty id rand port none s e = absurd (ground arith)
  start_empty id rand port (some ret) s e = elim (Bool-cases (ret == 0)) [
    | inl failed ↦ absurd (ground arith)
    | inr bound ↦
        let same = rw bound at e in subst (Holds id 0) (ap (from_some s) same) (tt, omega arith)
  ]
    where
      from_some : Session → Option Session → Session
      from_some s none = s
      from_some s (some t) = t

  is_session :
      {s : Session} {asked cancelled : List ℕ} {given : List Event}
      → History cb s asked cancelled given
      → IsSession s
  is_session {s} h = Reachable-IsSession cb s (History-Reachable h)

  abbrev total : ℕ → Session → ℕ
  total id s = waiting id s.queries + told id s.events

  -- Every query of the session is fit.
  History-IsFit :
      {s : Session} {asked cancelled : List ℕ} {given : List Event}
      → History cb s asked cancelled given
      → All IsFit s.queries
  unfolding jdns_shutdown jdns_set_handle_readable jdns_set_handle_writable jdns_next_event
  History-IsFit (starts {s = s} rand port bound e) = (start_empty 0 rand port bound s e).0
  History-IsFit (asks {s = s} {t = t} {id = made} name qtype h e) =
      (given_by (HoldsMore 0 (total 0 s)) (jdns_query s name qtype) (made, t) e
        (jdns_query-HoldsMore 0 (total 0 s) s name qtype (is_session h) (History-IsFit h, refl))).0
  History-IsFit (cancels {s = s} {t = t} {id = made} h e) =
      let other : (made == suc made) ≡ false = ground arith in
      (given_by (Holds (suc made) (total (suc made) s)) (jdns_cancel_query cb s made) t e (
        jdns_cancel_query-Holds (suc made) (total (suc made) s) cb s made (is_session h)
          (History-IsFit h, refl) other)).0
  History-IsFit (takes {s = s} {t = t} {e = e} h eq) =
      let taken = first_event-Taken 0 s t e s.events refl eq in
      subst (All IsFit) (sym taken.0) (History-IsFit h)
  History-IsFit (steps {s = s} {t = t} incoming flags h e) =
      (given_by (λ (x : Flags × Session). Holds 0 (total 0 s) x.1) (jdns_step cb incoming s)
        (flags, t) e
        (jdns_step-Holds 0 (total 0 s) cb incoming s (is_session h) (History-IsFit h, refl))).0
  History-IsFit (nameservers {s = s} {t = t} nslist h e) =
      (given_by (Holds 0 (total 0 s)) (jdns_set_nameservers s nslist) t e
        (jdns_set_nameservers-Holds 0 (total 0 s) s nslist (History-IsFit h, refl))).0
  History-IsFit (shuts_down h) = History-IsFit h
  History-IsFit (readable h) = History-IsFit h
  History-IsFit (writable h) = History-IsFit h

  -- How often the request waits, and how many events there were for it.
  abbrev entries : ℕ → Session → List Event → ℕ
  entries id s given = (waiting id s.queries + told id s.events) + told id given

  -- One entry for each time that the request was made at most, and just one if it was not cancelled.
  History_both :
      {s : Session} {asked cancelled : List ℕ} {given : List Event}
      → History cb s asked cancelled given
      → (id : ℕ)
      → (entries id s given ≤ count id asked)
        × (has_id cancelled id ≡ false → entries id s given ≡ count id asked)
  unfolding jdns_shutdown jdns_set_handle_readable jdns_set_handle_writable jdns_next_event count
      told
  History_both (starts {s = s} rand port bound e) id =
      let (fit, empty) = start_empty id rand port bound s e in (omega arith, λ kept. omega arith)
  History_both (asks {s = s} {t = t} {id = made} name qtype h e) id =
      let (few, same) = History_both h id in
      let (fit, more) =
        given_by (HoldsMore id (total id s)) (jdns_query s name qtype) (made, t) e
          (jdns_query-HoldsMore id (total id s) s name qtype (is_session h)
            (History-IsFit h, refl)) in
      (omega (arith, few), λ kept. omega (arith, same kept))
  History_both (cancels {s = s} {t = t} {id = made} h e) id =
      let (few, same) = History_both h id in
      let (fewer, events) =
        given_by (Fewer id s) (jdns_cancel_query cb s made) t e
          (jdns_cancel_query-Fewer id cb s made) in
      (
        omega (arith, few, ap (told id) events),
        λ kept.
            let other : (made == id) ≡ false = ground arith in
            let (fit, as_before) =
              given_by (Holds id (total id s)) (jdns_cancel_query cb s made) t e (
                jdns_cancel_query-Holds id (total id s) cb s made (is_session h)
                  (History-IsFit h, refl) other) in
            omega (arith, same (ground arith)),
      )
  History_both (takes {s = s} {t = t} {given = given} {e = e} h eq) id =
      let (few, same) = History_both h id in
      let (queries, left) = first_event-Taken id s t e s.events refl eq in
      let moved : entries id t (e ∷ given) ≡ entries id s given =
        omega (arith, ap (waiting id) queries, told-append id (e ∷ []) given, left) in
      (omega (arith, few, moved), λ kept. moved ∙ same kept)
  History_both (steps {s = s} {t = t} incoming flags h e) id =
      let (few, same) = History_both h id in
      let (fit, as_before) =
        given_by (λ (x : Flags × Session). Holds id (total id s) x.1) (jdns_step cb incoming s)
          (flags, t) e
          (jdns_step-Holds id (total id s) cb incoming s (is_session h) (History-IsFit h, refl)) in
      (omega (arith, few), λ kept. omega (arith, same kept))
  History_both (nameservers {s = s} {t = t} nslist h e) id =
      let (few, same) = History_both h id in
      let (fit, as_before) =
        given_by (Holds id (total id s)) (jdns_set_nameservers s nslist) t e
          (jdns_set_nameservers-Holds id (total id s) s nslist (History-IsFit h, refl)) in
      (omega (arith, few), λ kept. omega (arith, same kept))
  History_both (shuts_down h) id = History_both h id
  History_both (readable h) id = History_both h id
  History_both (writable h) id = History_both h id

  -- Over any calls of the library that return, a request that was not cancelled waits in the
  -- queries, has its event among those of the session, or its event was taken: as often in all
  -- as jdns_query returned its id, so that an id that was returned once is in one place.
  pub History-accounts :
      {s : Session} {asked cancelled : List ℕ} {given : List Event}
      → History cb s asked cancelled given
      → (id : ℕ) → has_id cancelled id ≡ false
      → (waiting id s.queries + told id s.events) + told id given ≡ count id asked
  History-accounts h id kept = (History_both h id).1 kept

  -- Over any calls of the library that return, a request, cancelled or not, waits in the
  -- queries, has an event among those of the session, or an event that was taken, at most as
  -- often in all as jdns_query returned its id.
  pub History-bounds :
      {s : Session} {asked cancelled : List ℕ} {given : List Event}
      → History cb s asked cancelled given
      → (id : ℕ) → (waiting id s.queries + told id s.events) + told id given ≤ count id asked
  History-bounds h id = (History_both h id).0
