-- ===== src/Server/Router/Sound.antt =====
-- The steps of the router, each of which keeps the invariant.
use ambrosia.Prelude.{
  ℕ, ◌==◌, ◌≡◌, refl, Bool, true, false, Option, none, some, List, [], ◌∷◌, if◌then◌else◌,
  Bool-cases, inl, inr, arith,
}
use ambrosia.Prelude.Texts.{Text}
use ambrosia.Prelude.Search.{All, All-map, Pairwise}
use ambrosia.Xmpp.Jid.{Prep, Jid, jid}
use ambrosia.Server.Stanza.{Stanza, set_base_ns, ns_server, to_jid}
use ambrosia.Server.Router.Routes.{ensured, kept, opened}
use ambrosia.Server.Router.{
  Mode, Grant, request_grant, verify_grant, out_host, Session, Router, start, inbound_session,
  outbound_session, verify_session, on_session, session_write, grant, session_for_user,
  pending_inbound_session, pending_outbound_session, connection_ready, without, sess_done, sent_key,
  is_route, ensure_outbound, write, dialback_request, dialback_verify_request,
  dialback_verify_result,
}
use ambrosia.Server.Router.Invariant.{
  IsSession, Apart, IsRouter, Keeps, on_session-IsRouter, session_write-Keeps,
  session_write-IsSession, grant-Keeps, on_dialback_result, dialback_result-Keeps,
  dialback_result-IsSession, stream_opened, logged_in, logged_in-Keeps, logged_in-IsSession,
  Elsewhere, no_carrier, append_session-IsRouter,
}

without-All : (P : Session → Type 0) (n : ℕ) (xs : List Session) → All P xs → All P (without n xs)
without-All P n [] h = tt
without-All P n (x ∷ xs) h = elim (Bool-cases (x.id == n)) [
  | inl hit ↦ rw hit h.1
  | inr miss ↦ rw miss (h.0, without-All P n xs h.1)
]

without-Pairwise :
    (R : Session → Session → Type 0) (n : ℕ) (xs : List Session)
    → Pairwise R xs
    → Pairwise R (without n xs)
without-Pairwise R n [] h = tt
without-Pairwise R n (x ∷ xs) h = elim (Bool-cases (x.id == n)) [
  | inl hit ↦ rw hit h.1
  | inr miss ↦ rw miss (without-All (R x) n xs h.0, without-Pairwise R n xs h.1)
]

pub sess_done-IsRouter : (x : Session) (r : Router) → IsRouter r → IsRouter ((sess_done x r).0)
unfolding sess_done
sess_done-IsRouter x r (a, p) =
    (without-All (IsSession r.id_num) x.id r.list a, without-Pairwise Apart x.id r.list p)

connection_ready-IsRouter :
    (mode : Mode) (r : Router) → IsRouter r → IsRouter (connection_ready mode r)
unfolding connection_ready
connection_ready-IsRouter mode r h =
    let x = inbound_session r.id_num mode in
    append_session-IsRouter x r h refl (ground arith) (no_carrier x r.list (ground arith))

module _ (prep : Prep) where
  pub ensure_outbound-IsRouter :
      (host : Text) (r : Router) → IsRouter r → IsRouter ((ensure_outbound prep host r).1)
  ensure_outbound-IsRouter host r h = elim (ensured prep host r) [
    | kept f e split hit a ↦ rw a h
    | opened miss a ↦
        let x = outbound_session r.id_num (jid prep host) sent_key in
        rw a (
          append_session-IsRouter x r h refl (ground arith) (
            All-map (λ y. is_route prep host y ≡ false) (Elsewhere x) (λ y m cy cx. ground arith)
              r.list miss))
  ]

  either_IsRouter :
      (b : Bool) (x y : Router) → IsRouter x → IsRouter y → IsRouter (if b then x else y)
  either_IsRouter true x y h k = h
  either_IsRouter false x y h k = k

  -- A call on the session that was found, if there is one.
  found_IsRouter :
      (f : Session → Session) (o : Option Session) (r : Router)
      → Keeps f
      → ((bound : ℕ) (s : Session) → IsSession bound s → IsSession bound (f s))
      → IsRouter r
      → IsRouter (elim o [ none ↦ r | some sess ↦ on_session sess.id f r ])
  found_IsRouter f none r k i h = h
  found_IsRouter f (some x) r k i h = on_session-IsRouter x.id f r k i h

  pub write-IsRouter : (s : Stanza) (r : Router) → IsRouter r → IsRouter (write prep s r)
  unfolding write
  write-IsRouter s r h =
      let host = (out_host prep s).full in
      let remote = set_base_ns ns_server s in
      either_IsRouter _ _ _
        (found_IsRouter (session_write s) (session_for_user (to_jid prep s).node r) r
          (session_write-Keeps s) (session_write-IsSession s) h)
        (on_session-IsRouter (ensure_outbound prep host r).0 (session_write remote)
          (ensure_outbound prep host r).1 (session_write-Keeps remote)
          (session_write-IsSession remote) (ensure_outbound-IsRouter host r h))

  dialback_request-IsRouter :
      (x : Session) (to from : Jid) (key : Text) (r : Router)
      → IsRouter r
      → IsRouter (dialback_request prep x to from key r)
  unfolding dialback_request
  dialback_request-IsRouter x to from key r h =
      let v = verify_session r.id_num from x.stream_id in
      either_IsRouter _ _ _
        (append_session-IsRouter v r h refl (ground arith) (no_carrier v r.list (ground arith)))
        (on_session-IsRouter x.id (grant (request_grant from to false)) r
          (grant-Keeps (request_grant from to false)) (λ b s k. k) h)

  answered_IsRouter :
      (o : Option Session) (x : Session) (g g' : Grant) (r : Router)
      → IsRouter r
      → IsRouter (elim o [
        | none ↦ on_session x.id (grant g) r
        | some found ↦ on_session x.id (grant g') r
      ])
  answered_IsRouter none x g g' r h =
      on_session-IsRouter x.id (grant g) r (grant-Keeps g) (λ b s k. k) h
  answered_IsRouter (some found) x g g' r h =
      on_session-IsRouter x.id (grant g') r (grant-Keeps g') (λ b s k. k) h

  dialback_verify_request-IsRouter :
      (x : Session) (from : Jid) (id key : Text) (r : Router)
      → IsRouter r
      → IsRouter (dialback_verify_request prep x from id key r)
  unfolding dialback_verify_request
  dialback_verify_request-IsRouter x from id key r h =
      answered_IsRouter (pending_outbound_session id key r) x
        (verify_grant from (jid prep r.host) [] false) (verify_grant from (jid prep r.host) id true)
        r h

  dialback_verify_result-IsRouter :
      (x : Session) (from : Jid) (ok : Bool) (r : Router)
      → IsRouter r
      → IsRouter (dialback_verify_result prep x from ok r)
  unfolding dialback_verify_result
  dialback_verify_result-IsRouter x from ok r h = sess_done-IsRouter x _ (
      found_IsRouter (grant (request_grant from (jid prep r.host) ok))
        (pending_inbound_session x.ver_id r) r
        (grant-Keeps (request_grant from (jid prep r.host) ok)) (λ b s k. k) h)

  -- What can happen to the router, in any order: connections, stanzas that the server writes, the
  -- dialback, what the streams learn, and the end of a session.
  pub data Step : Router → Router → Type 0 where
    connected : (mode : Mode) (r : Router) → Step r (connection_ready mode r)
    wrote : (s : Stanza) (r : Router) → Step r (write prep s r)
    asked :
        (x : Session) (to from : Jid) (key : Text) (r : Router)
        → Step r (dialback_request prep x to from key r)
    answered : (n : ℕ) (ok : Bool) (r : Router) → Step r (on_session n (on_dialback_result ok) r)
    verify_asked :
        (x : Session) (from : Jid) (id key : Text) (r : Router)
        → Step r (dialback_verify_request prep x from id key r)
    verify_answered :
        (x : Session) (from : Jid) (ok : Bool) (r : Router)
        → Step r (dialback_verify_result prep x from ok r)
    stream_open : (n : ℕ) (id : Text) (r : Router) → Step r (on_session n (stream_opened id) r)
    stream_login : (n : ℕ) (j : Jid) (r : Router) → Step r (on_session n (logged_in j) r)
    ended : (x : Session) (r : Router) → Step r ((sess_done x r).0)

  Step-IsRouter : {r r' : Router} → Step r r' → IsRouter r → IsRouter r'
  Step-IsRouter (connected mode r) h = connection_ready-IsRouter mode r h
  Step-IsRouter (wrote s r) h = write-IsRouter s r h
  Step-IsRouter (asked x to from key r) h = dialback_request-IsRouter x to from key r h
  Step-IsRouter (answered n ok r) h =
      on_session-IsRouter n (on_dialback_result ok) r (dialback_result-Keeps ok)
        (dialback_result-IsSession ok) h
  Step-IsRouter (verify_asked x from id key r) h =
      dialback_verify_request-IsRouter x from id key r h
  Step-IsRouter (verify_answered x from ok r) h = dialback_verify_result-IsRouter x from ok r h
  Step-IsRouter (stream_open n id r) h =
      on_session-IsRouter n (stream_opened id) r (λ s. (refl, refl, λ c. refl)) (λ b s k. k) h
  Step-IsRouter (stream_login n j r) h =
      on_session-IsRouter n (logged_in j) r (logged_in-Keeps j) (logged_in-IsSession j) h
  Step-IsRouter (ended x r) h = sess_done-IsRouter x r h

  pub data Reach (s : Router) : Router → Type 0 where
    here : Reach s s
    next : {r r' : Router} → Reach s r → Step r r' → Reach s r'

  keep_IsRouter : {s r : Router} → Reach s r → IsRouter s → IsRouter r
  keep_IsRouter here h = h
  keep_IsRouter (next reach step) h = Step-IsRouter step (keep_IsRouter reach h)

  -- After any steps from the start the sessions of the router have different ids below the next
  -- one; an active session has nothing that waits; incoming sessions are active, and sessions
  -- that verify are not; sessions that carry stanzas have the fixed key and different hosts, and
  -- sessions that verify have no key.
  pub Reach-IsRouter :
      (realm host : Text) (r : Router) → Reach (start prep realm host) r → IsRouter r
  Reach-IsRouter realm host r reach = keep_IsRouter reach (tt, tt)
