-- ===== src/Server/Router.antt =====
-- The router and its sessions: src/router.cpp. What a session's stream holds, its address and its
-- id, stands in the session, with the stanzas and the dialback answers that were given to it.
pub mod Routes
pub mod Invariant
pub mod Sound
pub mod Delivery
pub mod Dialback
pub mod Ending
use ambrosia.Prelude.{
  ℕ, suc, ◌+◌, ◌==◌, Bool, true, false, ◌&&◌, not, Option, none, some, List, [], ◌∷◌, ◌++◌,
  if◌then◌else◌,
}
use ambrosia.Prelude.Texts.{Text, text_eq, codes}
use ambrosia.Prelude.Search.{Found, find_first}
use ambrosia.Xmpp.Jid.{Prep, Jid, jid, jid_null, is_null, is_empty, compare}
use ambrosia.Server.Stanza.{Stanza, set_base_ns, ns_server, to_jid, set_from, ns_client}

pub data Mode : Type 0 where
  client server : Mode

pub data Direction : Type 0 where
  dir_in dir_out : Direction

-- What `dialbackRequestGrant` and `dialbackVerifyRequestGrant` of a stream were called with.
pub data Grant : Type 0 where
  request_grant : Jid → Jid → Bool → Grant
  verify_grant : Jid → Jid → Text → Bool → Grant

-- `id` tells sessions apart, as their pointers do.
pub record Session : Type 0 where
  pub id : ℕ
  pub mode : Mode
  pub dir : Direction
  pub active : Bool
  pub verify : Bool
  pub ver_id : Text
  pub sent_key : Text
  pub pending : List Stanza
  pub stream_jid : Jid
  pub stream_id : Text
  pub written : List Stanza
  pub grants : List Grant

pub record Router : Type 0 where
  pub host : Text
  pub jhost : Jid
  pub id_num : ℕ
  pub list : List Session

abbrev pub is_client : Session → Bool
is_client s = elim s.mode [ client ↦ true | server ↦ false ]

abbrev pub is_out : Session → Bool
is_out s = elim s.dir [ dir_in ↦ false | dir_out ↦ true ]

-- `mode == Server && dir == Out`
abbrev pub is_outbound : Session → Bool
is_outbound s = not (is_client s) && is_out s

abbrev pub is_inbound : Session → Bool
is_inbound s = not (is_client s) && not (is_out s)

abbrev fresh : ℕ → Mode → Direction → Bool → Jid → Session
fresh id mode dir active jid = record {
  id = id;
  mode = mode;
  dir = dir;
  active = active;
  verify = false;
  ver_id = [];
  sent_key = [];
  pending = [];
  stream_jid = jid;
  stream_id = [];
  written = [];
  grants = [];
}

-- The three constructors of a session.
abbrev pub inbound_session : ℕ → Mode → Session
inbound_session id mode = fresh id mode dir_in true jid_null

abbrev pub outbound_session : ℕ → Jid → Text → Session
outbound_session id to key = record (fresh id server dir_out false to) { sent_key = key }

abbrev pub verify_session : ℕ → Jid → Text → Session
verify_session id to ver_id = record (fresh id server dir_out false to) {
  verify = true;
  ver_id = ver_id;
}

abbrev pub append_session : Session → Router → Router
append_session s r = record r { list = r.list ++ (s ∷ []); id_num = suc r.id_num }

-- A call on the session with the id.
abbrev pub with_session : ℕ → (Session → Session) → List Session → List Session
with_session n f [] = []
with_session n f (s ∷ ss) = (if s.id == n then f s else s) ∷ with_session n f ss

abbrev pub on_session : ℕ → (Session → Session) → Router → Router
on_session n f r = record r { list = with_session n f r.list }

abbrev pub first_session : (Session → Bool) → Router → Option Session
first_session p r = elim (find_first p r.list) [ none ↦ none | some f ↦ some f.item ]

-- `Session::write`
abbrev pub session_write : Stanza → Session → Session
session_write s sess =
    if sess.active
    then record sess { written = sess.written ++ (s ∷ []) }
    else record sess { pending = sess.pending ++ (s ∷ []) }

-- `cs_dialbackResult`
abbrev pub dialback_result : Bool → Session → Session
dialback_result ok sess =
    if ok
    then record sess { active = true; written = sess.written ++ sess.pending; pending = [] }
    else sess

abbrev pub grant : Grant → Session → Session
grant g sess = record sess { grants = sess.grants ++ (g ∷ []) }

-- `sessionForUser`, `pendingInboundSession` and `pendingOutboundSession`
abbrev pub is_for_user : Text → Session → Bool
is_for_user user s = is_client s && text_eq s.stream_jid.node user

abbrev pub is_pending_inbound : Text → Session → Bool
is_pending_inbound id s = is_inbound s && text_eq s.stream_id id

abbrev pub is_pending_outbound : Text → Text → Session → Bool
is_pending_outbound id key s =
    is_outbound s && (not s.active && (text_eq s.stream_id id && text_eq s.sent_key key))

abbrev pub session_for_user : Text → Router → Option Session
session_for_user user r = first_session (is_for_user user) r

abbrev pub pending_inbound_session : Text → Router → Option Session
pending_inbound_session id r = first_session (is_pending_inbound id) r

abbrev pub pending_outbound_session : Text → Text → Router → Option Session
pending_outbound_session id key r = first_session (is_pending_outbound id key) r

-- The three `connectionReady` handlers; the stream's `accept` follows.
unfoldable pub connection_ready : Mode → Router → Router
connection_ready mode r = append_session (inbound_session r.id_num mode) r

-- `userSessionJid`
abbrev pub is_user_session : Jid → Session → Bool
is_user_session possibly_bare s = is_client s && compare s.stream_jid possibly_bare false

abbrev pub user_session_jid : Jid → Router → Jid
user_session_jid j r = elim (first_session (is_user_session j) r) [
  | none ↦ jid_null
  | some s ↦ s.stream_jid
]

-- The session, found among the others, which `sess_done` takes out.
abbrev pub without : ℕ → List Session → List Session
without n [] = []
without n (s ∷ ss) = if s.id == n then ss else s ∷ without n ss

-- `sess_done` of the session, and the user whose session is gone.
unfoldable pub sess_done : Session → Router → Router × Option Jid
sess_done sess r =
    let user_session = if is_client sess then sess.stream_jid else jid_null in
    let gone = if is_empty user_session then none else some user_session in
    (record r { list = without sess.id r.list }, gone)

-- The key of every outbound session.
abbrev pub sent_key : Text
sent_key = codes "123"

module _ (prep : Prep) where
  -- `Router::start`, without the ports it listens on
  abbrev pub start : Text → Text → Router
  start realm host = record {
    host = if is_null host then realm else host;
    jhost = jid prep host;
    id_num = 0;
    list = [];
  }

  abbrev pub is_route : Text → Session → Bool
  is_route host s = is_outbound s && compare s.stream_jid (jid prep host) true

  -- `ensureOutbound`: the id of the session, and the router that has it.
  unfoldable pub ensure_outbound : Text → Router → ℕ × Router
  ensure_outbound host r = elim (first_session (is_route host) r) [
    | some s ↦ (s.id, r)
    | none ↦
        let sess = outbound_session r.id_num (jid prep host) sent_key in
        (sess.id, append_session sess r)
  ]

  -- `Jid(s.to().domain())`
  abbrev pub out_host : Stanza → Jid
  out_host s = jid prep (to_jid prep s).domain

  -- `Router::Private::write`
  unfoldable pub write : Stanza → Router → Router
  write s r =
      let outhost = out_host s in
      let local : Router = elim (session_for_user (to_jid prep s).node r) [
        | none ↦ r
        | some sess ↦ on_session sess.id (session_write s) r
      ] in
      let (n, next) = ensure_outbound outhost.full r in
      let remote = on_session n (session_write (set_base_ns ns_server s)) next in
      if compare r.jhost outhost true then local else remote

  -- `cs_dialbackRequest` of a session
  unfoldable pub dialback_request : Session → Jid → Jid → Text → Router → Router
  dialback_request sess to from key r =
      if compare to (jid prep r.host) true
      then append_session (verify_session r.id_num from sess.stream_id) r
      else on_session sess.id (grant (request_grant from to false)) r

  -- `cs_dialbackVerifyRequest`
  unfoldable pub dialback_verify_request : Session → Jid → Text → Text → Router → Router
  dialback_verify_request sess from id key r = elim (pending_outbound_session id key r) [
    | none ↦ on_session sess.id (grant (verify_grant from (jid prep r.host) [] false)) r
    | some found ↦ on_session sess.id (grant (verify_grant from (jid prep r.host) id true)) r
  ]

  -- `cs_dialbackVerifyResult`; its `close` ends the session.
  unfoldable pub dialback_verify_result : Session → Jid → Bool → Router → Router
  dialback_verify_result sess from ok r =
      let told : Router = elim (pending_inbound_session sess.ver_id r) [
        | none ↦ r
        | some waiting ↦ on_session waiting.id (grant (request_grant from (jid prep r.host) ok)) r
      ] in
      (sess_done sess told).0

-- `cs_readyRead` of one stanza, and `read`: what `readyRead` of the router is emitted with.
abbrev pub ready_read : Session → Stanza → Stanza
ready_read sess s = set_base_ns ns_client (if is_client sess then set_from sess.stream_jid s else s)
