-- ===== src/Server/App.antt =====
-- The server's main object, class `App` of src/main.cpp: presence and messages in `router_readyRead`,
-- and `router_userSessionGone`.
pub mod Sound
pub mod Gone
use ambrosia.Prelude.{Bool, true, false, Option, none, some, List, [], ◌∷◌, ◌++◌, if◌then◌else◌}
use ambrosia.Prelude.Texts.{Text, codes}
use ambrosia.Xmpp.Jid.{Jid, jid, jid_null, compare}
use ambrosia.Server.Stanza.{
  Stanza, presence, unavailable, status, new_stanza, set_from, append_child, from_jid,
}
use ambrosia.Server.Files.{Env}
use ambrosia.Server.Router.{Session, user_session_jid, sess_done}
use ambrosia.Server.Presence.{State, route, incoming_from_outside, depth}
use ambrosia.Server.Presence.Client.{incoming_from_client}

-- What stands in for the presence of a user whose session is gone.
abbrev pub fake_in : Jid → Stanza
fake_in j =
    append_child (status (codes "Disconnected"))
      (set_from j (new_stanza presence jid_null unavailable []))

module _ (env : Env) (host : Text) where
  -- The branch of `router_readyRead` for presence
  unfoldable pub ready_presence : Stanza → State → Option State
  ready_presence in_ st =
      let from = from_jid env.prep in_ in
      let local = compare (jid env.prep host) (jid env.prep from.domain) true in
      let u = user_session_jid from st.router in
      if local
      then incoming_from_client env host in_ u st
      else incoming_from_outside env host depth in_ st

  -- The branch for messages
  abbrev pub ready_message : Stanza → State → State
  ready_message in_ st = route env in_ st

  -- The end of a session: `sess_done`, whose signal `router_userSessionGone` takes.
  unfoldable pub session_ended : Session → State → Option State
  session_ended sess st =
      let (router, gone) = sess_done sess st.router in
      elim gone [
        | none ↦ some (record st { router = router })
        | some j ↦ ready_presence (fake_in j) (record st { router = router })
      ]
