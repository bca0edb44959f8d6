-- ===== src/Server/App/Sound.antt =====
-- The handlers of the server's main object come to an end, and keep the state.
use ambrosia.Prelude.{true, Option, none, some}
use ambrosia.Prelude.Texts.{Text}
use ambrosia.Xmpp.Jid.{Jid, jid, compare}
use ambrosia.Server.Stanza.{Stanza, from_jid}
use ambrosia.Server.Files.{Env}
use ambrosia.Server.Router.{Session, Router, user_session_jid, sess_done}
use ambrosia.Server.Router.Invariant.{IsRouter}
use ambrosia.Server.Router.Sound.{sess_done-IsRouter}
use ambrosia.Server.Presence.{State}
use ambrosia.Server.Presence.Kept.{IsState, Returns, either_Returns}
use ambrosia.Server.Presence.Sound.{incoming_from_outside-Returns}
use ambrosia.Server.Presence.Served.{incoming_from_client-Returns}
use ambrosia.Server.App.{fake_in, ready_presence, session_ended}

module _ (env : Env) (host : Text) where
  -- On a sound state the handling of any presence comes to an end at the depth that was chosen,
  -- and the state is sound again: no request for a subscription is kept as a presence, no user
  -- has two items, no user has two directed presences for one address, and the router is sound.
  pub ready_presence-Returns :
      (in_ : Stanza) (st : State) → IsState st → Returns (ready_presence env host in_ st)
  unfolding ready_presence
  ready_presence-Returns in_ st h =
      let from = from_jid env.prep in_ in
      either_Returns (compare (jid env.prep host) (jid env.prep from.domain) true) _ _
        (λ e. incoming_from_client-Returns env host in_ (user_session_jid from st.router) st h)
        (λ e. incoming_from_outside-Returns env host in_ st h)

  ended_Returns :
      (gone : Option Jid) (router : Router) (st : State)
      → IsRouter router
      → IsState st
      → Returns (elim gone [
        | none ↦ some (record st { router = router })
        | some j ↦ ready_presence env host (fake_in j) (record st { router = router })
      ])
  ended_Returns none router st r (a, b, c, d, e) = (a, b, c, d, r)
  ended_Returns (some j) router st r (a, b, c, d, e) =
      ready_presence-Returns (fake_in j) (record st { router = router }) (a, b, c, d, r)

  -- On a sound state the end of a session comes to an end, and the state is sound again.
  pub session_ended-Returns :
      (sess : Session) (st : State) → IsState st → Returns (session_ended env host sess st)
  unfolding session_ended
  session_ended-Returns sess st h =
      let (router, gone) = sess_done sess st.router in
      ended_Returns gone router st (sess_done-IsRouter sess st.router h.4) h
