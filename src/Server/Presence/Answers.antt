-- ===== src/Server/Presence/Answers.antt =====
-- Stanzas from outside that ask for no subscription.
use ambrosia.Prelude.{
  refl, false, ◌&&◌, Option, none, some, Option-cases, inl, inr, [], ◌∷◌, ◌++◌, if◌then◌else◌,
}
use ambrosia.Prelude.Search.{Found, find_first}
use ambrosia.Xmpp.Jid.{Jid, compare, is_empty}
use ambrosia.Server.Roster.{Roster, RosterItem, is_from}
use ambrosia.Server.Stanza.{
  Stanza, StanzaType, type_plain, subscribe, subscribed, unsubscribe, unsubscribed, probe, error,
  unavailable, get_type, set_type, result, other_type, presence, set_from, new_stanza, to_jid,
  from_jid,
}
use ambrosia.Server.Files.{Env, load_user}
use ambrosia.Server.Router.{user_session_jid}
use ambrosia.Server.Presence.{
  Item, State, find_item, is_item, is_directed, have_dont_send, replace, resend, answer_probe,
  answer_probes, outside_error, outside_probe, outside_normal,
}
use ambrosia.Server.Presence.Kept.{
  IsState, either_IsState, find_item-stanza, route-IsState, replace-IsState,
}

module _ (env : Env) where
  answer_probe-IsState :
      (u from : Jid) (item : Option (Found Item)) (x : RosterItem) (st : State)
      → IsState st
      → IsState (answer_probe env u from item x st)
  answer_probe-IsState u from none x st h =
      either_IsState (compare x.jid from false && is_from x.sub) _ _
        (route-IsState env (set_from u (new_stanza presence from unavailable [])) st h) h
  answer_probe-IsState u from (some f) x st h =
      either_IsState (compare x.jid from false && is_from x.sub) _ _
        (route-IsState env (resend env from u f.item.stanza) st h) h

  answer_probes-IsState :
      (u from : Jid) (item : Option (Found Item)) (xs : Roster) (st : State)
      → IsState st
      → IsState (answer_probes env u from item xs st)
  answer_probes-IsState u from item [] st h = h
  answer_probes-IsState u from item (x ∷ xs) st h =
      answer_probes-IsState u from item xs (answer_probe env u from item x st)
        (answer_probe-IsState u from item x st h)

  outside_error-IsState :
      (in_ : Stanza) (u : Jid) (st : State) → IsState st → IsState (outside_error env in_ u st)
  unfolding outside_error
  outside_error-IsState in_ u st h = elim (Option-cases (find_first (is_item u) st.list)) [
    | inl e ↦ rw (e, outside_error) h
    | inr (f, e) ↦
        let from = from_jid env.prep in_ in
        let more = if have_dont_send from f.item.dontsend then [] else from ∷ [] in
        let i = record f.item { dontsend = f.item.dontsend ++ more } in
        rw (e, outside_error)
          (route-IsState env in_ (record st { list = replace f i })
            (replace-IsState env st u f i e refl (find_item-stanza st u f h e) h))
  ]

  outside_probe-IsState :
      (in_ : Stanza) (u : Jid) (st : State) → IsState st → IsState (outside_probe env in_ u st)
  unfolding outside_probe
  outside_probe-IsState in_ u st h =
      let from = from_jid env.prep in_ in
      elim (Option-cases (find_first (is_directed u from) st.dplist)) [
        | inl e ↦
            rw (e, outside_probe)
              (answer_probes-IsState u from (find_item u st) (load_user env u.node st.files).roster
                st h)
        | inr (f, e) ↦
            rw (e, outside_probe) (route-IsState env (resend env f.item.to u f.item.stanza) st h)
      ]

  by_type :
      (t : StanzaType) (x y z : State)
      → IsState x
      → IsState y
      → IsState z
      → IsState (elim t [ error ↦ x | probe ↦ y | _ ↦ z ])
  by_type type_plain x y z h k l = l
  by_type subscribe x y z h k l = l
  by_type subscribed x y z h k l = l
  by_type unsubscribe x y z h k l = l
  by_type unsubscribed x y z h k l = l
  by_type unavailable x y z h k l = l
  by_type get_type x y z h k l = l
  by_type set_type x y z h k l = l
  by_type result x y z h k l = l
  by_type (other_type t) x y z h k l = l
  by_type error x y z h k l = h
  by_type probe x y z h k l = k

  pub outside_normal-IsState :
      (in_ : Stanza) (st : State) → IsState st → IsState (outside_normal env in_ st)
  unfolding outside_normal
  outside_normal-IsState in_ st h =
      let u = user_session_jid (to_jid env.prep in_) st.router in
      either_IsState (is_empty u) _ _ h (
        by_type in_.type _ _ _ (outside_error-IsState in_ u st h) (outside_probe-IsState in_ u st h)
          (route-IsState env in_ st h))
