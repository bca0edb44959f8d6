-- ===== src/Server/App/Gone.antt =====
-- What the server does when a user's session is gone.
use ambrosia.Prelude.{
  ◌≡◌, ◌∙◌, refl, ap, true, false, Option, none, some, List, [], ◌∷◌, ◌++◌, arith,
}
use ambrosia.Prelude.Texts.{Text}
use ambrosia.Prelude.Search.{Found, find_first-All, All}
use ambrosia.Xmpp.Jid.{Jid, jid, jid_null, compare, is_empty}
use ambrosia.Server.Stanza.{Stanza, unavailable, to_jid}
use ambrosia.Server.Files.{Env}
use ambrosia.Server.Router.{
  Session, Router, user_session_jid, is_user_session, is_client, sess_done,
}
use ambrosia.Server.Router.Invariant.{IsRouter}
use ambrosia.Server.Router.Ending.{user_session_jid-sess_done}
use ambrosia.Server.Presence.{is_sub, Item, State, is_item, unaddressed}
use ambrosia.Server.Presence.Client.{
  is_unavailable, is_error, client_normal, client_initial, incoming_from_client,
}
use ambrosia.Server.App.{fake_in, ready_presence, session_ended}

-- No item is an invalid user's.
no_item : (xs : List Item) → All (λ i. is_item jid_null i ≡ false) xs
unfolding compare
no_item [] = tt
no_item (x ∷ xs) = (invalid x, no_item xs)
  where
    invalid : (x : Item) → is_item jid_null x ≡ false
    invalid x = ground arith

gone_user :
    (x : Session) (r : Router)
    → is_client x ≡ true
    → is_empty x.stream_jid ≡ false
    → (sess_done x r).1 ≡ some x.stream_jid
unfolding sess_done
gone_user x r own there = rw (own, there) refl

module _ (env : Env) (host : Text) where
  -- A user without a session, as the address of the stanza finds it.
  nobody :
      (in_ : Stanza) (st : State)
      → in_.type ≡ unavailable
      → is_empty (to_jid env.prep in_) ≡ true
      → incoming_from_client env host in_ jid_null st
        ≡ some (record st {
          list =
              st.list ++ (record { user = jid_null; stanza = unaddressed in_; dontsend = [] } ∷ []);
        })
  unfolding incoming_from_client client_normal client_initial
  nobody in_ st t to =
      let none_found = find_first-All (is_item jid_null) st.list (no_item st.list) in
      let plain : is_sub in_.type ≡ false = ap is_sub t in
      let fine : is_error in_.type ≡ false = ap is_error t in
      let away : is_unavailable in_.type ≡ true = ap is_unavailable t in
      rw (plain, fine, to, none_found, away) refl

  -- What follows the signal, where the user has no session left.
  signalled :
      (j : Jid) (st : State)
      → jid env.prep j.full ≡ j
      → is_empty (jid env.prep []) ≡ true
      → compare (jid env.prep host) (jid env.prep j.domain) true ≡ true
      → user_session_jid j st.router ≡ jid_null
      → ready_presence env host (fake_in j) st
        ≡ some (record st {
          list =
              st.list
              ++ (record { user = jid_null; stanza = unaddressed (fake_in j); dontsend = [] } ∷ []);
        })
  unfolding ready_presence
  signalled j st same empty local gone = rw (same, local, gone) (nobody (fake_in j) st refl empty)

  taken :
      {o : Option Jid}
      → {j : Jid} → o ≡ some j
      → (next : State)
      → elim o [ none ↦ some next | some k ↦ ready_presence env host (fake_in k) next ]
        ≡ ready_presence env host (fake_in j) next
  taken e next = rw e refl

  -- On a sound router, where the address of an ended client session is a local one that is read
  -- back from its text, and no other session has its bare address, the end of the session routes
  -- nothing: the item of the user and the directed presences stay, and an item with an invalid
  -- user is added.
  pub session_ended-last :
      (f : Found Session) (st : State)
      → IsRouter st.router
      → st.router.list ≡ f.before ++ (f.item ∷ f.after)
      → is_client f.item ≡ true
      → is_empty f.item.stream_jid ≡ false
      → All (λ s. is_user_session f.item.stream_jid s ≡ false) (f.before ++ f.after)
      → jid env.prep f.item.stream_jid.full ≡ f.item.stream_jid
      → compare (jid env.prep host) (jid env.prep f.item.stream_jid.domain) true ≡ true
      → is_empty (jid env.prep []) ≡ true
      → session_ended env host f.item st
        ≡ some (record st {
          router = (sess_done f.item st.router).0;
          list =
              st.list
              ++ (record {
                user = jid_null;
                stanza = unaddressed (fake_in f.item.stream_jid);
                dontsend = [];
              }
                  ∷ []);
        })
  unfolding session_ended
  session_ended-last f st h split own there others same local empty =
      let j = f.item.stream_jid in
      let next = record st { router = (sess_done f.item st.router).0 } in
      let gone : (sess_done f.item st.router).1 ≡ some j = gone_user f.item st.router own there in
      taken gone next
      ∙ signalled j next same empty local (user_session_jid-sess_done j st.router f h split others)
