-- ===== src/Server/Runs/Presence.antt =====
-- Presence at concrete inputs.
use ambrosia.Prelude.{◌≡◌, refl, true, false, none, some, [], ◌∷◌, if◌then◌else◌, arith}
use ambrosia.Prelude.Texts.{codes, text_eq}
use ambrosia.Prelude.Search.{Found, All}
use ambrosia.Xmpp.Jid.{jid, jid_null, set_parts, update, compare}
use ambrosia.Server.Stanza.{Stanza, probe, unavailable}
use ambrosia.Server.Router.{Session, client, inbound_session, sess_done}
use ambrosia.Server.Files.{Files, normalize, load_user}
use ambrosia.Server.Presence.{find_item, Item, State, unaddressed, incoming_from_outside, depth}
use ambrosia.Server.Presence.Kept.{IsState, Returns}
use ambrosia.Server.Presence.Client.{incoming_from_client}
use ambrosia.Server.Presence.Privacy.{incoming_from_outside-probe}
use ambrosia.Server.Presence.Departure.{
  incoming_from_client-unavailable, incoming_from_client-skipped,
}
use ambrosia.Server.Presence.Broadcast.{incoming_from_client-available, copies}
use ambrosia.Server.App.{fake_in, ready_presence, session_ended}
use ambrosia.Server.App.Sound.{ready_presence-Returns}
use ambrosia.Server.App.Gone.{session_ended-last}
use ambrosia.Server.Runs.{env, ann, friend, user, none_open, hello}

-- The user `ann` has a session and an item, and her file.
abbrev ann_session : Session
ann_session = record (inbound_session 0 client) { stream_jid = ann }

abbrev ann_files : Files
ann_files file = if text_eq file (codes "ann") then some user else none

abbrev arrived : Stanza
arrived = record hello { to = [] }

abbrev ann_item : Item
ann_item = record { user = ann; stanza = unaddressed arrived; dontsend = [] }

abbrev online : State
online = record {
  list = ann_item ∷ [];
  dplist = [];
  files = ann_files;
  router = record none_open { id_num = 1; list = ann_session ∷ [] };
  routed = [];
}

online-IsState : IsState online
online-IsState = ((refl, tt), (tt, tt), tt, tt, ((ground arith, tt), (tt, tt)))

ready_presence-Returns_example : Returns (ready_presence env (codes "h") arrived online)
ready_presence-Returns_example =
    ready_presence-Returns env (codes "h") arrived online online-IsState

-- `g` is not in the contact list of `ann`.
abbrev stranger : Stanza
stranger = record hello { to = codes "ann@h/x"; from = codes "g"; type = probe }

incoming_from_outside-probe_example :
    incoming_from_outside env (codes "h") depth stranger online ≡ some online
unfolding jid set_parts update compare load_user normalize
incoming_from_outside-probe_example =
    incoming_from_outside-probe env (codes "h") stranger online refl refl (refl, tt)

abbrev found_ann : Found Item
found_ann = record { before = []; item = ann_item; after = [] }

incoming_from_client-available_example :
    (st' : State) × (incoming_from_client env (codes "h") arrived ann online ≡ some st')
    × (st'.routed ≡ copies env (codes "h") arrived ann (friend ∷ []))
    × (st'.list ≡ ann_item ∷ [])
    × (st'.dplist ≡ [])
    × (st'.files ≡ ann_files)
unfolding jid set_parts update compare load_user normalize
incoming_from_client-available_example =
    incoming_from_client-available env (codes "h") arrived ann online found_ann refl refl refl
      (refl, tt)

incoming_from_client-unavailable_example :
    (st' : State) × (incoming_from_client env
        (codes "h")
        (record arrived { type = unavailable })
        ann
        online
      ≡ some st')
    × All (λ i. compare i.user ann true ≡ false) st'.list
    × All (λ d. compare d.user ann true ≡ false) st'.dplist
unfolding jid set_parts update compare
incoming_from_client-unavailable_example =
    incoming_from_client-unavailable env (codes "h") (record arrived { type = unavailable }) ann
      online found_ann refl refl refl online-IsState

abbrev found_session : Found Session
found_session = record { before = []; item = ann_session; after = [] }

session_ended-last_example :
    session_ended env (codes "h") ann_session online
    ≡ some (record online {
      router = (sess_done ann_session online.router).0;
      list =
          ann_item
          ∷ record { user = jid_null; stanza = unaddressed (fake_in ann); dontsend = [] }
          ∷ [];
    })
unfolding jid set_parts update compare
session_ended-last_example =
    session_ended-last env (codes "h") found_session online ((ground arith, tt), (tt, tt)) refl refl
      refl tt refl refl refl

abbrev away : Stanza
away = record arrived { type = unavailable }

abbrev silent : State
silent = record online { list = [] }

incoming_from_client-skipped_example :
    (st' : State) × (incoming_from_client env (codes "h") away ann silent ≡ some st')
    × (st'.routed ≡ [])
    × (f : Found Item) × (find_item ann st' ≡ some f)
unfolding jid set_parts update compare
incoming_from_client-skipped_example =
    incoming_from_client-skipped env (codes "h") away ann silent refl refl refl refl
