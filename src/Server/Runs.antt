-- ===== src/Server/Runs.antt =====
-- Concrete runs of the server, and its theorems at concrete inputs.
mod Presence
use ambrosia.Prelude.{
  ℕ, ◌≡◌, ◌≢◌, ◌<◌, ◌||◌, ◌&&◌, refl, leb, true, false, none, some, [], ◌∷◌, if◌then◌else◌, arith,
  ◌⊎◌, inl, inr, Bool-cases,
}
use ambrosia.Prelude.Texts.{Text, codes, text_eq, text_eq_sound, Lacks}
use ambrosia.Prelude.Search.{Found, All}
use ambrosia.Xmpp.Jid.{
  for_node, Prep, Jid, jid, jid_null, set_domain, set_node, set_resource, set_parts, update,
  compare, is_null,
}
use ambrosia.Server.Roster.{
  RosterChange, RosterItem, sub_from, apply_change, apply_changes, new_item,
}
use ambrosia.Server.Roster.Contacts.{contact, Distinct}
use ambrosia.Server.Roster.Changes.{change_maps, apply_changes-Distinct, apply_changes-change_maps}
use ambrosia.Server.Stanza.{
  Stanza, presence, type_plain, probe, unavailable, ns_client, ns_server, set_base_ns,
}
use ambrosia.Server.Router.{
  Session, Router, client, connection_ready, start, inbound_session, outbound_session,
  verify_session, sent_key, write, sess_done, with_session, on_session, dialback_verify_request,
  verify_grant, grant,
}
use ambrosia.Server.Files.{Env, User, Files, normalize, load_user, save_user, reread, hex_digit}
use ambrosia.Xmpp.Jid.Valid.{IsJid, jid-full, changed_IsJid}
use ambrosia.Server.Router.Invariant.{IsRouter, on_dialback_result}
use ambrosia.Server.Router.Sound.{connected, here, next, Reach-IsRouter}
use ambrosia.Server.Router.Delivery.{
  handed, hand, target, sent_form, write-handed, handed-dialback_result,
}
use ambrosia.Server.Router.Ending.{write-verify_session}
use ambrosia.Server.Router.Dialback.{dialback_verify_request-granted}
use ambrosia.Server.Files.Name.{normalize-hex, load_user-save_user}
use ambrosia.Server.Presence.{find_item, Item, State, incoming_from_outside, depth}
use ambrosia.Server.Presence.Kept.{IsState, Returns}
use ambrosia.Server.Presence.Client.{incoming_from_client}
use ambrosia.Server.Presence.Privacy.{incoming_from_outside-probe}
use ambrosia.Server.Presence.Departure.{
  incoming_from_client-unavailable, incoming_from_client-skipped,
}
use ambrosia.Server.Presence.Broadcast.{incoming_from_client-available, copies}
use ambrosia.Server.App.{fake_in, ready_presence, session_ended}
use ambrosia.Server.App.Sound.{ready_presence-Returns, session_ended-Returns}
use ambrosia.Server.App.Gone.{session_ended-last}

-- A preparation that takes every domain and every resource, and the node `ann`.
abbrev prep : Prep
prep = record {
  to_utf8 = λ s. s;
  from_utf8 = λ cs. cs;
  stringprep = λ profile cs. elim profile [
    | for_node ↦ if is_null cs || text_eq cs (codes "ann") then some cs else none
    | _ ↦ some cs
  ];
}

abbrev env : Env
env = record {
  prep = prep;
  is_letter_or_number = λ c. (leb 48 c && leb c 57) || (leb 97 c && leb c 122);
  to_latin1 = λ c. c;
  can_write = λ f. true;
}

abbrev ann : Jid
ann = record {
  full = codes "ann@h/x";
  bare = codes "ann@h";
  domain = codes "h";
  node = codes "ann";
  resource = codes "x";
  valid = true;
}

abbrev far : Jid
far = record {
  full = codes "f";
  bare = codes "f";
  domain = codes "f";
  node = [];
  resource = [];
  valid = true;
}

ann_jid : jid prep (codes "ann@h/x") ≡ ann
unfolding jid set_parts update
ann_jid = refl

-- The contact list of the runs: `f` may see the user.
abbrev friend : RosterItem
friend = record (new_item far) { sub = sub_from }

abbrev change : RosterChange
change = record { jid = far; name = codes "Far"; remove = false; groups = [] }

abbrev user : User
user = record { roster = friend ∷ []; vcard = none }

abbrev no_files : Files
no_files file = none

apply_changes-change_maps_example :
    contact far ((apply_changes (change ∷ []) (friend ∷ [])).0)
    ≡ change_maps (change ∷ []) (λ k. contact k (friend ∷ [])) far
apply_changes-change_maps_example =
    apply_changes-change_maps (change ∷ []) (friend ∷ []) far (tt, tt)

changed_name :
    contact far ((apply_changes (change ∷ []) (friend ∷ [])).0)
    ≡ some (record friend { name = codes "Far" })
unfolding apply_changes apply_change compare
changed_name = refl

abbrev none_open : Router
none_open = start prep [] (codes "h")

none_open-IsRouter : IsRouter none_open
none_open-IsRouter = (tt, tt)

-- A stanza from the user to `f`.
abbrev hello : Stanza
hello = record {
  kind = presence;
  base_ns = ns_client;
  to = codes "f";
  from = codes "ann@h/x";
  type = type_plain;
  id = [];
  children = [];
}

Reach-IsRouter_example : IsRouter (connection_ready client none_open)
Reach-IsRouter_example =
    Reach-IsRouter prep [] (codes "h") (connection_ready client none_open)
      (next here (connected client none_open))

write-handed_example :
    handed 0 (write prep hello none_open).list
    ≡ hand (target prep hello none_open) (sent_form prep hello none_open) 0 none
write-handed_example = write-handed prep 0 hello none_open none_open-IsRouter

abbrev waiting : Session
waiting = record (outbound_session 0 far sent_key) { pending = hello ∷ [] }

-- A router that asks `f` about a key.
abbrev asking : Session
asking = verify_session 0 far (codes "id")

abbrev one_asks : Router
one_asks = record none_open { id_num = 1; list = asking ∷ [] }

one_asks-IsRouter : IsRouter one_asks
one_asks-IsRouter = ((ground arith, tt), (tt, tt))

abbrev found_asking : Found Session
found_asking = record { before = []; item = asking; after = [] }

write-verify_session_example :
    ((write prep hello one_asks).list
      ≡ record asking { pending = set_base_ns ns_server hello ∷ [] } ∷ [])
    × (sess_done asking (write prep hello one_asks) ≡ sess_done asking one_asks)
unfolding jid set_parts update compare
write-verify_session_example =
    write-verify_session prep hello one_asks found_asking one_asks-IsRouter refl refl refl

abbrev opened_one : Session
opened_one = record (outbound_session 0 far sent_key) { stream_id = codes "id" }

abbrev one_open : Router
one_open = record none_open { id_num = 1; list = opened_one ∷ [] }

one_open-IsRouter : IsRouter one_open
one_open-IsRouter = ((ground arith, tt), (tt, tt))

dialback_verify_request-granted_example :
    dialback_verify_request prep waiting far (codes "id") sent_key one_open
    ≡ on_session 0 (grant (verify_grant far (jid prep (codes "h")) (codes "id") true)) one_open
dialback_verify_request-granted_example =
    dialback_verify_request-granted prep waiting far (codes "id") one_open [] [] opened_one
      one_open-IsRouter refl refl refl refl refl

escapes : (d : ℕ) → d < 16 → env.is_letter_or_number (hex_digit d) ≡ true
escapes d h = ground arith

ann-IsJid : IsJid prep ann
ann-IsJid v = (λ e. cc, refl, refl, (codes "h", refl), (codes "ann", refl), (codes "x", refl))

ann_plain : Lacks b'@' (codes "ann") × Lacks b'/' (codes "ann")
ann_plain = ground arith

jid-full_example : jid prep (codes "ann@h/x") ≡ ann
jid-full_example =
    jid-full prep ann ann-IsJid refl (refl, refl, refl) ann_plain.0 ann_plain.1 (ground arith, tt)
      (ground arith, tt)
