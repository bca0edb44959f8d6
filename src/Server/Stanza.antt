-- ===== src/Server/Stanza.antt =====
-- Stanzas: class `Stanza` of iris/xmpp-core/stream.cpp, as far as the server uses it. The element
-- behind a stanza is its name, its attributes and its children.
use ambrosia.Prelude.{List, [], ◌∷◌, ◌++◌, if◌then◌else◌}
use ambrosia.Prelude.Texts.{Text}
use ambrosia.Xmpp.Jid.{Prep, Jid, jid}
use ambrosia.Server.Roster.{Roster}

pub data Kind : Type 0 where
  message presence iq : Kind

-- `jabber:client` and `jabber:server`
pub data BaseNs : Type 0 where
  ns_client ns_server : BaseNs

-- The texts of the attribute `type`, which is `type_plain` where there is none.
pub data StanzaType : Type 0 where
  type_plain subscribe subscribed unsubscribe unsubscribed : StanzaType
  probe error unavailable get_type set_type result : StanzaType
  other_type : Text → StanzaType

-- What a stanza holds: a roster query that the server made, a status, or an element it was sent.
pub data Element : Type 0 where
  roster_query : Roster → Element
  status : Text → Element
  element : Text → Element

pub record Stanza : Type 0 where
  pub kind : Kind
  pub base_ns : BaseNs
  pub to : Text
  pub from : Text
  pub type : StanzaType
  pub id : Text
  pub children : List Element

-- The constructor sets `to` if the address is valid.
abbrev pub new_stanza : Kind → Jid → StanzaType → Text → Stanza
new_stanza kind to type id = record {
  kind = kind;
  base_ns = ns_client;
  to = if to.valid then to.full else [];
  from = [];
  type = type;
  id = id;
  children = [];
}

abbrev pub set_to : Jid → Stanza → Stanza
set_to j s = record s { to = j.full }

abbrev pub set_from : Jid → Stanza → Stanza
set_from j s = record s { from = j.full }

abbrev pub append_child : Element → Stanza → Stanza
append_child e s = record s { children = s.children ++ (e ∷ []) }

-- `changeNS` renames the namespace of the element and its children, which `base_ns` stands for.
abbrev pub set_base_ns : BaseNs → Stanza → Stanza
set_base_ns ns s = record s { base_ns = ns }

module _ (prep : Prep) where
  abbrev pub to_jid : Stanza → Jid
  to_jid s = jid prep s.to

  abbrev pub from_jid : Stanza → Jid
  from_jid s = jid prep s.from
