-- ===== src/Xmpp/Sent.antt =====
-- What was sent of a stream's data: `trackQueue` of iris/xmpp-core/xmlprotocol.cpp. The counts of
-- bytes are not negative.
pub mod Notices
use ambrosia.Prelude.{ℕ, ◌-◌, ltb, Bool, true, false, List, [], ◌∷◌, ◌++◌, length, if◌then◌else◌}

-- `TrackItem::Type`
pub data TrackType : Type 0 where
  raw close custom : TrackType

pub record TrackItem : Type 0 where
  pub type : TrackType
  pub id : ℕ
  pub size : ℕ

-- The part of `XmlProtocol` that counts, with the calls of `itemWritten`.
pub record Protocol : Type 0 where
  pub close_written : Bool
  pub out_data : List ℕ
  pub track_queue : List TrackItem
  pub items_written : List (ℕ × ℕ)

abbrev pub take_outgoing_data : Protocol → List ℕ × Protocol
take_outgoing_data s = (s.out_data, record s { out_data = [] })

abbrev pub internal_write_data : List ℕ → TrackType → ℕ → Protocol → ℕ × Protocol
internal_write_data a t id s = (
  length a,
  record s {
    track_queue = s.track_queue ++ (record { type = t; id = id; size = length a } ∷ []);
    out_data = s.out_data ++ a;
  },
)

-- One item that is sent as a whole.
abbrev pub item_sent : TrackItem → Protocol → Protocol
item_sent i s = elim i.type [
  | raw ↦ s
  | close ↦ record s { close_written = true }
  | custom ↦ record s { items_written = s.items_written ++ ((i.id, i.size) ∷ []) }
]

abbrev pub sent_loop : ℕ → List TrackItem → Protocol → Protocol
sent_loop bytes [] s = record s { track_queue = [] }
sent_loop bytes (i ∷ is) s =
    let erased = record s { track_queue = is } in
    let rest = sent_loop (bytes - i.size) is (item_sent i erased) in
    if ltb bytes i.size
    then record s { track_queue = record i { size = i.size - bytes } ∷ is }
    else rest

unfoldable pub outgoing_data_written : ℕ → Protocol → Protocol
outgoing_data_written bytes s = sent_loop bytes s.track_queue s
