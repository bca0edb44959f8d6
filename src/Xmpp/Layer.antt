-- ===== src/Xmpp/Layer.antt =====
-- What was written through a security layer: `LayerTracker` and the counters of `SecureLayer` and
-- `SecureStream` of iris/xmpp-core/securestream.cpp. The counts of bytes are not negative.
pub mod Split
pub mod Count
use ambrosia.Prelude.{
  ℕ, ◌+◌, ◌-◌, ltb, leb, Bool, true, false, ◌||◌, List, [], ◌∷◌, ◌++◌, if◌then◌else◌,
}

-- `LayerTracker::Item`
pub record Part : Type 0 where
  pub plain : ℕ
  pub encoded : ℕ

pub record LayerTracker : Type 0 where
  pub p : ℕ
  pub list : List Part

abbrev pub tracker_reset : LayerTracker
tracker_reset = record { p = 0; list = [] }

abbrev pub add_plain : ℕ → LayerTracker → LayerTracker
add_plain plain t = record t { p = t.p + plain }

-- It cannot specify more bytes than there are.
abbrev pub specify_encoded : ℕ → ℕ → LayerTracker → LayerTracker
specify_encoded encoded plain t =
    let n = if ltb t.p plain then t.p else plain in
    record { p = t.p - n; list = t.list ++ (record { plain = n; encoded = encoded } ∷ []) }

-- The loop of `finished`: the plain bytes, and the parts that are left.
abbrev pub finish_parts : ℕ → List Part → ℕ × List Part
finish_parts encoded [] = (0, [])
finish_parts encoded (i ∷ is) =
    let (plain, left) = finish_parts (encoded - i.encoded) is in
    if ltb encoded i.encoded
    then (0, record i { encoded = i.encoded - encoded } ∷ is)
    else (i.plain + plain, left)

abbrev pub tracker_finished : ℕ → LayerTracker → ℕ × LayerTracker
tracker_finished encoded t =
    let (plain, left) = finish_parts encoded t.list in (plain, record t { list = left })

pub data LayerType : Type 0 where
  layer_tls layer_sasl layer_tlsh : LayerType

pub record SecureLayer : Type 0 where
  pub type : LayerType
  pub layer : LayerTracker
  pub tls_done : Bool
  pub prebytes : ℕ

abbrev pub layer_init : LayerType → SecureLayer
layer_init type = record { type = type; layer = tracker_reset; tls_done = false; prebytes = 0 }

abbrev pub is_sasl : LayerType → Bool
is_sasl layer_sasl = true
is_sasl _ = false

-- `type == SASL || tls_done`
abbrev pub is_tracking : SecureLayer → Bool
is_tracking s = is_sasl s.type || s.tls_done

abbrev pub layer_handshaken : SecureLayer → SecureLayer
layer_handshaken s = record s { tls_done = true }

-- `write`, of so many bytes
abbrev pub layer_write : ℕ → SecureLayer → SecureLayer
layer_write size s = record s { layer = add_plain size s.layer }

-- The slots for `readyReadOutgoing`, of so many encoded bytes.
abbrev pub layer_outgoing : ℕ → ℕ → SecureLayer → SecureLayer
layer_outgoing size plain s =
    if is_tracking s then record s { layer = specify_encoded size plain s.layer } else s

-- The bytes that were sent before this layer.
abbrev pub taken : ℕ → ℕ → ℕ
taken plain prebytes = if leb plain prebytes then plain else prebytes

-- `SecureLayer::finished`
abbrev pub layer_finished : ℕ → SecureLayer → ℕ × SecureLayer
layer_finished plain s =
    let first = taken plain s.prebytes in
    let (n, tracker) = tracker_finished (plain - first) s.layer in
    let rest = record s { prebytes = s.prebytes - first } in
    if is_tracking s then (first + n, record rest { layer = tracker }) else (first, rest)

-- `SecureStream::bs_bytesWritten`: the bytes go through each layer in turn.
unfoldable pub layers_finished : ℕ → List SecureLayer → ℕ × List SecureLayer
layers_finished bytes [] = (bytes, [])
layers_finished bytes (s ∷ ss) =
    let (n, s') = layer_finished bytes s in
    let (last, ss') = layers_finished n ss in (last, s' ∷ ss')
