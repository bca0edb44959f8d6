-- ===== src/Xmpp/Runs.antt =====
-- The counters of the streams at concrete inputs.
use ambrosia.Prelude.{◌+◌, ◌≡◌, refl, false, [], ◌∷◌}
use ambrosia.Xmpp.Layer.{
  LayerTracker, SecureLayer, layer_init, layer_sasl, layer_outgoing, layer_write, add_plain,
  specify_encoded, finish_parts, tracker_finished, layers_finished,
}
use ambrosia.Xmpp.Layer.Split.{both, layers_finished-add}
use ambrosia.Xmpp.Layer.Count.{outstanding, specify_encoded-outstanding}
use ambrosia.Xmpp.Sent.{Protocol, custom, outgoing_data_written}
use ambrosia.Xmpp.Sent.Notices.{outgoing_data_written-queued}

-- Ten bytes that became twelve.
abbrev layer : SecureLayer
layer = layer_outgoing 12 10 (layer_write 10 (layer_init layer_sasl))

layers_finished-add_example :
    layers_finished 12 (layer ∷ []) ≡ both layers_finished 5 7 (layer ∷ [])
layers_finished-add_example = layers_finished-add 5 7 (layer ∷ [])

sent_through : (layers_finished 12 (layer ∷ [])).0 ≡ 10
unfolding layers_finished
sent_through = refl

abbrev tracker : LayerTracker
tracker = record { p = 3; list = record { plain = 10; encoded = 12 } ∷ [] }

specify_encoded-outstanding_example :
    (outstanding (add_plain 2 tracker) ≡ 15)
    × (outstanding (specify_encoded 12 2 tracker) ≡ 13)
    × ((tracker_finished 12 tracker).0 + outstanding (tracker_finished 12 tracker).1 ≡ 13)
    × (finish_parts 12 tracker.list ≡ (10, []))
specify_encoded-outstanding_example = specify_encoded-outstanding 12 2 tracker

abbrev protocol : Protocol
protocol = record {
  close_written = false;
  out_data = [];
  track_queue = record { type = custom; id = 1; size = 4 } ∷ [];
  items_written = [];
}

outgoing_data_written-queued_example :
    ((outgoing_data_written 4 protocol).track_queue ≡ [])
    × ((outgoing_data_written 4 protocol).items_written ≡ (1, 4) ∷ [])
outgoing_data_written-queued_example = outgoing_data_written-queued protocol
