-- ===== src/Dns/Label/Exact.antt =====
-- `readlabel` against the relation, in both directions.
use ambrosia.Prelude.{ℕ, ◌≤◌, ◌≡◌, ◌↔◌, List, length, arith}
use ambrosia.Prelude.Bits.{AreBytes}
use ambrosia.Dns.Memory.{done}
use ambrosia.Dns.Label.{readlabel}
use ambrosia.Dns.Label.Spells.{Spells, dotted}
use ambrosia.Dns.Label.Safety.{readlabel-Ensures}
use ambrosia.Dns.Label.Sound.{readlabel_sound}
use ambrosia.Dns.Label.Complete.{readlabel_complete}

name_fits :
    (inp ref : List ℕ) (at stop : ℕ) (name : List ℕ)
    → readlabel inp ref at ≡ done (stop, name)
    → length name ≤ 255
name_fits inp ref at stop name e = ground (arith, readlabel-Ensures inp ref at)

-- On buffers of bytes, `readlabel` returns `name` and moves `at` to `stop` exactly when a name with
-- some labels stands at `at` and ends at `stop`, with at most eight pointers before each label,
-- `name` is its text with a dot behind each label, and that has at most 255 bytes.
pub readlabel_iff :
    (ref inp : List ℕ) (at stop : ℕ) (name : List ℕ)
    → AreBytes ref
    → AreBytes inp
    → (readlabel inp ref at ≡ done (stop, name)) ↔ (
        (ls : List (List ℕ)) × Spells ref inp at 8 ls stop
        × (name ≡ dotted ls)
        × (length name ≤ 255))
readlabel_iff ref inp at stop name br bi = (
  λ e.
      let (ls, w, en) = readlabel_sound ref inp at stop name br bi e in
      (ls, w, en, name_fits inp ref at stop name e),
  λ (ls, w, en, fits). ground (arith, readlabel_complete ref inp at ls stop br bi w (ground arith)),
)
