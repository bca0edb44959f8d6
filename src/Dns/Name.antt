-- ===== src/Dns/Name.antt =====
-- Names as text: `jdns_packet_name_isvalid` and `name_to_label` of
-- iris/irisnet/jdns/jdns_packet.c. A name is the list of its bytes.
pub mod Valid
pub mod Encode
use ambrosia.Prelude.{
  ℕ, zero, suc, ◌+◌, ◌-◌, ◌%◌, Bool, true, false, ◌&&◌, ◌||◌, not, Option, none, some, List, [],
  ◌∷◌, ◌++◌, length, get_elem?, ltb, ◌==◌, if◌then◌else◌,
}

-- `name[i] == '.'`
abbrev pub is_dot_at : List ℕ → ℕ → Bool
is_dot_at name i = elim (get_elem? name i) [ none ↦ false | some c ↦ c == b'.' ]

-- The loop over the sublabels, on what is left of the name; `len` is `n - at`.
unfoldable pub sublabels_ok : List ℕ → ℕ → Bool
sublabels_ok [] len = true
sublabels_ok (c ∷ cs) len = elim (c == b'.') [
  | true ↦ not (ltb len 1 || ltb 63 len) && sublabels_ok cs 0
  | false ↦ sublabels_ok cs (len + 1)
]

unfoldable pub jdns_packet_name_isvalid : List ℕ → Bool
jdns_packet_name_isvalid name =
    let size = length name in
    if ltb size 1 || ltb 254 size
    then false
    else if not (is_dot_at name (size - 1))
    then false
    else if ltb 1 size && is_dot_at name 0
    then false
    else sublabels_ok name 0

-- The returns of `name_to_label`: -1, 0, and the length of what is in `label`.
pub data Converted : Type 0 where
  invalid overflow : Converted
  wire_label : List ℕ → Converted

-- The loop, on what is left of the name; `piece` is what stands between `at` and `n`, `out` is
-- `label` up to `i`.
unfoldable pub convert_loop : List ℕ → List ℕ → List ℕ → Converted
convert_loop [] piece out =
    let len = length piece in
    if ltb 255 (length out + (len + 1)) then overflow else wire_label (out ++ (len % 256) ∷ piece)
convert_loop (c ∷ cs) piece out =
    let len = length piece in
    elim (c == b'.') [
      | true ↦
          (let next = convert_loop cs [] (out ++ (len % 256) ∷ piece) in
            if ltb 255 (length out + (len + 1)) then overflow else next)
      | false ↦ convert_loop cs (piece ++ (c ∷ [])) out
    ]

unfoldable pub name_to_label : List ℕ → Converted
name_to_label name =
    if not (jdns_packet_name_isvalid name)
    then invalid
    else if length name == 1
    then wire_label (0 ∷ [])
    else convert_loop name [] []
