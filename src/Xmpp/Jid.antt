-- ===== src/Xmpp/Jid.antt =====
-- Addresses: class `Jid` of iris/xmpp-core/jid.cpp. Its strings are texts; a null string is empty.
pub mod Valid
pub mod Compare
use ambrosia.Prelude.{
  ℕ, Bool, true, false, ◌&&◌, not, Option, none, some, List, [], ◌∷◌, ◌++◌, if◌then◌else◌, take,
}
use ambrosia.Prelude.Texts.{Text, text_eq, cut}

-- `stringprep_nameprep`, `stringprep_xmpp_nodeprep` and `stringprep_xmpp_resourceprep`
pub data Profile : Type 0 where
  for_name for_node for_resource : Profile

-- The libraries that addresses are checked with: the conversions of Qt, and `stringprep` of libidn on
-- the bytes of a C string, which is `none` where it returns an error. Nothing is assumed of them.
pub record Prep : Type 0 where
  pub to_utf8 : Text → List ℕ
  pub from_utf8 : List ℕ → Text
  pub stringprep : Profile → List ℕ → Option (List ℕ)

-- `cs.resize(1024)`: what is longer is cut. What is shorter keeps its end, so that the bytes behind it,
-- which are not set, are not part of the C string.
abbrev pub resized : List ℕ → List ℕ
resized cs = take 1024 cs

abbrev normalized : Prep → Profile → Text → Option Text
normalized prep profile s = elim (prep.stringprep profile (resized (prep.to_utf8 s))) [
  | none ↦ none
  | some cs ↦ some (prep.from_utf8 cs)
]

-- `validDomain`, `validNode` and `validResource`, with what they give for `norm`.
abbrev pub valid_domain : Prep → Text → Option Text
valid_domain prep s = normalized prep for_name s

abbrev pub valid_node : Prep → Text → Option Text
valid_node prep s = normalized prep for_node s

abbrev pub valid_resource : Prep → Text → Option Text
valid_resource prep s = normalized prep for_resource s

-- `f`, `b`, `d`, `n`, `r` and `valid`
pub record Jid : Type 0 where
  pub full : Text
  pub bare : Text
  pub domain : Text
  pub node : Text
  pub resource : Text
  pub valid : Bool

abbrev pub jid_null : Jid
jid_null = record { full = []; bare = []; domain = []; node = []; resource = []; valid = false }

abbrev pub is_null : Text → Bool
is_null [] = true
is_null (x ∷ xs) = false

abbrev pub bare_text : Text → Text → Text
bare_text node domain = if is_null node then domain else node ++ (b'@' ∷ domain)

abbrev pub full_text : Text → Text → Text
full_text bare resource = if is_null resource then bare else bare ++ (b'/' ∷ resource)

unfoldable pub update : Jid → Jid
update j =
    let b = bare_text j.node j.domain in
    let f = full_text b j.resource in
    record j { bare = b; full = f; valid = if is_null f then false else j.valid }

abbrev pub jid_of : Text → Text → Text → Jid
jid_of domain node resource = update (record {
  full = [];
  bare = [];
  domain = domain;
  node = node;
  resource = resource;
  valid = true;
})

-- `rest` and `resource`, and `node` and `domain`.
abbrev pub split_resource : Text → Text × Text
split_resource s = elim (cut b'/' s) [ none ↦ (s, []) | some p ↦ p ]

abbrev pub split_node : Text → Text × Text
split_node rest = elim (cut b'@' rest) [ none ↦ ([], rest) | some p ↦ p ]

abbrev pub is_empty : Jid → Bool
is_empty j = is_null j.full

unfoldable pub compare : Jid → Jid → Bool → Bool
compare j a compare_res =
    if j.valid && a.valid
    then (if compare_res then text_eq j.full a.full else text_eq j.bare a.bare)
    else false

module _ (prep : Prep) where
  -- `set` of three parts. Whichever part is bad, the address is reset.
  unfoldable pub set_parts : Text → Text → Text → Jid
  set_parts domain node resource = elim (valid_domain prep domain) [
    | none ↦ jid_null
    | some d ↦ elim (valid_node prep node) [
      | none ↦ jid_null
      | some n ↦ elim (valid_resource prep resource) [ none ↦ jid_null | some r ↦ jid_of d n r ]
    ]
  ]

  -- `set` of a text, which the constructors and assignments from a string call.
  unfoldable pub jid : Text → Jid
  jid s =
      let (rest, resource) = split_resource s in
      let (node, domain) = split_node rest in set_parts domain node resource

  unfoldable pub set_domain : Text → Jid → Jid
  set_domain s j =
      let changed : Jid = elim (valid_domain prep s) [
        | none ↦ jid_null
        | some norm ↦ update (record j { domain = norm })
      ] in
      if j.valid then changed else j

  unfoldable pub set_node : Text → Jid → Jid
  set_node s j =
      let changed : Jid = elim (valid_node prep s) [
        | none ↦ jid_null
        | some norm ↦ update (record j { node = norm })
      ] in
      if j.valid then changed else j

  unfoldable pub set_resource : Text → Jid → Jid
  set_resource s j =
      let changed : Jid = elim (valid_resource prep s) [
        | none ↦ jid_null
        | some norm ↦ update (record j { resource = norm })
      ] in
      if j.valid then changed else j

  abbrev pub with_node : Text → Jid → Jid
  with_node s j = set_node s j

  abbrev pub with_resource : Text → Jid → Jid
  with_resource s j = set_resource s j
