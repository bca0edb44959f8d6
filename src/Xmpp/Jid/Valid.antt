-- ===== src/Xmpp/Jid/Valid.antt =====
-- What every operation on addresses keeps, comparison, and reading an address back.
use ambrosia.Prelude.{
  ℕ, ◌≡◌, ◌≢◌, refl, ap, ◌∙◌, Bool, true, false, Option, none, some, inl, inr, [], ◌∷◌, ◌++◌,
  if◌then◌else◌, Bool-cases, arith,
}
use ambrosia.Prelude.Texts.{Text, cut-none, cut-append, Lacks}
use ambrosia.Xmpp.Jid.{
  Prep, valid_domain, valid_node, valid_resource, Jid, jid_null, is_null, bare_text, full_text,
  update, jid_of, split_resource, split_node, set_parts, jid, set_domain, set_node, set_resource,
}

module _ (prep : Prep) where
  -- A part is what its profile gave for some text.
  abbrev pub Prepared : (Text → Option Text) → Text → Type 0
  Prepared profile s = (raw : Text) × (profile raw ≡ some s)

  -- A valid address has a text, its bare and full text are those of its parts, and these are prepared.
  abbrev pub IsJid : Jid → Type 0
  IsJid j =
      j.valid ≡ true
      → (j.full ≢ [])
        × (j.bare ≡ bare_text j.node j.domain)
        × (j.full ≡ full_text j.bare j.resource)
        × Prepared (valid_domain prep) j.domain
        × Prepared (valid_node prep) j.node
        × Prepared (valid_resource prep) j.resource

  null-IsJid : IsJid jid_null
  null-IsJid h = cc

  abbrev Parts : Jid → Type 0
  Parts j =
      Prepared (valid_domain prep) j.domain
      × Prepared (valid_node prep) j.node
      × Prepared (valid_resource prep) j.resource

  update-IsJid : (j : Jid) → (j.valid ≡ true → Parts j) → IsJid (update j)
  unfolding update
  update-IsJid j h v =
      let b = bare_text j.node j.domain in
      let f = full_text b j.resource in
      elim (Bool-cases (is_null f)) [
        | inl empty ↦ absurd (ground arith)
        | inr text ↦
            let parts = h (rw text at v) in
            (λ e. ground arith, refl, refl, parts.0, parts.1, parts.2)
      ]

  parts-IsJid :
      (od on or : Option Text)
      → ((d : Text) → od ≡ some d → Prepared (valid_domain prep) d)
      → ((n : Text) → on ≡ some n → Prepared (valid_node prep) n)
      → ((r : Text) → or ≡ some r → Prepared (valid_resource prep) r)
      → IsJid (elim od [
        | none ↦ jid_null
        | some d ↦ elim on [
          | none ↦ jid_null
          | some n ↦ elim or [ none ↦ jid_null | some r ↦ jid_of d n r ]
        ]
      ])
  parts-IsJid none on or hd hn hr = null-IsJid
  parts-IsJid (some d) none or hd hn hr = null-IsJid
  parts-IsJid (some d) (some n) none hd hn hr = null-IsJid
  parts-IsJid (some d) (some n) (some r) hd hn hr =
      update-IsJid _ (λ v. (hd d refl, hn n refl, hr r refl))

  set_parts-IsJid : (domain node resource : Text) → IsJid (set_parts prep domain node resource)
  unfolding set_parts
  set_parts-IsJid domain node resource =
      parts-IsJid (valid_domain prep domain) (valid_node prep node) (valid_resource prep resource)
        (λ d e. (domain, e)) (λ n e. (node, e)) (λ r e. (resource, e))

  -- An address that was read from a text and is valid has a text that is not empty, the bare and
  -- full text of its parts, and prepared parts.
  pub jid-IsJid : (s : Text) → IsJid (jid prep s)
  unfolding jid
  jid-IsJid s =
      set_parts-IsJid (split_node (split_resource s).0).1 (split_node (split_resource s).0).0
        (split_resource s).1

  set_part-IsJid :
      (v : Bool) (j : Jid) (o : Option Text) (with_part : Text → Jid)
      → IsJid j
      → ((norm : Text) → o ≡ some norm → v ≡ true → Parts (with_part norm))
      → IsJid (if v then elim o [ none ↦ jid_null | some norm ↦ update (with_part norm) ] else j)
  set_part-IsJid false j o with_part h k = h
  set_part-IsJid true j none with_part h k = null-IsJid
  set_part-IsJid true j (some norm) with_part h k =
      update-IsJid (with_part norm) (λ v. k norm refl refl)

  -- The setters keep it.
  pub set_domain-IsJid : (s : Text) (j : Jid) → IsJid j → IsJid (set_domain prep s j)
  unfolding set_domain
  set_domain-IsJid s j h =
      set_part-IsJid j.valid j (valid_domain prep s) (λ norm. record j { domain = norm }) h
        (λ norm e v. ((s, e), (h v).4, (h v).5))

  pub set_node-IsJid : (s : Text) (j : Jid) → IsJid j → IsJid (set_node prep s j)
  unfolding set_node
  set_node-IsJid s j h =
      set_part-IsJid j.valid j (valid_node prep s) (λ norm. record j { node = norm }) h
        (λ norm e v. ((h v).3, (s, e), (h v).5))

  pub set_resource-IsJid : (s : Text) (j : Jid) → IsJid j → IsJid (set_resource prep s j)
  unfolding set_resource
  set_resource-IsJid s j h =
      set_part-IsJid j.valid j (valid_resource prep s) (λ norm. record j { resource = norm }) h
        (λ norm e v. ((h v).3, (h v).4, (s, e)))

module _ (prep : Prep) where
  -- An address that was read from a text, if it is valid, has a text that is not empty, the bare
  -- and full text of its parts, and prepared parts; setting the domain, the node or the resource
  -- of such an address keeps this.
  pub changed_IsJid :
      (s : Text) (j : Jid)
      → IsJid prep j
      → IsJid prep (jid prep s)
        × IsJid prep (set_domain prep s j)
        × IsJid prep (set_node prep s j)
        × IsJid prep (set_resource prep s j)
  changed_IsJid s j h = (
    jid-IsJid prep s,
    set_domain-IsJid prep s j h,
    set_node-IsJid prep s j h,
    set_resource-IsJid prep s j h,
  )

-- Each part of the address is left as it is by its profile.
abbrev pub Unchanged : Prep → Jid → Type 0
Unchanged prep j =
    (valid_domain prep j.domain ≡ some j.domain)
    × (valid_node prep j.node ≡ some j.node)
    × (valid_resource prep j.resource ≡ some j.resource)

Lacks-append : (c : ℕ) (xs ys : Text) → Lacks c xs → Lacks c ys → Lacks c (xs ++ ys)
Lacks-append c [] ys h k = k
Lacks-append c (x ∷ xs) ys h k = (h.0, Lacks-append c xs ys h.1 k)

split_node-bare_text :
    (n d : Text) → Lacks b'@' n → Lacks b'@' d → split_node (bare_text n d) ≡ (n, d)
split_node-bare_text [] d hn hd = rw (cut-none b'@' d hd) refl
split_node-bare_text (x ∷ n) d hn hd = rw (cut-append b'@' (x ∷ n) d hn, split_node) refl

split_resource-full_text : (b r : Text) → Lacks b'/' b → split_resource (full_text b r) ≡ (b, r)
split_resource-full_text b [] h = rw (cut-none b'/' b h) refl
split_resource-full_text b (x ∷ r) h = rw (cut-append b'/' b (x ∷ r) h, split_resource) refl

bare_text-Lacks : (n d : Text) → Lacks b'/' n → Lacks b'/' d → Lacks b'/' (bare_text n d)
bare_text-Lacks [] d hn hd = hd
bare_text-Lacks (x ∷ n) d hn hd = Lacks-append b'/' (x ∷ n) (b'@' ∷ d) hn ((λ e. omega arith), hd)

module _ (prep : Prep) where
  jid_parts :
      (s rest resource node domain : Text)
      → split_resource s ≡ (rest, resource)
      → split_node rest ≡ (node, domain)
      → jid prep s ≡ set_parts prep domain node resource
  unfolding jid
  jid_parts s rest resource node domain outer inner = rw (outer, inner) refl

  set_parts-some :
      (domain node resource : Text) {d n r : Text}
      → valid_domain prep domain ≡ some d
      → valid_node prep node ≡ some n
      → valid_resource prep resource ≡ some r
      → set_parts prep domain node resource ≡ jid_of d n r
  unfolding set_parts
  set_parts-some domain node resource ed en er = rw (ed, en, er, set_parts) refl

  jid_of_same : (j : Jid) → IsJid prep j → j.valid ≡ true → jid_of j.domain j.node j.resource ≡ j
  unfolding update
  jid_of_same j ok v = let (text, eb, ef, d, n, r) = ok v in ground arith

  -- A valid address is read back from its full text, where each profile leaves its part as it
  -- is, and neither the node nor the domain has a separator.
  pub jid-full :
      (j : Jid)
      → IsJid prep j
      → j.valid ≡ true
      → Unchanged prep j
      → Lacks b'@' j.node
      → Lacks b'/' j.node
      → Lacks b'@' j.domain
      → Lacks b'/' j.domain
      → jid prep j.full ≡ j
  jid-full j ok v (ed, en, er) n_at n_slash no_at no_slash =
      let (text, eb, ef, d, n, r) = ok v in
      let b = bare_text j.node j.domain in
      let whole : j.full ≡ full_text b j.resource =
        ef ∙ ap (λ (t : Text). full_text t j.resource) eb in
      let outer : split_resource j.full ≡ (b, j.resource) =
        ap split_resource whole
        ∙ split_resource-full_text b j.resource
            (bare_text-Lacks j.node j.domain n_slash no_slash) in
      let inner = split_node-bare_text j.node j.domain n_at no_at in
      jid_parts j.full b j.resource j.node j.domain outer inner
      ∙ set_parts-some j.domain j.node j.resource ed en er
      ∙ jid_of_same j ok v
