-- ===== src/Dns/Session/Responses/Still.antt =====
-- What following a CNAME leaves of the queries that are there.
use ambrosia.Prelude.{
  ℕ, ◌≡◌, inl, inr, refl, sym, ap, ◌∙◌, true, false, List, [], ◌∷◌, ◌==◌, arith, Bool-cases,
}
use ambrosia.Dns.Memory.{done, error, fault, stuck}
use ambrosia.Dns.Session.{Session, Query, query_at, set_query, put_query}

-- Every query is still there, with its requests and its parent, and no event is new.
abbrev pub StillAt : Session → Session → Type 0
StillAt s t =
    (t.events ≡ s.events)
    × ((self : ℕ) (p : Query)
        → query_at self s.queries ≡ done p
        → (p' : Query) × (query_at self t.queries ≡ done p')
          × (p'.req_ids ≡ p.req_ids)
          × (p'.cname_parent ≡ p.cname_parent))

pub put_elsewhere :
    (self : ℕ) (q : Query) (qs : List Query)
    → (q.self == self) ≡ false
    → query_at self (put_query q qs) ≡ query_at self qs
put_elsewhere self q [] h = refl
put_elsewhere self q (x ∷ qs) h = elim (Bool-cases (x.self == q.self)) [
  | inl hit ↦ let miss : (x.self == self) ≡ false = ground arith in rw hit (rw (h, miss) refl)
  | inr miss ↦ rw miss (rw (put_elsewhere self q qs h) refl)
]

pub put_there :
    (q p : Query) (qs : List Query)
    → query_at q.self qs ≡ done p
    → query_at q.self (put_query q qs) ≡ done q
put_there q p [] e = absurd (ground arith)
put_there q p (x ∷ qs) e = elim (Bool-cases (x.self == q.self)) [
  | inl hit ↦ let same : (q.self == q.self) ≡ true = ground arith in rw hit (rw same refl)
  | inr miss ↦ rw miss (rw (miss, put_there q p qs (rw miss at e)) refl)
]

pub StillAt-set :
    (s t : Session) (p q : Query)
    → StillAt s t
    → query_at q.self t.queries ≡ done p
    → q.req_ids ≡ p.req_ids
    → q.cname_parent ≡ p.cname_parent
    → StillAt s (set_query t q)
StillAt-set s t p q (events, still) e ids parent =
    (events, λ self x h. by_self self x (still self x h))
  where
    by_self :
        (self : ℕ) (x : Query)
        → ((p' : Query) × (query_at self t.queries ≡ done p')
            × (p'.req_ids ≡ x.req_ids)
            × (p'.cname_parent ≡ x.cname_parent))
        → (p' : Query) × (query_at self (put_query q t.queries) ≡ done p')
          × (p'.req_ids ≡ x.req_ids)
          × (p'.cname_parent ≡ x.cname_parent)
    by_self self x (p', found, ids', parent') = elim (Bool-cases (q.self == self)) [
      | inr other ↦ (p', put_elsewhere self q t.queries other ∙ found, ids', parent')
      | inl hit ↦
          let here_ : q.self ≡ self = ground arith in
          let both : done p ≡ done p' = sym e ∙ ap (λ y. query_at y t.queries) here_ ∙ found in
          let same : p ≡ p' =
            ap (λ o. elim o [ done y ↦ y | error ↦ p | fault ↦ p | stuck ↦ p ]) both in
          (
            q,
            ap (λ y. query_at y (put_query q t.queries)) (sym here_) ∙ put_there q p t.queries e,
            ids ∙ ap (λ (y : Query). y.req_ids) same ∙ ids',
            parent ∙ ap (λ (y : Query). y.cname_parent) same ∙ parent',
          )
    ]
