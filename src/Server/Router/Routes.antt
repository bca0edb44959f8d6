-- ===== src/Server/Router/Routes.antt =====
-- The two ways of `ensureOutbound`.
use ambrosia.Prelude.{◌≡◌, true, false, some, Option-cases, ◌∷◌, ◌++◌, inl, inr, arith}
use ambrosia.Prelude.Texts.{Text}
use ambrosia.Prelude.Search.{Found, find_first, find_first-none, find_first-some, All}
use ambrosia.Xmpp.Jid.{Prep, jid}
use ambrosia.Server.Router.{
  Session, Router, outbound_session, append_session, sent_key, is_route, ensure_outbound,
}

module _ (prep : Prep) where
  pub data Ensured (host : Text) (r : Router) : Type 0 where
    kept :
        (f : Found Session)
        → find_first (is_route prep host) r.list ≡ some f
        → r.list ≡ f.before ++ (f.item ∷ f.after)
        → is_route prep host f.item ≡ true
        → ensure_outbound prep host r ≡ (f.item.id, r)
        → Ensured host r
    opened :
        All (λ s. is_route prep host s ≡ false) r.list
        → ensure_outbound prep host r
          ≡ (r.id_num, append_session (outbound_session r.id_num (jid prep host) sent_key) r)
        → Ensured host r

  pub ensured : (host : Text) (r : Router) → Ensured host r
  unfolding ensure_outbound
  ensured host r = elim (Option-cases (find_first (is_route prep host) r.list)) [
    | inl e ↦ opened (find_first-none (is_route prep host) r.list e) (ground arith)
    | inr (f, e) ↦
        let (split, hit, front) = find_first-some (is_route prep host) r.list f e in
        kept f e split hit (ground arith)
  ]

  pub ensure_outbound-found :
      (host : Text) (r : Router) (f : Found Session)
      → find_first (is_route prep host) r.list ≡ some f
      → ensure_outbound prep host r ≡ (f.item.id, r)
  unfolding ensure_outbound
  ensure_outbound-found host r f e = ground arith
