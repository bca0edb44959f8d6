-- ===== src/Server/Router/Invariant.antt =====
-- What every step of the router keeps: the invariant of its sessions, and what keeps it.
use ambrosia.Prelude.{
  ℕ, suc, ◌<◌, ◌==◌, ◌≡◌, ◌≢◌, ◌∙◌, refl, sym, Bool, true, false, ◌&&◌, not, List, [], ◌∷◌,
  if◌then◌else◌, Bool-cases, inl, inr, arith,
}
use ambrosia.Prelude.Texts.{Text}
use ambrosia.Prelude.Search.{All, All-append, All-map, Pairwise, Pairwise-add}
use ambrosia.Xmpp.Jid.{Jid, compare}
use ambrosia.Server.Stanza.{Stanza}
use ambrosia.Server.Router.{
  Grant, Session, Router, is_out, is_outbound, append_session, with_session, on_session,
  session_write, dialback_result, grant, sent_key,
}

-- A session: its id, what waits in it, who activates it and its key.
abbrev pub IsSession : ℕ → Session → Type 0
IsSession bound s =
    (s.id < bound)
    × (s.active ≡ true → s.pending ≡ [])
    × (s.verify ≡ true → s.active ≡ false)
    × (is_out s ≡ false → s.active ≡ true)
    × (is_outbound s ≡ true → s.verify ≡ false → s.sent_key ≡ sent_key)
    × (s.verify ≡ true → s.sent_key ≡ [])

-- An outbound session that carries stanzas.
abbrev pub is_carrier : Session → Bool
is_carrier s = is_outbound s && not s.verify

-- Two sessions differ in their ids, and carry stanzas to different hosts.
abbrev pub Apart : Session → Session → Type 0
Apart x y =
    (x.id ≢ y.id)
    × (is_carrier x ≡ true → is_carrier y ≡ true → compare x.stream_jid y.stream_jid true ≡ false)

abbrev pub IsRouter : Router → Type 0
IsRouter r = All (IsSession r.id_num) r.list × Pairwise Apart r.list

-- A call that leaves alone what tells sessions apart.
abbrev pub Keeps : (Session → Session) → Type 0
Keeps f =
    (s : Session)
    → ((f s).id ≡ s.id)
      × (is_carrier (f s) ≡ is_carrier s)
      × (is_carrier s ≡ true → (f s).stream_jid ≡ s.stream_jid)

module _ (n : ℕ) (f : Session → Session) where
  pub with_session-All :
      (P : Session → Type 0)
      → ((s : Session) → P s → P (f s))
      → (xs : List Session) → All P xs
      → All P (with_session n f xs)
  with_session-All P h [] a = tt
  with_session-All P h (x ∷ xs) a = elim (Bool-cases (x.id == n)) [
    | inl hit ↦ rw hit (h x a.0, with_session-All P h xs a.1)
    | inr miss ↦ rw miss (a.0, with_session-All P h xs a.1)
  ]

  Apart-left : Keeps f → (x y : Session) → Apart x y → Apart (f x) y
  Apart-left k x y (i, j) =
      let (ki, kc, kj) = k x in
      (λ e. i (sym ki ∙ e), λ cx cy. rw (kj (sym kc ∙ cx)) (j (sym kc ∙ cx) cy))

  Apart-right : Keeps f → (x y : Session) → Apart x y → Apart x (f y)
  Apart-right k x y (i, j) =
      let (ki, kc, kj) = k y in
      (λ e. i (e ∙ ki), λ cx cy. rw (kj (sym kc ∙ cy)) (j cx (sym kc ∙ cy)))

  with_session-Pairwise :
      Keeps f → (xs : List Session) → Pairwise Apart xs → Pairwise Apart (with_session n f xs)
  with_session-Pairwise k [] a = tt
  with_session-Pairwise k (x ∷ xs) a =
      let rest = with_session-Pairwise k xs a.1 in
      let all = with_session-All (Apart x) (λ y. Apart-right k x y) xs a.0 in
      elim (Bool-cases (x.id == n)) [
        | inl hit ↦ rw hit (
          All-map (Apart x) (Apart (f x)) (λ y. Apart-left k x y) (with_session n f xs) all,
          rest,
        )
        | inr miss ↦ rw miss (all, rest)
      ]

  pub on_session-IsRouter :
      (r : Router)
      → Keeps f
      → ((bound : ℕ) (s : Session) → IsSession bound s → IsSession bound (f s))
      → IsRouter r
      → IsRouter (on_session n f r)
  on_session-IsRouter r k h (a, p) = (
    with_session-All (IsSession r.id_num) (h r.id_num) r.list a,
    with_session-Pairwise k r.list p,
  )

pub session_write-Keeps : (s : Stanza) → Keeps (session_write s)
session_write-Keeps s x = ground arith

pub session_write-IsSession :
    (s : Stanza) (bound : ℕ) (x : Session) → IsSession bound x → IsSession bound (session_write s x)
session_write-IsSession s bound x (b, p, v, i, k, e) = ground arith

pub grant-Keeps : (g : Grant) → Keeps (grant g)
grant-Keeps g x = (refl, refl, λ c. refl)

-- A dialback answer reaches the outbound sessions alone.
abbrev pub on_dialback_result : Bool → Session → Session
on_dialback_result ok x = if is_carrier x then dialback_result ok x else x

pub dialback_result-Keeps : (ok : Bool) → Keeps (on_dialback_result ok)
dialback_result-Keeps ok x = ground arith

pub dialback_result-IsSession :
    (ok : Bool) (bound : ℕ) (x : Session)
    → IsSession bound x
    → IsSession bound (on_dialback_result ok x)
dialback_result-IsSession ok bound x (b, p, v, i, k, e) = ground arith

-- The stream of a session gets its id, and that of an incoming session its address.
abbrev pub stream_opened : Text → Session → Session
stream_opened id x = record x { stream_id = id }

abbrev pub logged_in : Jid → Session → Session
logged_in j x = if is_out x then x else record x { stream_jid = j }

pub logged_in-Keeps : (j : Jid) → Keeps (logged_in j)
logged_in-Keeps j x = ground arith

pub logged_in-IsSession :
    (j : Jid) (bound : ℕ) (x : Session) → IsSession bound x → IsSession bound (logged_in j x)
logged_in-IsSession j bound x (b, p, v, i, k, e) = ground arith

-- `y` carries to another host than `x`.
abbrev pub Elsewhere : Session → Session → Type 0
Elsewhere x y =
    is_carrier y ≡ true → is_carrier x ≡ true → compare y.stream_jid x.stream_jid true ≡ false

-- A session that is no carrier does not meet another.
pub no_carrier : (x : Session) (ys : List Session) → is_carrier x ≡ false → All (Elsewhere x) ys
no_carrier x [] e = tt
no_carrier x (y ∷ ys) e = (λ a b. absurd (ground arith), no_carrier x ys e)

-- A new session is sound if it has the next id and carries to a new host.
pub append_session-IsRouter :
    (x : Session) (r : Router)
    → IsRouter r
    → x.id ≡ r.id_num
    → IsSession (suc r.id_num) x
    → All (Elsewhere x) r.list
    → IsRouter (append_session x r)
append_session-IsRouter x r (a, p) e s c = (
  All-append (IsSession (suc r.id_num)) r.list (x ∷ [])
      (All-map (IsSession r.id_num) (IsSession (suc r.id_num)) (λ y h. ground arith) r.list a)
      (s, tt),
  Pairwise-add Apart r.list x p (apart r.list a c),
)
  where
    apart :
        (ys : List Session)
        → All (IsSession r.id_num) ys
        → All (Elsewhere x) ys
        → All (λ y. Apart y x) ys
    apart [] h k = tt
    apart (y ∷ ys) h k = ((λ i. ground arith, k.0), apart ys h.1 k.1)
