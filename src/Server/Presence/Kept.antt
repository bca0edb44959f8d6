-- ===== src/Server/Presence/Kept.antt =====
-- The state that every handler of presence keeps.
use ambrosia.Prelude.{◌≡◌, refl, Bool, true, false, ◌&&◌, Option, none, some, ◌∷◌, if◌then◌else◌}
use ambrosia.Prelude.Search.{
  Found, find_first, find_first-some, All, All-back, All-put, Pairwise, Pairwise-put,
}
use ambrosia.Xmpp.Jid.{Jid, compare}
use ambrosia.Server.Roster.{Sub}
use ambrosia.Server.Stanza.{
  Stanza, StanzaType, type_plain, subscribe, subscribed, unsubscribe, unsubscribed, probe, error,
  unavailable, get_type, set_type, result, other_type,
}
use ambrosia.Server.Files.{Env}
use ambrosia.Server.Router.Invariant.{IsRouter}
use ambrosia.Server.Router.Sound.{write-IsRouter}
use ambrosia.Server.Presence.{Item, Directed, State, is_item, is_sub, replace, and_then, route}

-- No request for a subscription is kept, no user has two items, and no user two directed presences to
-- one address.
abbrev pub Unlike : Item → Item → Type 0
Unlike a b = compare a.user b.user true ≡ false

abbrev pub UnlikeDirected : Directed → Directed → Type 0
UnlikeDirected a b = compare a.user b.user true && compare a.to b.to true ≡ false

abbrev pub IsState : State → Type 0
IsState st =
    All (λ i. is_sub i.stanza.type ≡ false) st.list
    × Pairwise Unlike st.list
    × All (λ d. is_sub d.stanza.type ≡ false) st.dplist
    × Pairwise UnlikeDirected st.dplist
    × IsRouter st.router

-- A handler comes to an end, in such a state.
abbrev pub Returns : Option State → Type 0
Returns none = ⊥
Returns (some st) = IsState st

abbrev pub Sends : (Stanza → State → Option State) → Type 0
Sends f = (out : Stanza) (st : State) → is_sub out.type ≡ false → IsState st → Returns (f out st)

pub and_then-Returns :
    (o : Option State) (f : State → Option State)
    → Returns o
    → ((st : State) → IsState st → Returns (f st))
    → Returns (and_then o f)
and_then-Returns none f h k = h
and_then-Returns (some st) f h k = k st h

pub either_Returns :
    (b : Bool) (x y : Option State)
    → (b ≡ true → Returns x)
    → (b ≡ false → Returns y)
    → Returns (if b then x else y)
either_Returns true x y h k = h refl
either_Returns false x y h k = k refl

pub either_IsState : (b : Bool) (x y : State) → IsState x → IsState y → IsState (if b then x else y)
either_IsState true x y h k = h
either_IsState false x y h k = k

-- What is kept of an item that was found.
pub find_item-stanza :
    (st : State) (u : Jid) (f : Found Item)
    → IsState st
    → find_first (is_item u) st.list ≡ some f
    → is_sub f.item.stanza.type ≡ false
find_item-stanza st u f h e =
    let (split, hit, front) = find_first-some (is_item u) st.list f e in
    let all =
      All-back (λ x. is_sub x.stanza.type ≡ false) f.before (f.item ∷ f.after) (rw split at h.0) in
    all.0

pub approved_IsState :
    (o : Option Sub) (x y : State)
    → IsState x
    → IsState y
    → IsState (elim o [ none ↦ x | some s ↦ y ])
approved_IsState none x y h k = h
approved_IsState (some s) x y h k = k

pub by_sub :
    (t : StanzaType) (x y z : Option State)
    → Returns x
    → Returns y
    → Returns z
    → Returns (elim t [ subscribe ↦ x | subscribed ↦ y | _ ↦ z ])
by_sub type_plain x y z h k l = l
by_sub unsubscribe x y z h k l = l
by_sub unsubscribed x y z h k l = l
by_sub probe x y z h k l = l
by_sub error x y z h k l = l
by_sub unavailable x y z h k l = l
by_sub get_type x y z h k l = l
by_sub set_type x y z h k l = l
by_sub result x y z h k l = l
by_sub (other_type t) x y z h k l = l
by_sub subscribe x y z h k l = h
by_sub subscribed x y z h k l = k

module _ (env : Env) where
  pub route-IsState : (out : Stanza) (st : State) → IsState st → IsState (route env out st)
  route-IsState out st (a, b, c, d, r) = (a, b, c, d, write-IsRouter env.prep out st.router r)

  pub replace-IsState :
      (st : State) (u : Jid) (f : Found Item) (i : Item)
      → find_first (is_item u) st.list ≡ some f
      → i.user ≡ f.item.user
      → (is_sub i.stanza.type ≡ false)
      → IsState st
      → IsState (record st { list = replace f i })
  replace-IsState st u f i e same s (a, b, c, d, r) =
      let (split, hit, front) = find_first-some (is_item u) st.list f e in
      (
        All-put (λ x. is_sub x.stanza.type ≡ false) f.before f.after f.item i (λ x. s)
            (rw split at a),
        Pairwise-put Unlike f.before f.after f.item i (λ z h. rw same h) (λ z h. rw same h)
            (rw split at b),
        c,
        d,
        r,
      )
