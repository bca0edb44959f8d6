-- ===== src/Server/Presence/Lists.antt =====
-- What taking from the lists of the manager, and adding to them, keeps.
use ambrosia.Prelude.{
  ◌≡◌, true, false, Option, none, some, Bool-cases, inl, inr, List, [], ◌∷◌, ◌++◌,
}
use ambrosia.Prelude.Search.{
  Found, find_first, find_first-none, find_first-some, All, All-append, All-less, Pairwise,
  Pairwise-add, Pairwise-less,
}
use ambrosia.Xmpp.Jid.{Jid, compare}
use ambrosia.Server.Presence.{Item, Directed, State, is_item, is_sub}
use ambrosia.Server.Presence.Kept.{Unlike, UnlikeDirected, IsState, Returns, and_then-Returns}
use ambrosia.Server.Presence.Client.{for_each, others, clear}

pub for_each-Returns :
    {A : Type 0} (f : A → State → Option State) (xs : List A) (st : State)
    → ((x : A) (s : State) → IsState s → Returns (f x s))
    → IsState st
    → Returns (for_each f xs st)
for_each-Returns f [] st k h = h
for_each-Returns f (x ∷ xs) st k h =
    and_then-Returns (f x st) (λ s. for_each f xs s) (k x st h)
      (λ s hs. for_each-Returns f xs s k hs)

pub others-All :
    (P : Directed → Type 0) (u : Jid) (ds : List Directed) → All P ds → All P (others u ds)
others-All P u [] h = tt
others-All P u (d ∷ ds) h = elim (Bool-cases (compare d.user u true)) [
  | inl own ↦ rw own (others-All P u ds h.1)
  | inr other ↦ rw other (h.0, others-All P u ds h.1)
]

pub others-Pairwise :
    (R : Directed → Directed → Type 0) (u : Jid) (ds : List Directed)
    → Pairwise R ds
    → Pairwise R (others u ds)
others-Pairwise R u [] h = tt
others-Pairwise R u (d ∷ ds) h = elim (Bool-cases (compare d.user u true)) [
  | inl own ↦ rw own (others-Pairwise R u ds h.1)
  | inr other ↦ rw other (others-All (R d) u ds h.0, others-Pairwise R u ds h.1)
]

pub clear-IsState :
    (u : Jid) (f : Found Item) (st : State)
    → IsState (record st { list = f.before ++ f.after })
    → IsState (clear u f st)
clear-IsState u f st (a, b, c, d, r) = (
  a,
  b,
  others-All (λ x. is_sub x.stanza.type ≡ false) u st.dplist c,
  others-Pairwise UnlikeDirected u st.dplist d,
  r,
)

-- The list of items without one that was found in it.
pub drop_IsState :
    (st : State) (u : Jid) (f : Found Item)
    → find_first (is_item u) st.list ≡ some f
    → IsState st
    → All (λ x. is_sub x.stanza.type ≡ false) (f.before ++ f.after)
      × Pairwise Unlike (f.before ++ f.after)
drop_IsState st u f e (a, b, c, d, r) =
    let (split, hit, front) = find_first-some (is_item u) st.list f e in
    (
      All-less (λ x. is_sub x.stanza.type ≡ false) f.before f.after f.item (rw split at a),
      Pairwise-less Unlike f.before f.after f.item (rw split at b),
    )

pub add_IsState :
    (st : State) (i : Item)
    → find_first (is_item i.user) st.list ≡ none
    → is_sub i.stanza.type ≡ false
    → IsState st
    → IsState (record st { list = st.list ++ (i ∷ []) })
add_IsState st i e plain (a, b, c, d, r) = (
  All-append (λ x. is_sub x.stanza.type ≡ false) st.list (i ∷ []) a (plain, tt),
  Pairwise-add Unlike st.list i b (find_first-none (is_item i.user) st.list e),
  c,
  d,
  r,
)
