-- ===== src/Server/Presence/Departure.antt =====
-- What is left of a user that became unavailable.
use ambrosia.Prelude.{
  ◌≡◌, ◌∙◌, refl, ap, true, false, Option, none, some, List, [], ◌∷◌, ◌++◌, Bool-cases, inl, inr,
  arith,
}
use ambrosia.Prelude.Texts.{Text}
use ambrosia.Prelude.Search.{
  find_first-none, find_first-append, Found, find_first-some, All, All-append, Pairwise-behind,
}
use ambrosia.Xmpp.Jid.{Jid, compare, is_empty}
use ambrosia.Xmpp.Jid.Compare.{compare_left, compare_comm}
use ambrosia.Server.Stanza.{Stanza, unavailable, to_jid}
use ambrosia.Server.Files.{Env}
use ambrosia.Server.Presence.{
  Item, Directed, State, find_item, is_item, is_sub, and_then, unaddressed,
}
use ambrosia.Server.Presence.Client.{
  is_unavailable, client_initial, others, clear, is_error, client_later, incoming_from_client,
  client_normal,
}
use ambrosia.Server.Presence.Kept.{Unlike, IsState, Returns}
use ambrosia.Server.Presence.Served.{incoming_from_client-Returns}

-- The items beside the one that was found are other users'.
behind_other :
    (u : Jid) (i : Item) (xs : List Item)
    → is_item u i ≡ true
    → All (Unlike i) xs
    → All (λ x. is_item u x ≡ false) xs
behind_other u i [] own h = tt
behind_other u i (x ∷ xs) own h = elim (Bool-cases (is_item u x)) [
  | inl hit ↦
      let same = compare_left i.user u x.user true own in
      let back = compare_comm x.user u true hit in absurd (ground arith)
  | inr miss ↦ (miss, behind_other u i xs own h.1)
]

others_mine :
    (u : Jid) (ds : List Directed) → All (λ d. compare d.user u true ≡ false) (others u ds)
others_mine u [] = tt
others_mine u (d ∷ ds) = elim (Bool-cases (compare d.user u true)) [
  | inl own ↦ rw own (others_mine u ds)
  | inr other ↦ rw other (other, others_mine u ds)
]

and_then_end :
    (o : Option State) (g : State → State)
    → Returns (and_then o (λ s. some (g s)))
    → (s : State) × (and_then o (λ s. some (g s)) ≡ some (g s))
and_then_end none g h = absurd h
and_then_end (some s) g h = (s, refl)

found_others :
    (u : Jid) (st : State) (f : Found Item)
    → find_item u st ≡ some f
    → IsState st
    → All (λ i. is_item u i ≡ false) (f.before ++ f.after)
found_others u st f e h =
    let (split, hit, front) = find_first-some (is_item u) st.list f e in
    All-append (λ i. is_item u i ≡ false) f.before f.after front
      (behind_other u f.item f.after hit
        (Pairwise-behind Unlike f.before f.after f.item (rw split at h.1)))

module _ (env : Env) (host : Text) where
  reached :
      (in_ : Stanza) (u : Jid) (st : State) (f : Found Item)
      → in_.type ≡ unavailable
      → is_empty (to_jid env.prep in_) ≡ true
      → find_item u st ≡ some f
      → incoming_from_client env host in_ u st ≡ client_later env host in_ u f st
  unfolding incoming_from_client client_normal
  reached in_ u st f t to e =
      let plain : is_sub in_.type ≡ false = ap is_sub t in
      let fine : is_error in_.type ≡ false = ap is_error t in rw (plain, fine, to, e) refl

  away :
      (in_ : Stanza) (u : Jid) (st : State) (f : Found Item)
      → in_.type ≡ unavailable
      → Returns (client_later env host in_ u f st)
      → (s : State) × (client_later env host in_ u f st ≡ some (clear u f s))
  unfolding client_later
  away in_ u st f t h = rw t (and_then_end _ (clear u f) (rw t at h))

  -- On a sound state, an unavailable presence without a receiver, of a user who has an item,
  -- comes to an end, and leaves neither an item nor a directed presence of the user.
  pub incoming_from_client-unavailable :
      (in_ : Stanza) (u : Jid) (st : State) (f : Found Item)
      → in_.type ≡ unavailable
      → is_empty (to_jid env.prep in_) ≡ true
      → find_item u st ≡ some f
      → IsState st
      → (st' : State) × (incoming_from_client env host in_ u st ≡ some st')
        × All (λ i. is_item u i ≡ false) st'.list
        × All (λ d. compare d.user u true ≡ false) st'.dplist
  incoming_from_client-unavailable in_ u st f t to e h =
      let later : incoming_from_client env host in_ u st ≡ client_later env host in_ u f st =
        reached in_ u st f t to e in
      let (s, ends) =
        away in_ u st f t (rw later at (incoming_from_client-Returns env host in_ u st h)) in
      (clear u f s, later ∙ ends, found_others u st f e h, others_mine u s.dplist)

  -- A first presence of a user with a valid address that is unavailable and has no receiver
  -- routes nothing, but leaves an item, so that the next presence of the user is not a first
  -- one.
  pub incoming_from_client-skipped :
      (in_ : Stanza) (u : Jid) (st : State)
      → in_.type ≡ unavailable
      → is_empty (to_jid env.prep in_) ≡ true
      → find_item u st ≡ none
      → compare u u true ≡ true
      → (st' : State) × (incoming_from_client env host in_ u st ≡ some st')
        × (st'.routed ≡ st.routed)
        × (f : Found Item) × (find_item u st' ≡ some f)
  unfolding incoming_from_client client_normal client_initial
  incoming_from_client-skipped in_ u st t to e valid =
      let i : Item = record { user = u; stanza = unaddressed in_; dontsend = [] } in
      let plain : is_sub in_.type ≡ false = ap is_sub t in
      let fine : is_error in_.type ≡ false = ap is_error t in
      let away : is_unavailable in_.type ≡ true = ap is_unavailable t in
      let others = find_first-none (is_item u) st.list e in
      (
        record st { list = st.list ++ (i ∷ []) },
        rw (plain, fine, to, e, away) refl,
        refl,
        record { before = st.list; item = i; after = [] },
        find_first-append (is_item u) st.list [] i others valid,
      )
