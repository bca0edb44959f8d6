-- ===== src/Dns/Session/Kept.antt =====
-- What every operation keeps of a session: shared definitions and rules.
use ambrosia.Prelude.{
  ℕ, suc, ◌≤◌, ◌<◌, ◌≡◌, refl, ap, subst, Bool, true, false, Option, none, some, List, [], ◌∷◌,
  ◌++◌, if◌then◌else◌, arith,
}
use ambrosia.Prelude.Search.{All, All-append, All-map, Pairwise, Pairwise-add}
use ambrosia.Dns.Memory.{Outcome, done, error, fault, stuck, ◌>>=◌}
use ambrosia.Dns.Session.{Session, Query, put_query, remove_query}
use ambrosia.Dns.Session.Ids.{get_next_qid, next_id}
use ambrosia.Dns.Session.Requests.{new_query, add_query}
use ambrosia.Dns.Session.Pointers.{
  Apart, All-put_query, All-remove_query, Pairwise-put_query, Pairwise-remove_query,
}

-- Whatever an outcome gives has `P`.
abbrev pub Gives {ℓ} : {A : Type ℓ} → (A → Type 0) → Outcome A → Type 0
Gives P (done a) = P a
Gives P error = Unit
Gives P fault = Unit
Gives P stuck = Unit

pub Gives-bind {ℓ κ} :
    {A : Type ℓ} {B : Type κ} (P : A → Type 0) (Q : B → Type 0) (m : Outcome A) (f : A → Outcome B)
    → Gives P m
    → ((a : A) → P a → Gives Q (f a))
    → Gives Q (m >>= f)
Gives-bind P Q (done a) f h k = k a h
Gives-bind P Q error f h k = tt
Gives-bind P Q fault f h k = tt
Gives-bind P Q stuck f h k = tt

pub Gives-both {ℓ} :
    {A : Type ℓ} (P Q : A → Type 0) (m : Outcome A)
    → Gives P m
    → Gives Q m
    → Gives (λ a. P a × Q a) m
Gives-both P Q (done a) h k = (h, k)
Gives-both P Q error h k = tt
Gives-both P Q fault h k = tt
Gives-both P Q stuck h k = tt

pub Gives-any {ℓ} : {A : Type ℓ} (m : Outcome A) → Gives (λ _. Unit {0}) m
Gives-any (done a) = tt
Gives-any error = tt
Gives-any fault = tt
Gives-any stuck = tt

pub Gives-given : {A : Type 0} (m : Outcome A) → Gives (λ a. m ≡ done a) m
Gives-given (done a) = refl
Gives-given error = tt
Gives-given fault = tt
Gives-given stuck = tt

pub given_by {ℓ} :
    {A : Type ℓ} (P : A → Type 0) (m : Outcome A) (a : A) → m ≡ done a → Gives P m → P a
given_by P m a e h = subst (λ o. Gives P o) e h

pub Gives-map {ℓ} :
    {A : Type ℓ} {P Q : A → Type 0} (m : Outcome A) → ((a : A) → P a → Q a) → Gives P m → Gives Q m
Gives-map (done a) k h = k a h
Gives-map error k h = tt
Gives-map fault k h = tt
Gives-map stuck k h = tt

pub Gives-if {ℓ} :
    {A : Type ℓ} (P : A → Type 0) (b : Bool) (x y : Outcome A)
    → (b ≡ true → Gives P x)
    → (b ≡ false → Gives P y)
    → Gives P (if b then x else y)
Gives-if P true x y h k = h refl
Gives-if P false x y h k = k refl

-- 8 transmissions at most.
abbrev pub StepOk : Option ℕ → Type 0
StepOk none = Unit {0}
StepOk (some n) = n ≤ 8

-- A query of a session that has made `allocated` of them.
abbrev pub IsQueryOf : ℕ → Query → Type 0
IsQueryOf allocated q = (q.self < allocated) × StepOk q.step × (q.cname_chain_count ≤ 16)

abbrev pub AreQueries : ℕ → List Query → Type 0
AreQueries allocated qs = All (IsQueryOf allocated) qs × Pairwise Apart qs

-- No two queries have one pointer, none was transmitted more than 8 times, and no chain is longer than
-- 16.
abbrev pub IsSession : Session → Type 0
IsSession s = AreQueries s.allocated s.queries

pub AreQueries-put :
    (allocated : ℕ) (q : Query) (qs : List Query)
    → IsQueryOf allocated q
    → AreQueries allocated qs
    → AreQueries allocated (put_query q qs)
AreQueries-put allocated q qs h (all, apart) =
    (All-put_query (IsQueryOf allocated) q qs h all, Pairwise-put_query q qs apart)

pub AreQueries-remove :
    (allocated self : ℕ) (qs : List Query)
    → AreQueries allocated qs
    → AreQueries allocated (remove_query self qs)
AreQueries-remove allocated self qs (all, apart) =
    (All-remove_query (IsQueryOf allocated) self qs all, Pairwise-remove_query self qs apart)

pub AreQueries-add :
    (allocated : ℕ) (q : Query) (qs : List Query)
    → q.self ≡ allocated
    → StepOk q.step
    → q.cname_chain_count ≤ 16
    → AreQueries allocated qs
    → AreQueries (suc allocated) (qs ++ (q ∷ []))
AreQueries-add allocated q qs at step chain (all, apart) = (
  All-append (IsQueryOf (suc allocated)) qs (q ∷ [])
      (All-map (IsQueryOf allocated) (IsQueryOf (suc allocated))
        (λ x (less, few, short). (omega arith, few, short)) qs all)
      ((omega (arith, at), step, chain), tt),
  Pairwise-add Apart qs q apart (
      All-map (IsQueryOf allocated) (λ x. Apart x q) (λ x (less, few, short). ground arith) qs all),
)

-- What `_get_query` adds: a new query at the end.
abbrev pub AddedQuery : Session → ℕ × Session → Type 0
AddedQuery s (self, t) =
    (q : Query) × (t.queries ≡ s.queries ++ (q ∷ []))
    × (t.allocated ≡ suc s.allocated)
    × (t.cache ≡ s.cache)
    × (t.events ≡ s.events)
    × (self ≡ s.allocated)
    × (q.self ≡ s.allocated)
    × (q.step ≡ some 0)
    × (q.cname_chain_count ≡ 0)
    × (q.req_ids ≡ [])
    × (q.cname_parent ≡ none)
    × (t.next_req_id ≡ s.next_req_id)

pub add_query-AddedQuery :
    (s : Session) (qname : List ℕ) (qtype : ℕ) → Gives (AddedQuery s) (add_query s qname qtype)
unfolding add_query get_next_qid
add_query-AddedQuery s qname qtype =
    Gives-bind (λ (id, t). t ≡ record s { next_qid = t.next_qid }) (AddedQuery s) (get_next_qid s) _
      (Gives-bind (λ _. Unit {0}) _ (next_id 0 _ _ s.next_qid) _
        (Gives-any (next_id 0 _ _ s.next_qid)) (λ (id, src) h. refl))
      (λ (id, t) same. (
        new_query t.allocated id qname qtype,
        ap (λ (u : Session). u.queries ++ (new_query t.allocated id qname qtype ∷ [])) same,
        ap (λ (u : Session). suc u.allocated) same,
        ap (λ (u : Session). u.cache) same,
        ap (λ (u : Session). u.events) same,
        ap (λ (u : Session). u.allocated) same,
        ap (λ (u : Session). u.allocated) same,
        refl,
        refl,
        refl,
        refl,
        ap (λ (u : Session). u.next_req_id) same,
      ))
