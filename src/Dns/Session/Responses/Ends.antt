-- ===== src/Dns/Session/Responses/Ends.antt =====
-- How a response ends a query: what it keeps of a session, and the work that it leaves.
use ambrosia.Prelude.{
  ℕ, suc, ◌+◌, ◌-◌, ◌*◌, ◌≤◌, ◌≡◌, refl, Bool, Option, none, some, List, if◌then◌else◌, arith,
}
use ambrosia.Dns.Memory.{Outcome}
use ambrosia.Dns.Session.{Session, Query, Event, append_events, query_at, remove_query}
use ambrosia.Dns.Session.Responses.{tell_parent, finish}
use ambrosia.Dns.Session.Queries.{left, At, left-remove_query, left-remove-At, remove_query_comm}
use ambrosia.Dns.Session.Kept.{Gives, Gives-bind, Gives-any, IsSession, AreQueries-remove}

-- The session is kept, its cache as well, and `k` is the work that may be new.
abbrev pub Grows : ℕ → Session → Session → Type 0
Grows k s t =
    IsSession t
    × (t.cache ≡ s.cache)
    × ((n : ℕ) → left n t.queries ≤ left n s.queries + k)
    × ((n self : ℕ) → At n self s.queries → At n self t.queries)

-- The queries that are left once the one of the pointer is removed, where it is to be.
abbrev pub after_removal : Bool → ℕ → List Query → List Query
after_removal remove self qs = if remove then remove_query self qs else qs

-- The place where the loop over the queries goes on.
abbrev pub next_place : Bool → ℕ → ℕ
next_place remove n = if remove then n else suc n

-- The outcome for the query at `n`: `k` is the work that may be new.
abbrev pub Ends : ℕ → ℕ → Session → ℕ → Bool × Session → Type 0
Ends n self s k (remove, t) =
    IsSession t
    × (t.cache ≡ s.cache)
    × (left (next_place remove n) (after_removal remove self t.queries)
        ≤ left (suc n) s.queries + k)

-- A query that stays.
abbrev pub Told : Session → Session → Type 0
Told s t =
    IsSession t
    × (t.cache ≡ s.cache)
    × ((n self : ℕ) → left n (remove_query self t.queries) ≤ left n (remove_query self s.queries))

pub tell_parent-Told :
    (events : List ℕ → Outcome (List Event)) (parent : Option ℕ) (s : Session)
    → IsSession s
    → Gives (Told s) (tell_parent events parent s)
unfolding tell_parent
tell_parent-Told events none s h = (h, refl, λ n self. omega arith)
tell_parent-Told events (some parent) s h =
    Gives-bind (λ _. Unit {0}) (Told s) (query_at parent s.queries) _ (Gives-any _)
      (λ cq h'.
        Gives-bind (λ _. Unit {0}) (Told s) (events cq.req_ids) _ (Gives-any _)
          (λ es h''. (
            AreQueries-remove s.allocated parent s.queries h,
            refl,
            λ n self.
                rw (remove_query_comm self parent s.queries)
                  (left-remove_query n parent (remove_query self s.queries)),
          )))

pub finish-Ends :
    (own others : List ℕ → Outcome (List Event)) (n : ℕ) (s : Session) (q : Query)
    → IsSession s
    → At n q.self s.queries
    → Gives (Ends n q.self s 0) (finish own others s q)
unfolding finish
finish-Ends own others n s q h place =
    Gives-bind (λ _. Unit {0}) (Ends n q.self s 0) (own q.req_ids) _ (Gives-any _)
      (λ es h'.
        Gives-bind (Told s) (Ends n q.self s 0)
          (tell_parent others q.cname_parent (append_events s es)) _
          (tell_parent-Told others q.cname_parent (append_events s es) h)
          (λ t (k, same, less).
            (k, same, omega (arith, less n q.self, left-remove-At n q.self s.queries place))))

-- The work that the next query of a chain may give.
abbrev pub gain : Query → ℕ
gain q = 2 * (17 - q.cname_chain_count) - 1
