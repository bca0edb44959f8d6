-- ===== src/Dns/Session/Writes/Ends.antt =====
-- The loop of `_unicast_do_writes` over the queries comes to an end.
use ambrosia.Prelude.{
  ℕ, zero, suc, ◌+◌, ◌≤◌, ◌<◌, ◌≡◌, ◌≢◌, ◌⊎◌, inl, inr, refl, Bool, Option, none, some, get_elem?,
  if◌then◌else◌, arith,
}
use ambrosia.Dns.Memory.{Outcome, done, error, fault, stuck, ◌>>=◌}
use ambrosia.Dns.Session.{Session, Callbacks, Query}
use ambrosia.Dns.Session.Queries.{left}
use ambrosia.Dns.Session.Kept.{Gives, given_by, IsSession}
use ambrosia.Dns.Session.Responses.Ends.{next_place}
use ambrosia.Dns.Session.Writes.{write_query, write_queries, work}
use ambrosia.Dns.Session.Writes.Transmits.{Steps}
use ambrosia.Prelude.{subst}
use ambrosia.Prelude.Bits.{AreBytes}
use ambrosia.Dns.Util.Text.{c_string}
use ambrosia.Dns.Session.Writes.Halts.{Halts, Any, HasIds}
use ambrosia.Dns.Session.Writes.Looks.{write_query-Halts}
use ambrosia.Dns.Session.Writes.Rounds.{write_query-Steps, rounds_enough}

-- `k` rounds of the loop, one after the other, from place `n` to place `m`.
pub data Rounds (cb : Callbacks) (now n : ℕ) (s : Session) : ℕ → ℕ → Session → Type 0 where
  no_round : Rounds cb now n s 0 n s
  one_more :
      {k m : ℕ} {t : Session} (q : Query) (removed : Bool) (u : Session)
      → Rounds cb now n s k m t
      → get_elem? t.queries m ≡ some q
      → write_query cb now t q ≡ done (removed, u)
      → Rounds cb now n s (suc k) (next_place removed m) u

Rounds-left :
    {cb : Callbacks} {now n : ℕ} {s : Session} {k m : ℕ} {t : Session}
    → Rounds cb now n s k m t
    → IsSession s
    → IsSession t × (k + left m t.queries ≤ left n s.queries)
Rounds-left no_round h = (h, omega arith)
Rounds-left {cb} {now} (one_more {k} {m} {t} q removed u before e ran) h =
    let (h', spent) = Rounds-left before h in
    let (h'', same, less) =
      given_by (Steps m t) (write_query cb now t q) (removed, u) ran
        (write_query-Steps cb now m t q (h', e)) in
    (h'', omega arith)

-- The loop from place `n` of `s` comes to a query where the ids are running out, or to a name that is
-- not of bytes.
abbrev pub Stalls : Callbacks → ℕ → ℕ → Session → Type 0
Stalls cb now n s =
    (k : ℕ) × (m : ℕ) × (t : Session) × (q : Query) × Rounds cb now n s k m t
    × (get_elem? t.queries m ≡ some q)
    × ¬ (HasIds 2 t × AreBytes (c_string q.qname))

round_Stalls :
    (cb : Callbacks) (now fuel n m k : ℕ) (s t : Session) (next_ : Option Query)
    → get_elem? t.queries m ≡ next_
    → Rounds cb now n s k m t
    → IsSession t
    → ((removed : Bool) (u : Session)
        → Rounds cb now n s (suc k) (next_place removed m) u
        → IsSession u
        → left (next_place removed m) u.queries < left m t.queries
        → write_queries cb now fuel (next_place removed m) u ≡ stuck
        → Stalls cb now n s)
    → elim next_ [
      | none ↦ done t
      | some q ↦
          (write_query cb now t q >>= λ (removed, u).
          write_queries cb now fuel (if removed then m else suc m) u)
    ]
      ≡ stuck
    → Stalls cb now n s
round_Stalls cb now fuel n m k s t none e before h rest over = absurd (ground arith)
round_Stalls cb now fuel n m k s t (some q) e before h rest over =
    by_round (write_query cb now t q) refl (write_query-Steps cb now m t q (h, e)) over
  where
    by_round :
        (o : Outcome (Bool × Session))
        → write_query cb now t q ≡ o
        → Gives (Steps m t) o
        → (o >>= λ (removed, u). write_queries cb now fuel (if removed then m else suc m) u) ≡ stuck
        → Stalls cb now n s
    by_round (done (removed, u)) ran (h', same, less) over =
        rest removed u (one_more q removed u before e ran) h' less over
    by_round error ran k over = absurd (ground arith)
    by_round fault ran k over = absurd (ground arith)
    by_round stuck ran _ over = (
      k,
      m,
      t,
      q,
      before,
      e,
      λ (room, bytes). subst (Halts Any) ran (write_query-Halts cb now t q room bytes),
    )

write_queries-Stalls :
    (cb : Callbacks) (now fuel n m k : ℕ) (s t : Session)
    → Rounds cb now n s k m t
    → IsSession t
    → left m t.queries < fuel
    → write_queries cb now fuel m t ≡ stuck
    → Stalls cb now n s
unfolding write_queries
write_queries-Stalls cb now zero n m k s t before h enough over = elim enough [ ]
write_queries-Stalls cb now (suc fuel) n m k s t before h enough over =
    round_Stalls cb now fuel n m k s t (get_elem? t.queries m) refl before h
      (λ removed u after h' less.
        write_queries-Stalls cb now fuel n (next_place removed m) (suc k) s u after h'
          (omega arith))
      over

stuck_or_not {ℓ} : {A : Type ℓ} {B : Type 0} (m : Outcome A) → (m ≡ stuck → B) → (m ≢ stuck) ⊎ B
stuck_or_not (done a) h = inl (λ e. absurd (ground arith))
stuck_or_not error h = inl (λ e. absurd (ground arith))
stuck_or_not fault h = inl (λ e. absurd (ground arith))
stuck_or_not stuck h = inr (h refl)

-- On a session whose queries have different pointers, 8 transmissions at most and chains of 16
-- at most, the loop of _unicast_do_writes over the queries runs no more rounds than the work of
-- its queries (each counts once, and one that may use the cache twice more for every CNAME that
-- may follow), also where a round adds queries; any fuel beyond that work gives what the work
-- and one more give; and the loop is not stuck, unless it comes to a place where fewer than two
-- ids are left for new queries, or their counter is not in the range of an int, or the name of
-- the query is not of bytes.
pub write_queries_end :
    (cb : Callbacks) (now fuel k m : ℕ) (s t : Session)
    → IsSession s
    → work s.queries < fuel
    → Rounds cb now 0 s k m t
    → (k ≤ work s.queries)
      × (write_queries cb now fuel 0 s ≡ write_queries cb now (suc (work s.queries)) 0 s)
      × ((write_queries cb now fuel 0 s ≢ stuck) ⊎ Stalls cb now 0 s)
write_queries_end cb now fuel k m s t h enough ran = (
  omega (arith, (Rounds-left ran h).1),
  rounds_enough cb now fuel (suc (work s.queries)) 0 s h enough (omega arith),
  stuck_or_not (write_queries cb now fuel 0 s)
      (write_queries-Stalls cb now fuel 0 0 0 s s no_round h enough),
)
