-- ===== src/Dns/Session/Writes/Rounds.antt =====
-- The loop of `_unicast_do_writes` over the queries.
use ambrosia.Prelude.{
  ℕ, zero, suc, ◌<◌, ◌≡◌, refl, ◌∙◌, Bool, true, false, not, Option, none, some, List, [], ◌∷◌,
  ◌++◌, get_elem?, if◌then◌else◌, arith,
}
use ambrosia.Dns.Memory.{Outcome, done, error, fault, stuck, ◌>>=◌}
use ambrosia.Dns.Util.Response.{Response}
use ambrosia.Dns.Session.{Session, Callbacks, Query, Datagram, clock_read}
use ambrosia.Dns.Session.Cache.{cache_get_response}
use ambrosia.Dns.Session.Queries.{left, left-get}
use ambrosia.Dns.Session.Kept.{Gives, Gives-bind, Gives-any, Gives-map, Gives-if, IsSession}
use ambrosia.Dns.Session.Responses.Ends.{next_place}
use ambrosia.Dns.Session.Writes.{
  send_query, with_cname, with_cached, cached, due, is_waiting, write_query, write_queries,
  send_outgoing, unicast_do_writes, work,
}
use ambrosia.Dns.Session.Writes.Kept.{send_at-Steps, use_cached-Steps}
use ambrosia.Dns.Session.Writes.Transmits.{Steps, Seen, weight_pos}

with_cname-Steps :
    (now n : ℕ) (s : Session) (q : Query) (x : Option Response × Bool)
    → Seen n s q
    → q.trycache ≡ true
    → Gives (Steps n s) (with_cname now s q x)
unfolding with_cname send_query
with_cname-Steps now n s q (none, soon) seen cache = send_at-Steps now n s q q.step seen refl
with_cname-Steps now n s q (some r, soon) seen cache = use_cached-Steps n s q r soon seen cache

with_cached-Steps :
    (cb : Callbacks) (now n : ℕ) (s : Session) (q : Query) (x : Option Response × Bool)
    → Seen n s q
    → q.trycache ≡ true
    → Gives (Steps n s) (with_cached cb now s q x)
unfolding with_cached
with_cached-Steps cb now n s q (none, soon) seen cache =
    Gives-bind (λ _. Unit {0}) (Steps n s) (cache_get_response cb s q.qname 5) _ (Gives-any _)
      (λ x h. with_cname-Steps now n (clock_read s) q x seen cache)
with_cached-Steps cb now n s q (some r, soon) seen cache = use_cached-Steps n s q r soon seen cache

pub write_query-Steps :
    (cb : Callbacks) (now n : ℕ) (s : Session) (q : Query)
    → Seen n s q
    → Gives (Steps n s) (write_query cb now s q)
unfolding write_query due cached send_query
write_query-Steps cb now n s q seen =
    Gives-if (Steps n s) (is_waiting now q) (done (false, s)) _
      (λ waits. (seen.0, refl, omega (arith, left-get n s.queries q seen.1, weight_pos q)))
      (λ runs_out.
        Gives-if (Steps n s) q.trycache _ _
          (λ cache.
            Gives-bind (λ _. Unit {0}) (Steps n s) (cache_get_response cb s q.qname q.qtype) _
              (Gives-any _) (λ x h. with_cached-Steps cb now n (clock_read s) q x seen cache))
          (λ background. send_at-Steps now n s q q.step seen refl))

-- The session and its cache are kept.
abbrev pub Keeps : Session → Session → Type 0
Keeps s t = IsSession t × (t.cache ≡ s.cache)

round_Keeps :
    (cb : Callbacks) (now fuel n : ℕ) (s : Session) (next_ : Option Query)
    → get_elem? s.queries n ≡ next_
    → IsSession s
    → ((m : ℕ) (t : Session) → IsSession t → Gives (Keeps t) (write_queries cb now fuel m t))
    → Gives (Keeps s) (elim next_ [
      | none ↦ done s
      | some q ↦
          (write_query cb now s q >>= λ (removed, t).
          write_queries cb now fuel (if removed then n else suc n) t)
    ])
round_Keeps cb now fuel n s none e h rest = (h, refl)
round_Keeps cb now fuel n s (some q) e h rest =
    Gives-bind (Steps n s) (Keeps s) (write_query cb now s q) _
      (write_query-Steps cb now n s q (h, e))
      (λ (removed, t) (h', same, less).
        Gives-map (write_queries cb now fuel (next_place removed n) t)
          (λ u (h'', same'). (h'', same' ∙ same)) (rest (next_place removed n) t h'))

write_queries-Keeps :
    (cb : Callbacks) (now fuel n : ℕ) (s : Session)
    → IsSession s
    → Gives (Keeps s) (write_queries cb now fuel n s)
unfolding write_queries
write_queries-Keeps cb now zero n s h = tt
write_queries-Keeps cb now (suc fuel) n s h =
    round_Keeps cb now fuel n s (get_elem? s.queries n) refl h
      (λ m t. write_queries-Keeps cb now fuel m t)

same_after {ℓ κ} :
    {A : Type ℓ} {B : Type κ} (P : A → Type 0) (m : Outcome A) (f g : A → Outcome B)
    → Gives P m
    → ((a : A) → P a → f a ≡ g a)
    → (m >>= f) ≡ (m >>= g)
same_after P (done a) f g h k = k a h
same_after P error f g h k = refl
same_after P fault f g h k = refl
same_after P stuck f g h k = refl

round_same :
    (cb : Callbacks) (now f g n : ℕ) (s : Session) (next_ : Option Query)
    → get_elem? s.queries n ≡ next_
    → IsSession s
    → ((m : ℕ) (t : Session)
        → IsSession t
        → left m t.queries < left n s.queries
        → write_queries cb now f m t ≡ write_queries cb now g m t)
    → elim next_ [
      | none ↦ done s
      | some q ↦
          (write_query cb now s q >>= λ (removed, t).
          write_queries cb now f (if removed then n else suc n) t)
    ]
      ≡ elim next_ [
        | none ↦ done s
        | some q ↦
            (write_query cb now s q >>= λ (removed, t).
            write_queries cb now g (if removed then n else suc n) t)
      ]
round_same cb now f g n s none e h rest = refl
round_same cb now f g n s (some q) e h rest =
    same_after (Steps n s) (write_query cb now s q) _ _ (write_query-Steps cb now n s q (h, e))
      (λ (removed, t) (h', same, less). rest (next_place removed n) t h' less)

-- More rounds than the work that is left make no difference.
pub rounds_enough :
    (cb : Callbacks) (now f g n : ℕ) (s : Session)
    → IsSession s
    → left n s.queries < f
    → left n s.queries < g
    → write_queries cb now f n s ≡ write_queries cb now g n s
unfolding write_queries
rounds_enough cb now zero g n s h few enough = elim few [ ]
rounds_enough cb now (suc f) zero n s h few enough = elim enough [ ]
rounds_enough cb now (suc f) (suc g) n s h few enough =
    round_same cb now f g n s (get_elem? s.queries n) refl h
      (λ m t h' less. rounds_enough cb now f g m t h' (omega arith) (omega arith))

send_outgoing-Keeps :
    (cb : Callbacks) (outgoing : List Datagram) (s : Session)
    → IsSession s
    → Keeps s (send_outgoing cb outgoing s).1
unfolding send_outgoing
send_outgoing-Keeps cb [] s h = (h, refl)
send_outgoing-Keeps cb (a ∷ outgoing) s h =
    either s.handle_writable (cb.udp_write s.writes) _ _ _ (h, refl)
      (send_outgoing-Keeps cb outgoing
        (record s { writes = suc s.writes; written = s.written ++ (a ∷ []) }) h)
      (h, refl)
  where
    either :
        (b c : Bool) (x y z : Bool × Session)
        → Keeps s x.1
        → Keeps s y.1
        → Keeps s z.1
        → Keeps s (if not b then x else if c then y else z).1
    either false c x y z k l m = k
    either true true x y z k l m = l
    either true false x y z k l m = m

pub unicast_do_writes-Keeps :
    (cb : Callbacks) (now : ℕ) (s : Session)
    → IsSession s
    → Gives (λ (need_write, t). Keeps s t) (unicast_do_writes cb now s)
unfolding unicast_do_writes
unicast_do_writes-Keeps cb now s h =
    Gives-bind (Keeps s) (λ (need_write, t). Keeps s t)
      (write_queries cb now (suc (work s.queries)) 0 s) _
      (write_queries-Keeps cb now (suc (work s.queries)) 0 s h)
      (λ t (h', same).
        let (h'', same') = send_outgoing-Keeps cb t.outgoing t h' in (h'', same' ∙ same))
