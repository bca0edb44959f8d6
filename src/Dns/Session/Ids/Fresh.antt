-- ===== src/Dns/Session/Ids/Fresh.antt =====
-- The ids that `get_next_qid`, `get_next_req_id` and `get_next_name_server_id` give.
use ambrosia.Prelude.{
  ℕ, zero, suc, ◌+◌, ◌%◌, ◌^◌, ◌≤◌, ◌<◌, ◌≡◌, inl, inr, refl, true, false, List, [], ◌∷◌, map,
  length, leb, ◌==◌, if◌then◌else◌, arith, Bool-cases,
}
use ambrosia.Dns.Memory.{Ensures, Ensures-bind}
use ambrosia.Dns.Session.{Session}
use ambrosia.Dns.Session.Ids.{
  int_wrap, has_id, next_id, rounds, used_req_ids, get_next_qid, get_next_req_id,
  get_next_name_server_id, get_next_dns_id,
}

-- How many of the ids in use are `src` or more.
above : ℕ → List ℕ → ℕ
above src [] = 0
above src (x ∷ xs) = (if leb src x then 1 else 0) + above src xs

above-le-length : (src : ℕ) (used : List ℕ) → above src used ≤ length used
unfolding above
above-le-length src [] = omega arith
above-le-length src (x ∷ xs) = ground (arith, above-le-length src xs)

above-suc : (src : ℕ) (used : List ℕ) → above (suc src) used ≤ above src used
unfolding above
above-suc src [] = omega arith
above-suc src (x ∷ xs) = ground (arith, above-suc src xs)

above_hit :
    (src : ℕ) (used : List ℕ) → has_id used src ≡ true → above (suc src) used < above src used
unfolding above
above_hit src [] h = absurd (ground arith)
above_hit src (x ∷ xs) h = elim (Bool-cases (x == src)) [
  | inl hit ↦ ground (arith, above-suc src xs)
  | inr miss ↦ ground (arith, above_hit src xs)
]

-- An id that is not in use, in the range of an `int`, with a counter in that range.
abbrev pub Fresh : ℕ → List ℕ → ℕ × ℕ → Type 0
Fresh start used (id, src) =
    (has_id used id ≡ false) × (start ≤ id) × (id < 2 ^ 31) × (start ≤ src) × (src < 2 ^ 31)

module _ (start : ℕ) (used : List ℕ) (low : start < 2 ^ 31) where
  found :
      (fuel src : ℕ)
      → start ≤ src
      → src < 2 ^ 31
      → has_id used src ≡ false
      → Ensures (Fresh start used) (next_id start (suc fuel) used src)
  unfolding next_id int_wrap
  found fuel src from fits free = rw free (free, from, fits, ground arith, ground arith)

  -- Before the counter wraps.
  straight :
      (b fuel src : ℕ)
      → b ≤ fuel
      → above src used < b
      → start ≤ src
      → src + b ≤ 2 ^ 31
      → Ensures (Fresh start used) (next_id start fuel used src)
  unfolding next_id int_wrap
  straight zero fuel src more room from fits = elim room [ ]
  straight (suc b) zero src more room from fits = elim more [ ]
  straight (suc b) (suc fuel) src more room from fits = elim (Bool-cases (has_id used src)) [
    | inr free ↦ found fuel src from (omega arith) free
    | inl hit ↦
        let less = above_hit src used hit in
        let inside : (suc src == 2 ^ 31) ≡ false = ground arith in
        rw (hit, inside)
          (straight b fuel (suc src) (omega arith) (omega arith) (omega arith) (omega arith))
  ]

  -- It wraps once at most.
  wrapping :
      (a b fuel src : ℕ)
      → a + b ≤ fuel
      → above src used < a
      → length used < b
      → start + b ≤ 2 ^ 31
      → start ≤ src
      → src < 2 ^ 31
      → Ensures (Fresh start used) (next_id start fuel used src)
  unfolding next_id int_wrap
  wrapping zero b fuel src more room all wide from fits = elim room [ ]
  wrapping (suc a) b zero src more room all wide from fits = absurd (omega arith)
  wrapping (suc a) b (suc fuel) src more room all wide from fits =
      elim (Bool-cases (has_id used src)) [
        | inr free ↦ found fuel src from fits free
        | inl hit ↦
            let less = above_hit src used hit in
            let few = above-le-length start used in
            elim (Bool-cases (suc src == 2 ^ 31)) [
              | inl over ↦
                  rw (hit, over)
                    (straight b fuel start (omega arith) (omega arith) (omega arith) (omega arith))
              | inr inside ↦
                  rw (hit, inside)
                    (wrapping a b fuel (suc src) (omega arith) (omega arith) all wide (omega arith)
                      (ground arith))
            ]
      ]

  -- Twice the number of ids in use, and two, are rounds enough.
  pub next_id-Fresh :
      (src : ℕ)
      → start ≤ src
      → src < 2 ^ 31
      → start + suc (length used) ≤ 2 ^ 31
      → Ensures (Fresh start used) (next_id start (rounds used) used src)
  next_id-Fresh src from fits wide =
      let few = above-le-length src used in
      wrapping (suc (length used)) (suc (length used)) (rounds used) src (omega arith) (omega arith)
        (omega arith) wide from fits

abbrev pub query_ids : Session → List ℕ
query_ids s = map (λ q. q.id) s.queries

abbrev pub server_ids : Session → List ℕ
server_ids s = map (λ n. n.id) s.name_servers

-- The counters are in the range of an `int`, and fewer ids are in use than it has.
pub record HasRoom (s : Session) : Type 0 where
  pub qid_fits : s.next_qid < 2 ^ 31
  pub req_id_from : 1 ≤ s.next_req_id
  pub req_id_fits : s.next_req_id < 2 ^ 31
  pub server_id_fits : s.next_name_server_id < 2 ^ 31
  pub few_queries : suc (length (query_ids s)) ≤ 2 ^ 31
  pub few_requests : 2 + length (used_req_ids s.queries) ≤ 2 ^ 31
  pub few_servers : suc (length (server_ids s)) ≤ 2 ^ 31

pub get_next_name_server_id-Ensures :
    (s : Session)
    → s.next_name_server_id < 2 ^ 31
    → suc (length (server_ids s)) ≤ 2 ^ 31
    → Ensures
        (λ (id, t).
          Fresh 0 (server_ids s) (id, t.next_name_server_id)
          × (t ≡ record s { next_name_server_id = t.next_name_server_id }))
        (get_next_name_server_id s)
unfolding get_next_name_server_id
get_next_name_server_id-Ensures s fits few =
    Ensures-bind (Fresh 0 (server_ids s)) _ (next_id 0 (rounds (server_ids s)) (server_ids s) _) _
      (next_id-Fresh 0 (server_ids s) (omega arith) _ (omega arith) fits (omega (arith, few)))
      (λ (id, src) h. (h, refl))

-- Where the counters are in the range of an int and fewer ids are in use than it has, the ids
-- for a query, a request and a name server are found, and no object in use has them; they and
-- the counters stay in the range of an int, and the ids of requests are 1 or more.
pub get_next_ids-Fresh :
    (s : Session)
    → HasRoom s
    → Ensures (λ (id, t). Fresh 0 (query_ids s) (id, t.next_qid)) (get_next_qid s)
      × Ensures
          (λ (id, t). Fresh 1 (used_req_ids s.queries) (id, t.next_req_id))
          (get_next_req_id s)
      × Ensures
          (λ (id, t). Fresh 0 (server_ids s) (id, t.next_name_server_id))
          (get_next_name_server_id s)
unfolding get_next_qid get_next_req_id get_next_name_server_id
get_next_ids-Fresh s room = (
  Ensures-bind (Fresh 0 (query_ids s)) _ (next_id 0 (rounds (query_ids s)) (query_ids s) _) _
      (next_id-Fresh 0 (query_ids s) (omega arith) _ (omega arith) room.qid_fits
        (omega (arith, room.few_queries)))
      (λ (id, src) h. h),
  Ensures-bind (Fresh 1 (used_req_ids s.queries)) _
      (next_id 1 (rounds (used_req_ids s.queries)) (used_req_ids s.queries) _) _
      (next_id-Fresh 1 (used_req_ids s.queries) (omega arith) _ room.req_id_from room.req_id_fits
        (omega (arith, room.few_requests)))
      (λ (id, src) h. h),
  Ensures-bind (Fresh 0 (server_ids s)) _ (next_id 0 (rounds (server_ids s)) (server_ids s) _) _
      (next_id-Fresh 0 (server_ids s) (omega arith) _ (omega arith) room.server_id_fits
        (omega (arith, room.few_servers)))
      (λ (id, src) h. h),
)

-- The packet id that is given after `n` others.
abbrev pub drawn : ℕ → Session → ℕ
drawn zero s = (get_next_dns_id s).0
drawn (suc n) s = drawn n (get_next_dns_id s).1

drawn_mod : (n : ℕ) (s : Session) → drawn n s ≡ (s.next_dns_id + n) % 2 ^ 16
unfolding get_next_dns_id
drawn_mod zero s = omega arith
drawn_mod (suc n) s = omega (arith, drawn_mod n (get_next_dns_id s).1)

-- The packet ids fit in 16 bits, and of 65536 in a row no two are the same.
pub drawn-bounds :
    (s : Session) (n m : ℕ)
    → n < m
    → m < n + 65536
    → (drawn n s < 65536) × ¬ (drawn n s ≡ drawn m s)
drawn-bounds s n m before close =
    (omega (arith, drawn_mod n s), λ e. omega (arith, drawn_mod n s, drawn_mod m s))
