-- ===== src/Dns/Session/Ids.antt =====
-- The allocation of ids: `_int_wrap` and the `get_next_*` of iris/irisnet/jdns/jdns.c. An `int` that
-- goes over 2 ^ 31 - 1 wraps to a negative number, which `_int_wrap` replaces by `start`.
pub mod Fresh
use ambrosia.Prelude.{
  ℕ, zero, suc, ◌+◌, ◌-◌, ◌*◌, ◌%◌, ◌^◌, ◌≤◌, ◌<◌, ◌≡◌, ◌≢◌, ◌⊎◌, inl, inr, refl, Bool, true, false,
  Option, none, some, List, [], ◌∷◌, ◌++◌, map, length, ltb, ◌==◌, if◌then◌else◌, arith, Bool-cases,
}
use ambrosia.Dns.Memory.{Outcome, done, fault, stuck, ◌>>=◌}
use ambrosia.Dns.Session.{Session, Query, NameServer}

-- The value that `*src` has afterwards.
unfoldable pub int_wrap : ℕ → ℕ → ℕ
int_wrap src start = if suc src == 2 ^ 31 then start else suc src

-- `_intarray_indexOf(array, count, val) != -1`, and the loops that look for an id in use.
abbrev pub has_id : List ℕ → ℕ → Bool
has_id [] val = false
has_id (x ∷ xs) val = let rest = has_id xs val in if x == val then true else rest

-- The loop of the `get_next_*`: the id, and the counter after it.
unfoldable pub next_id : ℕ → ℕ → List ℕ → ℕ → Outcome (ℕ × ℕ)
next_id start zero used src = stuck
next_id start (suc fuel) used src =
    let rest = next_id start fuel used (int_wrap src start) in
    if has_id used src then rest else done (src, int_wrap src start)

-- Rounds that are enough: as many as the ids in use, before and after the counter wraps.
abbrev pub rounds : List ℕ → ℕ
rounds used = suc (length used) + suc (length used)

abbrev pub used_req_ids : List Query → List ℕ
used_req_ids [] = []
used_req_ids (q ∷ qs) = q.req_ids ++ used_req_ids qs

unfoldable pub get_next_qid : Session → Outcome (ℕ × Session)
get_next_qid s = do
  (id, src) ← next_id 0 (rounds (map (λ q. q.id) s.queries)) (map (λ q. q.id) s.queries) s.next_qid
  done (id, record s { next_qid = src })

unfoldable pub get_next_req_id : Session → Outcome (ℕ × Session)
get_next_req_id s = do
  (id, src) ← next_id 1 (rounds (used_req_ids s.queries)) (used_req_ids s.queries) s.next_req_id
  done (id, record s { next_req_id = src })

unfoldable pub get_next_name_server_id : Session → Outcome (ℕ × Session)
get_next_name_server_id s = do
  (id, src) ←
      next_id 0 (rounds (map (λ n. n.id) s.name_servers)) (map (λ n. n.id) s.name_servers)
        s.next_name_server_id
  done (id, record s { next_name_server_id = src })

-- `s->next_dns_id++ & 0xffff`, on 32 bits.
unfoldable pub get_next_dns_id : Session → ℕ × Session
get_next_dns_id s = (s.next_dns_id % 2 ^ 16, record s { next_dns_id = suc s.next_dns_id % 2 ^ 32 })

-- `_intarray_add`
abbrev pub intarray_add : List ℕ → ℕ → List ℕ
intarray_add array val = array ++ (val ∷ [])

-- `_intarray_remove` of an item that is there. With more than one item, `--count` moves the pointer
-- `count` and not the number it points to, and the size given to `realloc` is then read in front of
-- that number, which is undefined.
abbrev pub intarray_remove : List ℕ → Outcome (List ℕ)
intarray_remove array = if ltb 1 (length array) then fault else done []

-- `query_remove_req_id`, and each half of `query_name_server_gone`.
abbrev pub remove_if_there : List ℕ → ℕ → Outcome (List ℕ)
remove_if_there array val =
    let gone = intarray_remove array in if has_id array val then gone else done array
