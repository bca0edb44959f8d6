-- ===== src/Dns/Session/Cache.antt =====
-- The cache of iris/irisnet/jdns/jdns.c. A time to live is an `int`, and so is every time that is
-- computed from it: both are the 32 bits of it in two's complement, and the arithmetic wraps around.
-- (In C a signed overflow is undefined; this is what the arithmetic of the machine gives.)
pub mod Kept
pub mod Found
use ambrosia.Prelude.{
  ℕ, ◌+◌, ◌-◌, ◌*◌, ◌%◌, ◌^◌, ◌||◌, ◌≡◌, refl, Bool, true, false, ◌&&◌, not, Option, none, some,
  List, [], ◌∷◌, ◌++◌, leb, ltb, ◌==◌, if◌then◌else◌, arith,
}
use ambrosia.Dns.Memory.{Outcome, done, ◌>>=◌}
use ambrosia.Dns.Util.Text.{jdns_domain_cmp, c_string}
use ambrosia.Dns.Util.Record.{Rr, jdns_rr_copy}
use ambrosia.Dns.Util.Response.{Response, jdns_response_new, append_answer}
use ambrosia.Dns.Session.{Session, Callbacks, CacheItem, clock, clock_read, keep_if, is_num}

-- An `int` of 32 bits is less than 0 from 2 ^ 31 on.
abbrev pub is_negative : ℕ → Bool
is_negative n = leb (2 ^ 31) n

-- `a < b` between two of them.
abbrev pub int_less : ℕ → ℕ → Bool
int_less a b = ltb ((a + 2 ^ 31) % 2 ^ 32) ((b + 2 ^ 31) % 2 ^ 32)

-- `i->time_start + (i->ttl * 1000)`
abbrev pub deadline : CacheItem → ℕ
deadline i = (i.time_start + i.ttl * 1000) % 2 ^ 32

-- `now >= i->time_start + (i->ttl * 1000)`
abbrev pub is_expired : ℕ → CacheItem → Bool
is_expired now i = not (int_less (now % 2 ^ 32) (deadline i))

-- `(i->ttl * 1000) - passed`, where `passed` is `now - i->time_start`.
abbrev pub time_left : ℕ → CacheItem → ℕ
time_left now i = (deadline i + 2 ^ 32 - now % 2 ^ 32) % 2 ^ 32

-- The loop of `// expire cached items`.
unfoldable pub expire : ℕ → List CacheItem → List CacheItem
expire now cache = keep_if (λ i. not (is_expired now i)) cache

abbrev pub is_kind : List ℕ → ℕ → CacheItem → Bool
is_kind qname qtype i = jdns_domain_cmp i.qname qname && is_num i.qtype qtype

unfoldable pub cache_remove_all_of_kind : List ℕ → ℕ → List CacheItem → List CacheItem
cache_remove_all_of_kind qname qtype cache = keep_if (λ i. not (is_kind qname qtype i)) cache

abbrev pub copy_record : Option Rr → Outcome (Option Rr)
copy_record none = done none
copy_record (some r) = do c ← jdns_rr_copy r; done (some c)

unfoldable pub cache_add :
    List ℕ → Option ℕ → ℕ → ℕ → Option Rr → List CacheItem → Outcome (List CacheItem)
cache_add qname qtype time_start ttl rr cache =
    let added = (do
      c ← copy_record rr
      done (
          cache
          ++ (record {
            qname = c_string qname;
            qtype = qtype;
            time_start = time_start;
            ttl = ttl;
            rr = c;
          }
              ∷ []))) in
    if ttl == 0 then done cache else added

abbrev pub or_new : Option Response → Response
or_new none = jdns_response_new
or_new (some r) = r

-- `if(i->record)`
abbrev pub add_record : Response → Option Rr → Outcome Response
add_record r none = done r
add_record r (some rr) = jdns_rr_copy rr >>= append_answer r

-- -1, which `lowest_timeleft` has before it is set, and where the time ran out a thousandth ago.
abbrev pub not_set : ℕ
not_set = 2 ^ 32 - 1

-- `if(lowest_timeleft == -1 || timeleft < lowest_timeleft)`
abbrev pub lower : ℕ → ℕ → ℕ
lower lowest timeleft = if (lowest == not_set) || int_less timeleft lowest then timeleft else lowest

-- The loop of `_cache_get_response`, with the response and `lowest_timeleft` so far.
unfoldable pub cache_scan :
    List ℕ → ℕ → ℕ → List CacheItem → Option Response → ℕ → Outcome (Option Response × ℕ)
cache_scan qname qtype now [] r lowest = done (r, lowest)
cache_scan qname qtype now (i ∷ cache) r lowest =
    let hit = (do
      r' ← add_record (or_new r) i.rr
      cache_scan qname qtype now cache (some r') (lower lowest (time_left now i))) in
    let miss = cache_scan qname qtype now cache r lowest in
    if is_kind qname qtype i then hit else miss

-- `lowest_timeleft < (3 * 60 * 1000)`
abbrev pub is_soon : ℕ → Bool
is_soon lowest = int_less lowest 180000

-- The response, and whether a record of it is about to expire.
unfoldable pub cache_get_response :
    Callbacks → Session → List ℕ → ℕ → Outcome (Option Response × Bool)
cache_get_response cb s qname qtype = do
  (r, lowest) ← cache_scan qname qtype (clock cb s) s.cache none not_set
  done (r, is_soon lowest)
