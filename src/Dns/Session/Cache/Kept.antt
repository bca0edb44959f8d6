-- ===== src/Dns/Session/Cache/Kept.antt =====
-- What the cache holds after its operations.
use ambrosia.Prelude.{
  ℕ, ◌≡◌, ◌⊎◌, refl, Bool, true, false, Option, List, [], ◌∷◌, ◌++◌, ◌==◌, arith, Bool-cases, inl,
  inr,
}
use ambrosia.Prelude.Search.{All, All-append}
use ambrosia.Dns.Memory.{done, >>=-eq-done}
use ambrosia.Dns.Util.Record.{Rr}
use ambrosia.Dns.Util.Response.{Response}
use ambrosia.Dns.Session.{CacheItem, keep_if}
use ambrosia.Dns.Session.Cache.{
  is_expired, expire, is_kind, cache_remove_all_of_kind, cache_add, cache_scan, copy_record,
}

pub keep_if-All {ℓ} :
    {A : Type ℓ} (p : A → Bool) (xs : List A) → All (λ x. p x ≡ true) (keep_if p xs)
keep_if-All p [] = tt
keep_if-All p (x ∷ xs) = elim (Bool-cases (p x)) [
  | inl stays ↦ rw stays (stays, keep_if-All p xs)
  | inr goes ↦ rw goes (keep_if-All p xs)
]

pub All-keep_if {ℓ} :
    {A : Type ℓ} (P : A → Type 0) (p : A → Bool) (xs : List A) → All P xs → All P (keep_if p xs)
All-keep_if P p [] h = tt
All-keep_if P p (x ∷ xs) h = elim (Bool-cases (p x)) [
  | inl stays ↦ rw stays (h.0, All-keep_if P p xs h.1)
  | inr goes ↦ rw goes (All-keep_if P p xs h.1)
]

-- Every item was added at the time `now`, or has not expired by it.
abbrev pub IsLive : ℕ → List CacheItem → Type 0
IsLive now cache = All (λ i. (i.time_start ≡ now) ⊎ (is_expired now i ≡ false)) cache

pub expire-IsLive : (now : ℕ) (cache : List CacheItem) → IsLive now (expire now cache)
unfolding expire
expire-IsLive now [] = tt
expire-IsLive now (i ∷ cache) = elim (Bool-cases (is_expired now i)) [
  | inl gone ↦ rw gone (expire-IsLive now cache)
  | inr stays ↦ rw stays (inr stays, expire-IsLive now cache)
]

pub cache_add-IsLive :
    (qname : List ℕ) (qtype : Option ℕ) (now ttl : ℕ) (rr : Option Rr)
    (cache cache' : List CacheItem)
    → IsLive now cache
    → cache_add qname qtype now ttl rr cache ≡ done cache'
    → IsLive now cache'
unfolding cache_add
cache_add-IsLive qname qtype now ttl rr cache cache' h e = elim (Bool-cases (ttl == 0)) [
  | inl zero_ttl ↦ let same : cache ≡ cache' = ground arith in rw (← same) h
  | inr lasts ↦
      let (c, ec, made) = >>=-eq-done (copy_record rr) _ (rw lasts at e) in
      let item : CacheItem = record {
        qname = ambrosia.Dns.Util.Text.c_string qname;
        qtype = qtype;
        time_start = now;
        ttl = ttl;
        rr = c;
      } in
      let same : cache ++ (item ∷ []) ≡ cache' = ground arith in
      rw (← same) (All-append _ cache (item ∷ []) h (inl refl, tt))
]

-- No item of the kind is left, and a lookup of the kind finds nothing.
abbrev pub NoneOf : List ℕ → ℕ → List CacheItem → Type 0
NoneOf qname qtype cache = All (λ i. is_kind qname qtype i ≡ false) cache

pub cache_scan-NoneOf :
    (qname : List ℕ) (qtype now : ℕ) (cache more : List CacheItem) (r : Option Response)
    (lowest : ℕ)
    → NoneOf qname qtype cache
    → cache_scan qname qtype now (cache ++ more) r lowest ≡ cache_scan qname qtype now more r lowest
unfolding cache_scan
cache_scan-NoneOf qname qtype now [] more r lowest h = refl
cache_scan-NoneOf qname qtype now (i ∷ cache) more r lowest h =
    rw h.0 (cache_scan-NoneOf qname qtype now cache more r lowest h.1)

pub cache_remove-NoneOf :
    (qname : List ℕ) (qtype : ℕ) (cache : List CacheItem)
    → NoneOf qname qtype (cache_remove_all_of_kind qname qtype cache)
unfolding cache_remove_all_of_kind
cache_remove-NoneOf qname qtype [] = tt
cache_remove-NoneOf qname qtype (i ∷ cache) = elim (Bool-cases (is_kind qname qtype i)) [
  | inl gone ↦ rw gone (cache_remove-NoneOf qname qtype cache)
  | inr stays ↦ rw stays (stays, cache_remove-NoneOf qname qtype cache)
]
