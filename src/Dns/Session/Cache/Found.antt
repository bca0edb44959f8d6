-- ===== src/Dns/Session/Cache/Found.antt =====
-- What a lookup in the cache finds after a response was cached.
use ambrosia.Prelude.{
  ℕ, ◌+◌, ◌-◌, ◌%◌, ◌^◌, ◌≡◌, refl, ◌∙◌, ap, Bool, true, false, Option, none, some, List, [], ◌∷◌,
  ◌++◌, map, append-nil, append_assoc, ◌==◌, arith,
}
use ambrosia.Prelude.Search.{All}
use ambrosia.Dns.Memory.{Outcome, done, ◌>>=◌}
use ambrosia.Dns.Util.Text.{c_string, jdns_domain_cmp_refl}
use ambrosia.Dns.Util.Record.{Rr, jdns_rr_copy}
use ambrosia.Dns.Util.Response.{Response, jdns_response_new, append_answer}
use ambrosia.Dns.Session.{Session, Callbacks, Query, CacheItem, clock, is_num}
use ambrosia.Dns.Session.Cache.{
  time_left, not_set, is_kind, cache_remove_all_of_kind, cache_add, cache_scan, cache_get_response,
  add_record, lower, is_soon,
}
use ambrosia.Dns.Session.Cache.Kept.{cache_remove-NoneOf, cache_scan-NoneOf}
use ambrosia.Dns.Session.Messages.{cache_answers, cache_nxdomain}

-- A lookup of a kind that was removed finds nothing.
pub get-cache_remove :
    (cb : Callbacks) (s : Session) (qname : List ℕ) (qtype : ℕ) (cache : List CacheItem)
    → cache_get_response cb
        (record s { cache = cache_remove_all_of_kind qname qtype cache })
        qname
        qtype
      ≡ done (none, true)
unfolding cache_get_response cache_scan
get-cache_remove cb s qname qtype cache =
    let left = cache_remove_all_of_kind qname qtype cache in
    let gone =
      cache_scan-NoneOf qname qtype (clock cb s) left [] none not_set
        (cache_remove-NoneOf qname qtype cache) in
    rw (rw (append-nil left) at gone) refl

-- Records that the cache keeps and gives back as they are: of the type, with a time to live, and
-- copied as they stand.
abbrev pub AreStored : ℕ → List Rr → Type 0
AreStored qtype =
    All
      (λ rr. (is_num rr.type qtype ≡ true) × ((rr.ttl == 0) ≡ false) × (jdns_rr_copy rr ≡ done rr))

abbrev pub item_of : List ℕ → ℕ → Rr → CacheItem
item_of qname now rr = record {
  qname = c_string qname;
  qtype = rr.type;
  time_start = now;
  ttl = rr.ttl;
  rr = some rr;
}

cache_answers-eq :
    (qname : List ℕ) (qtype now : ℕ) (rs : List Rr) (cache : List CacheItem)
    → AreStored qtype rs
    → cache_answers qname now rs cache ≡ done (cache ++ map (item_of qname now) rs)
unfolding cache_answers cache_add
cache_answers-eq qname qtype now [] cache h = rw (append-nil cache) refl
cache_answers-eq qname qtype now (rr ∷ rs) cache ((t, l, c), h) =
    rw (l, c)
      (cache_answers-eq qname qtype now rs (cache ++ (item_of qname now rr ∷ [])) h
        ∙ ap done (append_assoc cache (item_of qname now rr ∷ []) (map (item_of qname now) rs)))

abbrev answers_only : List Rr → Response
answers_only rs = record { answer_records = rs; authority_records = []; additional_records = [] }

add_record-done :
    (found : List Rr) (rr : Rr)
    → jdns_rr_copy rr ≡ done rr
    → add_record (answers_only found) (some rr) ≡ done (answers_only (found ++ (rr ∷ [])))
unfolding append_answer
add_record-done found rr c = rw c (rw c refl)

scan_found :
    (qname : List ℕ) (qtype now at : ℕ) (rs found : List Rr) (lowest : ℕ)
    → AreStored qtype rs
    → c_string qname ≡ qname
    → (l : ℕ) × (cache_scan qname qtype at
          (map (item_of qname now) rs)
          (some (answers_only found))
          lowest
        ≡ done (some (answers_only (found ++ rs)), l))
unfolding cache_scan
scan_found qname qtype now at [] found lowest h whole = (lowest, rw (append-nil found) refl)
scan_found qname qtype now at (rr ∷ rs) found lowest ((t, l, c), h) whole =
    let (low, e) =
      scan_found qname qtype now at rs (found ++ (rr ∷ []))
        (lower lowest (time_left at (item_of qname now rr))) h whole in
    let same : is_kind qname qtype (item_of qname now rr) ≡ true =
      rw (whole, jdns_domain_cmp_refl qname, t) refl in
    let goes_on : Response → Outcome (Option Response × ℕ) = λ r.
      cache_scan qname qtype at (map (item_of qname now) rs) (some r)
        (lower lowest (time_left at (item_of qname now rr))) in
    (
      low,
      rw same (
          ap (λ o. o >>= goes_on) (add_record-done found rr c)
          ∙ e
          ∙ ap (λ x. done (some (answers_only x), low)) (append_assoc found (rr ∷ []) rs)),
    )

-- Answers that are cached after the past items of the kind were removed are what a lookup finds,
-- in their order, and nothing else: for records of the type with a time to live whose copies are
-- equal to them, and a name that is a C string.
pub get-cache_answers :
    (cb : Callbacks) (s : Session) (qname : List ℕ) (qtype now : ℕ) (rr : Rr) (rs : List Rr)
    (cache : List CacheItem)
    → AreStored qtype (rr ∷ rs)
    → c_string qname ≡ qname
    → (cache' : List CacheItem) × (soon : Bool) × (cache_answers qname now
          (rr ∷ rs)
          (cache_remove_all_of_kind qname qtype cache)
        ≡ done cache')
      × (cache_get_response cb (record s { cache = cache' }) qname qtype
          ≡ done (
            some (record {
              answer_records = rr ∷ rs;
              authority_records = [];
              additional_records = [];
            }),
            soon,
          ))
unfolding cache_get_response cache_scan
get-cache_answers cb s qname qtype now rr rs cache ((t, l, c), h) whole =
    let left = cache_remove_all_of_kind qname qtype cache in
    let items = map (item_of qname now) (rr ∷ rs) in
    let at = clock cb s in
    let gone =
      cache_scan-NoneOf qname qtype at left items none not_set
        (cache_remove-NoneOf qname qtype cache) in
    let (low, e) =
      scan_found qname qtype now at rs (rr ∷ []) (time_left at (item_of qname now rr)) h whole in
    let same : is_kind qname qtype (item_of qname now rr) ≡ true =
      rw (whole, jdns_domain_cmp_refl qname, t) refl in
    (
      left ++ items,
      is_soon low,
      cache_answers-eq qname qtype now (rr ∷ rs) left ((t, l, c), h),
      rw (gone, same, add_record-done [] rr c, e) refl,
    )

-- What is left, at the time `at`, of a minute that began at `now`.
abbrev pub nx_left : ℕ → ℕ → ℕ
nx_left now at = ((now + 60000) % 2 ^ 32 + 2 ^ 32 - at % 2 ^ 32) % 2 ^ 32

-- That a name does not exist is remembered for a minute, for every type but ANY: a lookup finds the
-- empty response, which says so.
pub get-cache_nxdomain :
    (cb : Callbacks) (s : Session) (q : Query) (now : ℕ) (cache : List CacheItem)
    → c_string q.qname ≡ q.qname
    → (q.qtype == 255) ≡ false
    → (cache' : List CacheItem) × (cache_nxdomain now q cache ≡ done cache')
      × (cache_get_response cb (record s { cache = cache' }) q.qname q.qtype
          ≡ done (some jdns_response_new, is_soon (nx_left now (clock cb s))))
unfolding cache_get_response cache_scan cache_nxdomain cache_add
get-cache_nxdomain cb s q now cache whole other =
    let left = cache_remove_all_of_kind q.qname q.qtype cache in
    let item : CacheItem = record {
      qname = c_string q.qname;
      qtype = some q.qtype;
      time_start = now;
      ttl = 60;
      rr = none;
    } in
    let gone =
      cache_scan-NoneOf q.qname q.qtype (clock cb s) left (item ∷ []) none not_set
        (cache_remove-NoneOf q.qname q.qtype cache) in
    let same : is_kind q.qname q.qtype item ≡ true =
      rw (whole, jdns_domain_cmp_refl q.qname) (ground arith) in
    (left ++ (item ∷ []), rw other refl, rw (gone, same) refl)
