-- ===== src/Dns/Session/Responses/Copies.antt =====
-- The copies of a response that `_process_response` of iris/irisnet/jdns/jdns.c reports.
use ambrosia.Prelude.{
  ℕ, ◌≡◌, refl, Bool, true, false, Option, none, some, List, [], ◌∷◌, if◌then◌else◌, arith,
}
use ambrosia.Prelude.Search.{All}
use ambrosia.Dns.Memory.{Outcome, done, error, fault, stuck, ◌>>=◌}
use ambrosia.Dns.Util.Record.{
  Rr, Known, Kind, Fits, fits_address, fits_server, fits_name, fits_texts, fits_hinfo, kind_of,
  copy_known, jdns_rr_copy,
}
use ambrosia.Dns.Util.Record.Decoded.{Member}
use ambrosia.Dns.Util.Response.{Response, array_copy, jdns_response_copy}
use ambrosia.Dns.Session.Responses.{report_copies}

abbrev pub Returns {ℓ} : {A : Type ℓ} → Outcome A → Type ℓ
Returns {A = A} m = (a : A) × (m ≡ done a)

pub Returns-bind {ℓ κ} :
    {A : Type ℓ} {B : Type κ} (m : Outcome A) (f : A → Outcome B)
    → Returns m
    → ((a : A) → m ≡ done a → Returns (f a))
    → Returns (m >>= f)
Returns-bind (done a) f h k = k a refl
Returns-bind error f (a, e) k = absurd (ground arith)
Returns-bind fault f (a, e) k = absurd (ground arith)
Returns-bind stuck f (a, e) k = absurd (ground arith)

pub Returns-if {ℓ} :
    {A : Type ℓ} (b : Bool) (x y : Outcome A)
    → (b ≡ true → Returns x)
    → (b ≡ false → Returns y)
    → Returns (if b then x else y)
Returns-if true x y h k = h refl
Returns-if false x y h k = k refl

-- A record with the member of the union that its type uses, as it is decoded.
abbrev pub IsWhole : Rr → Type 0
IsWhole rr = Member (kind_of rr.type) rr.known

-- A response of such records.
pub record IsReadable (r : Response) : Type 0 where
  pub whole_answers : All IsWhole r.answer_records
  pub whole_authority : All IsWhole r.authority_records
  pub whole_additional : All IsWhole r.additional_records

copy_known-Returns : (c : Kind) (k : Known) → Fits c k → Returns (copy_known c k)
copy_known-Returns c k fits_address = (_, refl)
copy_known-Returns c k fits_server = (_, refl)
copy_known-Returns c k fits_name = (_, refl)
copy_known-Returns c k fits_texts = (_, refl)
copy_known-Returns c k fits_hinfo = (_, refl)

copy_maybe-Returns :
    (c : Kind) (known : Option Known)
    → Member c known
    → Returns {A = Option Known}
        (elim known [ none ↦ done none | some k ↦ (copy_known c k >>= λ k'. done (some k')) ])
copy_maybe-Returns c none h = (none, refl)
copy_maybe-Returns c (some k) h =
    Returns-bind (copy_known c k) _ (copy_known-Returns c k h) (λ k' e. (some k', refl))

jdns_rr_copy-Returns : (rr : Rr) → IsWhole rr → Returns (jdns_rr_copy rr)
unfolding jdns_rr_copy
jdns_rr_copy-Returns rr h =
    Returns-bind _ _ (copy_maybe-Returns (kind_of rr.type) rr.known h) (λ known e. (_, refl))

array_copy-Returns : (rs : List Rr) → All IsWhole rs → Returns (array_copy rs)
unfolding array_copy
array_copy-Returns [] h = ([], refl)
array_copy-Returns (rr ∷ rs) h =
    Returns-bind (jdns_rr_copy rr) _ (jdns_rr_copy-Returns rr h.0)
      (λ c e. Returns-bind (array_copy rs) _ (array_copy-Returns rs h.1) (λ cs e'. (_, refl)))

jdns_response_copy-Returns : (r : Response) → IsReadable r → Returns (jdns_response_copy r)
unfolding jdns_response_copy
jdns_response_copy-Returns r h =
    Returns-bind (array_copy r.answer_records) _
      (array_copy-Returns r.answer_records h.whole_answers)
      (λ answers e.
        Returns-bind (array_copy r.authority_records) _
          (array_copy-Returns r.authority_records h.whole_authority)
          (λ authority e'.
            Returns-bind (array_copy r.additional_records) _
              (array_copy-Returns r.additional_records h.whole_additional)
              (λ additional e''. (_, refl))))

pub report_copies-Returns :
    (r : Response) (ids : List ℕ) → IsReadable r → Returns (report_copies r ids)
unfolding report_copies
report_copies-Returns r [] h = ([], refl)
report_copies-Returns r (id ∷ ids) h =
    Returns-bind (jdns_response_copy r) _ (jdns_response_copy-Returns r h) (λ c e.
      Returns-bind (report_copies r ids) _ (report_copies-Returns r ids h) (λ es e'. (_, refl)))
