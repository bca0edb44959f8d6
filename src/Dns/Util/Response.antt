-- ===== src/Dns/Util/Response.antt =====
-- `jdns_response_t` of iris/irisnet/jdns/jdns_util.c. The arrays are lists.
use ambrosia.Prelude.{ℕ, suc, List, [], ◌∷◌, ◌++◌, length, take, drop, leb, if◌then◌else◌}
use ambrosia.Dns.Memory.{Outcome, done, fault, ◌>>=◌}
use ambrosia.Dns.Util.Record.{Rr, jdns_rr_copy}

pub record Response : Type 0 where
  pub answer_records : List Rr
  pub authority_records : List Rr
  pub additional_records : List Rr

abbrev pub jdns_response_new : Response
jdns_response_new = record { answer_records = []; authority_records = []; additional_records = [] }

-- `ARRAY_COPY` of records.
unfoldable pub array_copy : List Rr → Outcome (List Rr)
array_copy [] = done []
array_copy (r ∷ rest) = do c ← jdns_rr_copy r; cs ← array_copy rest; done (c ∷ cs)

unfoldable pub jdns_response_copy : Response → Outcome Response
jdns_response_copy r = do
  answers ← array_copy r.answer_records
  authority ← array_copy r.authority_records
  additional ← array_copy r.additional_records
  done (record {
    answer_records = answers;
    authority_records = authority;
    additional_records = additional;
  })

unfoldable pub append_answer : Response → Rr → Outcome Response
append_answer r rr = do
  c ← jdns_rr_copy rr
  done (record {
    answer_records = r.answer_records ++ (c ∷ []);
    authority_records = r.authority_records;
    additional_records = r.additional_records;
  })

unfoldable pub append_authority : Response → Rr → Outcome Response
append_authority r rr = do
  c ← jdns_rr_copy rr
  done (record {
    answer_records = r.answer_records;
    authority_records = r.authority_records ++ (c ∷ []);
    additional_records = r.additional_records;
  })

unfoldable pub append_additional : Response → Rr → Outcome Response
append_additional r rr = do
  c ← jdns_rr_copy rr
  done (record {
    answer_records = r.answer_records;
    authority_records = r.authority_records;
    additional_records = r.additional_records ++ (c ∷ []);
  })

unfoldable pub remove_extra : Response → Response
remove_extra r = record {
  answer_records = r.answer_records;
  authority_records = [];
  additional_records = [];
}

-- There is no test of `pos`.
unfoldable pub remove_answer : Response → ℕ → Outcome Response
remove_answer r pos =
    if leb (length r.answer_records) pos
    then fault
    else done (record {
      answer_records = take pos r.answer_records ++ drop (suc pos) r.answer_records;
      authority_records = r.authority_records;
      additional_records = r.additional_records;
    })
