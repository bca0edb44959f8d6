-- ===== src/Dns/Session/Responses/Answers.antt =====
-- The events that report a response: one for each request.
use ambrosia.Prelude.{
  ℕ, ◌≡◌, refl, sym, ◌∙◌, subst, Bool, Option, none, some, List, [], ◌∷◌, ◌++◌, append-nil,
  append_assoc, if◌then◌else◌,
}
use ambrosia.Dns.Memory.{Outcome, done, error, fault, stuck}
use ambrosia.Dns.Util.Response.{Response, jdns_response_copy}
use ambrosia.Dns.Session.{
  Session, Query, Event, Status, event_response, event_shutdown, status_error, status_nxdomain,
  report, append_events, query_at,
}
use ambrosia.Dns.Session.Responses.{
  report_copies, tell_parent, report_error, report_nxdomain, finish,
}
use ambrosia.Dns.Session.Kept.{Gives, Gives-bind, Gives-any, Gives-given}

-- One response for each request, in their order.
abbrev pub Answers : List ℕ → List Event → Type 0
Answers [] [] = Unit {0}
Answers [] (e ∷ es) = ⊥
Answers (id ∷ ids) [] = ⊥
Answers (id ∷ ids) (event_response to status r ∷ es) = (to ≡ id) × Answers ids es
Answers (id ∷ ids) (event_shutdown ∷ es) = ⊥

pub Answers-append :
    (ids more : List ℕ) (es es' : List Event)
    → Answers ids es
    → Answers more es'
    → Answers (ids ++ more) (es ++ es')
Answers-append [] more [] es' h k = k
Answers-append [] more (e ∷ es) es' h k = absurd h
Answers-append (id ∷ ids) more [] es' h k = absurd h
Answers-append (id ∷ ids) more (event_response to status r ∷ es) es' (same, h) k =
    (same, Answers-append ids more es es' h k)
Answers-append (id ∷ ids) more (event_shutdown ∷ es) es' h k = absurd h

pub report-Answers : (status : Status) (ids : List ℕ) → Answers ids (report status ids)
unfolding report
report-Answers status [] = tt
report-Answers status (id ∷ ids) = (refl, report-Answers status ids)

-- A way to report to a list of requests.
abbrev pub Reports : (List ℕ → Outcome (List Event)) → Type 0
Reports events = (ids : List ℕ) → Gives (Answers ids) (events ids)

pub report_error-Reports : Reports report_error
report_error-Reports ids = report-Answers status_error ids

pub report_nxdomain-Reports : Reports report_nxdomain
report_nxdomain-Reports ids = report-Answers status_nxdomain ids

pub report_copies-Reports : (r : Response) → Reports (report_copies r)
unfolding report_copies
report_copies-Reports r [] = tt
report_copies-Reports r (id ∷ ids) =
    Gives-bind (λ _. Unit {0}) (Answers (id ∷ ids)) (jdns_response_copy r) _ (Gives-any _)
      (λ c h.
        Gives-bind (Answers ids) (Answers (id ∷ ids)) (report_copies r ids) _
          (report_copies-Reports r ids) (λ es k. (refl, k)))

-- The requests of a query, through a pointer that may be null.
abbrev pub ids_at : Outcome Query → List ℕ
ids_at (done q) = q.req_ids
ids_at error = []
ids_at fault = []
ids_at stuck = []

abbrev pub parent_ids : Session → Option ℕ → List ℕ
parent_ids s none = []
parent_ids s (some parent) = ids_at (query_at parent s.queries)

-- The events that are new: one for each of `ids`.
abbrev pub Tells : Session → List ℕ → Session → Type 0
Tells s ids t = (es : List Event) × (t.events ≡ s.events ++ es) × Answers ids es

pub tell_parent-Tells :
    (events : List ℕ → Outcome (List Event)) (parent : Option ℕ) (s : Session)
    → Reports events
    → Gives (Tells s (parent_ids s parent)) (tell_parent events parent s)
unfolding tell_parent
tell_parent-Tells events none s h = ([], sym (append-nil s.events), tt)
tell_parent-Tells events (some parent) s h =
    Gives-bind (λ cq. query_at parent s.queries ≡ done cq) (Tells s (parent_ids s (some parent)))
      (query_at parent s.queries) _ (Gives-given _)
      (λ cq e.
        Gives-bind (Answers cq.req_ids) (Tells s (parent_ids s (some parent))) (events cq.req_ids) _
          (h cq.req_ids) (λ es k. (es, refl, subst (λ o. Answers (ids_at o) es) (sym e) k)))

-- The requests that are told where the query ends.
abbrev pub told_ids : Session → Query → List ℕ
told_ids s q = q.req_ids ++ parent_ids s q.cname_parent

abbrev pub TellsIf : Session → List ℕ → Bool × Session → Type 0
TellsIf s ids (ends, t) = Tells s (if ends then ids else []) t

pub finish-Tells :
    (own others : List ℕ → Outcome (List Event)) (s : Session) (q : Query)
    → Reports own
    → Reports others
    → Gives (TellsIf s (told_ids s q)) (finish own others s q)
unfolding finish
finish-Tells own others s q h k =
    Gives-bind (Answers q.req_ids) (TellsIf s (told_ids s q)) (own q.req_ids) _ (h q.req_ids)
      (λ es a.
        Gives-bind (Tells (append_events s es) (parent_ids s q.cname_parent))
          (TellsIf s (told_ids s q)) (tell_parent others q.cname_parent (append_events s es)) _
          (tell_parent-Tells others q.cname_parent (append_events s es) k)
          (λ t (es', e, a'). (
            es ++ es',
            e ∙ append_assoc s.events es es',
            Answers-append q.req_ids (parent_ids s q.cname_parent) es es' a a',
          )))
