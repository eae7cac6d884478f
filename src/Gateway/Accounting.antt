-- ===== src/Gateway/Accounting.antt =====
-- dataplane/internal/gateway/pipeline.go: how Handle accounts for a request.
use model_gateway.Common.{
  ℕ, String, ◌≡◌, refl, sym, subst, ap, ◌∙◌, inl, inr, Bool, true, false, List, [], ◌∷◌, ◌++◌,
  Option, none, some, length, Bool-cases, Map,
}
use model_gateway.Core.Errors.{Error, code_of, Result, ok, err}
use model_gateway.Core.Catalog.{Deployment, total}
use model_gateway.Core.Identity.{Principal}
use model_gateway.Core.Snapshot.{Snapshot}
use model_gateway.Gateway.{
  Request, UsageEvent, Event, admitted, released, counted, used, mirrored, Gate, ProviderResponse,
  Services, Readings,
}
use model_gateway.Gateway.Handling.{
  invoked, Sending, adapt, after_attempts, refuse, forget, complete, settle, dispatch, inspected,
  release_after, enter, begin, handle,
}
use model_gateway.Gateway.Ledger.{
  ledger, ledger-append, ledger-skip, Admits, granted, denied, admit-Admits, guard-log,
  forget-ledger, adapt-ledger, emit-ledger,
}
use model_gateway.Gateway.Reporting.{Answer, no_deployment, usage_event, emit}
use model_gateway.Gateway.Stages.{authenticate, admit, guard, route, wanted}
use model_gateway.Pii.{Bytes}
use model_gateway.Policy.{Netip}
use model_gateway.Router.Execution.{Progress}
use model_gateway.Router.Floats.{Floats}
use model_gateway.Router.Selection.{Candidate}
use model_gateway.Router.Selection.Trusted.{select-nonempty}

-- One usage record of the request, with the code that it ended with.
pub data Reports (id : String) (before after : List Event) (error : Option Error) : Type 0 where
  reports :
      (u : UsageEvent)
      → u.request_id ≡ id
      → u.outcome ≡ code_of error
      → after ≡ before ++ used u ∷ []
      → Reports id before after error

-- What a request adds to the ledger: its usage record, between the slot's admission and release where
-- it was admitted.
pub data Accounted (id : String) (before after : List Event) (error : Option Error) : Type 0 where
  turned_away : Reports id before after error → Accounted id before after error
  carried :
      (p : Principal) (middle : List Event)
      → Reports id (before ++ admitted p ∷ []) middle error
      → after ≡ middle ++ released p ∷ []
      → Accounted id before after error

is_ok : {A : Type 0} → Result A → Bool
is_ok (ok a) = true
is_ok (err e) = false

pub err-not_ok : {A : Type 0} (e : Error) (a : A) → ¬ (err e ≡ ok a)
unfolding is_ok
err-not_ok e a h = let no : false ≡ true = ap is_ok h in cc

-- Parts of an admission's result.
unfoldable pub request_id_or : {net : Netip} → String → Result (Principal × Request net) → String
request_id_or id (err e) = id
request_id_or id (ok (p, req)) = req.meta.request_id

unfoldable pub principal_or :
    {net : Netip} → Principal → Result (Principal × Request net) → Principal
principal_or p (err e) = p
principal_or p (ok (q, req)) = q

module _ {F W : Type 0} {net : Netip} (fl : Floats F) (s : Services net W) (snap : Snapshot)
    (now : Readings F) where
  -- The rest of a stage, from a gate whose ledger is `before`.
  abbrev Done : String → List Event → Gate F W × (Answer × Option Error) → Type 0
  Done id before (g, (a, error)) = Reports id before (ledger g.log) error

  pub emit-Reports :
      (req : Request net) (a : Answer) (d : Deployment) (stream : Bool) (redactions : ℕ)
      (error : Option Error) (g : Gate F W) (before : List Event)
      → ledger g.log ≡ before
      → Reports req.meta.request_id before
          (ledger (emit snap req a d stream redactions error g).log)
          error
  unfolding usage_event
  emit-Reports req a d stream redactions error g before h =
      reports (usage_event snap req a d stream error) refl refl (
        emit-ledger snap req a d stream redactions error g
        ∙ ap (λ l. l ++ used (usage_event snap req a d stream error) ∷ []) h)

  refuse-Reports :
      (req : Request net) (a : Answer) (d : Deployment) (e : Error) (g : Gate F W)
      (before : List Event)
      → ledger g.log ≡ before
      → Done req.meta.request_id before (refuse fl s snap now req a d e g)
  unfolding refuse
  refuse-Reports req a d e g before h = emit-Reports req a d false 0 (some e) g before h

  complete-Reports :
      (p : Principal) (req : Request net) (a : Answer) (replacements : Map Bytes Bytes)
      (d : Deployment) (response : ProviderResponse) (g : Gate F W) (before : List Event)
      → ledger g.log ≡ before
      → Done req.meta.request_id before (complete fl s snap now p req a replacements d response g)
  unfolding complete
  complete-Reports p req a replacements d response g before h =
      let g1 = forget fl s snap now p req replacements g in
      let counting = counted p (total response.usage) in
      let start =
        ledger-skip g1.log counting refl ∙ forget-ledger s fl snap now p req replacements g ∙ h in
      elim (Bool-cases s.mirrors) [
        | inr q ↦ simp q (emit-Reports req _ d false (length replacements) none _ before start)
        | inl q ↦ simp q (
            subst (λ l. Reports req.meta.request_id before l none)
              (sym (ledger-skip _ (mirrored d req.body) refl))
              (emit-Reports req _ d false (length replacements) none _ before start))
      ]

  settle-Reports :
      (p : Principal) (req : Request net) (a : Answer) (d : Deployment)
      (run : Progress F (Sending F W) × Result (Deployment × ProviderResponse))
      (before : List Event)
      → ledger (after_attempts run.0).log ≡ before
      → Done req.meta.request_id before (settle fl s snap now p req a d run)
  unfolding settle
  settle-Reports p req a d (run, err e) before h = refuse-Reports req _ d e _ before h
  settle-Reports p req a d (run, ok (served, response)) before h =
      complete-Reports p req _ run.world.out served response _ before h

  dispatch-Reports :
      (p : Principal) (req : Request net) (a : Answer)
      (chosen : Gate F W × Result (List (Candidate F))) (before : List Event)
      → ¬ (chosen.1 ≡ ok [])
      → ledger chosen.0.log ≡ before
      → Done req.meta.request_id before (dispatch fl s snap now p req a chosen)
  unfolding dispatch
  dispatch-Reports p req a (g, err e) before n h = refuse-Reports req _ no_deployment e g before h
  dispatch-Reports p req a (g, ok []) before n h = elim (n refl) [ ]
  dispatch-Reports p req a (g, ok (c ∷ cs)) before n h =
      settle-Reports p req _ c.deployment (adapt s (invoked s) fl now p req (c ∷ cs) g) before
        (adapt-ledger s (invoked s) fl now p req (c ∷ cs) g ∙ h)

  inspected-Reports :
      (p : Principal) (req : Request net) (a : Answer) (passed : Gate F W × Result Bytes)
      (before : List Event)
      → ledger passed.0.log ≡ before
      → Done req.meta.request_id before (inspected fl s snap now p req a passed)
  unfolding inspected route
  inspected-Reports p req a (g, err e) before h = refuse-Reports req _ no_deployment e g before h
  inspected-Reports p req a (g, ok body) before h =
      dispatch-Reports p (record req { body = body }) _
        (route s snap fl now p (record req { body = body }) g) before
        (select-nonempty fl g.router s.providers now.clock now.draw
          (wanted s snap p (record req { body = body })))
        h

  release_after-Accounted :
      (id : String) (p : Principal) (before : List Event) (out : Gate F W × (Answer × Option Error))
      → Done id (before ++ admitted p ∷ []) out
      → Accounted id before
          (ledger (release_after fl s snap now p out).0.log)
          (release_after fl s snap now p out).1.1
  unfolding release_after ledger
  release_after-Accounted id p before (g, (a, error)) h =
      carried p (ledger g.log) h (ledger-append g.log (released p ∷ []))

  enter-Accounted :
      (req : Request net) (a : Answer) (asked : Gate F W × Result (Principal × Request net))
      (before : List Event)
      → Admits req.meta.request_id before (ledger asked.0.log) asked.1
      → Accounted req.meta.request_id before
          (ledger (enter fl s snap now req a asked).0.log)
          (enter fl s snap now req a asked).1.1
  unfolding enter request_id_or principal_or
  enter-Accounted req a (g, err e) before (denied f q same) =
      turned_away (refuse-Reports req _ no_deployment e g before same)
  enter-Accounted req a (g, err e) before (granted p r q i more) = elim (err-not_ok e (p, r) q) [ ]
  enter-Accounted req a (g, ok (p, r)) before (denied f q same) =
      elim (err-not_ok f (p, r) (sym q)) [ ]
  enter-Accounted req a (g, ok (p, req')) before (granted p' r q i more) =
      let same : req'.meta.request_id ≡ req.meta.request_id = ap (request_id_or "") q ∙ i in
      let who : p' ≡ p = ap (principal_or p) (sym q) in
      let start = guard-log s snap p req' g in
      subst
        (λ id.
          Accounted id before (ledger (enter fl s snap now req a (g, ok (p, req'))).0.log)
            (enter fl s snap now req a (g, ok (p, req'))).1.1)
        same
        (release_after-Accounted req'.meta.request_id p before _ (
          inspected-Reports p req' _ (guard s snap p req' g) (before ++ admitted p ∷ [])
            (ap ledger start ∙ more ∙ ap (λ x. before ++ admitted x ∷ []) who)))

  begin-Accounted :
      (req : Request net) (g : Gate F W) (who : Result Principal)
      → Accounted req.meta.request_id
          (ledger g.log)
          (ledger (begin fl s snap now req g who).0.log)
          (begin fl s snap now req g who).1.1
  unfolding begin
  begin-Accounted req g (err e) =
      turned_away (refuse-Reports req _ no_deployment e g (ledger g.log) refl)
  begin-Accounted req g (ok p) =
      enter-Accounted req _ (admit s snap p req g) (ledger g.log) (admit-Admits s snap p req g)

  -- On every exit, Handle gives telemetry one usage record of the request, with the code that the
  -- request ended with; and where the limiter admitted the request, it gives that principal's slot
  -- back once, after that record, and takes and gives back no other.
  pub handle-Accounted :
      (req : Request net) (g : Gate F W)
      → Accounted req.meta.request_id
          (ledger g.log)
          (ledger (handle fl s snap now req g).0.log)
          (handle fl s snap now req g).1.1
  unfolding handle
  handle-Accounted req g = begin-Accounted req g (authenticate s snap now.now req)
