-- ===== src/Gateway/Streams.antt =====
-- dataplane/internal/gateway/pipeline.go: how HandleStream and Finish account for a request.
use model_gateway.Common.{
  String, ◌≡◌, refl, sym, subst, ap, ◌∙◌, true, false, List, [], ◌∷◌, ◌++◌, Option, none, some,
}
use model_gateway.Core.Errors.{Error, Result, ok, err}
use model_gateway.Core.Catalog.{Deployment, TokenUsage, total}
use model_gateway.Core.Identity.{Principal}
use model_gateway.Core.Snapshot.{Snapshot}
use model_gateway.Gateway.{
  RequestMeta, Request, StageTiming, Event, admitted, released, counted, Gate, Services, Readings,
}
use model_gateway.Gateway.Accounting.{
  Reports, emit-Reports, err-not_ok, request_id_or, principal_or,
}
use model_gateway.Gateway.Handling.{Sending, adapt, after_attempts, forget}
use model_gateway.Gateway.Ledger.{
  ledger, ledger-append, ledger-skip, Admits, granted, denied, admit-Admits, guard-log,
  forget-ledger, adapt-ledger,
}
use model_gateway.Gateway.Reporting.{no_deployment, unanswered}
use model_gateway.Gateway.Stages.{authenticate, admit, guard, route}
use model_gateway.Gateway.Streaming.{
  Started, StreamResult, unstarted, fail_stream, open_stream, dispatch_stream, inspected_stream,
  enter_stream, begin_stream, handle_stream, last_tried, account, wind_up, finish,
}
use model_gateway.Pii.{Bytes}
use model_gateway.Policy.{Netip}
use model_gateway.Router.Execution.{Progress}
use model_gateway.Router.Floats.{Floats}
use model_gateway.Router.Selection.{Candidate}

-- How HandleStream leaves the ledger. A request that fails after its admission reports its usage, and
-- its slot stays taken; a stream that starts reports nothing yet, and its result holds the slot.
pub data Opened {net : Netip} {S : Type 0} (id : String) (before after : List Event)
    (r : StreamResult net S) (error : Option Error) : Type 0 where
  turned_away :
      (e : Error)
      → error ≡ some e
      → Reports id before after error
      → r.holds ≡ none
      → r.started ≡ none
      → Opened id before after r error
  stranded :
      (p : Principal) (e : Error)
      → error ≡ some e
      → Reports id (before ++ admitted p ∷ []) after error
      → r.started ≡ none
      → Opened id before after r error
  opened :
      (p : Principal) (req : Request net) (t : Started S)
      → error ≡ none
      → after ≡ before ++ admitted p ∷ []
      → r.holds ≡ some (p, req)
      → req.meta.request_id ≡ id
      → r.started ≡ some t
      → r.finished ≡ false
      → Opened id before after r error

module _ {F W S : Type 0} {net : Netip} (fl : Floats F) (s : Services net W) (snap : Snapshot)
    (now : Readings F)
    (connect : W → Deployment → RequestMeta net → Bytes → String → W × Result S) where
  fail_stream-Reports :
      (req : Request net) (r : StreamResult net S) (stages : List StageTiming) (e : Error)
      (g : Gate F W) (before : List Event)
      → ledger g.log ≡ before
      → Reports req.meta.request_id before
          (ledger (fail_stream fl s snap now connect req r stages e g).0.log)
          (some e)
  unfolding fail_stream
  fail_stream-Reports req r stages e g before h =
      emit-Reports fl s snap now req _ no_deployment true 0 (some e) g before h

  -- From the guardrails on, where `before` has the slot taken.
  abbrev Settled :
      Principal → Request net → List Event → Gate F W × (StreamResult net S × Option Error) → Type 0
  Settled p req before (g, (r, error)) = Opened req.meta.request_id before (ledger g.log) r error

  open_stream-Settled :
      (p : Principal) (req : Request net) (r : StreamResult net S) (stages : List StageTiming)
      (run : Progress F (Sending F W) × Result (Deployment × S)) (before : List Event)
      → ledger (after_attempts run.0).log ≡ before ++ admitted p ∷ []
      → r.finished ≡ false
      → r.started ≡ none
      → (held : Request net) → held.meta.request_id ≡ req.meta.request_id
      → r.holds ≡ some (p, held)
      → Settled p req before (open_stream fl s snap now connect p req r stages run)
  unfolding open_stream fail_stream
  open_stream-Settled p req r stages (run, err e) before h f w held i k =
      stranded p e refl
        (fail_stream-Reports req (record r { deployment = last_tried r.deployment run.attempts }) _
          e (after_attempts run) (before ++ admitted p ∷ []) h)
        w
  open_stream-Settled p req r stages (run, ok (d, chunks)) before h f w held i k =
      opened p held _ refl h k i refl f

  dispatch_stream-Settled :
      (p : Principal) (req : Request net) (r : StreamResult net S) (stages : List StageTiming)
      (chosen : Gate F W × Result (List (Candidate F))) (before : List Event)
      → ledger chosen.0.log ≡ before ++ admitted p ∷ []
      → r.finished ≡ false
      → r.started ≡ none
      → (held : Request net) → held.meta.request_id ≡ req.meta.request_id
      → r.holds ≡ some (p, held)
      → Settled p req before (dispatch_stream fl s snap now connect p req r stages chosen)
  unfolding dispatch_stream fail_stream
  dispatch_stream-Settled p req r stages (g, err e) before h f w held i k =
      stranded p e refl (fail_stream-Reports req r _ e g (before ++ admitted p ∷ []) h) w
  dispatch_stream-Settled p req r stages (g, ok cs) before h f w held i k =
      open_stream-Settled p req r _ (adapt s connect fl now p req cs g) before
        (adapt-ledger s connect fl now p req cs g ∙ h) f w held i k

  inspected_stream-Settled :
      (p : Principal) (req : Request net) (r : StreamResult net S) (stages : List StageTiming)
      (passed : Gate F W × Result Bytes) (before : List Event)
      → ledger passed.0.log ≡ before ++ admitted p ∷ []
      → r.finished ≡ false
      → r.started ≡ none
      → r.holds ≡ some (p, req)
      → Settled p req before (inspected_stream fl s snap now connect p req r stages passed)
  unfolding inspected_stream fail_stream route
  inspected_stream-Settled p req r stages (g, err e) before h f w k =
      stranded p e refl (fail_stream-Reports req r _ e g (before ++ admitted p ∷ []) h) w
  inspected_stream-Settled p req r stages (g, ok body) before h f w k =
      dispatch_stream-Settled p (record req { body = body }) r _
        (route s snap fl now p (record req { body = body }) g) before h f w req refl k

  enter_stream-Settled :
      (req : Request net) (r : StreamResult net S) (stages : List StageTiming)
      (asked : Gate F W × Result (Principal × Request net)) (before : List Event)
      → Admits req.meta.request_id before (ledger asked.0.log) asked.1
      → r.finished ≡ false
      → r.started ≡ none
      → r.holds ≡ none
      → let out = enter_stream fl s snap now connect req r stages asked in
        Opened req.meta.request_id before (ledger out.0.log) out.1.0 out.1.1
  unfolding enter_stream fail_stream request_id_or principal_or
  enter_stream-Settled req r stages (g, err e) before (denied f q same) n w k =
      turned_away e refl (fail_stream-Reports req r _ e g before same) k w
  enter_stream-Settled req r stages (g, err e) before (granted p x q i more) n w k =
      elim (err-not_ok e (p, x) q) [ ]
  enter_stream-Settled req r stages (g, ok (p, x)) before (denied f q same) n w k =
      elim (err-not_ok f (p, x) (sym q)) [ ]
  enter_stream-Settled req r stages (g, ok (p, req')) before (granted p' x q i more) n w k =
      let same : req'.meta.request_id ≡ req.meta.request_id = ap (request_id_or "") q ∙ i in
      let who : p' ≡ p = ap (principal_or p) (sym q) in
      let out = enter_stream fl s snap now connect req r stages (g, ok (p, req')) in
      subst (λ id. Opened id before (ledger out.0.log) out.1.0 out.1.1) same
        (inspected_stream-Settled p req' _ _ (guard s snap p req' g) before
          (ap ledger (guard-log s snap p req' g) ∙ more ∙ ap (λ y. before ++ admitted y ∷ []) who) n
          w refl)

  begin_stream-Settled :
      (req : Request net) (g : Gate F W) (who : Result Principal)
      → let out = begin_stream fl s snap now connect req g who in
        Opened req.meta.request_id (ledger g.log) (ledger out.0.log) out.1.0 out.1.1
  unfolding begin_stream fail_stream
  begin_stream-Settled req g (err e) =
      turned_away e refl
        (fail_stream-Reports req (unstarted unanswered.principal) _ e g (ledger g.log) refl) refl
        refl
  begin_stream-Settled req g (ok p) =
      enter_stream-Settled req (unstarted p) _ (admit s snap p req g) (ledger g.log)
        (admit-Admits s snap p req g) refl refl refl

  -- HandleStream either returns an error before the limiter admits the request, and gives one usage
  -- record with that error's code; or returns one after that, gives one such record, and leaves the
  -- slot taken; or returns no error and a started stream, gives no record yet, and its result holds the
  -- principal whose slot is taken. With an error it starts no stream.
  pub handle_stream-Opened :
      (req : Request net) (g : Gate F W)
      → let out = handle_stream fl s snap now connect req g in
        Opened req.meta.request_id (ledger g.log) (ledger out.0.log) out.1.0 out.1.1
  unfolding handle_stream
  handle_stream-Opened req g = begin_stream-Settled req g (authenticate s snap now.now req)

  account-Reports :
      (p : Principal) (req : Request net) (r : StreamResult net S) (usage : TokenUsage)
      (error : Option Error) (t : Started S) (g : Gate F W) (before : List Event)
      → ledger g.log ≡ before
      → Reports req.meta.request_id before
          (ledger (account fl s snap now connect p req r usage error (some t) g).log)
          error
  unfolding account
  account-Reports p req r usage error t g before h =
      emit-Reports fl s snap now req _ t.served true t.redactions error _ before
        (ledger-skip g.log (counted p (total usage)) refl ∙ h)

  wind_up-Reports :
      (r : StreamResult net S) (usage : TokenUsage) (error : Option Error) (g : Gate F W)
      (p : Principal) (req : Request net) (t : Started S)
      → r.started ≡ some t
      → Reports req.meta.request_id
          (ledger g.log ++ released p ∷ [])
          (ledger (wind_up fl s snap now connect r usage error (some (p, req)) g).log)
          error
  unfolding wind_up ledger
  wind_up-Reports r usage error g p req t e =
      let g1 = forget fl s snap now p req r.forgets g in
      simp e (
        account-Reports p req r usage error t _ (ledger g.log ++ released p ∷ []) (
          ledger-append g1.log (released p ∷ [])
          ∙ ap (λ l. l ++ released p ∷ []) (forget-ledger s fl snap now p req r.forgets g)))

  -- For a stream that HandleStream has started, the first Finish gives the slot back and then gives
  -- one usage record with the code of the stream's error; a later Finish does nothing.
  pub finish_once :
      (r : StreamResult net S) (usage : TokenUsage) (error : Option Error) (g : Gate F W)
      (p : Principal) (req : Request net) (t : Started S) (again : TokenUsage)
      (other : Option Error) (later : Gate F W)
      → r.holds ≡ some (p, req)
      → r.started ≡ some t
      → r.finished ≡ false
      → let out = finish fl s snap now connect r usage error g in
        Reports req.meta.request_id (ledger g.log ++ released p ∷ []) (ledger out.0.log) error
        × (finish fl s snap now connect out.1 again other later ≡ (later, out.1))
  unfolding finish
  finish_once r usage error g p req t again other later h st n =
      simp (n, h) (wind_up-Reports r usage error g p req t st, refl)

  slot_of :
      (before after : List Event) (id : String) (p : Principal) (req' : Request net)
      (result : Result (Principal × Request net))
      → result ≡ ok (p, req')
      → Admits id before after result
      → after ≡ before ++ admitted p ∷ []
  unfolding principal_or
  slot_of before after id p req' result e (granted x y q i more) =
      more ∙ ap (λ z. before ++ admitted z ∷ []) (ap (principal_or p) (sym q ∙ e))
  slot_of before after id p req' result e (denied f q same) =
      elim (err-not_ok f (p, req') (sym q ∙ e)) [ ]

  refused_stream-Reports :
      (req req' : Request net) (r : StreamResult net S) (stages : List StageTiming) (p : Principal)
      (e : Error) (asked : Gate F W × Result (Principal × Request net)) (before : List Event)
      → asked.1 ≡ ok (p, req')
      → ledger asked.0.log ≡ before
      → (guard s snap p req' asked.0).1 ≡ err e
      → let out = enter_stream fl s snap now connect req r stages asked in
        Reports req'.meta.request_id before (ledger out.0.log) (some e) × (out.1.1 ≡ some e)
  unfolding enter_stream inspected_stream fail_stream
  refused_stream-Reports req req' r stages p e asked before k h refused =
      rw (k, enter_stream)
        (rw (refused, inspected_stream)
          (
            emit-Reports fl s snap now req' _ no_deployment true 0 (some e) _ before
                (ap ledger (guard-log s snap p req' asked.0) ∙ h),
            refl,
          ))

  -- Where the guardrails refuse a request that the limiter has admitted, HandleStream reports it and
  -- fails, and nothing gives the slot back.
  pub handle_stream_strands_slot :
      (req : Request net) (g : Gate F W) (who p : Principal) (req' : Request net) (e : Error)
      → authenticate s snap now.now req ≡ ok who
      → (admit s snap who req g).1 ≡ ok (p, req')
      → (guard s snap p req' (admit s snap who req g).0).1 ≡ err e
      → let out = handle_stream fl s snap now connect req g in
        Reports req'.meta.request_id (ledger g.log ++ admitted p ∷ []) (ledger out.0.log) (some e)
        × (out.1.1 ≡ some e)
  unfolding handle_stream begin_stream
  handle_stream_strands_slot req g who p req' e a b c =
      let start = slot_of _ _ req.meta.request_id p req' _ b (admit-Admits s snap who req g) in
      rw (a, begin_stream)
        (refused_stream-Reports req req' (unstarted who) _ p e (admit s snap who req g) _ b start c)
