-- ===== src/Gateway/Shadows.antt =====
-- dataplane/internal/gateway/pipeline.go: what ShadowCall sends.
use model_gateway.Common.{
  ℕ, String, String_comparable, ◌≡◌, refl, sym, subst, ap, ◌∙◌, List, [], ◌∷◌, ◌++◌, some, arith,
  append_move,
}
use model_gateway.Core.Errors.{ok}
use model_gateway.Core.Catalog.{Deployment}
use model_gateway.Common.Int.{pos}
use model_gateway.Gateway.{
  Answered, responded, failed, Event, sent, used, Gate, Services, noted, UsageEvent,
}
use model_gateway.Gateway.Protect.{strategy_for, protect}
use model_gateway.Gateway.Reporting.{no_usage}
use model_gateway.Gateway.Shadowing.{
  ShadowRequest, shadow_principal, shadowed, shadow_event, tally, send_shadow, call_with,
  shadow_call,
}
use model_gateway.Pii.{Bytes}
use model_gateway.Pii.Transform.{no_strategy}
use model_gateway.Policy.{Netip}

-- Data without a class is not masked, for any destination.
strategy_for-unclassified : (tier : ℕ) → strategy_for "" tier ≡ no_strategy
unfolding strategy_for
strategy_for-unclassified tier = ground arith

-- A call whose body is the one that was mirrored, and its usage record, which charges nobody.
pub data SentBare (d : Deployment) (body : Bytes) (before after : List Event) : Type 0 where
  sent_bare :
      (u : UsageEvent)
      → after ≡ before ++ sent d body ∷ used u ∷ []
      → u.shadow ≡ some d.id
      → u.price ≡ pos 0
      → SentBare d body before after

module _ {F W : Type 0} {net : Netip} (s : Services net W) where
  protect-shadow :
      (d : Deployment) (q : ShadowRequest net) (g : Gate F W)
      → protect s (shadow_principal q) (shadowed q) d g ≡ (g, ok (q.body, []))
  unfolding protect
  protect-shadow d q g = rw strategy_for-unclassified refl

  tally-SentBare :
      (d : Deployment) (q : ShadowRequest net) (g : Gate F W) (answer : Answered)
      (before : List Event)
      → g.log ≡ before ++ sent d q.body ∷ []
      → SentBare d q.body before (tally s d q g answer).0.log
  unfolding tally shadow_event
  tally-SentBare d q g (responded response error) before h =
      let u = shadow_event d q response.usage error in
      sent_bare u (ap (λ l. l ++ used u ∷ []) h ∙ append_move before (sent d q.body) (used u ∷ []))
        refl refl
  tally-SentBare d q g (failed e) before h =
      let u = shadow_event d q no_usage (some e) in
      sent_bare u (ap (λ l. l ++ used u ∷ []) h ∙ append_move before (sent d q.body) (used u ∷ []))
        refl refl

  call_with-SentBare :
      (d : Deployment) (q : ShadowRequest net) (g : Gate F W) (credential : String)
      → SentBare d q.body g.log (call_with s d q g (ok credential)).0.log
  unfolding call_with send_shadow
  call_with-SentBare d q g credential =
      let answer = s.invoke g.world d q.meta q.body credential in
      subst (λ x. SentBare d q.body g.log (send_shadow s d q credential x).0.log)
        (sym (protect-shadow d q g))
        (tally-SentBare d q (noted g answer.0 (sent d q.body)) answer.1 g.log refl)

  -- Where the provider is registered and the credential resolves, ShadowCall sends the mirrored body
  -- as it is to the shadowing deployment, whatever its tier and whatever class of data the tenant's
  -- policy or key gives the request, and emits one usage record that is marked with the deployment and
  -- has price 0.
  pub shadow_call-SentBare :
      (d : Deployment) (q : ShadowRequest net) (g : Gate F W) (endpoints : List String)
      (credential : String)
      → s.providers d.provider ≡ some endpoints
      → (s.resolve g.world d.credential_ref).1 ≡ ok credential
      → SentBare d q.body g.log (shadow_call s d q g).0.log
  unfolding shadow_call call_with
  shadow_call-SentBare d q g endpoints credential a b =
      simp (a, shadow_call)
        (simp b (
          call_with-SentBare d q (record g { world = (s.resolve g.world d.credential_ref).0 })
            credential))
