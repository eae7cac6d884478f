-- ===== src/Gateway/Ledger.antt =====
-- dataplane/internal/gateway/pipeline.go: the part of the log that is slots taken and given back, and
-- usage records; and what each stage adds to it.
use model_gateway.Common.{
  ℕ, ◌≡◌, refl, subst, ap, ◌∙◌, inl, inr, Bool, true, false, ◌&&◌, List, [], ◌∷◌, ◌++◌, Option,
  is_some, eqb, filter, filter-append, Bool-cases, Option-cases, All, ◌==◌, String,
  String_comparable, Map, append_nil,
}
use model_gateway.Core.Errors.{Error, Result, ok, err, Result-cases}
use model_gateway.Core.Catalog.{Deployment}
use model_gateway.Core.Guardrail.{phase_request}
use model_gateway.Core.Identity.{Principal, is_empty, permits}
use model_gateway.Core.Snapshot.{Snapshot}
use model_gateway.Core.Snapshot.Lookups
use model_gateway.Gateway.{
  RequestMeta, Request, Event, admitted, released, sent, stored, forgot, used, audited, Gate,
  Services, Readings,
}
use model_gateway.Gateway.Handling.{Sending, attempt_with, attempt, adapt, after_attempts, forget}
use model_gateway.Gateway.Protect.{strategy_for, inspect_deep, kept, masked, protect}
use model_gateway.Gateway.Reporting.{Answer, usage_event, auditable, emit_audit, emit}
use model_gateway.Gateway.Stages.{
  policy_input, decided, apply_policy, limited, affordable, admit, guard,
}
use model_gateway.Pii.{Bytes, Match}
use model_gateway.Pii.Transform.{Strategy, is_none, is_tokenize, Transformed, transform_matches}
use model_gateway.Policy.{Netip, Decision, evaluate}
use model_gateway.Router.Execution.Worlds.{execute_keeps}
use model_gateway.Router.Floats.{Floats}
use model_gateway.Router.Selection.{Candidate}

abbrev pub kept_on_ledger : Event → Bool
kept_on_ledger (admitted p) = true
kept_on_ledger (released p) = true
kept_on_ledger (used u) = true
kept_on_ledger _ = false

-- The admissions, releases and usage records of a log, in order.
unfoldable pub ledger : List Event → List Event
ledger log = filter kept_on_ledger log

pub ledger-append : (log more : List Event) → ledger (log ++ more) ≡ ledger log ++ ledger more
unfolding ledger
ledger-append log more = filter-append kept_on_ledger log more

-- An event that is not on the ledger.
pub ledger-skip :
    (log : List Event) (e : Event) → kept_on_ledger e ≡ false → ledger (log ++ e ∷ []) ≡ ledger log
unfolding ledger
ledger-skip log e h =
    let none_kept : filter kept_on_ledger (e ∷ []) ≡ [] = rw h refl in
    filter-append kept_on_ledger log (e ∷ [])
    ∙ ap (λ l. filter kept_on_ledger log ++ l) none_kept
    ∙ append_nil (filter kept_on_ledger log)

All_true : {A : Type 0} (xs : List A) → All (λ x. Unit {0}) xs
All_true [] = tt
All_true (x ∷ xs) = (tt, All_true xs)

-- Admission takes one slot, where it succeeds, of the principal that it returns with the request.
pub data Admits {net : Netip} (id : String) (before after : List Event)
    (result : Result (Principal × Request net)) : Type 0 where
  granted :
      (p : Principal) (req : Request net)
      → result ≡ ok (p, req)
      → req.meta.request_id ≡ id
      → after ≡ before ++ admitted p ∷ []
      → Admits id before after result
  denied : (e : Error) → result ≡ err e → after ≡ before → Admits id before after result

-- A result that holds, if any, the request with an id.
abbrev Keeps : {net : Netip} → String → Result (Principal × Request net) → Type 0
Keeps id (err e) = Unit
Keeps id (ok (p, req)) = req.meta.request_id ≡ id

decided-Keeps :
    {W : Type 0} {net : Netip} (s : Services net W) (snap : Snapshot) (p : Principal)
    (req : Request net) (d : Decision)
    → Keeps req.meta.request_id (decided s snap p req d)
unfolding decided
decided-Keeps s snap p req d = elim (Bool-cases d.allowed) [
  | inl q ↦ simp q refl
  | inr q ↦ simp q tt
]

module _ {F W : Type 0} {net : Netip} (s : Services net W) where
  pub inspect_deep-log :
      (asked : Bool) (g : Gate F W) (body : Bytes) → (inspect_deep s asked g body).0.log ≡ g.log
  unfolding inspect_deep
  inspect_deep-log false g body = refl
  inspect_deep-log true g body = elim (Option-cases s.deep) [
    | inl e ↦ simp (e, inspect_deep) refl
    | inr (ner, e) ↦ simp (e, inspect_deep) refl
  ]

  kept-ledger :
      (p : Principal) (req : Request net) (g : Gate F W) (how : Strategy) (t : Transformed)
      → ledger (kept s p req g how t).0.log ≡ ledger g.log
  unfolding kept
  kept-ledger p req g how t = elim (Bool-cases (is_tokenize how)) [
    | inr q ↦ rw q refl
    | inl q ↦ rw q (elim (Option-cases s.vault) [
      | inl e ↦ simp e refl
      | inr (vault, e) ↦
          elim (Option-cases (vault.put g.world p.tenant req.meta.request_id t.replacements).1) [
            | inl z ↦ simp e (simp z (ledger-skip g.log (stored t.replacements) refl))
            | inr (f, z) ↦ simp e (simp z refl)
          ]
    ])
  ]

  masked-ledger :
      (p : Principal) (req : Request net) (g : Gate F W) (how : Strategy) (matches : List Match)
      (failure : Option Error)
      → ledger (masked s p req g how matches failure).0.log ≡ ledger g.log
  unfolding masked
  masked-ledger p req g how matches failure =
      let t = transform_matches s.hashed req.body matches how in
      elim (Bool-cases (is_some failure && is_tokenize how)) [
        | inl q ↦ rw q refl
        | inr q ↦ elim (Bool-cases (eqb t.count 0)) [
          | inl z ↦ rw (q, z) refl
          | inr z ↦ rw (q, z) (kept-ledger p req g how t)
        ]
      ]

  pub protect-ledger :
      (p : Principal) (req : Request net) (d : Deployment) (g : Gate F W)
      → ledger (protect s p req d g).0.log ≡ ledger g.log
  unfolding protect
  protect-ledger p req d g =
      let how = strategy_for p.default_class d.trust_tier in
      elim (Bool-cases (is_none how)) [
        | inl q ↦ rw q refl
        | inr q ↦ rw q (
            masked-ledger p req _ how _ _
            ∙ ap ledger (inspect_deep-log req.deep_inspection g req.body))
      ]

  apply_policy-Keeps :
      (snap : Snapshot) (p : Principal) (req : Request net) (g : Gate F W)
      → Keeps req.meta.request_id (apply_policy s snap p req g).1
  unfolding apply_policy
  apply_policy-Keeps snap p req g = elim (Bool-cases (is_empty (Lookups.policy snap p.tenant))) [
    | inl q ↦ rw q refl
    | inr q ↦
        elim (Result-cases
          (s.policy_for g.world p.tenant (Lookups.global_version snap).digest
            (Lookups.policy snap p.tenant)).1) [
              | inl (e, z) ↦ rw q (simp z tt)
              | inr (b, z) ↦
                  rw q (
                    simp z
                      (decided-Keeps s snap p req (evaluate net b (policy_input s snap p req))))
            ]
  ]

  apply_policy-log :
      (snap : Snapshot) (p : Principal) (req : Request net) (g : Gate F W)
      → (apply_policy s snap p req g).0.log ≡ g.log
  unfolding apply_policy
  apply_policy-log snap p req g = elim (Bool-cases (is_empty (Lookups.policy snap p.tenant))) [
    | inl q ↦ rw q refl
    | inr q ↦
        elim (Result-cases
          (s.policy_for g.world p.tenant (Lookups.global_version snap).digest
            (Lookups.policy snap p.tenant)).1) [
              | inl (e, z) ↦ rw q (simp z refl)
              | inr (b, z) ↦ rw q (simp z refl)
            ]
  ]

  limited-Admits :
      (snap : Snapshot) (p : Principal) (req : Request net) (g : Gate F W)
      → Admits req.meta.request_id
          (ledger g.log)
          (ledger (limited s snap (p, req) g).0.log)
          (limited s snap (p, req) g).1
  unfolding limited ledger
  limited-Admits snap p req g = elim (Bool-cases (s.admit g.world p).1.allowed) [
    | inl q ↦ simp q (granted p req refl refl (ledger-append g.log (admitted p ∷ [])))
    | inr q ↦ simp q (denied _ refl refl)
  ]

  affordable-Admits :
      (snap : Snapshot) (asked : Gate F W × Result (Principal × Request net)) (id : String)
      (before : List Event)
      → Keeps id asked.1
      → asked.0.log ≡ before
      → Admits id
          (ledger before)
          (ledger (affordable s snap asked).0.log)
          (affordable s snap asked).1
  unfolding affordable
  affordable-Admits snap (g, err e) id before k h = denied e refl (ap ledger h)
  affordable-Admits snap (g, ok (p, req)) id before k h =
      elim (Option-cases (Lookups.denied_budget snap p)) [
        | inr (b, q) ↦ rw (q, affordable) (denied _ refl (ap ledger h))
        | inl q ↦
            rw (q, affordable)
              (subst
                (λ l.
                  Admits id (ledger l) (ledger (limited s snap (p, req) g).0.log)
                    (limited s snap (p, req) g).1)
                h
                (subst
                  (λ i.
                    Admits i (ledger g.log) (ledger (limited s snap (p, req) g).0.log)
                      (limited s snap (p, req) g).1)
                  k (limited-Admits snap p req g)))
      ]

  pub admit-Admits :
      (snap : Snapshot) (p : Principal) (req : Request net) (g : Gate F W)
      → Admits req.meta.request_id
          (ledger g.log)
          (ledger (admit s snap p req g).0.log)
          (admit s snap p req g).1
  unfolding admit
  admit-Admits snap p req g = elim (Bool-cases (permits p.models req.meta.model)) [
    | inr q ↦ rw q (denied _ refl refl)
    | inl q ↦ rw q (
        affordable-Admits snap (apply_policy s snap p req g) req.meta.request_id g.log
          (apply_policy-Keeps snap p req g) (apply_policy-log snap p req g))
  ]

  pub guard-log :
      (snap : Snapshot) (p : Principal) (req : Request net) (g : Gate F W)
      → (guard s snap p req g).0.log ≡ g.log
  unfolding guard
  guard-log snap p req g =
      elim (Bool-cases (is_empty (Lookups.guardrails snap p.tenant phase_request))) [
        | inl q ↦ rw q refl
        | inr q ↦ rw q refl
      ]

  pub forget-ledger :
      (fl : Floats F) (snap : Snapshot) (now : Readings F) (p : Principal) (req : Request net)
      (replacements : Map Bytes Bytes) (g : Gate F W)
      → ledger (forget fl s snap now p req replacements g).log ≡ ledger g.log
  unfolding forget
  forget-ledger fl snap now p req replacements g = elim (Option-cases s.vault) [
    | inl e ↦ simp (e, forget) refl
    | inr (vault, e) ↦ elim (Bool-cases (is_empty replacements)) [
      | inl z ↦ simp (e, forget) (rw z refl)
      | inr z ↦ simp (e, forget) (rw z (ledger-skip g.log (forgot replacements) refl))
    ]
  ]

  module _ {R : Type 0}
      (call : W → Deployment → RequestMeta net → Bytes → String → W × Result R) where
    attempt_with-ledger :
        (p : Principal) (req : Request net) (st : Sending F W) (d : Deployment)
        (credential : Result String)
        → ledger (attempt_with s call p req st d credential).0.gate.log ≡ ledger st.gate.log
    unfolding attempt_with
    attempt_with-ledger p req st d (err e) = refl
    attempt_with-ledger p req st d (ok credential) =
        let same = protect-ledger p req d st.gate in
        elim (Result-cases (protect s p req d st.gate).1) [
          | inl (e, q) ↦ rw (q, attempt_with) same
          | inr ((body, replacements), q) ↦
              rw (q, attempt_with)
                (ledger-skip (protect s p req d st.gate).0.log (sent d body) refl ∙ same)
        ]

    attempt-ledger :
        (p : Principal) (req : Request net) (i : ℕ) (st : Sending F W) (d : Deployment)
        → ledger (attempt s call p req i st d).0.gate.log ≡ ledger st.gate.log
    unfolding attempt
    attempt-ledger p req i st d = attempt_with-ledger p req _ d _

    pub adapt-ledger :
        (fl : Floats F) (now : Readings F) (p : Principal) (req : Request net)
        (cs : List (Candidate F)) (g : Gate F W)
        → ledger (after_attempts (adapt s call fl now p req cs g).0).log ≡ ledger g.log
    unfolding adapt
    adapt-ledger fl now p req cs g =
        execute_keeps fl (attempt s call p req) now.meanwhile
          (λ st. ledger st.gate.log ≡ ledger g.log) (λ d. Unit {0})
          (λ i st d q h. attempt-ledger p req i st d ∙ h) g.router (record { gate = g; out = [] })
          now.turns cs (All_true cs) refl

-- What each exit adds: the usage record.
pub emit-ledger :
    {F W : Type 0} {net : Netip} (snap : Snapshot) (req : Request net) (a : Answer) (d : Deployment)
    (stream : Bool) (redactions : ℕ) (error : Option Error) (g : Gate F W)
    → ledger (emit snap req a d stream redactions error g).log
      ≡ ledger g.log ++ used (usage_event snap req a d stream error) ∷ []
unfolding emit emit_audit ledger
emit-ledger snap req a d stream redactions error g =
    let event = used (usage_event snap req a d stream error) in
    let one = ledger-append g.log (event ∷ []) in
    elim (Bool-cases ((auditable snap req a.principal redactions error).0 == "")) [
      | inl q ↦ rw q one
      | inr q ↦ rw q (ledger-skip (g.log ++ event ∷ []) (audited _) refl ∙ one)
    ]
