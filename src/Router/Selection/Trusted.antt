-- ===== src/Router/Selection/Trusted.antt =====
-- The tier of the candidates that Select returns, for those who send to them.
use mathlib.Core.Bool.{Bool-set}
use mathlib.Core.List.{Perm, Mem, mem-cons_self, mem-cons_of_mem}
use mathlib.Core.List.Perm
use mathlib.Core.Logic.{∥∥₁_elim}
use model_gateway.Common.{
  ℕ, ◌≡◌, sym, subst, ap, ◌∙◌, Bool, true, false, not, List, [], ◌∷◌, filter, any, arith, All,
  All-Memᴰ, All-filter,
}
use model_gateway.Core.Errors.{ok, err}
use model_gateway.Core.Trust.{at_least}
use model_gateway.Core.Catalog.{Deployment}
use model_gateway.Core.Snapshot.Lookups.{resolve_alias}
use model_gateway.Router.Floats.{Floats}
use model_gateway.Router.Selection.{Candidate, Router, SelectionInput, Providers, offered, select}
use model_gateway.Core.Identity.{is_empty}
use model_gateway.Router.Selection.Eligible.{
  fits, deployments_of, chosen, refused, any-filter, select-Selects,
}

module _ (p : Deployment → Bool) where
  All_of_Mem :
      (ds : List Deployment) → ((d : Deployment) → Mem d ds → p d ≡ true) → All (λ d. p d ≡ true) ds
  All_of_Mem [] h = tt
  All_of_Mem (d ∷ ds) h = (h d mem-cons_self, All_of_Mem ds (λ x m. h x (mem-cons_of_mem d m)))

  -- A test that all of a list pass, all of a permutation of it pass.
  All-Perm :
      (ds es : List Deployment) → Perm ds es → All (λ d. p d ≡ true) es → All (λ d. p d ≡ true) ds
  All-Perm ds es perm h = All_of_Mem ds (λ d m.
      ∥∥₁_elim ((Perm.mem_iff perm).0 m) (Bool-set (p d) true)
        (λ n. All-Memᴰ (λ x. p x ≡ true) es h d n))

module _ {F : Type 0} (fl : Floats F) where
  All-deployments_of :
      (p : Deployment → Bool) (cs : List (Candidate F))
      → All (λ d. p d ≡ true) (deployments_of fl cs)
      → All (λ c. p c.deployment ≡ true) cs
  All-deployments_of p [] h = tt
  All-deployments_of p (c ∷ cs) h = (h.0, All-deployments_of p cs h.1)

  weaker :
      (p q : Deployment → Bool) (cs : List (Candidate F))
      → ((d : Deployment) → p d ≡ true → q d ≡ true)
      → All (λ c. p c.deployment ≡ true) cs
      → All (λ c. q c.deployment ≡ true) cs
  weaker p q [] f h = tt
  weaker p q (c ∷ cs) f h = (f c.deployment h.0, weaker p q cs f h.1)

  -- The candidates that Select returns are all in a tier that is trusted enough.
  pub select-Trusted :
      (r : Router F) (providers : Providers) (clock : ℕ → ℕ) (draw : F) (i : SelectionInput)
      (cs : List (Candidate F))
      → (select fl r providers clock draw i).1 ≡ ok cs
      → All (λ c. at_least c.deployment.trust_tier i.min_trust_tier ≡ true) cs
  select-Trusted r providers clock draw i cs e =
      let ds = offered i.snapshot (resolve_alias i.snapshot i.tenant i.model) in
      elim (select-Selects fl r providers clock draw i) [
        | chosen cs' e' some_fits perm ↦
            let same : cs' ≡ cs = cc in
            weaker (fits providers i) (λ d. at_least d.trust_tier i.min_trust_tier) cs
              (λ d h. ground (arith, h))
              (All-deployments_of (fits providers i) cs (
                All-Perm (fits providers i) (deployments_of fl cs) (filter (fits providers i) ds)
                  (subst (λ l. Perm (deployments_of fl l) (filter (fits providers i) ds)) same perm)
                  (All-filter (fits providers i) ds)))
        | refused f e' n c ↦ let no : ok cs ≡ err f = sym e ∙ e' in cc
      ]

  -- Select never returns an empty list.
  pub select-nonempty :
      (r : Router F) (providers : Providers) (clock : ℕ → ℕ) (draw : F) (i : SelectionInput)
      → ¬ ((select fl r providers clock draw i).1 ≡ ok [])
  select-nonempty r providers clock draw i e =
      let ds = offered i.snapshot (resolve_alias i.snapshot i.tenant i.model) in
      elim (select-Selects fl r providers clock draw i) [
        | chosen cs' e' some_fits perm ↦
            let empty : [] ≡ cs' = cc in
            let none_left = Perm.nil-eq (
              subst (λ l. Perm (deployments_of fl l) (filter (fits providers i) ds)) (sym empty)
                perm) in
            let none_fits : any (fits providers i) ds ≡ false =
              any-filter fl (fits providers i) ds ∙ ap (λ l. not (is_empty l)) (sym none_left) in
            let impossible : true ≡ false = sym some_fits ∙ none_fits in cc
        | refused f e' n c ↦ let no : ok [] ≡ err f = sym e ∙ e' in cc
      ]
