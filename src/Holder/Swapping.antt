-- ===== src/Holder/Swapping.antt =====
-- What Swap and Rollback do to the snapshot that is served.
use model_gateway.Common.{
  ℕ, ◌≤◌, ◌<◌, ◌≡◌, refl, subst, ◌∙◌, inl, inr, List, [], ◌∷◌, String, Option, none, some, All,
  arith, eqb, Bool-cases,
}
use model_gateway.Core.Errors.{Error, Result, ok, err, bind-ok, invalid_request, new}
use model_gateway.Core.Snapshot.{LayerVersion, Snapshot}
use model_gateway.Core.Snapshot.Lookups.{global_version, tenant_version, tenant_ids}
use model_gateway.Holder.{
  Generation, new_generation, unref, Holder, put, unref_at, version_number, check_tenant,
  check_tenants, check_monotonic, install, swap, revert, rollback,
}
use model_gateway.Holder.Counting.{IsValid}

-- The snapshot that requests are served from.
abbrev pub served : Holder → Snapshot
served h = (h.heap h.current).snap

abbrev pub NotBackwards : Snapshot → Snapshot → String → Type 0
NotBackwards current next t =
    version_number (tenant_version current t) ≤ version_number (tenant_version next t)

check_tenant-le :
    (t : String) (have got : Option LayerVersion)
    → check_tenant t have got ≡ ok tt
    → version_number have ≤ version_number got
unfolding check_tenant
check_tenant-le t none got e = omega arith
check_tenant-le t (some have) got e = ground arith

check_tenants-NotBackwards :
    (current next : Snapshot) (ts : List String)
    → check_tenants current next ts ≡ ok tt
    → All (NotBackwards current next) ts
unfolding check_tenants
check_tenants-NotBackwards current next [] e = tt
check_tenants-NotBackwards current next (t ∷ ts) e =
    let (u, first, rest) =
      bind-ok (check_tenant t (tenant_version current t) (tenant_version next t)) _ tt e in
    (check_tenant-le t _ _ first, check_tenants-NotBackwards current next ts rest)

unref-snap : (x : Generation) → (unref x).snap ≡ x.snap
unfolding unref
unref-snap x = ground arith

unref_at-snap :
    (heap : ℕ → Generation) (slot : Option ℕ) (i : ℕ) → (unref_at heap slot i).snap ≡ (heap i).snap
unref_at-snap heap none i = refl
unref_at-snap heap (some g) i = elim (Bool-cases (eqb i g)) [
  | inl t ↦ let same : i ≡ g = ground arith in rw t (rw same (unref-snap (heap g)))
  | inr f ↦ rw f refl
]

-- A swap that succeeds serves the snapshot that it was given, and moves no layer backwards: neither
-- the global layer nor that of any tenant of the new snapshot.
pub swap-forward :
    (h h' : Holder) (s : Snapshot)
    → swap h (some s) ≡ ok h'
    → (served h' ≡ s)
      × ((global_version (served h)).number ≤ (global_version s).number)
      × All (NotBackwards (served h) s) (tenant_ids s)
unfolding swap check_monotonic install
swap-forward h h' s e =
    let (u, checked, last) = bind-ok (check_monotonic (served h) s) _ h' e in
    let same : install h s ≡ h' = cc in
    (
      subst (λ x. served x ≡ s) same
          (unref_at-snap (put h.heap h.next (new_generation s)) h.previous h.next ∙ ground arith),
      ground arith,
      check_tenants-NotBackwards (served h) s (tenant_ids s) (ground arith),
    )

-- Whether a call was refused.
abbrev pub Refused : {A : Type 0} → Result A → Type 0
Refused r = (e : Error) × (r ≡ err e)

-- The holder after a swap and a rollback.
abbrev pub reverted : Holder → Snapshot → Holder
reverted h s = record (install h s) {
  heap = unref_at (install h s).heap (some h.next);
  current = h.current;
  previous = none;
}

served-reverted :
    (h : Holder) (s : Snapshot) → h.current < h.next → served (reverted h s) ≡ served h
unfolding install
served-reverted h s b =
    unref_at-snap (install h s).heap (some h.next) h.current
    ∙ unref_at-snap (put h.heap h.next (new_generation s)) h.previous h.current
    ∙ ground arith

-- Rolling back a swap that succeeded, of a holder whose counts are right, serves the snapshot that
-- was served before it, and can be done once: a second rollback is refused.
pub swap-rollback :
    (h h' : Holder) (s : Snapshot)
    → IsValid h
    → swap h (some s) ≡ ok h'
    → (h'' : Holder) × (rollback h' ≡ ok h'') × (served h'' ≡ served h) × Refused (rollback h'')
unfolding swap install rollback revert
swap-rollback h h' s v e =
    let (u, checked, last) = bind-ok (check_monotonic (served h) s) _ h' e in
    let same : install h s ≡ h' = cc in
    subst
      (λ x.
        (h'' : Holder) × (rollback x ≡ ok h'') × (served h'' ≡ served h) × Refused (rollback h''))
      same
      (
        reverted h s,
        refl,
        served-reverted h s v.current,
        (new invalid_request "no previous snapshot to roll back to", refl),
      )
