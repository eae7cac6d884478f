-- ===== src/Limits/Limiter/Fleet.antt =====
-- What the workers of a fleet admit together in one window, over one shared store.
use model_gateway.Common.{
  ℕ, zero, suc, ◌+◌, ◌-◌, ◌*◌, ◌≤◌, ◌<◌, ◌^◌, ◌≡◌, inl, inr, String, List, [], ◌∷◌, Option, none,
  some, arith, min, if◌then◌else◌, length, get_elem?, All, subst, Option-cases,
}
use model_gateway.Common.Int.{pos}
use model_gateway.Core.Ports.{KvStore, CounterLaws}
use model_gateway.Limits.Limiter.{Limiter, Readings, bucket, take_permit}
use model_gateway.Limits.Limiter.Window.{held, Ready, Within, take_permit-Takes}

module _ {ℓ} {A : Type ℓ} where
  -- The list with one element replaced.
  abbrev pub replace : List A → ℕ → A → List A
  replace [] i a = []
  replace (x ∷ xs) zero a = a ∷ xs
  replace (x ∷ xs) (suc i) a = x ∷ replace xs i a

  pub All-get_elem? {κ} :
      (P : A → Type κ) (xs : List A) (i : ℕ) {a : A} → get_elem? xs i ≡ some a → All P xs → P a
  All-get_elem? P [] i e h = cc
  All-get_elem? P (x ∷ xs) zero {a} e h = let same : x ≡ a = cc in subst P same h.0
  All-get_elem? P (x ∷ xs) (suc i) e h = All-get_elem? P xs i e h.1

  pub All-replace {κ} :
      (P : A → Type κ) (xs : List A) (i : ℕ) (a : A) → P a → All P xs → All P (replace xs i a)
  All-replace P [] i a p h = tt
  All-replace P (x ∷ xs) zero a p h = (p, h.1)
  All-replace P (x ∷ xs) (suc i) a p h = (h.0, All-replace P xs i a p h.1)

module _ (kv : KvStore) (laws : CounterLaws kv) (until : ℕ) (k : String) (limit lease : ℕ) where
  -- The permits that the workers hold.
  abbrev pub all_held : List Limiter → ℕ
  all_held [] = 0
  all_held (l ∷ ls) = held (bucket l k) + all_held ls

  all_held-replace :
      (ls : List Limiter) (i : ℕ) (l l' : Limiter)
      → get_elem? ls i ≡ some l
      → all_held (replace ls i l') + held (bucket l k) ≡ all_held ls + held (bucket l' k)
  all_held-replace [] i l l' e = cc
  all_held-replace (x ∷ ls) zero l l' e = let same : x ≡ l = cc in rw same (omega arith)
  all_held-replace (x ∷ ls) (suc i) l l' e = omega (arith, all_held-replace ls i l l' e)

  all_held-le :
      (ls : List Limiter) (i : ℕ) (l : Limiter)
      → get_elem? ls i ≡ some l
      → held (bucket l k) ≤ all_held ls
  all_held-le [] i l e = cc
  all_held-le (x ∷ ls) zero l e = let same : x ≡ l = cc in rw same (omega arith)
  all_held-le (x ∷ ls) (suc i) l e = omega (arith, all_held-le ls i l e)

  serve_one :
      List Limiter → kv.Store → ℕ → ℕ → Readings → Option Limiter → (List Limiter × kv.Store) × ℕ
  serve_one ls s a i r none = ((ls, s), a)
  serve_one ls s a i r (some l) =
      let t = take_permit kv l s r k limit in
      ((replace ls i t.limiter, t.store), if t.result then suc a else a)

  -- Requests arrive at workers in any order; the result is how many have a permit.
  pub serve_fleet : List Limiter → kv.Store → ℕ → List (ℕ × Readings) → ℕ
  unfolding serve_one
  serve_fleet ls s a [] = a
  serve_fleet ls s a ((i, r) ∷ rest) =
      let ((ls', s'), a') = serve_one ls s a i r (get_elem? ls i) in serve_fleet ls' s' a' rest

  pub record Works (l : Limiter) : Type 0 where
    pub leases : 0 < l.lease
    pub modest : l.lease ≤ lease
    pub ready : Ready until (bucket l k)

  pub record FleetOk (ls : List Limiter) (s : kv.Store) (c a : ℕ) : Type 0 where
    pub workers : All Works ls
    pub stands : laws.Stands s until k (pos c)
    pub shared : a + all_held ls ≡ min c limit

  serve_one-FleetOk :
      (ls : List Limiter) (s : kv.Store) (c a i : ℕ) (r : Readings) (l : Limiter)
      → Within until r
      → limit < 2 ^ 32
      → c + lease < 2 ^ 63
      → get_elem? ls i ≡ some l
      → FleetOk ls s c a
      → let t = take_permit kv l s r k limit in
        (c' : ℕ) × (c' ≤ c + lease)
        × FleetOk (replace ls i t.limiter) t.store c' (if t.result then suc a else a)
  serve_one-FleetOk ls s c a i r l w small fit e f =
      let t = take_permit kv l s r k limit in
      let works = All-get_elem? Works ls i e f.workers in
      let other = all_held-replace ls i l t.limiter e in
      let least = all_held-le ls i l e in
      let d =
        take_permit-Takes kv laws until k limit l s r c a (all_held ls - held (bucket l k)) w
          works.leases (omega (arith, works.modest)) small
          (record {
            ready = works.ready;
            stands = f.stands;
            shared = omega (arith, f.shared, least);
          }) in
      (
        d.counter,
        omega (arith, d.counter_grows, works.modest),
        record {
          workers =
              All-replace Works ls i t.limiter
                (record {
                  leases = omega (arith, d.same_lease, works.leases);
                  modest = omega (arith, d.same_lease, works.modest);
                  ready = d.spends.ready;
                })
                f.workers;
          stands = d.spends.stands;
          shared = omega (arith, d.spends.shared, other, least);
        },
      )

  -- While the store keeps the counter laws and all readings fall in one window, workers that start
  -- with what the counter accounts for together admit no more requests in the window than the
  -- limit, however the requests are spread over them and whatever their leases. The limit is a
  -- uint32, and the counter stays below 2 ^ 63.
  pub serve_fleet_le :
      (ls : List Limiter) (s : kv.Store) (c a : ℕ) (requests : List (ℕ × Readings))
      → All (λ (q : ℕ × Readings). Within until q.1) requests
      → limit < 2 ^ 32
      → c + length requests * lease < 2 ^ 63
      → FleetOk ls s c a
      → serve_fleet ls s a requests ≤ limit
  unfolding serve_fleet
  serve_fleet_le ls s c a [] w small fit f = omega (arith, f.shared)
  serve_fleet_le ls s c a ((i, r) ∷ rest) w small fit f = elim (Option-cases (get_elem? ls i)) [
    | inl e ↦ rw (e, serve_one) (serve_fleet_le ls s c a rest w.1 small (omega arith) f)
    | inr (l, e) ↦
        let t = take_permit kv l s r k limit in
        let (c', grown, f') = serve_one-FleetOk ls s c a i r l w.0 small (omega arith) e f in
        rw (e, serve_one)
          (serve_fleet_le (replace ls i t.limiter) t.store c' (if t.result then suc a else a) rest
            w.1 small (omega arith) f')
  ]
