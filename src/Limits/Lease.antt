-- ===== src/Limits/Lease.antt =====
-- How much of a lease falls inside a limit: the arithmetic of `leaseFrom` in limiter.go.
use model_gateway.Common.{ℕ, ◌+◌, ◌-◌, ◌<◌, ◌^◌, ◌≡◌, arith, min, not, if◌then◌else◌}
use model_gateway.Common.Int.{ℤ, pos, ◌-ℤ◌, wrap64, pos_part, ltb_ℤ}

-- The end of leaseFrom: the permits available, from the store's total after adding the lease.
unfoldable pub granted : ℤ → ℕ → ℕ → ℕ
granted used limit lease =
    let overshoot = wrap64 (used -ℤ pos limit) in
    if not (ltb_ℤ overshoot (pos lease))
    then 0
    else if ltb_ℤ (pos 0) overshoot
    then lease - pos_part overshoot
    else lease

pub granted_lem :
    (used limit lease : ℕ)
    → used < 2 ^ 63
    → limit < 2 ^ 32
    → granted (pos used) limit lease ≡ lease - (used - limit)
unfolding granted ◌-ℤ◌ wrap64
granted_lem used limit lease h k = ground arith

-- A lease taken after `c` permits were leased adds exactly what the limit still allows.
pub granted_share :
    (c limit lease : ℕ)
    → c + lease < 2 ^ 63
    → limit < 2 ^ 32
    → min c limit + granted (pos (c + lease)) limit lease ≡ min (c + lease) limit
granted_share c limit lease h k = rw (granted_lem (c + lease) limit lease h k) (omega arith)
