-- ===== src/Core/Budget.antt =====
-- dataplane/internal/core/budget.go. Money is a MicroUSD, an int64 that wraps.
use model_gateway.Common.{ℕ, String, Bool, ◌&&◌, if◌then◌else◌, eqb}
use model_gateway.Common.Int.{ℤ, pos, ◌-ℤ◌, ◌*ℤ◌, ltb_ℤ, wrap64, quot, pos_part, neg_part}

abbrev pub basis_points_per_unit : ℕ
basis_points_per_unit = 10_000

pub data BudgetScope : Type 0 where
  unset key app user team org model training : BudgetScope

pub record BudgetRef : Type 0 where
  pub id : String
  pub scope : BudgetScope

pub record BudgetState : Type 0 where
  pub id : String
  pub scope : BudgetScope
  pub limit_micro_usd : ℤ
  pub spent_micro_usd : ℤ
  pub hard : Bool
  pub headroom_basis_points : ℕ  -- uint32

-- BudgetState.Available
unfoldable pub available : BudgetState → ℤ
available b =
    let reserved =
      quot (wrap64 (b.limit_micro_usd *ℤ pos b.headroom_basis_points)) basis_points_per_unit in
    let remaining = wrap64 (wrap64 (b.limit_micro_usd -ℤ reserved) -ℤ b.spent_micro_usd) in
    if ltb_ℤ remaining (pos 0) then pos 0 else remaining

-- BudgetState.Denies; the available amount is never negative.
unfoldable pub denies : BudgetState → Bool
unfolding available
denies b = b.hard && eqb (pos_part (available b)) (neg_part (available b))
