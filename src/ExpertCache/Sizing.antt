-- ===== src/ExpertCache/Sizing.antt =====
-- `size_slots`, and the memory that the slots it allows take. The sizes are not negative.
use native.Mathlib.Nat.{div-mul-le_self, lt-div-mul-add, mul-le-mul}
use mathlib.Core.Path.{subst}
use vllm_exl3_plugin.Base.{ℕ, ◌+◌, ◌-◌, ◌*◌, ◌/◌, ◌≤◌, ◌<◌, ◌≡◌, min, max, arith}

-- Slots per layer for the auto mode.
unfoldable pub size_slots : ℕ → ℕ → ℕ → ℕ → ℕ → ℕ → ℕ → ℕ
size_slots available reserve hosted may_free slot_bytes layers per_layer_max =
    let want = max (available - reserve) 0 in
    let floor = max (hosted - may_free) 0 in
    let target = min (min (max want floor) hosted) available in
    min per_layer_max (target / max (slot_bytes * layers) 1)

module _ (available reserve hosted may_free slot_bytes layers per_layer_max : ℕ) where
  abbrev slots : ℕ
  slots = size_slots available reserve hosted may_free slot_bytes layers per_layer_max

  abbrev target_bytes : ℕ
  target_bytes =
      min (min (max (max (available - reserve) 0) (max (hosted - may_free) 0)) hosted) available

  abbrev unit : ℕ
  unit = slot_bytes * layers

  slots_within : slots * unit ≤ target_bytes
  unfolding size_slots
  slots_within =
      let q = target_bytes / max unit 1 in
      let a : q * max unit 1 ≤ target_bytes = div-mul-le_self target_bytes (max unit 1) in
      let b : min per_layer_max q * unit ≤ q * max unit 1 =
        mul-le-mul (omega arith) (omega arith) in
      omega arith

  -- The slots of all layers fit what is available and take no more than the hosted experts do, and
  -- never more than the larger of what the reserve leaves and what the budget forces. A layer has
  -- at most the slots it can use.
  pub size_slots-fits :
      (slots ≤ per_layer_max)
      × (slots * unit ≤ available)
      × (slots * unit ≤ hosted)
      × (slots * unit ≤ max (available - reserve) (hosted - may_free))
  unfolding size_slots
  size_slots-fits = let h = slots_within in (omega arith, omega arith, omega arith, omega arith)

  -- Where the experts that the budget keeps on the device fit beside the reserve, the reserve is left.
  pub size_slots-leaves_reserve :
      reserve ≤ available
      → hosted - may_free ≤ available - reserve
      → slots * unit + reserve ≤ available
  size_slots-leaves_reserve fits small = let h = slots_within in omega arith

  -- Slots that are fewer than a layer could use, where memory is available for the rest, are as many
  -- as the budget forces: one more for each layer would exceed what it makes the experts keep.
  pub size_slots-honours_budget :
      0 < unit
      → slots < per_layer_max
      → hosted - may_free ≤ available
      → hosted < may_free + (slots + 1) * unit
  unfolding size_slots
  size_slots-honours_budget pos few room =
      let q = target_bytes / max unit 1 in
      let a : target_bytes < q * max unit 1 + max unit 1 = lt-div-mul-add (omega arith) in
      let b : slots ≡ q = omega arith in
      let c : max unit 1 ≡ unit = omega arith in
      let d : target_bytes < q * unit + unit = subst (λ u. target_bytes < q * u + u) c a in
      rw b (omega arith)
