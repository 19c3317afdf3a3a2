-- ===== src/Offload/Report.antt =====
-- `report_once`: the one summary of what went to the host.
use vllm_exl3_plugin.Base.{
  ℕ, ◌-◌, Bool, true, false, ◌&&◌, not, length, leb, ltb, ◌==◌, if◌then◌else◌,
}
use vllm_exl3_plugin.Offload.State.{Offload, usable, uva_loader}

-- What is logged: nothing; that the budget went to other weights; that no selector matched; that
-- nothing was eligible; or the bytes, tensors and layers, after so many bytes of other weights.
pub data Report : Type 0 where
  silent : Report
  used_up : ℕ → ℕ → Report
  no_match none_eligible : Report
  summary : ℕ → ℕ → ℕ → ℕ → Report

-- What the offloader spent on weights that are not the plugin's.
unfoldable pub other_bytes : Offload → ℕ
unfolding usable
other_bytes o = if usable o then o.spent - (o.total_bytes - o.expert_bytes) else 0

unfoldable pub budget_bytes : Offload → ℕ
unfolding usable
budget_bytes o = if usable o then o.limit else 0

unfoldable pub reported_as : Offload → Report
unfolding other_bytes budget_bytes uva_loader
reported_as o =
    if not (o.requested)
    then silent
    else let asked = uva_loader o in
      if asked.tensors == 0
      then (if ltb 0 (other_bytes asked) && leb (budget_bytes asked) (other_bytes asked)
          then used_up (budget_bytes asked) (other_bytes asked)
          else if asked.selective
          then no_match
          else none_eligible)
      else summary (asked.total_bytes) (asked.tensors) (length asked.layers) (other_bytes asked)

-- `reported` is `_STATS["reported"]`, false at first.
unfoldable pub report_once : Bool → Offload → Report × Bool × Offload
unfolding reported_as uva_loader
report_once true o = (silent, true, o)
report_once false o = (reported_as o, true, if o.requested then uva_loader o else o)
