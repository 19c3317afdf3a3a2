-- ===== src/ExpertCache/Overwrite.antt =====
-- When the routing of a queued launch outlives the end of a later step, and when it does not.
use vllm_exl3_plugin.Base.{
  ℕ, ◌+◌, ◌%◌, ◌<◌, ◌≡◌, ◌≢◌, ◌∙◌, min, false, length, leb, arith, In, dec_lt, In-append_left,
}
use vllm_exl3_plugin.ExpertCache.State.{Layout, Cache, Launch, Routing, ring_size}
use vllm_exl3_plugin.ExpertCache.Steps.{step_end, record_rows}
use vllm_exl3_plugin.ExpertCache.Ring.{LaunchOk, step_end_ring, step_end_steps}

module _ (K : Layout) (c : Cache) (tokens decodes : ℕ) (routing : Routing) where
  idle_ring :
      min decodes K.stage_rows ≡ 0
      → (i : ℕ) → (step_end K c tokens decodes routing).ring i ≡ c.ring i
  unfolding step_end record_rows
  idle_ring h i = ground arith

  -- The routing of a launch of one of the last three steps before the one that ends is not
  -- overwritten at its end.
  pub step_end-ring_keeps :
      (s : Launch)
      → LaunchOk K c.step s
      → c.step + 1 < s.step_no + ring_size
      → (step_end K c tokens decodes routing).ring s.slot ≡ c.ring s.slot
  step_end-ring_keeps s ok near = elim (dec_lt 0 (min decodes K.stage_rows)) [
    | yes rows ↦
        let here = ok.place_in_ring in
        let early = ok.not_later in
        let apart : s.slot ≢ (c.step + 1) % 4 = omega arith in
        step_end_ring K c tokens decodes routing s.slot rows ∙ ground arith
    | no rows ↦ idle_ring (omega arith) s.slot
  ]

  -- A launch that is still queued four steps later, because the steps between had no decode rows,
  -- stays queued at the end of a step that has some, and that step's routing replaces its own.
  pub step_end-ring_overwrites :
      (s : Launch)
      → In s c.steps
      → LaunchOk K c.step s
      → s.step_no + ring_size ≡ c.step + 1
      → length c.steps < 3
      → 0 < min decodes K.stage_rows
      → In s (step_end K c tokens decodes routing).steps
        × ((step_end K c tokens decodes routing).ring s.slot ≡ routing)
  step_end-ring_overwrites s m ok late room rows =
      let here = ok.place_in_ring in
      let same : s.slot ≡ (c.step + 1) % 4 = omega arith in
      let short : leb 3 (length c.steps) ≡ false = ground arith in
      (
        rw (step_end_steps K c tokens decodes routing rows, short) (In-append_left s c.steps _ m),
        step_end_ring K c tokens decodes routing s.slot rows ∙ ground arith,
      )
