-- ===== src/ExpertCache/Ring.antt =====
-- The queue of launched steps and the ring that their routing is copied into.
use vllm_exl3_plugin.Base.{
  ℕ, zero, suc, ◌+◌, ◌-◌, ◌%◌, ◌≤◌, ◌<◌, ◌≡◌, inl, inr, refl, ap, ◌∙◌, min, false, not, ◌&&◌,
  Option, none, some, List, [], ◌∷◌, ◌++◌, length, drop, leb, ltb, ◌==◌, arith, if◌then◌else◌, All,
  Bool-cases, dec_lt, length-append, All-append,
}
use vllm_exl3_plugin.ExpertCache.State.{Layout, Cache, Launch, Routing, ring_size, hosted, capacity}
use vllm_exl3_plugin.ExpertCache.Landing.{land_flips}
use vllm_exl3_plugin.ExpertCache.Planning.{plan}
use vllm_exl3_plugin.ExpertCache.Steps.{
  pop_finished, step_begin, record_rows, step_end, copies_land, routing_lands, finish_next,
  fill_layer, fill_from, fill, cold, Event, begin, end, copied, routed, happen, run,
}
use vllm_exl3_plugin.ExpertCache.Untouched.{plan_queue}

-- A queued launch has its ring slot, is not of a later step, and has decode rows in the buffer.
pub record LaunchOk (K : Layout) (step : ℕ) (s : Launch) : Type 0 where
  pub place_in_ring : s.slot ≡ s.step_no % ring_size
  pub not_later : s.step_no ≤ step
  pub some_rows : 0 < s.rows
  pub in_buffer : s.rows ≤ K.stage_rows

pub record QueueOk (K : Layout) (c : Cache) : Type 0 where
  pub short : length c.steps < ring_size
  pub launches : All (LaunchOk K c.step) c.steps

module _ (K : Layout) where
  pop_finished-QueueOk :
      (n : ℕ) (last : Option Launch) (ss : List Launch)
      → All (LaunchOk K n) ss
      → All (LaunchOk K n) (pop_finished K last ss).1
        × (length (pop_finished K last ss).1 ≤ length ss)
  unfolding pop_finished
  pop_finished-QueueOk n last [] h = (tt, omega arith)
  pop_finished-QueueOk n last (s ∷ ss) (h, hs) =
      let (r, t) = pop_finished-QueueOk n (some s) ss hs in
      elim (Bool-cases s.finished) [
        | inl done ↦ simp done (r, omega arith)
        | inr busy ↦ simp busy ((h, hs), omega arith)
      ]

  drop-All : {A : Type 0} (P : A → Type 0) (xs : List A) → All P xs → All P (drop 1 xs)
  drop-All P [] h = tt
  drop-All P (x ∷ xs) (_, h) = h

  All-later : (n m : ℕ) → n ≤ m → (ss : List Launch) → All (LaunchOk K n) ss → All (LaunchOk K m) ss
  All-later n m h [] a = tt
  All-later n m h (s ∷ ss) (a, later) = (
    record {
      place_in_ring = a.place_in_ring;
      not_later = (let b = a.not_later in omega arith);
      some_rows = a.some_rows;
      in_buffer = a.in_buffer;
    },
    All-later n m h ss later,
  )

  finish_next-All :
      (n : ℕ) (ss : List Launch)
      → All (LaunchOk K n) ss
      → All (LaunchOk K n) (finish_next K ss) × (length (finish_next K ss) ≡ length ss)
  unfolding finish_next
  finish_next-All n [] h = (tt, refl)
  finish_next-All n (s ∷ ss) (h, hs) =
      let (a, b) = finish_next-All n ss hs in
      elim (Bool-cases s.finished) [
        | inl done ↦ simp done ((h, a), ap suc b)
        | inr busy ↦ simp busy (
          (
            record {
              place_in_ring = h.place_in_ring;
              not_later = h.not_later;
              some_rows = h.some_rows;
              in_buffer = h.in_buffer;
            },
            hs,
          ),
          refl,
        )
      ]

  -- The launch that the end of a step queues, and the queue it is added to.
  abbrev launched : Cache → ℕ → ℕ → Launch
  launched c tokens rows = record {
    slot = (c.step + 1) % ring_size;
    finished = false;
    rows = rows;
    mask = if not (K.stats_every == 0) && not (ltb K.stage_rows tokens) then some c.live else none;
    step_no = c.step + 1;
  }

  abbrev queue_kept : Cache → List Launch
  queue_kept c = if leb (ring_size - 1) (length c.steps) then drop 1 c.steps else c.steps

  pub step_end_steps :
      (c : Cache) (tokens decodes : ℕ) (routing : Routing)
      → 0 < min decodes K.stage_rows
      → (step_end K c tokens decodes routing).steps
        ≡ queue_kept c ++ launched c tokens (min decodes K.stage_rows) ∷ []
  unfolding step_end record_rows
  step_end_steps c tokens decodes routing h = ground arith

  step_end_idle :
      (c : Cache) (tokens decodes : ℕ) (routing : Routing)
      → min decodes K.stage_rows ≡ 0
      → (step_end K c tokens decodes routing).steps ≡ c.steps
  unfolding step_end record_rows
  step_end_idle c tokens decodes routing h = ground arith

  step_end_step :
      (c : Cache) (tokens decodes : ℕ) (routing : Routing)
      → (step_end K c tokens decodes routing).step ≡ c.step + 1
  unfolding step_end record_rows
  step_end_step c tokens decodes routing = ground arith

  pub step_end_ring :
      (c : Cache) (tokens decodes : ℕ) (routing : Routing) (i : ℕ)
      → 0 < min decodes K.stage_rows
      → (step_end K c tokens decodes routing).ring i
        ≡ (if i == (c.step + 1) % ring_size then routing else c.ring i)
  unfolding step_end record_rows
  step_end_ring c tokens decodes routing i h = ground arith

  length_kept :
      (ss : List Launch)
      → length ss < ring_size
      → length (if leb (ring_size - 1) (length ss) then drop 1 ss else ss) < 3
  length_kept [] h = omega arith
  length_kept (s ∷ ss) h = elim (Bool-cases (leb 3 (suc (length ss)))) [
    | inl full ↦ rw full (omega arith)
    | inr room ↦ rw room (ground arith)
  ]

  module _ (c : Cache) (tokens decodes : ℕ) (routing : Routing) where
    abbrev after : Cache
    after = step_end K c tokens decodes routing

    kept_All : (P : Launch → Type 0) → All P c.steps → All P (queue_kept c)
    kept_All P h = elim (Bool-cases (leb 3 (length c.steps))) [
      | inl full ↦ rw full (drop-All P c.steps h)
      | inr room ↦ rw room h
    ]

    step_end-QueueOk : QueueOk K c → QueueOk K after
    step_end-QueueOk h =
        let older : All (LaunchOk K (c.step + 1)) c.steps =
          All-later c.step (c.step + 1) (omega arith) c.steps h.launches in
        let next = step_end_step c tokens decodes routing in
        elim (dec_lt 0 (min decodes K.stage_rows)) [
          | yes rows ↦
              let queue = step_end_steps c tokens decodes routing rows in
              record {
                short =
                    rw
                      (
                        queue,
                        length-append (queue_kept c)
                            (launched c tokens (min decodes K.stage_rows) ∷ []),
                      )
                      (let k = length_kept c.steps h.short in omega arith);
                launches =
                    rw (next, queue)
                      (All-append (LaunchOk K (c.step + 1)) (queue_kept c) _ (kept_All _ older) (
                        record {
                          place_in_ring = refl;
                          not_later = omega arith;
                          some_rows = rows;
                          in_buffer = omega arith;
                        },
                        tt,
                      ));
              }
          | no rows ↦
              let queue = step_end_idle c tokens decodes routing (omega arith) in
              record { short = rw queue h.short; launches = rw (next, queue) older }
        ]

  record Same (c d : Cache) : Type 0 where
    steps : d.steps ≡ c.steps
    step : d.step ≡ c.step

  Same-QueueOk : (c d : Cache) → Same c d → QueueOk K c → QueueOk K d
  Same-QueueOk c d e h = record {
    short = rw e.steps h.short;
    launches = rw (e.steps, e.step) h.launches;
  }

  planned_next :
      (newest : Option Launch) (c : Cache)
      → QueueOk K c
      → QueueOk K (elim newest [ none ↦ c | some launch ↦ plan K c launch ])
  planned_next none c h = h
  planned_next (some launch) c h =
      let (a, b) = plan_queue K c launch in
      Same-QueueOk c (plan K c launch) (record { steps = a; step = b }) h

  happen-QueueOk : (c : Cache) (e : Event) → QueueOk K c → QueueOk K (happen K c e)
  unfolding happen step_begin land_flips copies_land routing_lands
  happen-QueueOk c begin h =
      let (a, b) = pop_finished-QueueOk c.step none c.steps h.launches in
      planned_next (pop_finished K none c.steps).0 _
        (record { short = (let k = h.short in omega arith); launches = a })
  happen-QueueOk c (end tokens decodes routing) h = step_end-QueueOk c tokens decodes routing h
  happen-QueueOk c copied h = record { short = h.short; launches = h.launches }
  happen-QueueOk c routed h =
      let (a, b) = finish_next-All c.step c.steps h.launches in
      record { short = rw b h.short; launches = a }

  run_lem : (es : List Event) (c : Cache) → QueueOk K c → QueueOk K (run K es c)
  unfolding run
  run_lem [] c h = h
  run_lem (e ∷ es) c h = run_lem es (happen K c e) (happen-QueueOk c e h)

  fill_layer_queue : (l s n : ℕ) (es : List ℕ) (c : Cache) → Same c (fill_layer K l s n es c)
  unfolding fill_layer
  fill_layer_queue l s zero es c = record { steps = refl; step = refl }
  fill_layer_queue l s (suc n) [] c = record { steps = refl; step = refl }
  fill_layer_queue l s (suc n) (e ∷ es) c =
      let r = fill_layer_queue l (suc s) n es _ in record { steps = r.steps; step = r.step }

  fill_from_queue : (l n : ℕ) (c : Cache) → Same c (fill_from K l n c)
  unfolding fill_from
  fill_from_queue l zero c = record { steps = refl; step = refl }
  fill_from_queue l (suc n) c =
      let a = fill_layer_queue l 0 (capacity K l) (hosted K l) c in
      let b = fill_from_queue (suc l) n (fill_layer K l 0 (capacity K l) (hosted K l) c) in
      record { steps = b.steps ∙ a.steps; step = b.step ∙ a.step }

  -- After the warm start and any events, at most three launches are queued, and each is of a step
  -- not later than the present one, in the ring slot of its step's number, with at least one decode
  -- row and no more of them than the buffer has.
  pub run-QueueOk : (table : ℕ → ℕ) (es : List Event) → QueueOk K (run K es (fill K table))
  unfolding fill
  run-QueueOk table es = run_lem es (fill K table) (
      Same-QueueOk (cold K table) (fill K table) (fill_from_queue 0 K.layers (cold K table))
        (record { short = omega arith; launches = tt }))
