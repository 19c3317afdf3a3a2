-- ===== src/ExpertCache/Run.antt =====
-- Every event keeps a cache sound, and what a kernel reads through a sound cache's table.
use vllm_exl3_plugin.Base.{
  ℕ, ◌≡◌, ◌⊎◌, inl, inr, Option, none, some, List, [], ◌∷◌, arith, In, Bool-cases,
}
use vllm_exl3_plugin.ExpertCache.State.{Layout, Cache, Launch, Routing, bytes_of, entry, slot_addr}
use vllm_exl3_plugin.ExpertCache.Landing.{land_flips}
use vllm_exl3_plugin.ExpertCache.Planning.{plan}
use vllm_exl3_plugin.ExpertCache.Steps.{
  pop_finished, step_begin, record_rows, step_end, copies_land, routing_lands, Event, begin, end,
  copied, routed, happen, run,
}
use vllm_exl3_plugin.ExpertCache.Tables.{IsWellFormed}
use vllm_exl3_plugin.ExpertCache.Sound.{
  IsSound, land_flips-IsSound, copies_land-IsSound, plan-IsSound,
}

-- Where label `j` of expert `e` of layer `l`, whose host row is at `a`, is read: from the host, or
-- from a slot that holds its bytes.
pub Served : Layout → Cache → ℕ → ℕ → ℕ → ℕ → Type 0
Served K c l j e a =
    (c.table (entry K l j e) ≡ a)
    ⊎ ((s : ℕ) × (c.table (entry K l j e) ≡ slot_addr K l j s) × (c.contents l j s ≡ bytes_of e))

-- The clauses for recording and counting leave what the invariant is about.
record SameSlots (c d : Cache) : Type 0 where
  slot_of : d.slot_of ≡ c.slot_of
  owner : d.owner ≡ c.owner
  live : d.live ≡ c.live
  contents : d.contents ≡ c.contents
  table : d.table ≡ c.table
  pending : d.pending ≡ c.pending

module _ (K : Layout) where
  Same-IsSound : (c d : Cache) → SameSlots c d → IsSound K c → IsSound K d
  Same-IsSound c d e h = record {
    coherent = rw (e.slot_of, e.owner, e.live, e.contents, e.table, e.pending) (h.coherent);
    queued = rw (e.slot_of, e.contents, e.pending) (h.queued);
  }

  step_end-Same :
      (c : Cache) (tokens decodes : ℕ) (routing : Routing)
      → SameSlots c (step_end K c tokens decodes routing)
  unfolding step_end record_rows
  step_end-Same c tokens decodes routing = record {
    slot_of = ground arith;
    owner = ground arith;
    live = ground arith;
    contents = ground arith;
    table = ground arith;
    pending = ground arith;
  }

  module _ (wf : IsWellFormed K) where
    planned_next :
        (newest : Option Launch) (c : Cache)
        → IsSound K c
        → IsSound K (elim newest [ none ↦ c | some launch ↦ plan K c launch ])
    planned_next none c h = h
    planned_next (some launch) c h = plan-IsSound K wf c launch h

    step_begin-IsSound : (c : Cache) → IsSound K c → IsSound K (step_begin K c)
    unfolding step_begin
    step_begin-IsSound c h =
        let c1 = land_flips K c in
        let h1 = land_flips-IsSound K wf c h in
        planned_next (pop_finished K none c1.steps).0 _
          (record { coherent = h1.coherent; queued = h1.queued })

    happen-IsSound : (c : Cache) (e : Event) → IsSound K c → IsSound K (happen K c e)
    unfolding happen copies_land routing_lands
    happen-IsSound c begin h = step_begin-IsSound c h
    happen-IsSound c (end tokens decodes routing) h =
        Same-IsSound c _ (step_end-Same c tokens decodes routing) h
    happen-IsSound c copied h = copies_land-IsSound K wf c h
    happen-IsSound c routed h = record { coherent = h.coherent; queued = h.queued }

    -- A cache that is sound stays sound through any sequence of step boundaries and completions of
    -- the device's copies and routing, in any order.
    pub run-IsSound : (es : List Event) (c : Cache) → IsSound K c → IsSound K (run K es c)
    unfolding run
    run-IsSound [] c h = h
    run-IsSound (e ∷ es) c h = run-IsSound es (happen K c e) (happen-IsSound c e h)

    pub IsSound-Served :
        (c : Cache) → IsSound K c → (l e j a : ℕ) → In (j, a) (K.host l e) → Served K c l j e a
    unfolding Served
    IsSound-Served c h l e j a m = elim (Bool-cases (c.live l e)) [
      | inl alive ↦
          let (s, seat) = h.coherent.seated l e alive in
          inr (
            s,
            h.coherent.slot_entry l e s j a alive seat m,
            h.coherent.ready l e s j a alive seat m,
          )
      | inr dead ↦ inl (h.coherent.host_entry l e j a dead m)
    ]
