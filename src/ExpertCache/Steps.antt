-- ===== src/ExpertCache/Steps.antt =====
-- The warm start, the work at a step's two boundaries, and what the device does between them.
use vllm_exl3_plugin.Base.{
  ℕ, zero, suc, ◌+◌, ◌-◌, ◌%◌, min, Bool, true, false, ◌&&◌, not, Option, none, some, List, [], ◌∷◌,
  ◌++◌, length, drop, ltb, leb, ◌==◌, if◌then◌else◌,
}
use vllm_exl3_plugin.ExpertCache.State.{
  Layout, Cache, Batch, Launch, Routing, Content, blank, bytes_of, no_stats, ring_size, update,
  update2, hosted, capacity, write,
}
use vllm_exl3_plugin.ExpertCache.Writes.{to_slot, set_contents, write_slots}
use vllm_exl3_plugin.ExpertCache.Landing.{land_flips}
use vllm_exl3_plugin.ExpertCache.Planning.{plan}

module _ (K : Layout) where
  -- The newest finished step at the head of the queue, and the rest of the queue.
  unfoldable pub pop_finished : Option Launch → List Launch → Option Launch × List Launch
  pop_finished last [] = (last, [])
  pop_finished last (s ∷ ss) =
      let rest = pop_finished (some s) ss in if s.finished then rest else (last, s ∷ ss)

  unfoldable pub step_begin : Cache → Cache
  unfolding land_flips pop_finished plan
  step_begin c =
      let c1 = land_flips K c in
      let (newest, queue) = pop_finished none c1.steps in
      let c2 : Cache = record c1 { steps = queue } in
      elim newest [ none ↦ c2 | some launch ↦ plan K c2 launch ]

  -- The report at every `stats_every` steps begins a new window.
  abbrev reset_window : Cache → Cache
  reset_window c =
      if not (K.stats_every == 0) && c.step % K.stats_every == 0
      then record c { stats = no_stats }
      else c

  -- The recording of a step that had decode rows: `routing` is what the device buffer holds.
  unfoldable pub record_rows : Cache → Bool → ℕ → Routing → Cache
  record_rows c staged rows routing =
      let slot = c.step % ring_size in
      let kept = if leb (ring_size - 1) (length c.steps) then drop 1 c.steps else c.steps in
      record c {
        ring = update c.ring slot routing;
        steps =
            kept
            ++ record {
              slot = slot;
              finished = false;
              rows = rows;
              mask = if not (K.stats_every == 0) && not staged then some c.live else none;
              step_no = c.step;
            }
              ∷ [];
        stats = record (c.stats) { decode_steps = c.stats.decode_steps + 1 };
      }

  unfoldable pub step_end : Cache → ℕ → ℕ → Routing → Cache
  unfolding record_rows
  step_end c tokens decodes routing =
      let staged = ltb K.stage_rows tokens in
      let rows = min decodes K.stage_rows in
      let c1 : Cache = record c {
        step = c.step + 1;
        stats = record (c.stats) {
          window_steps = c.stats.window_steps + 1;
          staged_steps = c.stats.staged_steps + (if staged then 1 else 0);
        };
      } in
      reset_window (if rows == 0 then c1 else record_rows c1 staged rows routing)

  -- The first slots of layer `l` from `s` on hold the experts of the list.
  unfoldable pub fill_layer : ℕ → ℕ → ℕ → List ℕ → Cache → Cache
  unfolding to_slot set_contents
  fill_layer l s zero es c = c
  fill_layer l s (suc n) [] c = c
  fill_layer l s (suc n) (e ∷ es) c =
      let c1 : Cache = record c {
        owner = update2 c.owner l s (some e);
        slot_of = update2 c.slot_of l e (some s);
        live = update2 c.live l e true;
        contents = set_contents K (l, e) (some s) (bytes_of e) c.contents;
      } in
      fill_layer l (suc s) n es (record c1 { table = write c1.table (to_slot K c1 (l, e)) })

  unfoldable pub fill_from : ℕ → ℕ → Cache → Cache
  unfolding fill_layer
  fill_from l zero c = c
  fill_from l (suc n) c = fill_from (suc l) n (fill_layer l 0 (capacity K l) (hosted K l) c)

  -- `__init__` before `_fill`: `table` holds the layers' own pointers.
  abbrev pub cold : (ℕ → ℕ) → Cache
  cold table = record {
    table = table;
    slot_of = λ l e. none;
    owner = λ l s. none;
    live = λ l e. false;
    last_use = λ l e. none;
    pending = [];
    ring = λ i l. [];
    steps = [];
    step = 0;
    clock = 0;
    stats = no_stats;
    contents = λ l j s. blank;
  }

  -- `_fill`, layer by layer.
  unfoldable pub fill : (ℕ → ℕ) → Cache
  unfolding fill_from
  fill table = fill_from 0 K.layers (cold table)

  -- The device: the oldest copies that were under way are done, and so is the oldest step's routing.
  unfoldable pub land_next : List Batch → (ℕ → ℕ → ℕ → Content) → List Batch × (ℕ → ℕ → ℕ → Content)
  unfolding write_slots
  land_next [] m = ([], m)
  land_next (b ∷ bs) m =
      let rest = land_next bs m in
      if b.landed
      then (b ∷ rest.0, rest.1)
      else (record b { landed = true } ∷ bs, write_slots K bytes_of b.moved b.target m)

  unfoldable pub copies_land : Cache → Cache
  unfolding land_next
  copies_land c =
      let (queue, m) = land_next c.pending c.contents in record c { contents = m; pending = queue }

  unfoldable pub finish_next : List Launch → List Launch
  finish_next [] = []
  finish_next (s ∷ ss) =
      let rest = finish_next ss in
      if s.finished then s ∷ rest else record s { finished = true } ∷ ss

  unfoldable pub routing_lands : Cache → Cache
  unfolding finish_next
  routing_lands c = record c { steps = finish_next c.steps }

-- What can happen to a cache: a step's boundaries, and the completion of device work.
pub data Event : Type 0 where
  begin : Event
  end : ℕ → ℕ → Routing → Event
  copied : Event
  routed : Event

module _ (K : Layout) where
  unfoldable pub happen : Cache → Event → Cache
  unfolding step_begin step_end copies_land routing_lands
  happen c begin = step_begin K c
  happen c (end tokens decodes routing) = step_end K c tokens decodes routing
  happen c copied = copies_land K c
  happen c routed = routing_lands K c

  unfoldable pub run : List Event → Cache → Cache
  unfolding happen
  run [] c = c
  run (e ∷ es) c = run es (happen c e)
