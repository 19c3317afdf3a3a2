-- ===== src/ExpertCache/Planning.antt =====
-- `_plan` and `_promote`: what a step's routing makes the controller do.
use vllm_exl3_plugin.Base.{
  ℕ, zero, suc, ◌+◌, ◌-◌, ◌*◌, ◌/◌, ◌%◌, Bool, false, ◌&&◌, not, Option, none, some, List, [], ◌∷◌,
  ◌++◌, map, length, take, leb, ◌==◌, if◌then◌else◌,
}
use vllm_exl3_plugin.ExpertCache.State.{
  Layout, Cache, Launch, Stats, Routing, Ref, Update, copying, ring_size, update2, offloaded, write,
}
use vllm_exl3_plugin.ExpertCache.Writes.{to_host, write_slots}
use vllm_exl3_plugin.ExpertCache.Lru.{victim}
use vllm_exl3_plugin.ExpertCache.Demand.{Demand, unique_counts, sort}

abbrev flatten : List (List ℕ) → List ℕ
flatten [] = []
flatten (x ∷ xs) = x ++ flatten xs

-- The variables of the loop over the misses.
pub record Plan : Type 0 where
  pub cache : Cache
  pub updates : List Update
  pub issued : List Ref

module _ (K : Layout) where
  -- The routed experts of the rows read, layer by layer.
  unfoldable pub routed_from : Routing → ℕ → ℕ → ℕ → List Ref
  routed_from routing rows l zero = []
  routed_from routing rows l (suc n) =
      map (λ e. (l, e)) (flatten (take rows (routing l))) ++ routed_from routing rows (suc l) n

  -- How many refs pass a test.
  unfoldable pub count_if : (Ref → Bool) → List Ref → ℕ
  count_if p [] = 0
  count_if p (r ∷ refs) = if p r then suc (count_if p refs) else count_if p refs

  unfoldable pub touch : ℕ → List Ref → (ℕ → ℕ → Option ℕ) → ℕ → ℕ → Option ℕ
  unfolding offloaded
  touch clock [] used = used
  touch clock ((l, e) ∷ refs) used =
      touch clock refs (if offloaded K l e then update2 used l e (some clock) else used)

  -- `rows[want] * E + flat_ids[want]`
  unfoldable pub wanted_keys : Cache → List Ref → List ℕ
  unfolding offloaded
  wanted_keys c [] = []
  wanted_keys c ((l, e) ∷ refs) =
      let rest = wanted_keys c refs in
      if offloaded K l e
      then elim (c.slot_of l e) [ none ↦ (l * K.experts + e) ∷ rest | some _ ↦ rest ]
      else rest

  unfoldable pub plan_stats : Cache → Option (ℕ → ℕ → Bool) → ℕ → List Ref → Stats
  unfolding count_if offloaded
  plan_stats c live_then step_no refs =
      if K.stats_every == 0
      then c.stats
      else let counted : Stats = elim live_then [
        | none ↦ c.stats
        | some live ↦ record (c.stats) {
          hits = c.stats.hits + count_if (λ (l, e). offloaded K l e && live l e) refs;
          misses = c.stats.misses + count_if (λ (l, e). offloaded K l e && not (live l e)) refs;
          resident_hits = c.stats.resident_hits + count_if (λ (l, e). not (offloaded K l e)) refs;
        }
      ] in
        record counted { planned = counted.planned + 1; lag = counted.lag + (c.step - step_no) }

  -- A victim's entry goes back to the host, and its slot is no longer its own.
  unfoldable pub release : Plan → ℕ → ℕ → Plan
  unfolding to_host
  release p l old = record p {
    cache = record (p.cache) {
      slot_of = update2 p.cache.slot_of l old none;
      live = update2 p.cache.live l old false;
    };
    updates = p.updates ++ to_host K (l, old);
  }

  unfoldable pub claim : Plan → ℕ → ℕ → ℕ → Plan
  claim p l s e = record p {
    cache = record (p.cache) {
      owner = update2 p.cache.owner l s (some e);
      slot_of = update2 p.cache.slot_of l e (some s);
    };
    issued = p.issued ++ (l, e) ∷ [];
  }

  -- The body of the loop for one miss, below the budget.
  unfoldable pub place : Plan → ℕ → ℕ → Plan
  unfolding release claim
  place p l e = elim (victim K p.cache l) [
    | none ↦ p
    | some s ↦ elim (p.cache.owner l s) [
      | none ↦ claim p l s e
      | some old ↦ claim (release p l old) l s e
    ]
  ]

  unfoldable pub place_all : List Demand → Plan → Plan
  unfolding place
  place_all [] p = p
  place_all (d ∷ ds) p =
      let rest = place_all ds (place p (d.key / K.experts) (d.key % K.experts)) in
      if leb K.budget (length p.issued) then p else rest

  unfoldable pub promote : Plan → Cache
  unfolding write_slots
  promote p = record (p.cache) {
    table = write p.cache.table p.updates;
    contents = write_slots K copying p.issued p.cache.slot_of p.cache.contents;
    pending =
        p.cache.pending
        ++ record { landed = false; moved = p.issued; target = p.cache.slot_of } ∷ [];
    stats = record (p.cache.stats) { promoted = p.cache.stats.promoted + length p.issued };
  }

  -- `if issued: self._promote(issued, updates)`
  unfoldable pub promote_if : List Ref → Plan → Cache
  unfolding promote
  promote_if [] p = p.cache
  promote_if (_ ∷ _) p = promote p

  abbrev pub finish : Plan → Cache
  finish p = promote_if p.issued p

  -- The routed experts that the launch recorded.
  unfoldable pub routed : Cache → Launch → List Ref
  unfolding routed_from
  routed c launch = routed_from (c.ring (launch.slot % ring_size)) launch.rows 0 K.layers

  -- The clock, the statistics and the last uses.
  unfoldable pub learn : Cache → Launch → Cache
  unfolding routed touch plan_stats
  learn c launch = record c {
    clock = c.clock + 1;
    stats = plan_stats c launch.mask launch.step_no (routed c launch);
    last_use = touch (c.clock + 1) (routed c launch) c.last_use;
  }

  unfoldable pub plan : Cache → Launch → Cache
  unfolding learn wanted_keys place_all promote_if
  plan c launch =
      let seen = learn c launch in
      finish (
        place_all (sort K seen.clock (unique_counts (wanted_keys seen (routed c launch))))
          (record { cache = seen; updates = []; issued = [] }))
