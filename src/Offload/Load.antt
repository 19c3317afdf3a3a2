-- ===== src/Offload/Load.antt =====
-- A whole load: dense tensors, finished weights and experts, in any order of arrival.
use vllm_exl3_plugin.Base.{
  ℕ, ◌+◌, ◌-◌, ◌≤◌, ◌≡◌, refl, max, Bool, Option, some, List, [], ◌∷◌, ◌==◌, arith, if◌then◌else◌,
  All, Result, ok, raise,
}
use vllm_exl3_plugin.Base.Text.{Text}
use vllm_exl3_plugin.Offload.State.{Offload, usable}
use vllm_exl3_plugin.Offload.Dense.{DenseParam, place, register_offload}
use vllm_exl3_plugin.Offload.Experts.{
  Host, Tensor, Collector, Home, OffloadError, planned, place_in,
}
use vllm_exl3_plugin.Offload.Report.{other_bytes}
use vllm_exl3_plugin.Offload.Budget.{
  Grows, Grows-refl, Grows-trans, place-Grows, register_offload-Grows, planned-Grows,
}

-- What arrives: a dense tensor, a layer's finished weight, or an expert's of a layer, by projection
-- and id.
pub data Arrival : Type 0 where
  dense : DenseParam → ℕ → Arrival
  finished : Text → Option ℕ → Bool → Arrival
  expert : ℕ → ℕ → ℕ → Tensor → Arrival

abbrev pub Layers : Type 0
Layers = ℕ → Collector

abbrev set_layer : Layers → ℕ → Collector → Layers
set_layer ls i c j = if j == i then c else ls j

module _ (H : Host) (cached : Bool) where
  abbrev Loaded : Type 0
  Loaded = Result (OffloadError × Layers × Offload) (Layers × Offload)

  -- One arrival. An error leaves the counts as they stand.
  unfoldable pub arrive : Layers → Offload → Arrival → Loaded
  unfolding place register_offload planned place_in
  arrive ls o (dense param n) = ok (ls, (place H.search o param n).1)
  arrive ls o (finished prefix weight already) =
      ok (ls, (register_offload H.search o prefix weight already).1)
  arrive ls o (expert i label e t) =
      let (plan, c1, o1) = planned H (ls i) cached o t label in
      elim (place_in c1 o1 t label e plan) [
        | ok (home, c2, o2) ↦ ok (set_layer ls i c2, o1)
        | raise error ↦ raise (error, set_layer ls i c1, o1)
      ]

  -- The arrivals until one raises.
  unfoldable pub load : Layers → Offload → List Arrival → Loaded
  unfolding arrive
  load ls o [] = ok (ls, o)
  load ls o (a ∷ as') = elim (arrive ls o a) [
    | ok (ls1, o1) ↦ load ls1 o1 as'
    | raise stopped ↦ raise stopped
  ]

-- The counts when a load ends, by an error or not.
abbrev pub after : Result (OffloadError × Layers × Offload) (Layers × Offload) → Offload
after (ok (ls, o)) = o
after (raise (error, ls, o)) = o

-- No tensor of an arrival is of more than so many bytes.
unfoldable pub NoLarger : ℕ → Arrival → Type 0
NoLarger big (dense param n) = n ≤ big
NoLarger big (finished prefix weight already) = (n : ℕ) → weight ≡ some n → n ≤ big
NoLarger big (expert i label e t) = t.nbytes ≤ big

after-elim :
    (big : ℕ) (o o1 : Offload) (ls1 : Collector → Layers) (stopped : Layers)
    (r : Result OffloadError (Home × Collector × Offload))
    → Grows big o o1
    → Grows big o (
        after (elim r [
          | ok (home, c2, o2) ↦ ok (ls1 c2, o1)
          | raise error ↦ raise (error, stopped, o1)
        ]))
after-elim big o o1 ls1 stopped (ok (home, c2, o2)) h = h
after-elim big o o1 ls1 stopped (raise error) h = h

then-Grows :
    (big : ℕ) (o : Offload) (r : Result (OffloadError × Layers × Offload) (Layers × Offload))
    (next : Layers → Offload → Result (OffloadError × Layers × Offload) (Layers × Offload))
    → Grows big o (after r)
    → ((ls1 : Layers) (o1 : Offload) → Grows big o1 (after (next ls1 o1)))
    → Grows big o (after (elim r [ ok (ls1, o1) ↦ next ls1 o1 | raise stopped ↦ raise stopped ]))
then-Grows big o (ok (ls1, o1)) next h k = Grows-trans big o o1 (after (next ls1 o1)) h (k ls1 o1)
then-Grows big o (raise (error, ls1, o1)) next h k = h

usable-backend : (p o : Offload) → p.backend ≡ o.backend → usable p ≡ usable o
unfolding usable
usable-backend p o h = rw h refl

module _ (H : Host) (cached : Bool) (big : ℕ) where
  arrive-Grows :
      (ls : Layers) (o : Offload) (a : Arrival)
      → NoLarger big a
      → Grows big o (after (arrive H cached ls o a))
  unfolding arrive NoLarger
  arrive-Grows ls o (dense param n) h = place-Grows H.search big o param n h
  arrive-Grows ls o (finished prefix weight already) h =
      register_offload-Grows H.search big o prefix weight already h
  arrive-Grows ls o (expert i label e t) h =
      let (plan, c1, o1) = planned H (ls i) cached o t label in
      after-elim big o o1 (set_layer ls i) (set_layer ls i c1) (place_in c1 o1 t label e plan)
        (planned-Grows H big (ls i) cached o t label h)

  load-Grows :
      (ls : Layers) (o : Offload) (arrivals : List Arrival)
      → All (NoLarger big) arrivals
      → Grows big o (after (load H cached ls o arrivals))
  unfolding load
  load-Grows ls o [] h = Grows-refl big o
  load-Grows ls o (a ∷ as') (now, later) =
      then-Grows big o (arrive H cached ls o a) (λ ls1 o1. load H cached ls1 o1 as')
        (arrive-Grows ls o a now) (λ ls1 o1. load-Grows ls1 o1 as' later)

-- However a load ends, it has spent at most one tensor past vLLM's budget, or nothing more than was
-- spent before it where that was over the budget already.
pub load-within_budget :
    (H : Host) (cached : Bool) (big : ℕ) (ls : Layers) (o : Offload) (arrivals : List Arrival)
    → All (NoLarger big) arrivals
    → (after (load H cached ls o arrivals)).spent ≤ max o.spent (o.limit + big)
unfolding Grows
load-within_budget H cached big ls o arrivals h = (load-Grows H cached big ls o arrivals h).5

-- However a load ends that starts from fresh statistics, what its report takes for other weights'
-- share of the budget is what vLLM itself had spent before it, not a byte of the plugin's tensors,
-- budgeted or not; and it is nothing where vLLM's offloader is not one that the plugin uses.
pub load-other_bytes :
    (H : Host) (cached : Bool) (big : ℕ) (ls : Layers) (o : Offload) (arrivals : List Arrival)
    → All (NoLarger big) arrivals
    → o.total_bytes ≡ 0
    → o.expert_bytes ≡ 0
    → other_bytes (after (load H cached ls o arrivals)) ≡ (if usable o then o.spent else 0)
unfolding other_bytes Grows
load-other_bytes H cached big ls o arrivals h total hosted =
    let (b, l, s, e, t, m) = load-Grows H cached big ls o arrivals h in
    let p = after (load H cached ls o arrivals) in
    let figure : p.spent - (p.total_bytes - p.expert_bytes) ≡ o.spent = omega arith in
    rw (usable-backend p o b, figure) refl
