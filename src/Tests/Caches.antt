-- ===== src/Tests/Caches.antt =====
-- A cache of two slots for one layer's three hosted experts, run for a few steps.
use vllm_exl3_plugin.Base.{
  ℕ, ◌+◌, ◌*◌, ◌%◌, ◌≡◌, ◌≢◌, ◌≤◌, ◌<◌, ◌⊎◌, inl, refl, arith, max, ◌-◌, false, none, some, List,
  [], ◌∷◌, ltb, ◌==◌, if◌then◌else◌, In, Distinct,
}
use vllm_exl3_plugin.ExpertCache.State.{Layout, Cache, Launch, Routing, entry, write, capacity}
use vllm_exl3_plugin.ExpertCache.Lru.{victim}
use vllm_exl3_plugin.ExpertCache.Demand.{sort, unique_counts}
use vllm_exl3_plugin.ExpertCache.Steps.{fill, step_end, Event, begin, end, copied, routed, run}
use vllm_exl3_plugin.ExpertCache.Tables.{IsWellFormed}
use vllm_exl3_plugin.ExpertCache.Sound.{IsSound}
use vllm_exl3_plugin.ExpertCache.Run.{Served, run-IsSound}
use vllm_exl3_plugin.ExpertCache.Warm.{AtHost, fill-IsSound}
use vllm_exl3_plugin.ExpertCache.Serve.{run-Served}
use vllm_exl3_plugin.ExpertCache.Ring.{LaunchOk, QueueOk, run-QueueOk}
use vllm_exl3_plugin.ExpertCache.Victim.{Chosen, victim-eq-some}
use vllm_exl3_plugin.ExpertCache.Order.{IsOrdered, keys, total, occurrences, wanted-IsOrdered}
use vllm_exl3_plugin.ExpertCache.Overwrite.{step_end-ring_keeps, step_end-ring_overwrites}
use vllm_exl3_plugin.ExpertCache.Build.{
  HostLayer, auto, Built, static_cache, build, slot_memory, build-fits,
}
use vllm_exl3_plugin.ExpertCache.Sizing.{size_slots, size_slots-fits, size_slots-honours_budget}

abbrev small : Layout
small = record {
  layers = 1;
  experts = 4;
  slots = 2;
  budget = 2;
  stage_rows = 2;
  stats_every = 0;
  host = λ l e. if ltb e 3 then (0, 100 + e) ∷ [] else [];
  slot_base = λ l j. 1000;
  slot_bytes = λ l j. 10;
}

abbrev pointers : ℕ → ℕ
pointers i = 100 + i % 4

small-IsWellFormed : IsWellFormed small
small-IsWellFormed = record {
  label_lt = λ l e j a m. ground arith;
  expert_lt = λ l e j a m. ground arith;
  one_row = λ l e j a a' m n. ground arith;
}

pointers-AtHost : AtHost small pointers
unfolding AtHost entry
pointers-AtHost l e j a m = ground arith

abbrev route : Routing
route l = (2 ∷ 0 ∷ []) ∷ []

-- A step routes expert 2, which is promoted into the slot of expert 1 and lands.
abbrev events : List Event
events = begin ∷ end 1 1 route ∷ routed ∷ begin ∷ copied ∷ begin ∷ []

abbrev warm : Cache
warm = fill small pointers

abbrev ran : Cache
ran = run small events warm

promoted : ran.slot_of 0 2 ≡ some 1
unfolding run fill capacity sort unique_counts victim
promoted = refl

pointed : ran.table 2 ≡ 1010
unfolding run fill capacity sort unique_counts victim write entry
pointed = refl

run-Served_example : Served small ran 0 0 2 102
run-Served_example =
    run-Served small small-IsWellFormed pointers pointers-AtHost events 0 2 0 102 (inl refl)

fill-IsSound_example : IsSound small warm
fill-IsSound_example = fill-IsSound small small-IsWellFormed pointers pointers-AtHost

run-IsSound_example : IsSound small ran
run-IsSound_example = run-IsSound small small-IsWellFormed events warm fill-IsSound_example

run-QueueOk_example : QueueOk small ran
run-QueueOk_example = run-QueueOk small pointers events

-- Both slots are taken and expert 0 was routed just now, so the slot of expert 1 goes.
abbrev seen : Cache
seen = record warm { clock = 1; last_use = λ l e. if e == 0 then some 1 else none }

taken : victim small seen 0 ≡ some 1
unfolding victim fill
taken = refl

victim-eq-some_example :
    (1 < capacity small 0)
    × ((seen.owner 0 1 ≡ none)
        ⊎ (((t : ℕ) → t < capacity small 0 → seen.owner 0 t ≢ none) × Chosen small seen 0 1))
victim-eq-some_example = victim-eq-some small seen 0 1 taken

-- Both experts were routed in the step being planned from.
abbrev busy : Cache
busy = record warm { clock = 1; last_use = λ l e. some 1 }

untaken : victim small busy 0 ≡ none
unfolding victim fill
untaken = refl

one_slot : 1 < capacity small 0
unfolding capacity
one_slot = omega arith

-- Expert 3 of layer 0 is wanted twice, expert 0 of layer 0 once.
wanted-IsOrdered_example :
    let order = sort small 1 (unique_counts (3 ∷ 0 ∷ 3 ∷ [])) in
    IsOrdered small 1 order
    × Distinct (keys order)
    × ((x : ℕ) → total x order ≡ occurrences x (3 ∷ 0 ∷ 3 ∷ []))
wanted-IsOrdered_example = wanted-IsOrdered small 1 (3 ∷ 0 ∷ 3 ∷ [])

-- One step with a decode row, whose routing does not reach the host, and three without.
abbrev unread : Cache
unread = run small (end 1 1 route ∷ end 9 0 route ∷ end 9 0 route ∷ end 9 0 route ∷ []) warm

abbrev first_launch : Launch
first_launch = record { slot = 1; finished = false; rows = 1; mask = none; step_no = 1 }

unread_steps : unread.steps ≡ first_launch ∷ []
unfolding run fill capacity
unread_steps = refl

unread_step : unread.step ≡ 4
unfolding run fill capacity
unread_step = refl

first-LaunchOk : (n : ℕ) → 1 ≤ n → LaunchOk small n first_launch
first-LaunchOk n h = record {
  place_in_ring = refl;
  not_later = h;
  some_rows = omega arith;
  in_buffer = omega arith;
}

abbrev other_route : Routing
other_route l = (1 ∷ 1 ∷ []) ∷ []

step_end-ring_overwrites_example :
    In first_launch (step_end small unread 1 1 other_route).steps
    × ((step_end small unread 1 1 other_route).ring 1 ≡ other_route)
step_end-ring_overwrites_example =
    step_end-ring_overwrites small unread 1 1 other_route first_launch (rw unread_steps (inl refl))
      (rw unread_step (first-LaunchOk 4 (omega arith))) (rw unread_step refl)
      (rw unread_steps (omega arith)) (omega arith)

-- The same launch, one step later.
abbrev fresh : Cache
fresh = run small (end 1 1 route ∷ []) warm

fresh_step : fresh.step ≡ 1
unfolding run fill capacity
fresh_step = refl

step_end-ring_keeps_example : (step_end small fresh 1 1 other_route).ring 1 ≡ fresh.ring 1
step_end-ring_keeps_example =
    step_end-ring_keeps small fresh 1 1 other_route first_launch
      (rw fresh_step (first-LaunchOk 1 (omega arith))) (rw fresh_step (omega arith))

size_slots-fits_example :
    (size_slots 1000 400 900 800 10 3 64 ≤ 64)
    × (size_slots 1000 400 900 800 10 3 64 * (10 * 3) ≤ 1000)
    × (size_slots 1000 400 900 800 10 3 64 * (10 * 3) ≤ 900)
    × (size_slots 1000 400 900 800 10 3 64 * (10 * 3) ≤ max (1000 - 400) (900 - 800))
size_slots-fits_example = size_slots-fits 1000 400 900 800 10 3 64

few_slots : size_slots 1000 400 900 800 10 3 64 ≡ 20
unfolding size_slots
few_slots = refl

size_slots-honours_budget_example : 900 < 800 + (size_slots 1000 400 900 800 10 3 64 + 1) * (10 * 3)
size_slots-honours_budget_example =
    size_slots-honours_budget 1000 400 900 800 10 3 64 (omega arith) (omega (arith, few_slots))
      (omega arith)

abbrev layer_16 : HostLayer
layer_16 = record { hosted = 16; most_rows = 16; slot_bytes = 10 }

abbrev two_layers : Built
two_layers = build (auto 400) 1000 320 (some (100, 0)) 50 layer_16 (layer_16 ∷ [])

built_static : two_layers ≡ static_cache 320 50
unfolding build
built_static = refl

build-fits_example : (slot_memory two_layers ≤ 1000) × (slot_memory two_layers ≤ 320)
build-fits_example = build-fits 400 1000 320 (some (100, 0)) 50 layer_16 (layer_16 ∷ []) (refl, tt)
