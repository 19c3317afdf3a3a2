-- ===== src/ExpertCache/Build.antt =====
-- `build`: how many slots the layers get, and which kind of cache comes of it.
use native.Mathlib.Nat.{mul-le-mul}
use vllm_exl3_plugin.Base.{
  ℕ, ◌+◌, ◌-◌, ◌*◌, ◌≤◌, ◌≡◌, refl, min, max, Bool, true, ◌&&◌, Option, none, some, List, [], ◌∷◌,
  length, leb, ◌==◌, arith, if◌then◌else◌, All,
}
use vllm_exl3_plugin.ExpertCache.Sizing.{size_slots, size_slots-fits}

-- A layer with host blocks: its hosted experts, the most rows of a block, the bytes of one slot.
pub record HostLayer : Type 0 where
  pub hosted : ℕ
  pub most_rows : ℕ
  pub slot_bytes : ℕ

-- What is sized for: a fixed count, or the KV reserve in bytes.
pub data Mode : Type 0 where
  fixed : ℕ → Mode
  auto : ℕ → Mode

-- No cache, one that holds every hosted expert and gives the staging window back, or one with a
-- controller; with the bytes that its slots take.
pub data Built : Type 0 where
  no_cache : Built
  static_cache : ℕ → ℕ → Built
  controlled : ℕ → Built

unfoldable pub per_layer_max : List HostLayer → ℕ
per_layer_max [] = 0
per_layer_max (l ∷ ls) = max l.most_rows (per_layer_max ls)

-- The bytes of all slot tensors.
unfoldable pub used_bytes : ℕ → List HostLayer → ℕ
used_bytes slots [] = 0
used_bytes slots (l ∷ ls) = min slots l.hosted * l.slot_bytes + used_bytes slots ls

unfoldable pub holds_everything : ℕ → List HostLayer → Bool
holds_everything slots [] = true
holds_everything slots (l ∷ ls) = leb l.hosted (min slots l.hosted) && holds_everything slots ls

-- What the offload budget lets experts give up: `loader` is its limit and what is used of it.
abbrev pub may_free : ℕ → Option (ℕ × ℕ) → ℕ
may_free hosted_bytes none = hosted_bytes
may_free hosted_bytes (some (limit, taken)) = max (limit - taken) 0

unfoldable pub slot_count : Mode → ℕ → ℕ → Option (ℕ × ℕ) → HostLayer → List HostLayer → ℕ
unfolding per_layer_max size_slots
slot_count (fixed count) available hosted_bytes loader first layers =
    min count (per_layer_max (first ∷ layers))
slot_count (auto reserve) available hosted_bytes loader first layers =
    size_slots available reserve hosted_bytes (may_free hosted_bytes loader) first.slot_bytes
      (length (first ∷ layers)) (per_layer_max (first ∷ layers))

-- `window` is the size of the staging window, 0 if there is none.
unfoldable pub build : Mode → ℕ → ℕ → Option (ℕ × ℕ) → ℕ → HostLayer → List HostLayer → Built
unfolding slot_count used_bytes holds_everything
build mode available hosted_bytes loader window first layers =
    let slots = slot_count mode available hosted_bytes loader first layers in
    let used = used_bytes slots (first ∷ layers) in
    if slots == 0
    then no_cache
    else if holds_everything slots (first ∷ layers)
    then static_cache used window
    else controlled used

-- The bytes that the slots of a built cache take.
unfoldable pub slot_memory : Built → ℕ
slot_memory no_cache = 0
slot_memory (static_cache used window) = used
slot_memory (controlled used) = used

used_bytes_le :
    (slots bytes : ℕ) (layers : List HostLayer)
    → All (λ l. l.slot_bytes ≡ bytes) layers
    → used_bytes slots layers ≤ slots * (bytes * length layers)
unfolding used_bytes
used_bytes_le slots bytes [] h = omega arith
used_bytes_le slots bytes (l ∷ ls) (e, h) =
    let rest = used_bytes_le slots bytes ls h in
    let here : min slots l.hosted * l.slot_bytes ≤ slots * bytes =
      mul-le-mul (omega arith) (rw e (omega arith)) in
    grind arith

-- Where a slot takes the same bytes in every layer, the slots of an automatically sized cache take no
-- more than the memory available, nor more than the hosted experts do.
pub build-fits :
    (reserve available hosted_bytes : ℕ) (loader : Option (ℕ × ℕ)) (window : ℕ) (first : HostLayer)
    (layers : List HostLayer)
    → All (λ l. l.slot_bytes ≡ first.slot_bytes) layers
    → (slot_memory (build (auto reserve) available hosted_bytes loader window first layers)
        ≤ available)
      × (slot_memory (build (auto reserve) available hosted_bytes loader window first layers)
          ≤ hosted_bytes)
unfolding build slot_memory slot_count
build-fits reserve available hosted_bytes loader window first layers same =
    let plm = per_layer_max (first ∷ layers) in
    let n = length (first ∷ layers) in
    let (_, a, b, _) =
      size_slots-fits available reserve hosted_bytes (may_free hosted_bytes loader) first.slot_bytes
        n plm in
    let used =
      used_bytes_le
        (size_slots available reserve hosted_bytes (may_free hosted_bytes loader) first.slot_bytes n
          plm)
        first.slot_bytes (first ∷ layers) (refl, same) in
    (grind arith, grind arith)
