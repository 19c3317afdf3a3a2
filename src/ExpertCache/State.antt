-- ===== src/ExpertCache/State.antt =====
-- What an `ExpertCache` holds. The device's side of it is part of the state: what each slot's
-- memory contains, and which recorded events have completed.
use vllm_exl3_plugin.Base.{
  ℕ, zero, suc, ◌+◌, ◌*◌, min, Bool, true, false, ◌&&◌, Option, List, [], ◌∷◌, length, ◌==◌,
  if◌then◌else◌,
}

abbrev pub ring_size : ℕ
ring_size = 4

abbrev pub labels : ℕ
labels = 3

-- What construction fixes: the layers with their hosted experts, the slot tensors' addresses, and
-- the settings read from the environment.
pub record Layout : Type 0 where
  pub layers : ℕ
  pub experts : ℕ
  pub slots : ℕ
  pub budget : ℕ
  pub stage_rows : ℕ
  pub stats_every : ℕ
  -- `host[l][e]`: a label's index and its host address, for each label that the expert has a row
  -- in; empty for an expert that is not hosted.
  pub host : ℕ → ℕ → List (ℕ × ℕ)
  -- The data pointer of `slot_tensors[l][j]` and the bytes of one slot of it.
  pub slot_base : ℕ → ℕ → ℕ
  pub slot_bytes : ℕ → ℕ → ℕ

-- An expert of a layer, as (l, e).
abbrev pub Ref : Type 0
Ref = ℕ × ℕ

-- A table write: the flat index and the address.
abbrev pub Update : Type 0
Update = ℕ × ℕ

-- What the bytes of one label's slot are: not yet written, a copy that may be under way, or all
-- bytes of an expert.
pub data Content : Type 0 where
  blank : Content
  copying : ℕ → Content
  bytes_of : ℕ → Content

-- An entry of `pending`: whether its event has completed, the promoted experts, and the slots that
-- their copies were issued into.
pub record Batch : Type 0 where
  pub landed : Bool
  pub moved : List Ref
  pub target : ℕ → ℕ → Option ℕ

-- An entry of `steps`: the ring slot, whether its event has completed, the decode rows, the live
-- mask it ran with, and the step number.
pub record Launch : Type 0 where
  pub slot : ℕ
  pub finished : Bool
  pub rows : ℕ
  pub mask : Option (ℕ → ℕ → Bool)
  pub step_no : ℕ

pub record Stats : Type 0 where
  pub hits : ℕ
  pub misses : ℕ
  pub resident_hits : ℕ
  pub promoted : ℕ
  pub planned : ℕ
  pub lag : ℕ
  pub window_steps : ℕ
  pub decode_steps : ℕ
  pub staged_steps : ℕ

abbrev pub no_stats : Stats
no_stats = record {
  hits = 0;
  misses = 0;
  resident_hits = 0;
  promoted = 0;
  planned = 0;
  lag = 0;
  window_steps = 0;
  decode_steps = 0;
  staged_steps = 0;
}

-- One layer's routing: a list of expert ids for each recorded row.
abbrev pub Routing : Type 0
Routing = ℕ → List (List ℕ)

-- The arrays' -1 is `none`.
pub record Cache : Type 0 where
  pub table : ℕ → ℕ
  pub slot_of : ℕ → ℕ → Option ℕ
  pub owner : ℕ → ℕ → Option ℕ
  pub live : ℕ → ℕ → Bool
  pub last_use : ℕ → ℕ → Option ℕ
  pub pending : List Batch
  pub ring : ℕ → Routing
  pub steps : List Launch
  pub step : ℕ
  pub clock : ℕ
  pub stats : Stats
  pub contents : ℕ → ℕ → ℕ → Content

-- Assignments to an element of an array.
abbrev pub update {ℓ} : {A : Type ℓ} → (ℕ → A) → ℕ → A → ℕ → A
update f i v j = if j == i then v else f j

abbrev pub update2 {ℓ} : {A : Type ℓ} → (ℕ → ℕ → A) → ℕ → ℕ → A → ℕ → ℕ → A
update2 f l e v l' e' = if l' == l && e' == e then v else f l' e'

module _ (K : Layout) where
  -- `offloaded[l, e]`
  unfoldable pub offloaded : ℕ → ℕ → Bool
  offloaded l e = elim (K.host l e) [ [] ↦ false | _ ∷ _ ↦ true ]

  -- The experts from `e` on, `n` of them, that layer `l` hosts.
  unfoldable pub hosted_from : ℕ → ℕ → ℕ → List ℕ
  unfolding offloaded
  hosted_from l e zero = []
  hosted_from l e (suc n) =
      let rest = hosted_from l (suc e) n in if offloaded l e then e ∷ rest else rest

  -- `sorted(self.host[l])`
  unfoldable pub hosted : ℕ → List ℕ
  unfolding hosted_from
  hosted l = hosted_from l 0 K.experts

  -- `capacity[l]`
  unfoldable pub capacity : ℕ → ℕ
  unfolding hosted
  capacity l = min K.slots (length (hosted l))

  abbrev pub slot_addr : ℕ → ℕ → ℕ → ℕ
  slot_addr l j s = K.slot_base l j + s * K.slot_bytes l j

  -- `_entry`
  unfoldable pub entry : ℕ → ℕ → ℕ → ℕ
  entry l j e = (l * labels + j) * K.experts + e

-- `_write`: the updates in order.
unfoldable pub write : (ℕ → ℕ) → List Update → ℕ → ℕ
write table [] = table
write table ((i, v) ∷ updates) = write (update table i v) updates
