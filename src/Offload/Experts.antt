-- ===== src/Offload/Experts.antt =====
-- `_plan_block`, `_host_quota` and `place_expert`: where the tensors of routed experts live.
use vllm_exl3_plugin.Base.{
  ℕ, zero, suc, ◌+◌, ◌-◌, ◌*◌, ◌/◌, max, Bool, ◌&&◌, ◌||◌, not, Option, none, some, List, [], ◌∷◌,
  ◌++◌, length, leb, ◌==◌, if◌then◌else◌, Result, ok, raise,
}
use vllm_exl3_plugin.Base.Text.{Text, codes, text_eq}
use vllm_exl3_plugin.Offload.State.{
  Offload, has_text, selected, usable, uva_loader, count, offloadable_components,
}

-- What the host answers: `MemAvailable`, `MemTotal`, the ranks on it, Python's decimal of a number, a
-- regex search, and `math.ceil(share * experts)` for a share of `free` in `want`, which is float
-- arithmetic.
pub record Host : Type 0 where
  pub available : ℕ
  pub in_total : ℕ
  pub ranks : ℕ
  pub decimal : ℕ → Text
  pub search : Text → Text → Bool
  pub ceil_share : ℕ → ℕ → ℕ → ℕ

-- `_HOST_MARGIN`
abbrev pub host_margin : ℕ
host_margin = 4294967296

-- A tensor: its shape, its bytes in all, and its contents.
pub record Tensor : Type 0 where
  pub shape : List ℕ
  pub nbytes : ℕ
  pub value : ℕ

-- A `HostBlock`: the experts in the order of their rows, the shape of a row, and what each row holds.
pub record Block : Type 0 where
  pub experts : List ℕ
  pub shape : List ℕ
  pub rows : ℕ → Option ℕ

-- A layer's collector. `blocks` has a projection's plan once it is made.
pub record Collector : Type 0 where
  pub prefix : Text
  pub name : Text
  pub num_experts : ℕ
  pub blocks : ℕ → Option (Option Block)

pub data Home : Type 0 where
  on_device : ℕ → Home
  in_row : ℕ → ℕ → Home

pub data OffloadError : Type 0 where
  other_shape : ℕ → OffloadError

-- The projections' labels: `gate`, `up` and `down`.
abbrev pub label_name : ℕ → Text
label_name label =
    if label == 0 then codes "gate" else if label == 1 then codes "up" else codes "down"

-- `{prefix}.{e}.{label}_proj.{name}` between dots.
abbrev pub expert_name : Host → Collector → ℕ → ℕ → Text
expert_name H c label e =
    codes "."
    ++ c.prefix
    ++ codes "."
    ++ H.decimal e
    ++ codes "."
    ++ label_name label
    ++ codes "_proj."
    ++ c.name
    ++ codes "."

-- `rows.get(expert_id)`: the first row of an expert, from row `r` on.
unfoldable pub row_from : ℕ → ℕ → List ℕ → Option ℕ
row_from r e [] = none
row_from r e (x ∷ xs) = let rest = row_from (suc r) e xs in if e == x then some r else rest

abbrev pub row_of : List ℕ → ℕ → Option ℕ
row_of experts e = row_from 0 e experts

abbrev pub set_block : Collector → ℕ → Option Block → Collector
set_block c label b = record c { blocks = λ j. if j == label then some b else c.blocks j }

abbrev pub set_row : Block → ℕ → ℕ → Block
set_row b row v = record b { rows = λ r. if r == row then some v else b.rows r }

-- What `place_expert` does once the plan stands: the row's view of a hosted expert, or the device's
-- copy.
unfoldable pub place_in :
    Collector
    → Offload
    → Tensor
    → ℕ
    → ℕ
    → Option Block
    → Result OffloadError (Home × Collector × Offload)
unfolding row_from
place_in c o t label e none = ok (on_device t.value, c, o)
place_in c o t label e (some b) = elim (row_of b.experts e) [
  | none ↦ ok (on_device t.value, c, o)
  | some row ↦
      if not (text_eq t.shape b.shape)
      then raise (other_shape e)
      else ok (in_row label row, set_block c label (some (set_row b row t.value)), o)
]

-- `_host_block` and the rows of the experts that were taken, if any.
abbrev pub block_for : Tensor → List ℕ → Option Block
block_for t [] = none
block_for t (x ∷ xs) = some (record { experts = x ∷ xs; shape = t.shape; rows = λ r. none })

module _ (H : Host) where
  -- The share of the experts that the host can hold, kept once decided. There is a tensor to place,
  -- so that neither the experts nor the bytes are none.
  unfoldable pub host_quota : Offload → ℕ → ℕ → ℕ × Offload
  host_quota o experts nbytes = elim (o.quota) [
    | some quota ↦ (quota, o)
    | none ↦
        let want = max (length o.moe_layers) 1 * experts * 3 * nbytes in
        let margin = max host_margin (H.in_total / 10) in
        let quota =
          if leb (want + margin) (H.available / H.ranks)
          then experts
          else H.ceil_share (H.available / H.ranks - margin) want experts in
        (quota, record o { quota = some quota })
  ]

  -- The loop over `n` experts from `e` on.
  unfoldable pub take_experts :
      Collector → ℕ → ℕ → Bool → ℕ → ℕ → ℕ → List ℕ → Offload → List ℕ × Offload
  unfolding selected count
  take_experts c label nbytes cached quota e zero taken o = (taken, o)
  take_experts c label nbytes cached quota e (suc n) taken o =
      let chosen = selected H.search o.params (expert_name H c label e) in
      let rest =
        take_experts c label nbytes cached quota (suc e) n
          (if chosen then taken ++ e ∷ [] else taken)
          (if chosen then count o c.prefix nbytes (not cached) else o) in
      if leb quota (length taken) || (not cached && leb o.limit o.spent) then (taken, o) else rest

  -- `cached` is whether the expert cache is on.
  unfoldable pub plan_block : Collector → Bool → Offload → Tensor → ℕ → Option Block × Offload
  unfolding usable uva_loader host_quota take_experts
  plan_block c cached o t label =
      if not (has_text c.name offloadable_components)
      then (none, o)
      else if not (usable o)
      then (none, o)
      else let asked = uva_loader o in
        let (quota, o1) : ℕ × Offload =
          if cached then host_quota asked c.num_experts t.nbytes else (c.num_experts, asked) in
        let (taken, o2) = take_experts c label t.nbytes cached quota 0 c.num_experts [] o1 in
        (block_for t taken, o2)

  -- The plan of a projection, made at the first expert to arrive.
  unfoldable pub planned :
      Collector → Bool → Offload → Tensor → ℕ → Option Block × Collector × Offload
  unfolding plan_block
  planned c cached o t label = elim (c.blocks label) [
    | some block ↦ (block, c, o)
    | none ↦ let (block, o1) = plan_block c cached o t label in (block, set_block c label block, o1)
  ]

  unfoldable pub place_expert :
      Collector → Bool → Offload → Tensor → ℕ → ℕ → Result OffloadError (Home × Collector × Offload)
  unfolding planned place_in
  place_expert c cached o t label e =
      let (plan, c1, o1) = planned c cached o t label in place_in c1 o1 t label e plan
