-- ===== src/Offload/Staging.antt =====
-- `build_staging` and `expert_tables`: one window for every layer's hosted experts.
use vllm_exl3_plugin.Base.{
  ℕ, zero, suc, ◌+◌, ◌-◌, ◌*◌, ◌/◌, max, Bool, ◌&&◌, Option, none, some, List, [], ◌∷◌, length, ltb,
  leb, ◌==◌, if◌then◌else◌,
}
use vllm_exl3_plugin.Offload.Experts.{row_of, row_from}

-- A projection's block as staging sees it: the experts in the order of their rows, the bytes of a
-- row, and the bytes themselves.
pub record HostRows : Type 0 where
  pub experts : List ℕ
  pub row_bytes : ℕ
  pub byte : ℕ → ℕ → ℕ

-- A layer: its blocks in the dict's order, by projection, and its own pointer tables.
pub record HostedLayer : Type 0 where
  pub blocks : List (ℕ × HostRows)
  pub tables : ℕ → ℕ → ℕ

abbrev pub nbytes : HostRows → ℕ
nbytes b = length b.experts * b.row_bytes

-- `_ALIGN`
abbrev pub align : ℕ
align = 256

-- `-(-n // _ALIGN) * _ALIGN`
abbrev pub aligned : ℕ → ℕ
aligned n = (n + (align - 1)) / align * align

-- `exl3_host_blocks.get(label)`
unfoldable pub block_of : List (ℕ × HostRows) → ℕ → Option HostRows
block_of [] label = none
block_of ((j, b) ∷ blocks) label =
    let rest = block_of blocks label in if label == j then some b else rest

-- `offsets[label]`, where the first block stands at `off`.
unfoldable pub offset_from : ℕ → List (ℕ × HostRows) → ℕ → ℕ
offset_from off [] label = off
offset_from off ((j, b) ∷ blocks) label =
    let rest = offset_from (off + aligned (nbytes b)) blocks label in
    if label == j then off else rest

-- The bytes that a layer's blocks take in the window.
unfoldable pub layer_size : List (ℕ × HostRows) → ℕ
layer_size [] = 0
layer_size ((j, b) ∷ blocks) = aligned (nbytes b) + layer_size blocks

unfoldable pub window_size : List HostedLayer → ℕ
unfolding layer_size
window_size [] = 0
window_size (l ∷ ls) = max (layer_size l.blocks) (window_size ls)

-- The staged table of a projection: `base` is where the window stands.
unfoldable pub staged_table : ℕ → HostedLayer → ℕ → ℕ → ℕ
unfolding block_of offset_from row_from
staged_table base l label e = elim (block_of l.blocks label) [
  | none ↦ l.tables label e
  | some b ↦ elim (row_of b.experts e) [
    | none ↦ l.tables label e
    | some row ↦ base + offset_from 0 l.blocks label + row * b.row_bytes
  ]
]

-- Device memory, by address.
abbrev pub Memory : Type 0
Memory = ℕ → ℕ

-- `dst.copy_(src)`: the bytes of a block, row after row.
unfoldable pub copy_block : ℕ → HostRows → Memory → Memory
copy_block at b m a =
    if leb at a && ltb a (at + nbytes b)
    then b.byte ((a - at) / b.row_bytes) ((a - at) - (a - at) / b.row_bytes * b.row_bytes)
    else m a

-- The copy of a layer's block for one label, if it has one.
unfoldable pub stage_label : ℕ → HostedLayer → ℕ → Memory → Memory
unfolding block_of offset_from copy_block
stage_label base l label m = elim (block_of l.blocks label) [
  | none ↦ m
  | some b ↦ copy_block (base + offset_from 0 l.blocks label) b m
]

-- The copies of a layer, for the labels from `label` on.
unfoldable pub stage_labels : ℕ → HostedLayer → ℕ → ℕ → Memory → Memory
unfolding stage_label
stage_labels base l label zero m = m
stage_labels base l label (suc n) m = stage_labels base l (suc label) n (stage_label base l label m)

-- The tables for a batch of `tokens`, and the memory as the GEMM that follows finds it. `staged` is
-- false where the layer has no host blocks.
unfoldable pub expert_tables : ℕ → ℕ → Bool → HostedLayer → ℕ → Memory → (ℕ → ℕ → ℕ) × Memory
unfolding staged_table stage_labels
expert_tables stage_min_tokens base staged l tokens m =
    if staged && ltb stage_min_tokens tokens
    then (staged_table base l, stage_labels base l 0 3 m)
    else (l.tables, m)
