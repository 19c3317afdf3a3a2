-- ===== src/Format/Fused.antt =====
-- `fused_shard_bounds`: where each output shard of a fused tensor lies, for one rank.
use vllm_exl3_plugin.Base.{
  ℕ, ◌+◌, ◌*◌, ◌%◌, ◌≤◌, ◌<◌, none, some, List, [], ◌∷◌, ◌==◌, if◌then◌else◌, ok, raise, ◌>>=◌, not,
  get_elem?, length,
}
use vllm_exl3_plugin.Format.Consts.{
  had_block, Checked, unknown_partitions, no_such_shard, cut_fused_block,
}

-- One entry of the list that `fused_shard_bounds` returns: the shard, and its columns.
pub record Span : Type 0 where
  pub index : ℕ
  pub first : ℕ
  pub last : ℕ

module _ (sizes : List ℕ) (tp_rank tp_size : ℕ) where
  -- The loop over the indices from a given offset.
  unfoldable pub fused_loop : ℕ → List ℕ → Checked (List Span)
  fused_loop offset [] = ok []
  fused_loop offset (index ∷ indices) = elim (get_elem? sizes index) [
    | none ↦ raise (no_such_shard index (length sizes))
    | some per_rank ↦
        if not (per_rank % had_block == 0) then raise (cut_fused_block index per_rank) else do
          rest ← fused_loop (offset + per_rank * tp_size) indices
          ok (
              record {
                index = index;
                first = offset + tp_rank * per_rank;
                last = offset + tp_rank * per_rank + per_rank;
              }
              ∷ rest)
  ]

unfoldable pub fused_shard_bounds : List ℕ → List ℕ → ℕ → ℕ → Checked (List Span)
unfolding fused_loop
fused_shard_bounds [] indices tp_rank tp_size = raise unknown_partitions
fused_shard_bounds (s ∷ sizes) indices tp_rank tp_size =
    fused_loop (s ∷ sizes) tp_rank tp_size 0 indices

-- A column lies in a span.
abbrev pub Holds : Span → ℕ → Type 0
Holds s c = (s.first ≤ c) × (c < s.last)

-- The columns that the shards of the indices fill, over all ranks.
abbrev pub fused_width : List ℕ → ℕ → List ℕ → ℕ
fused_width sizes tp_size [] = 0
fused_width sizes tp_size (index ∷ indices) = elim (get_elem? sizes index) [
  | none ↦ 0
  | some per_rank ↦ per_rank * tp_size + fused_width sizes tp_size indices
]
