-- ===== src/Format/Shards.antt =====
-- Splits of a dimension over tensor-parallel ranks, and of a fused tensor over its output shards.
use vllm_exl3_plugin.Base.{
  ℕ, ◌+◌, ◌*◌, ◌/◌, ◌%◌, ◌<◌, ◌≡◌, arith, leb, ◌==◌, if◌then◌else◌, ok, raise, ◌>>=◌, ◌>>◌, not,
}
use vllm_exl3_plugin.Format.Consts.{
  had_block, is_had_aligned, Checked, uneven_split, cut_block, floor_div, floor_div_pos,
}

unfoldable pub check_tp_split : ℕ → ℕ → Checked (Unit {0})
unfolding is_had_aligned
check_tp_split dim_size tp_size =
    if leb tp_size 1
    then ok tt
    else if not (dim_size % tp_size == 0)
    then raise (uneven_split dim_size tp_size)
    else if not (is_had_aligned (dim_size / tp_size))
    then raise (cut_block (dim_size / tp_size))
    else ok tt

unfoldable pub shard_bounds : ℕ → ℕ → ℕ → Checked (ℕ × ℕ)
unfolding check_tp_split floor_div
shard_bounds dim_size tp_rank tp_size = do
  check_tp_split dim_size tp_size
  per_rank ← floor_div dim_size tp_size
  ok (tp_rank * per_rank, (tp_rank + 1) * per_rank)

-- An admitted split of a dimension over more than one rank gives ranks that follow one another,
-- from 0 to the whole dimension, each boundary on a whole Hadamard block.
pub shard_bounds-tiles :
    (dim_size tp_size : ℕ)
    → 1 < tp_size
    → check_tp_split dim_size tp_size ≡ ok tt
    → (per_rank : ℕ) × (per_rank % had_block ≡ 0)
      × (tp_size * per_rank ≡ dim_size)
      × ((r : ℕ) → shard_bounds dim_size r tp_size ≡ ok (r * per_rank, (r + 1) * per_rank))
unfolding shard_bounds
shard_bounds-tiles dim_size tp_size h c = (
  dim_size / tp_size,
  grind arith,
  grind arith,
  λ r. rw c (rw (floor_div_pos dim_size tp_size (omega arith))),
)
