-- ===== src/Layers/Moe.antt =====
-- `EXL3MoEMethod`: one expert's slice for a rank, and the tables that a layer builds.
use vllm_exl3_plugin.Base.{
  ℕ, ◌*◌, Bool, true, false, Option, none, some, List, length, ◌==◌, if◌then◌else◌, ok, ◌>>=◌,
}
use vllm_exl3_plugin.Base.Text.{Text}
use vllm_exl3_plugin.Format.Consts.{Checked, tile}
use vllm_exl3_plugin.Format.Shards.{shard_bounds}
use vllm_exl3_plugin.Tp.Shard.{
  Role, trellis, suh, svh, scalar, vocab, role_of, shard_column, shard_row,
}
use vllm_exl3_plugin.Layers.Store.{width}

-- vLLM's shard ids `w1`, `w3` and `w2`.
pub data Projection : Type 0 where
  gate up down : Projection

abbrev pub is_column : Projection → Bool
is_column gate = true
is_column up = true
is_column down = false

-- The stored width that a split cuts, by role; `none` where the tensor is replicated.
unfoldable pub cut_width : {A : Type 0} → Bool → Role → List (List A) → Option ℕ
cut_width column trellis t = some ((if column then width t else length t) * tile)
cut_width column svh t = if column then some (length t) else none
cut_width column suh t = if column then none else some (length t)
cut_width column scalar t = none
cut_width column vocab t = none

abbrev pub split_at : {A : Type 0} → Bool → Role → List (List A) → ℕ → ℕ → List (List A)
split_at true role t first last = shard_column role t first last
split_at false role t first last = shard_row role t first last

-- This rank's slice of one expert's tensor.
unfoldable pub tp_shard :
    {A : Type 0} → Text → List (List A) → Projection → ℕ → ℕ → Checked (List (List A))
unfolding role_of cut_width shard_bounds shard_column shard_row
tp_shard name t shard_id tp_rank tp_size =
    if tp_size == 1 then ok t else elim (cut_width (is_column shard_id) (role_of name) t) [
      | none ↦ ok t
      | some dim ↦ do
        bounds ← shard_bounds dim tp_rank tp_size
        ok (split_at (is_column shard_id) (role_of name) t bounds.0 bounds.1)
    ]
