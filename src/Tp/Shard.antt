-- ===== src/Tp/Shard.antt =====
-- The roles of the stored tensors, and the slices of a column and of a row split. A tensor is the
-- list along its first dimension of the lists along its second; one of one dimension has lists of one.
use vllm_exl3_plugin.Base.{ℕ, ◌-◌, ◌/◌, ◌||◌, List, map, take, drop, if◌then◌else◌}
use vllm_exl3_plugin.Base.Text.{Text, codes, text_eq}
use vllm_exl3_plugin.Format.Consts.{tile}

pub data Role : Type 0 where
  trellis suh svh scalar vocab : Role

unfoldable pub role_of : Text → Role
role_of name =
    if text_eq name (codes "trellis")
    then trellis
    else if text_eq name (codes "suh")
    then suh
    else if text_eq name (codes "svh")
    then svh
    else if text_eq name (codes "bq_q")
        || text_eq name (codes "bq_s")
        || text_eq name (codes "bq_r")
        || text_eq name (codes "et_table")
    then vocab
    else scalar

-- `t[first:last]`
abbrev pub slice {ℓ} : {A : Type ℓ} → ℕ → ℕ → List A → List A
slice first last t = take (last - first) (drop first t)

module _ {A : Type 0} where
  unfoldable pub shard_column : Role → List (List A) → ℕ → ℕ → List (List A)
  shard_column vocab t first last = slice first last t
  shard_column trellis t first last = map (slice (first / tile) (last / tile)) t
  shard_column svh t first last = slice first last t
  shard_column suh t first last = t
  shard_column scalar t first last = t

  unfoldable pub shard_row : Role → List (List A) → ℕ → ℕ → List (List A)
  shard_row vocab t first last = slice first last t
  shard_row trellis t first last = slice (first / tile) (last / tile) t
  shard_row suh t first last = slice first last t
  shard_row svh t first last = t
  shard_row scalar t first last = t
