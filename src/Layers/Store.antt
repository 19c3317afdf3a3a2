-- ===== src/Layers/Store.antt =====
-- `EXL3Parameter`: what the loader hands over, cut for this rank and kept by output shard.
use vllm_exl3_plugin.Base.{
  ℕ, zero, suc, ◌+◌, ◌*◌, ◌/◌, Bool, false, Option, none, some, List, [], ◌∷◌, length, ◌==◌,
  if◌then◌else◌, ok, ◌>>=◌,
}
use vllm_exl3_plugin.Base.Text.{Text, codes, text_eq}
use vllm_exl3_plugin.Format.Consts.{Checked}
use vllm_exl3_plugin.Format.Fused.{Span, fused_shard_bounds}
use vllm_exl3_plugin.Tp.Shard.{Role, shard_column, shard_row}

-- A stored tensor: its first two dimensions as lists, and how many words each cell has.
pub record Sub (A : Type 0) : Type 0 where
  pub cells : List (List A)
  pub words : ℕ

abbrev pub width : {A : Type 0} → List (List A) → ℕ
width [] = 0
width (row ∷ rows) = length row

abbrev pub shape_of : {A : Type 0} → Sub A → List ℕ
shape_of t = length t.cells ∷ width t.cells ∷ t.words ∷ []

-- A loader's `shard_id`: `None`, a tuple, an index, or a letter.
pub data ShardId : Type 0 where
  whole : ShardId
  several : List ℕ → ShardId
  one : ℕ → ShardId
  letter : Text → ShardId

pub record Param (A : Type 0) : Type 0 where
  pub role : Role
  pub column_shard_size : Option ℕ
  pub row_shard_size : Option ℕ
  pub output_partition_sizes : List ℕ
  pub tp_rank : ℕ
  pub tp_size : ℕ
  pub shards : List (ℕ × Sub A)

-- The dict of the shards.
unfoldable pub get : {A : Type 0} → ℕ → List (ℕ × A) → Option A
get k [] = none
get k ((j, v) ∷ kept) = let rest = get k kept in if k == j then some v else rest

unfoldable pub put : {A : Type 0} → ℕ → A → List (ℕ × A) → List (ℕ × A)
put k v [] = (k, v) ∷ []
put k v ((j, w) ∷ kept) = let rest = put k v kept in if k == j then (k, v) ∷ kept else (j, w) ∷ rest

-- The integers from `i` on.
abbrev pub range : ℕ → ℕ → List ℕ
range i zero = []
range i (suc n) = i ∷ range (suc i) n

abbrev pub is_q : ShardId → Bool
is_q (letter name) = text_eq name (codes "q")
is_q _ = false

-- `num_heads or 1`
abbrev pub or_one : Option ℕ → ℕ
or_one none = 1
or_one (some n) = if n == 0 then 1 else n

-- `as_int` is vLLM's `_shard_id_as_int`. Where a tensor lives does not change what it holds.
module _ {A : Type 0} (as_int : ShardId → ℕ) where
  unfoldable pub store : Param A → Sub A → ShardId → Param A
  unfolding put
  store p t id = record p { shards = put (as_int id) t p.shards }

  unfoldable pub take_column : Param A → Sub A → Option ℕ → ℕ → Sub A
  unfolding shard_column
  take_column p t none index = t
  take_column p t (some size) index =
      if p.tp_size == 1
      then t
      else record t { cells = shard_column p.role t.cells (index * size) (index * size + size) }

  unfoldable pub take_row : Param A → Sub A → Option ℕ → ℕ → Sub A
  unfolding shard_row
  take_row p t none index = t
  take_row p t (some size) index =
      if p.tp_size == 1
      then t
      else record t { cells = shard_row p.role t.cells (index * size) (index * size + size) }

  unfoldable pub load_column_parallel_weight : Param A → Sub A → Param A
  unfolding store take_column
  load_column_parallel_weight p t = store p (take_column p t p.column_shard_size p.tp_rank) (one 0)

  unfoldable pub load_row_parallel_weight : Param A → Sub A → Param A
  unfolding store take_row
  load_row_parallel_weight p t = store p (take_row p t p.row_shard_size p.tp_rank) (one 0)

  unfoldable pub store_all : Param A → Sub A → List Span → Param A
  unfolding store shard_column
  store_all p t [] = p
  store_all p t (s ∷ spans) =
      store_all
        (store p (record t { cells = shard_column p.role t.cells s.first s.last }) (one s.index)) t
        spans

  -- The shards that a fused tensor covers.
  abbrev pub covered : Param A → ShardId → List ℕ
  covered p (several indices) = indices
  covered p _ = range 0 (length p.output_partition_sizes)

  unfoldable pub load_fused : Param A → Sub A → ShardId → Checked (Param A)
  unfolding store_all fused_shard_bounds
  load_fused p t id = do
    bounds ← fused_shard_bounds p.output_partition_sizes (covered p id) p.tp_rank p.tp_size
    ok (store_all p t bounds)

  -- `size` is `shard_size`, the column's where the caller gives none.
  abbrev pub size_or : Param A → Option ℕ → Option ℕ
  size_or p none = p.column_shard_size
  size_or p (some size) = some size

  abbrev pub store_column : Param A → Sub A → ShardId → Option ℕ → ℕ → Checked (Param A)
  store_column p t whole size index = load_fused p t whole
  store_column p t (several indices) size index = load_fused p t (several indices)
  store_column p t id size index = ok (store p (take_column p t (size_or p size) index) id)

  unfoldable pub load_merged_column_weight :
      Param A → Sub A → ShardId → Option ℕ → Checked (Param A)
  unfolding load_fused store take_column
  load_merged_column_weight p t id size = store_column p t id size p.tp_rank

  unfoldable pub load_qkv_weight :
      Param A → Sub A → ShardId → Option ℕ → Option ℕ → Checked (Param A)
  unfolding load_fused store take_column
  load_qkv_weight p t id size num_heads =
      store_column p t id size (if is_q id then p.tp_rank else p.tp_rank / or_one num_heads)

  unfoldable pub release : Param A → Param A
  release p = record p { shards = [] }
