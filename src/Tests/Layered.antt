-- ===== src/Tests/Layered.antt =====
-- A fused tensor over two ranks, an expert's slices, a linear layer and a layer of one expert.
use vllm_exl3_plugin.Base.{
  ℕ, ◌*◌, ◌≡◌, ◌↔◌, inl, inr, refl, ap, true, false, ◌||◌, Option, none, some, List, [], ◌∷◌, ◌++◌,
  map, replicate, get_elem?, ◌==◌, if◌then◌else◌, arith, In, ok,
}
use vllm_exl3_plugin.Base.Text.{codes, text_eq}
use vllm_exl3_plugin.Format.Widths.{Width}
use vllm_exl3_plugin.Format.Shards.{check_tp_split}
use vllm_exl3_plugin.Format.Fused.{Span, fused_shard_bounds}
use vllm_exl3_plugin.Tp.Shard.{svh, trellis, role_of, shard_column}
use vllm_exl3_plugin.Layers.Store.{
  Sub, width, ShardId, whole, several, one, letter, Param, get, load_fused,
}
use vllm_exl3_plugin.Layers.Linear.{Layer, validate_tp, Params, Shard, load_shards}
use vllm_exl3_plugin.Layers.Fused.{load_fused-get}
use vllm_exl3_plugin.Layers.Ready.{AllFitting, load_shards_iff}
use vllm_exl3_plugin.Layers.Moe.{Projection, gate, up, down, tp_shard}
use vllm_exl3_plugin.Layers.Rejoin.{Even, rejoin, tp_shard-rebuilds}
use vllm_exl3_plugin.Layers.Tables.{MoeParams, Group, Tables, process}
use vllm_exl3_plugin.Layers.Complete.{IsGroup, process-IsGroup}

-- vLLM's numbers for the shard ids that come up here.
abbrev as_int : ShardId → ℕ
as_int whole = 0
as_int (several indices) = 0
as_int (one n) = n
as_int (letter name) =
    if text_eq name (codes "q") then 0 else if text_eq name (codes "k") then 1 else 2

-- An output scale of 512 for two shards of 128 on each of two ranks.
abbrev scale : Sub ℕ
scale = record { cells = replicate 256 (0 ∷ []) ++ replicate 256 (1 ∷ []); words = 0 }

abbrev param : Param ℕ
param = record {
  role = svh;
  column_shard_size = some 128;
  row_shard_size = none;
  output_partition_sizes = 128 ∷ 128 ∷ [];
  tp_rank = 1;
  tp_size = 2;
  shards = [];
}

abbrev merged : Layer
merged = record { row_parallel = false; input_size = 256; output_sizes = 128 ∷ 128 ∷ [] }

zero_new : In {A = ℕ} 0 (1 ∷ []) → ⊥
zero_new (inl e) = absurd (omega arith)
zero_new (inr l) = l

shard_known : (i : ℕ) → In i (0 ∷ 1 ∷ []) → (s : ℕ) × (get_elem? (128 ∷ 128 ∷ []) i ≡ some s)
shard_known i (inl e) = (128, ap (get_elem? (128 ∷ 128 ∷ [])) e)
shard_known i (inr (inl e)) = (128, ap (get_elem? (128 ∷ 128 ∷ [])) e)
shard_known i (inr (inr l)) = absurd l

load_fused-get_example :
    (p' : Param ℕ) × (spans : List Span) × (load_fused as_int param scale (several (0 ∷ 1 ∷ []))
      ≡ ok p')
    × (fused_shard_bounds (128 ∷ 128 ∷ []) (0 ∷ 1 ∷ []) 1 2 ≡ ok spans)
    × (map (λ s. s.index) spans ≡ 0 ∷ 1 ∷ [])
    × ((s : Span)
        → In s spans
        → get s.index p'.shards
          ≡ some (record scale { cells = shard_column svh scale.cells s.first s.last }))
unfolding validate_tp check_tp_split
load_fused-get_example =
    load_fused-get as_int merged param scale (several (0 ∷ 1 ∷ [])) (λ n. refl) (omega arith) refl
      refl refl (omega arith) (zero_new, ((λ m. m), tt)) shard_known

-- The up projection of an expert, of 4 rows of 16 tiles: 128 stored columns for each of two ranks.
abbrev tiles : List (List ℕ)
tiles = replicate 4 (replicate 8 0 ++ replicate 8 1)

tiles-Even : Even tiles
tiles-Even = (refl, (refl, (refl, (refl, tt))))

-- The second rank's slice, the last 8 tiles of each row.
second_slice : tp_shard (codes "trellis") tiles up 1 2 ≡ ok (replicate 4 (replicate 8 1))
unfolding tp_shard
second_slice = refl

tp_shard-rebuilds_example :
    (parts : ℕ → List (List ℕ)) × ((r : ℕ) → tp_shard (codes "trellis") tiles up r 2 ≡ ok (parts r))
    × (rejoin true trellis parts 2 ≡ tiles)
unfolding role_of
tp_shard-rebuilds_example =
    tp_shard-rebuilds (codes "trellis") tiles up 1 2 (replicate 4 (replicate 8 1)) (omega arith)
      tiles-Even second_slice

-- A linear layer of 100 inputs, stored as 128, and 128 outputs, at 3 bits.
abbrev stored : List (List ℕ) → ℕ → Param ℕ
stored cells words = record {
  role = trellis;
  column_shard_size = none;
  row_shard_size = none;
  output_partition_sizes = 128 ∷ [];
  tp_rank = 0;
  tp_size = 1;
  shards = (0, record { cells = cells; words = words }) ∷ [];
}

abbrev params : Params ℕ
params =
    (codes "trellis", stored (replicate 8 (replicate 8 0)) 48)
    ∷ (codes "suh", stored (replicate 128 (0 ∷ [])) 0)
    ∷ (codes "svh", stored (replicate 128 (1 ∷ [])) 0)
    ∷ []

abbrev loaded : List (Shard ℕ)
loaded =
    record {
      trellis = record { cells = replicate 8 (replicate 8 0); words = 48 };
      suh = record { cells = replicate 128 (0 ∷ []); words = 0 };
      svh = record { cells = replicate 128 (1 ∷ []); words = 0 };
      bits = Width.whole 3;
    }
    ∷ []

load_shards-iff_example :
    (load_shards params false 100 0 (128 ∷ []) ≡ ok loaded)
    ↔ AllFitting params false 100 0 (128 ∷ []) loaded
load_shards-iff_example = load_shards_iff params false 100 (128 ∷ []) loaded

load_shards_run : load_shards params false 100 0 (128 ∷ []) ≡ ok loaded
unfolding load_shards
load_shards_run = refl

-- One expert whose gate, up and down are all 3 bits.
abbrev expert : Sub ℕ → Projection → ℕ → Option (Sub ℕ)
expert t shard_id e = if e == 0 then some t else none

abbrev trellis_of : Sub ℕ
trellis_of = record { cells = (0 ∷ 1 ∷ []) ∷ []; words = 48 }

abbrev scale_of : Sub ℕ
scale_of = record { cells = (2 ∷ []) ∷ []; words = 0 }

abbrev moe : MoeParams ℕ
moe name =
    if text_eq name (codes "w13_trellis") || text_eq name (codes "w2_trellis")
    then some (expert trellis_of)
    else some (expert scale_of)

abbrev one_group : Group ℕ
one_group = record {
  trellis = trellis_of ∷ [];
  suh = scale_of ∷ [];
  svh = scale_of ∷ [];
  bits = Width.whole 3;
}

abbrev tables : Tables ℕ
tables = record { gates = one_group; ups = one_group; downs = one_group; stored_intermediate = 32 }

processed : process moe 1 false ≡ ok tables
unfolding process
processed = refl

process-IsGroup_example :
    IsGroup moe 1 false gate one_group
    × IsGroup moe 1 false up one_group
    × IsGroup moe 1 false down one_group
    × (Width.whole 3 ≡ Width.whole 3)
    × ((e : ℕ) (t : Sub ℕ) → get_elem? (trellis_of ∷ []) e ≡ some t → width t.cells * 16 ≡ 32)
process-IsGroup_example = process-IsGroup moe 1 false tables processed
