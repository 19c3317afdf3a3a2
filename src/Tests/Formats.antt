-- ===== src/Tests/Formats.antt =====
-- Shapes, splits and names at concrete inputs.
use vllm_exl3_plugin.Base.{
  ℕ, suc, ◌+◌, ◌*◌, ◌%◌, ◌≡◌, ◌<◌, ◌↔◌, inl, refl, arith, false, none, List, [], ◌∷◌, ◌++◌, In, ok,
  replicate,
}
use vllm_exl3_plugin.Base.Text.{codes, ends_with}
use vllm_exl3_plugin.Format.Consts.{pad_dim, had_block}
use vllm_exl3_plugin.Format.Widths.{
  whole, bits_from_trellis_shape, dims_from_trellis_shape, trellis_shape, trellis_shape-roundtrip,
  bits_from_trellis_shape-roundtrip,
}
use vllm_exl3_plugin.Format.Shards.{check_tp_split, shard_bounds, shard_bounds-tiles}
use vllm_exl3_plugin.Format.Fused.{Span, Holds, fused_shard_bounds}
use vllm_exl3_plugin.Format.Spans.{
  IsSound, fused_shard_bounds-partition, fused_shard_bounds-IsSound,
}
use vllm_exl3_plugin.Format.Blockq.{Shapes, blockq_shapes, blockq_bpw}
use vllm_exl3_plugin.Format.Keys.{
  quantized_module_keys, trellis_suffix, embed_trellis_suffix, In-quantized_module_keys,
}
use vllm_exl3_plugin.Tp.Shard.{trellis}
use vllm_exl3_plugin.Tp.Rebuild.{gathered, rank_row, Cuttable, shard_row-rebuilds}

three_bits : trellis_shape 256 128 (whole 3) ≡ ok (16 ∷ 8 ∷ 48 ∷ [])
unfolding trellis_shape
three_bits = refl

trellis_shape-roundtrip_example :
    (dims_from_trellis_shape (16 ∷ 8 ∷ 48 ∷ []) ≡ ok (256, 128))
    × (bits_from_trellis_shape (16 ∷ 8 ∷ 48 ∷ []) none ≡ ok (whole 3))
trellis_shape-roundtrip_example =
    trellis_shape-roundtrip 256 128 (whole 3) none (16 ∷ 8 ∷ 48 ∷ []) three_bits tt

three_words : bits_from_trellis_shape (16 ∷ 8 ∷ 48 ∷ []) none ≡ ok (whole 3)
unfolding bits_from_trellis_shape
three_words = refl

bits_from_trellis_shape-roundtrip_example :
    (n : ℕ) × (m : ℕ) × (dims_from_trellis_shape (16 ∷ 8 ∷ 48 ∷ []) ≡ ok (n, m))
    × (trellis_shape n m (whole 3) ≡ ok (16 ∷ 8 ∷ 48 ∷ []))
bits_from_trellis_shape-roundtrip_example =
    bits_from_trellis_shape-roundtrip (16 ∷ 8 ∷ 48 ∷ []) none (whole 3) three_words

padded_200 : pad_dim 200 (suc 127) ≡ ok 256
unfolding pad_dim
padded_200 = refl

split_256 : check_tp_split 256 2 ≡ ok tt
unfolding check_tp_split
split_256 = refl

shard_bounds-tiles_example :
    (per_rank : ℕ) × (per_rank % had_block ≡ 0)
    × (2 * per_rank ≡ 256)
    × ((r : ℕ) → shard_bounds 256 r 2 ≡ ok (r * per_rank, (r + 1) * per_rank))
shard_bounds-tiles_example = shard_bounds-tiles 256 2 (omega arith) split_256

-- Sixteen rows of tiles, told apart by nothing but their place.
abbrev tiles : List (List ℕ)
tiles = (0 ∷ []) ∷ (1 ∷ []) ∷ replicate 13 (7 ∷ []) ++ (9 ∷ []) ∷ []

tiles-Cuttable : Cuttable 256 2 trellis tiles
unfolding Cuttable
tiles-Cuttable = refl

shard_row-rebuilds_example : gathered (rank_row 256 2 trellis tiles) 2 ≡ ok tiles
shard_row-rebuilds_example =
    shard_row-rebuilds 256 2 trellis tiles (omega arith) split_256 tiles-Cuttable

abbrev spans : ℕ → List Span
spans r =
    record { index = 1; first = 0 + r * 256; last = 0 + r * 256 + 256 }
    ∷ record { index = 0; first = 512 + r * 128; last = 512 + r * 128 + 128 }
    ∷ []

spans_given : (r : ℕ) → fused_shard_bounds (128 ∷ 256 ∷ []) (1 ∷ 0 ∷ []) r 2 ≡ ok (spans r)
unfolding fused_shard_bounds
spans_given r = refl

fused_shard_bounds-partition_example :
    (r : ℕ) × (s : Span) × (r < 2)
    × In s (spans r)
    × Holds s 700
    × ((r' : ℕ) (s' : Span) → r' < 2 → In s' (spans r') → Holds s' 700 → (r ≡ r') × (s ≡ s'))
fused_shard_bounds-partition_example =
    fused_shard_bounds-partition (128 ∷ 256 ∷ []) (1 ∷ 0 ∷ []) 2 spans 700 spans_given (omega arith)

fused_shard_bounds-IsSound_example :
    IsSound (128 ∷ 256 ∷ []) 2 (record { index = 1; first = 256; last = 512 })
fused_shard_bounds-IsSound_example =
    fused_shard_bounds-IsSound (128 ∷ 256 ∷ []) (1 ∷ 0 ∷ []) 1 2 (spans 1)
      (record { index = 1; first = 256; last = 512 }) (spans_given 1) (inl refl)

abbrev shapes_64 : Shapes
shapes_64 = record { bq_q = 10 ∷ 32 ∷ []; bq_s = 10 ∷ 2 ∷ 2 ∷ []; bq_r = 10 ∷ 4 ∷ [] }

shapes_given : blockq_shapes 10 64 32 ≡ ok shapes_64
unfolding blockq_shapes
shapes_given = refl

bpw_given : blockq_bpw 64 32 ≡ ok (13312, 2048)
unfolding blockq_bpw
bpw_given = refl

abbrev names : List (List ℕ)
names = codes "lm_head.trellis" ∷ codes "model.embed_tokens.trellis" ∷ []

In-quantized_module_keys_example : In (codes "lm_head") (quantized_module_keys names) ↔ (
    In (codes "lm_head" ++ trellis_suffix) names
    × (ends_with (codes "lm_head" ++ trellis_suffix) embed_trellis_suffix ≡ false))
In-quantized_module_keys_example = In-quantized_module_keys names (codes "lm_head")
