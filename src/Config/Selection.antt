-- ===== src/Config/Selection.antt =====
-- `get_quant_method`, and the rules that `get_cache_scale_mapper` adds to the base mapper's.
use vllm_exl3_plugin.Base.{◌&&◌, ◌||◌, not, List, [], ◌∷◌, ◌++◌, ok, raise, ◌>>=◌, if◌then◌else◌}
use vllm_exl3_plugin.Base.Text.{Text}
use vllm_exl3_plugin.Format.Consts.{Checked}
use vllm_exl3_plugin.Config.Storage.{Config, is_empty}
use vllm_exl3_plugin.Config.Names.{is_quantized}
use vllm_exl3_plugin.Config.Serving.{
  head_is_quantized, head_storage_exists, embedding_is_quantized, embedding_is_blockq,
  embedding_is_trellis, blockq_evidence,
}

-- The classes that are told apart, the more special one first.
pub data Layer : Type 0 where
  linear_base parallel_lm_head vocab_parallel_embedding routed_experts other_layer : Layer

-- `no_method` is the None that leaves a layer to vLLM's own method.
pub data Method : Type 0 where
  unquantized_linear exl3_linear tied_lm_head exl3_lm_head : Method
  trellis_embedding exl3_embedding exl3_moe no_method : Method
  blockq_embedding blockq_tied_embedding : Text → Method

unfoldable pub embedding_method : Config → Checked Method
unfolding embedding_is_trellis embedding_is_blockq embedding_is_quantized
embedding_method c = do
  trellis ← embedding_is_trellis c
  if trellis
      then ok trellis_embedding
      else if embedding_is_blockq c
      then (if embedding_is_quantized c
          then ok (blockq_tied_embedding c.embed_prefix)
          else ok (blockq_embedding c.embed_prefix))
      else if not (embedding_is_quantized c)
      then ok no_method
      else ok exl3_embedding

-- The config comes back with the embedding's prefix recorded.
unfoldable pub get_quant_method : Config → Layer → Text → Config × Checked Method
unfolding is_quantized embedding_is_quantized head_is_quantized embedding_method
get_quant_method c linear_base pre =
    (c, ok (if not (is_quantized c pre) then unquantized_linear else exl3_linear))
get_quant_method c parallel_lm_head pre = (
  c,
  ok (
      if embedding_is_quantized c
      then tied_lm_head
      else if head_is_quantized c
      then exl3_lm_head
      else no_method),
)
get_quant_method c vocab_parallel_embedding pre =
    let named : Config = record c { embed_prefix = if is_empty pre then c.embed_prefix else pre } in
    (named, embedding_method named)
get_quant_method c routed_experts pre =
    (c, ok (if not (is_quantized c pre) then no_method else exl3_moe))
get_quant_method c other_layer pre = (c, ok no_method)

-- A rule added to the mapper: drop `lm_head`'s EXL3 tensors, rename the trellis embedding's tensors,
-- drop `bq_*`, hand the dense embedding to the encoder, drop it, rename `lm_head.` to a prefix.
pub data Rule : Type 0 where
  drop_head_storage rename_trellis drop_blockq encode_dense drop_dense : Rule
  head_to : Text → Rule

-- The rules, in the order in which they are added.
unfoldable pub get_cache_scale_mapper : Config → Checked (List Rule)
unfolding head_storage_exists head_is_quantized embedding_is_quantized embedding_is_blockq
    embedding_is_trellis blockq_evidence
get_cache_scale_mapper c =
    let tied_head_here = embedding_is_quantized c in
    let blockq_embed = embedding_is_blockq c in
    let (stored_blockq, dense_present) = blockq_evidence c in
    let mapper : List Rule =
      if head_storage_exists c && not (tied_head_here || head_is_quantized c)
      then drop_head_storage ∷ []
      else [] in
    elim (embedding_is_trellis c) [
      | raise e ↦ raise e
      | ok trellis ↦ ok (
          if trellis
          then mapper ++ rename_trellis ∷ []
          else if stored_blockq && dense_present && not blockq_embed
          then mapper ++ drop_blockq ∷ []
          else if not (tied_head_here || blockq_embed)
          then mapper
          else if blockq_embed && not stored_blockq
          then mapper ++ encode_dense ∷ []
          else mapper ++ drop_dense ∷ (if tied_head_here then head_to c.embed_prefix ∷ [] else []))
    ]
