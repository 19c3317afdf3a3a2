-- ===== src/Config/Params.antt =====
-- vllm_exl3_plugin/quantization/embedding.py, lm_head.py: the parameters that the embedding's methods
-- register on the module, by name.
use vllm_exl3_plugin.Base.{List, [], ◌∷◌, ◌++◌, if◌then◌else◌}
use vllm_exl3_plugin.Base.Text.{Text, codes, text_eq}
use vllm_exl3_plugin.Config.Storage.{Config}
use vllm_exl3_plugin.Config.Serving.{blockq_is_on_load}
use vllm_exl3_plugin.Config.Selection.{
  Method, trellis_embedding, exl3_embedding, blockq_embedding, blockq_tied_embedding,
}

-- `_CODEBOOK_TENSORS[self.codebook]`, of the codebooks that the constructor admits.
abbrev pub codebook_tensors : Text → List Text
codebook_tensors codebook =
    if text_eq codebook (codes "mcg")
    then codes "mcg" ∷ []
    else if text_eq codebook (codes "mul1")
    then codes "mul1" ∷ []
    else []

unfoldable pub stored_tensor_names : Config → List Text
stored_tensor_names c = codes "trellis" ∷ codes "suh" ∷ codes "svh" ∷ codebook_tensors c.codebook

-- `EXL3BlockQEmbeddingMethod.create_weights`
unfoldable pub blockq_params : Config → List Text
unfolding blockq_is_on_load
blockq_params c =
    codes "bq_q"
    ∷ codes "bq_s"
    ∷ codes "bq_r"
    ∷ (if blockq_is_on_load c then codes "bq_src" ∷ [] else [])

-- `EXL3TrellisEmbeddingMethod.create_weights`
abbrev pub trellis_params : List Text
trellis_params = codes "et_table" ∷ codes "et_signs" ∷ []

-- `create_weights` of the method that an embedding is given; `own` are those of vLLM's own method.
unfoldable pub embedding_params : List Text → Config → Method → List Text
unfolding stored_tensor_names blockq_params
embedding_params own c exl3_embedding = stored_tensor_names c
embedding_params own c (blockq_embedding _) = blockq_params c
embedding_params own c (blockq_tied_embedding _) = stored_tensor_names c ++ blockq_params c
embedding_params own c trellis_embedding = trellis_params
embedding_params own c _ = own
