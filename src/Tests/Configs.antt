-- ===== src/Tests/Configs.antt =====
-- Checkpoints as the config sees them.
use vllm_exl3_plugin.Base.{
  In, ◌↔◌, Option, ◌≡◌, inl, refl, true, false, none, some, List, [], ◌∷◌, ◌++◌, ok,
}
use vllm_exl3_plugin.Base.Text.{Text, codes, strip_suffix, ends_with}
use vllm_exl3_plugin.Format.Keys.{
  blockq_module_keys, trellis_embedding_keys, trellis_suffix, embed_trellis_suffix,
}
use vllm_exl3_plugin.Config.Storage.{Config, is_empty, load_index_modules}
use vllm_exl3_plugin.Config.Names.{unfuse, is_quantized}
use vllm_exl3_plugin.Config.Serving.{embedding_is_blockq, head_storage_exists, blockq_evidence}
use vllm_exl3_plugin.Config.Selection.{
  Rule, drop_dense, encode_dense, head_to, drop_blockq, tied_lm_head, exl3_embedding, no_method,
  blockq_embedding, parallel_lm_head, embedding_method, get_quant_method, get_cache_scale_mapper,
}
use vllm_exl3_plugin.Config.Params.{embedding_params}
use vllm_exl3_plugin.Config.Claims.{
  dense_home, wanted_dense, blockq_home, wanted_blockq, head_home, wanted_head, mapper-dense_home,
  mapper-blockq_home, mapper-head_home,
}
use vllm_exl3_plugin.Config.Update.{
  Hub, HfConfig, maybe_update_config, apply_vllm_mapper, maybe_update_config-no_revision,
}
use vllm_exl3_plugin.Config.Parts.{IsPart}
use vllm_exl3_plugin.Config.Known.{StandsFor}
use vllm_exl3_plugin.Config.Renamed.{apply_vllm_mapper-is_quantized_iff}
use vllm_exl3_plugin.Config.Loading.{load-ignores_dense}

abbrev initial : Config
initial = record {
  head_bits = none;
  codebook = codes "mcg";
  model_name = none;
  revision = none;
  commit_hash = none;
  tensor_storage = none;
  quantized_modules = none;
  blockq_modules = [];
  trellis_embed_modules = [];
  dense_embed_present = false;
  tie_word_embeddings = some false;
  dense_embed = false;
  blockq_on_load = true;
  hidden_size = some 64;
  embed_prefix = codes "model.embed_tokens";
  packed_modules_mapping = (codes "qkv_proj", codes "q_proj" ∷ codes "k_proj" ∷ []) ∷ [];
}

-- A dense embedding of an untied model is encoded as it loads.
plain_rules : get_cache_scale_mapper initial ≡ ok (encode_dense ∷ [])
unfolding get_cache_scale_mapper
plain_rules = refl

plain_method : embedding_method initial ≡ ok (blockq_embedding (codes "model.embed_tokens"))
unfolding embedding_method
plain_method = refl

-- What vLLM's own embedding registers.
abbrev own : List Text
own = codes "weight" ∷ []

mapper-dense_home_example :
    dense_home (encode_dense ∷ [])
    ≡ wanted_dense (embedding_params own initial (blockq_embedding (codes "model.embed_tokens")))
mapper-dense_home_example =
    mapper-dense_home own initial (blockq_embedding (codes "model.embed_tokens"))
      (encode_dense ∷ []) refl refl refl plain_rules plain_method

-- A sidecar checkpoint, described by its storage map, with the quantized embedding turned off.
abbrev sidecar : Config
sidecar = record initial {
  dense_embed = true;
  tensor_storage = some (
      (
        codes "model.embed_tokens",
        record { quant_format = some (codes "exl3_blockq"); dense_embedding_retained = true },
      )
      ∷ []);
}

sidecar_rules : get_cache_scale_mapper sidecar ≡ ok (drop_blockq ∷ [])
unfolding get_cache_scale_mapper
sidecar_rules = refl

sidecar_method : embedding_method sidecar ≡ ok no_method
unfolding embedding_method
sidecar_method = refl

sidecar_stored : (blockq_evidence sidecar).0 ≡ true
unfolding blockq_evidence
sidecar_stored = refl

mapper-blockq_home_example : blockq_home (drop_blockq ∷ []) ≡ wanted_blockq no_method
mapper-blockq_home_example =
    mapper-blockq_home sidecar no_method (drop_blockq ∷ []) sidecar_rules sidecar_method
      sidecar_stored refl

-- A tied model with a quantized head.
abbrev tied_model : Config
tied_model = record initial {
  tie_word_embeddings = some true;
  quantized_modules = some (codes "lm_head" ∷ []);
}

abbrev tied_list : List Rule
tied_list = drop_dense ∷ head_to (codes "model.embed_tokens") ∷ []

tied_rules : get_cache_scale_mapper tied_model ≡ ok tied_list
unfolding get_cache_scale_mapper
tied_rules = refl

tied_method : embedding_method tied_model ≡ ok exl3_embedding
unfolding embedding_method
tied_method = refl

tied_head : (get_quant_method tied_model parallel_lm_head []).1 ≡ ok tied_lm_head
unfolding get_quant_method
tied_head = refl

tied_stored : head_storage_exists tied_model ≡ true
unfolding head_storage_exists
tied_stored = refl

mapper-head_home_example : head_home tied_list ≡ wanted_head tied_model tied_lm_head exl3_embedding
mapper-head_home_example =
    mapper-head_home tied_model exl3_embedding tied_list tied_lm_head tied_rules tied_method
      tied_head tied_stored

-- A storage map that lists nothing, beside an index that names a quantized projection.
abbrev silent : Config
silent = record initial { tensor_storage = some [] }

unfused : unfuse silent.packed_modules_mapping (codes "model.o_proj") ≡ codes "model.o_proj" ∷ []
unfolding unfuse strip_suffix
unfused = refl

linear_name : ends_with (codes "model.o_proj" ++ trellis_suffix) embed_trellis_suffix ≡ false
unfolding strip_suffix
linear_name = refl

-- An index that names both encodings of the embedding, served with the dense one asked for.
abbrev asked_dense : Config
asked_dense = record initial { dense_embed = true }

abbrev both : List Text
both = codes "model.embed_tokens.weight" ∷ codes "model.embed_tokens.bq_q" ∷ []

both_stored : is_empty (blockq_module_keys both) ≡ false
unfolding blockq_module_keys strip_suffix
both_stored = refl

both_plain : is_empty (trellis_embedding_keys both) ≡ true
unfolding trellis_embedding_keys strip_suffix
both_plain = refl

load-ignores_dense_example : embedding_is_blockq (load_index_modules asked_dense both []) ≡ true
load-ignores_dense_example =
    load-ignores_dense asked_dense (codes "model.embed_tokens.weight")
      (codes "model.embed_tokens.bq_q" ∷ []) [] refl refl both_stored both_plain

-- A model on the Hub, served with no revision, whatever the Hub holds.
abbrev empty_hub : Hub
empty_hub = record {
  is_dir = λ m. false;
  index = λ m r. [];
  local_file = λ m r. none;
  metadata = λ m r. [];
  storage = λ m r. none;
}

abbrev full_hub : Hub
full_hub = record empty_hub { index = λ m r. both }

abbrev unpinned : HfConfig
unpinned = record { commit_hash = none; tie_word_embeddings = true; hidden_size = some 64 }

maybe_update_config-no_revision_example :
    maybe_update_config full_hub initial (codes "org/model") (some unpinned) none
    ≡ maybe_update_config empty_hub initial (codes "org/model") (some unpinned) none
maybe_update_config-no_revision_example =
    maybe_update_config-no_revision full_hub empty_hub initial (codes "org/model") unpinned refl
      refl refl

-- A multimodal wrapper nests the head.
abbrev nested : Text → Option Text
nested name = some (codes "language_model." ++ name)

-- An index with one of the two parts of a fused module.
abbrev indexed : Config
indexed = record initial { quantized_modules = some (codes "attn.q_proj" ∷ []) }

abbrev fused_name : Text
fused_name = codes "language_model.attn.qkv_proj"

fused_IsQuantized : is_quantized (apply_vllm_mapper nested indexed) fused_name ≡ true
unfolding StandsFor
fused_IsQuantized =
    (apply_vllm_mapper-is_quantized_iff nested indexed (codes "attn.q_proj" ∷ []) fused_name refl).1
      (
        codes "language_model.attn.q_proj",
        codes "attn.q_proj",
        codes "language_model.attn.q_proj",
        inl (codes "language_model.attn.", codes "q_proj", refl, inl refl, refl),
        inl refl,
        refl,
        inl refl,
      )

apply_vllm_mapper-is_quantized_iff_example :
    (is_quantized (apply_vllm_mapper nested indexed) fused_name ≡ true) ↔ (
      (part : Text) × (key : Text) × (key' : Text) × IsPart indexed.packed_modules_mapping
        fused_name part
      × In key (codes "attn.q_proj" ∷ [])
      × (nested key ≡ some key')
      × StandsFor key' part)
apply_vllm_mapper-is_quantized_iff_example =
    apply_vllm_mapper-is_quantized_iff nested indexed (codes "attn.q_proj" ∷ []) fused_name refl
