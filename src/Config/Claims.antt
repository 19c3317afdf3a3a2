-- ===== src/Config/Claims.antt =====
-- Which stored tensors the mapper lets through, against the parameters of the chosen methods.
use mathlib.Core.List.{append-nil}
use vllm_exl3_plugin.Base.{
  ◌≡◌, refl, sym, ap, ◌∙◌, Bool-cases, inl, inr, false, ◌++◌, true, List, [], ◌∷◌, ok,
  if◌then◌else◌, arith,
}
use vllm_exl3_plugin.Base.Text.{Text, codes, text_eq}
use vllm_exl3_plugin.Config.Storage.{Config, contains, is_empty}
use vllm_exl3_plugin.Config.Serving.{head_storage_exists, blockq_evidence, blockq_is_on_load}
use vllm_exl3_plugin.Config.Params.{stored_tensor_names, blockq_params, embedding_params}
use vllm_exl3_plugin.Config.Selection.{
  Method, trellis_embedding, unquantized_linear, exl3_linear, exl3_moe, no_method, tied_lm_head,
  exl3_lm_head, exl3_embedding, blockq_embedding, blockq_tied_embedding, embedding_method,
  get_quant_method, parallel_lm_head, Rule, drop_head_storage, drop_blockq, encode_dense,
  drop_dense, head_to, get_cache_scale_mapper,
}

-- Where a tensor ends up: under its own name, at the encoder, or unread.
pub data Home : Type 0 where
  own_name encoder unread : Home

-- Where the rules send `embed_tokens.weight`.
pub dense_home : List Rule → Home
dense_home [] = own_name
dense_home (drop_dense ∷ rules) = unread
dense_home (encode_dense ∷ rules) = encoder
dense_home (_ ∷ rules) = dense_home rules

-- Where they send `bq_*`.
pub blockq_home : List Rule → Home
blockq_home [] = own_name
blockq_home (drop_blockq ∷ rules) = unread
blockq_home (_ ∷ rules) = blockq_home rules

-- Where the dense embedding is wanted, by the names of an embedding's parameters: at the encoder if
-- one is `bq_src`, under its own name if one is `weight`.
pub wanted_dense : List Text → Home
wanted_dense params =
    if contains (codes "bq_src") params
    then encoder
    else if contains (codes "weight") params
    then own_name
    else unread

-- The same, by method.
dense_home_of : Config → Method → Home
dense_home_of c exl3_embedding = unread
dense_home_of c trellis_embedding = unread
dense_home_of c (blockq_embedding _) = if blockq_is_on_load c then encoder else unread
dense_home_of c (blockq_tied_embedding _) = if blockq_is_on_load c then encoder else unread
dense_home_of c _ = own_name

-- Neither is among the parameters of a method for EXL3 tensors.
stored_tensor_names-dense :
    (c : Config) (more : List Text)
    → wanted_dense (stored_tensor_names c ++ more) ≡ wanted_dense more
unfolding stored_tensor_names wanted_dense
stored_tensor_names-dense c more = elim (Bool-cases (text_eq c.codebook (codes "mcg"))) [
  | inl e ↦ rw e refl
  | inr e ↦ elim (Bool-cases (text_eq c.codebook (codes "mul1"))) [
    | inl f ↦ rw (e, f) refl
    | inr f ↦ rw (e, f) refl
  ]
]

blockq_params-dense :
    (c : Config)
    → wanted_dense (blockq_params c) ≡ (if blockq_is_on_load c then encoder else unread)
unfolding blockq_params wanted_dense
blockq_params-dense c = elim (Bool-cases (blockq_is_on_load c)) [
  | inl e ↦ rw e refl
  | inr e ↦ rw e refl
]

own-dense :
    (own : List Text)
    → contains (codes "weight") own ≡ true
    → contains (codes "bq_src") own ≡ false
    → wanted_dense own ≡ own_name
unfolding wanted_dense
own-dense own has lacks = rw (lacks, has) refl

embedding_params-dense :
    (own : List Text) (c : Config) (m : Method)
    → contains (codes "weight") own ≡ true
    → contains (codes "bq_src") own ≡ false
    → wanted_dense (embedding_params own c m) ≡ dense_home_of c m
unfolding embedding_params dense_home_of wanted_dense
embedding_params-dense own c exl3_embedding has lacks =
    ap wanted_dense (sym (append-nil (stored_tensor_names c))) ∙ stored_tensor_names-dense c []
embedding_params-dense own c trellis_embedding has lacks = refl
embedding_params-dense own c (blockq_embedding _) has lacks = blockq_params-dense c
embedding_params-dense own c (blockq_tied_embedding _) has lacks =
    stored_tensor_names-dense c (blockq_params c) ∙ blockq_params-dense c
embedding_params-dense own c unquantized_linear has lacks = own-dense own has lacks
embedding_params-dense own c exl3_linear has lacks = own-dense own has lacks
embedding_params-dense own c tied_lm_head has lacks = own-dense own has lacks
embedding_params-dense own c exl3_lm_head has lacks = own-dense own has lacks
embedding_params-dense own c exl3_moe has lacks = own-dense own has lacks
embedding_params-dense own c no_method has lacks = own-dense own has lacks

rules-dense :
    (c : Config) (m : Method) (rules : List Rule)
    → is_empty c.trellis_embed_modules ≡ true
    → get_cache_scale_mapper c ≡ ok rules
    → embedding_method c ≡ ok m
    → dense_home rules ≡ dense_home_of c m
unfolding dense_home dense_home_of get_cache_scale_mapper embedding_method blockq_is_on_load
rules-dense c m rules plain h k = ground arith

module _ (own : List Text) (c : Config) (m : Method) (rules : List Rule) where
  -- Of a checkpoint without a trellis embedding, the dense embedding is sent exactly where the
  -- embedding's method registers a parameter for it, and dropped where it registers none, given that
  -- the parameters of vLLM's own method have `weight` and no `bq_src`.
  pub mapper-dense_home :
      contains (codes "weight") own ≡ true
      → contains (codes "bq_src") own ≡ false
      → is_empty c.trellis_embed_modules ≡ true
      → get_cache_scale_mapper c ≡ ok rules
      → embedding_method c ≡ ok m
      → dense_home rules ≡ wanted_dense (embedding_params own c m)
  mapper-dense_home has lacks plain h k =
      rules-dense c m rules plain h k ∙ sym (embedding_params-dense own c m has lacks)

-- Where an embedding's method has parameters for `bq_*`: only the block-quantized ones have any.
pub wanted_blockq : Method → Home
wanted_blockq (blockq_embedding _) = own_name
wanted_blockq (blockq_tied_embedding _) = own_name
wanted_blockq _ = unread

-- Where the rules send the EXL3 tensors under `lm_head.`.
pub data HeadHome : Type 0 where
  at_head nowhere : HeadHome
  at_embedding : Text → HeadHome

pub head_home : List Rule → HeadHome
head_home [] = at_head
head_home (drop_head_storage ∷ rules) = nowhere
head_home (head_to pre ∷ rules) = at_embedding pre
head_home (_ ∷ rules) = head_home rules

-- Where the head's method and the embedding's have parameters for them.
pub wanted_head : Config → Method → Method → HeadHome
wanted_head c exl3_lm_head _ = at_head
wanted_head c tied_lm_head exl3_embedding = at_embedding c.embed_prefix
wanted_head c tied_lm_head (blockq_tied_embedding pre) = at_embedding pre
wanted_head c _ _ = nowhere

module _ (c : Config) (m : Method) (rules : List Rule) where
  -- The tensors `bq_*` that a checkpoint without a trellis embedding stores are sent exactly where
  -- the embedding's method has parameters for them.
  pub mapper-blockq_home :
      get_cache_scale_mapper c ≡ ok rules
      → embedding_method c ≡ ok m
      → (blockq_evidence c).0 ≡ true
      → is_empty c.trellis_embed_modules ≡ true
      → blockq_home rules ≡ wanted_blockq m
  unfolding blockq_home wanted_blockq get_cache_scale_mapper embedding_method
  mapper-blockq_home h k stored plain = ground arith

  -- A quantized head's tensors are sent exactly where the methods chosen for the head and the
  -- embedding have parameters for them: to the head, to the embedding, or nowhere.
  pub mapper-head_home :
      (head : Method)
      → get_cache_scale_mapper c ≡ ok rules
      → embedding_method c ≡ ok m
      → (get_quant_method c parallel_lm_head []).1 ≡ ok head
      → head_storage_exists c ≡ true
      → head_home rules ≡ wanted_head c head m
  unfolding head_home wanted_head get_cache_scale_mapper embedding_method get_quant_method
  mapper-head_home head h k k' stored = ground arith
