-- ===== src/Config/Serving.antt =====
-- How the head and the embedding are served. Log lines are left out, and the flag that only keeps
-- one of them from being repeated.
use vllm_exl3_plugin.Base.{Bool, true, false, ◌&&◌, ◌||◌, not, none, some, ok, raise, if◌then◌else◌}
use vllm_exl3_plugin.Base.Text.{codes}
use vllm_exl3_plugin.Format.Consts.{Checked, tied_trellis_embedding, blockq_block}
use vllm_exl3_plugin.Format.Blockq.{check_blockq_hidden}
use vllm_exl3_plugin.Config.Storage.{Config, any, contains, is_empty, items, has_format, lookup}

-- `bool(self.tie_word_embeddings)`
abbrev pub tied : Config → Bool
tied c = elim (c.tie_word_embeddings) [ none ↦ false | some t ↦ t ]

-- Whether the checkpoint physically stores a quantized `lm_head`.
unfoldable pub head_storage_exists : Config → Bool
head_storage_exists c = elim (c.quantized_modules) [
  | some modules ↦ contains (codes "lm_head") modules
  | none ↦ elim (c.tensor_storage) [
    | some storage ↦ elim (lookup (codes "lm_head") storage) [
      | none ↦ false
      | some head ↦ has_format (codes "exl3") head
    ]
    | none ↦ elim (c.head_bits) [ none ↦ false | some _ ↦ true ]
  ]
]

unfoldable pub head_is_quantized : Config → Bool
unfolding head_storage_exists
head_is_quantized c = if tied c then false else elim (c.quantized_modules) [
  | some modules ↦ contains (codes "lm_head") modules
  | none ↦ elim (c.tensor_storage) [
    | some storage ↦ elim (lookup (codes "lm_head") storage) [
      | none ↦ false
      | some head ↦ has_format (codes "exl3") head
    ]
    | none ↦ elim (c.head_bits) [ none ↦ false | some _ ↦ true ]
  ]
]

unfoldable pub embedding_is_quantized : Config → Bool
unfolding head_storage_exists
embedding_is_quantized c = if c.dense_embed then false else tied c && head_storage_exists c

-- Whether `bq_*` are stored, and whether a dense embedding survives too.
unfoldable pub blockq_evidence : Config → Bool × Bool
blockq_evidence c = (
  not (is_empty c.blockq_modules)
      || any (λ (_, e). has_format (codes "exl3_blockq") e) (items c.tensor_storage),
  c.dense_embed_present || any (λ (_, e). e.dense_embedding_retained) (items c.tensor_storage),
)

unfoldable pub on_load_is_possible : Config → Bool
unfolding embedding_is_quantized check_blockq_hidden
on_load_is_possible c = if embedding_is_quantized c then false else elim (c.hidden_size) [
  | none ↦ false
  | some hidden ↦ elim (check_blockq_hidden hidden blockq_block) [ raise _ ↦ false | ok _ ↦ true ]
]

unfoldable pub embedding_is_trellis : Config → Checked Bool
embedding_is_trellis c =
    if is_empty c.trellis_embed_modules
    then ok false
    else if tied c
    then raise tied_trellis_embedding
    else ok true

unfoldable pub embedding_is_blockq : Config → Bool
unfolding blockq_evidence on_load_is_possible
embedding_is_blockq c =
    let (stored, dense_present) = blockq_evidence c in
    if not (is_empty c.trellis_embed_modules)
    then false
    else if not stored && c.blockq_on_load && not c.dense_embed
    then on_load_is_possible c
    else if stored && c.dense_embed && dense_present
    then false
    else stored

-- Serving a block-quantized embedding that the checkpoint does not contain.
unfoldable pub blockq_is_on_load : Config → Bool
unfolding blockq_evidence embedding_is_blockq
blockq_is_on_load c = not (blockq_evidence c).0 && embedding_is_blockq c
