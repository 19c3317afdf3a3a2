-- ===== src/Config/Storage.antt =====
-- The state of an `EXL3Config` that the decisions read, and how a checkpoint's names fill it.
use vllm_exl3_plugin.Base.{
  ℕ, Bool, true, false, ◌&&◌, ◌||◌, Option, none, some, List, [], ◌∷◌, if◌then◌else◌,
}
use vllm_exl3_plugin.Base.Text.{Text, codes, text_eq}
use vllm_exl3_plugin.Format.Keys.{quantized_module_keys, blockq_module_keys, trellis_embedding_keys}

-- An entry of `tensor_storage`: its `quant_format`, and whether `dense_embedding_retained` holds.
pub record StorageEntry : Type 0 where
  pub quant_format : Option Text
  pub dense_embedding_retained : Bool

-- A dict is a list of its items, and a set a list.
pub record Config : Type 0 where
  pub head_bits : Option ℕ
  pub codebook : Text
  pub model_name : Option Text
  pub revision : Option Text
  pub commit_hash : Option Text
  pub tensor_storage : Option (List (Text × StorageEntry))
  pub quantized_modules : Option (List Text)
  pub blockq_modules : List Text
  pub trellis_embed_modules : List Text
  pub dense_embed_present : Bool
  pub tie_word_embeddings : Option Bool
  pub dense_embed : Bool
  pub blockq_on_load : Bool
  pub hidden_size : Option ℕ
  pub embed_prefix : Text
  -- `packed_modules_mapping`, which the model class fills.
  pub packed_modules_mapping : List (Text × List Text)

abbrev pub any {ℓ} : {A : Type ℓ} → (A → Bool) → List A → Bool
any f [] = false
any f (x ∷ xs) = f x || any f xs

abbrev pub contains : Text → List Text → Bool
contains name names = any (text_eq name) names

abbrev pub is_empty {ℓ} : {A : Type ℓ} → List A → Bool
is_empty [] = true
is_empty (_ ∷ _) = false

-- The items of `tensor_storage or {}`.
abbrev pub items : Option (List (Text × StorageEntry)) → List (Text × StorageEntry)
items none = []
items (some entries) = entries

abbrev pub has_format : Text → StorageEntry → Bool
has_format format e = elim (e.quant_format) [ none ↦ false | some f ↦ text_eq f format ]

-- `tensor_storage.get(key)`
abbrev pub lookup : Text → List (Text × StorageEntry) → Option StorageEntry
lookup key [] = none
lookup key ((k, e) ∷ rest) = if text_eq key k then some e else lookup key rest

-- The part of `_load_index_modules` after the lookup of the index, with the index's names and those
-- of the single file's header.
unfoldable pub load_index_modules : Config → List Text → List Text → Config
load_index_modules c [] names =
    let found : Config = record c { trellis_embed_modules = trellis_embedding_keys names } in
    if is_empty (quantized_module_keys names) && is_empty (blockq_module_keys names)
    then found
    else record found {
      quantized_modules = some (quantized_module_keys names);
      blockq_modules = blockq_module_keys names;
    }
load_index_modules c (n ∷ ns) names = record c {
  trellis_embed_modules = trellis_embedding_keys (n ∷ ns);
  quantized_modules = some (quantized_module_keys (n ∷ ns));
  blockq_modules = blockq_module_keys (n ∷ ns);
}

-- The keys of the entries that a test accepts.
unfoldable pub keys_where : (StorageEntry → Bool) → List (Text × StorageEntry) → List Text
keys_where f [] = []
keys_where f ((k, e) ∷ rest) = let others = keys_where f rest in if f e then k ∷ others else others

-- Every module known to carry EXL3 storage, index first.
unfoldable pub exl3_modules : Config → List Text
unfolding keys_where
exl3_modules c = elim (c.quantized_modules) [
  | some modules ↦ modules
  | none ↦ keys_where (has_format (codes "exl3")) (items c.tensor_storage)
]
