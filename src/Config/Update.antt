-- ===== src/Config/Update.antt =====
-- Reading a checkpoint's metadata, and the renaming of modules to vLLM's.
use vllm_exl3_plugin.Base.{
  ℕ, Bool, false, ◌&&◌, not, Option, none, some, List, [], ◌∷◌, ltb, leb, if◌then◌else◌, In, inl,
  inr, ◌≡◌, refl, sym, arith, ap, ◌∙◌, Option-cases,
}
use vllm_exl3_plugin.Base.Text.{Text, codes, text_eq}
use vllm_exl3_plugin.Config.Storage.{Config, StorageEntry, load_index_modules}
use vllm_exl3_plugin.Config.Names.{is_none}

-- A single file's header: the length that its first bytes claim, and its keys where it can be parsed.
pub record Header : Type 0 where
  pub length : ℕ
  pub keys : Option (List Text)

-- `quantization_config.json`, where it is there and not empty.
pub record Extra : Type 0 where
  pub tensor_storage : Option (List (Text × StorageEntry))
  pub codebook : Option Text

-- What the file system and the Hub answer for a model and a revision. A lookup that fails is empty.
pub record Hub : Type 0 where
  pub is_dir : Text → Bool
  pub index : Text → Option Text → List Text
  pub local_file : Text → Option Text → Option Header
  pub metadata : Text → Option Text → List Text
  pub storage : Text → Option Text → Option Extra

-- What the base model's config says: the commit, whether embeddings are tied, the hidden size.
pub record HfConfig : Type 0 where
  pub commit_hash : Option Text
  pub tie_word_embeddings : Bool
  pub hidden_size : Option ℕ

abbrev pub max_header_bytes : ℕ
max_header_bytes = 67108864

-- The keys without the header's own entry.
unfoldable pub tensor_keys : List Text → List Text
tensor_keys [] = []
tensor_keys (k ∷ ks) =
    let rest = tensor_keys ks in if text_eq k (codes "__metadata__") then rest else k ∷ rest

module _ (H : Hub) where
  unfoldable pub skip_hub_lookup : Text → Option Text → Bool
  skip_hub_lookup model_name revision = if H.is_dir model_name then false else is_none revision

  unfoldable pub single_file_tensor_names : Text → Option Text → List Text
  unfolding tensor_keys
  single_file_tensor_names model_name revision = elim (H.local_file model_name revision) [
    | none ↦ H.metadata model_name revision
    | some header ↦
        if not (ltb 0 header.length && leb header.length max_header_bytes)
        then []
        else elim (header.keys) [ none ↦ [] | some keys ↦ tensor_keys keys ]
  ]

  unfoldable pub load_index : Config → Text → Option Text → Config
  unfolding skip_hub_lookup single_file_tensor_names load_index_modules
  load_index c model_name revision =
      if skip_hub_lookup model_name revision
      then c
      else load_index_modules c (H.index model_name revision)
          (single_file_tensor_names model_name revision)

  unfoldable pub load_tensor_storage : Config → Text → Option Text → Config
  unfolding skip_hub_lookup load_index
  load_tensor_storage c model_name revision =
      let read = load_index c model_name revision in
      let extra : Option Extra =
        if skip_hub_lookup model_name revision then none else H.storage model_name revision in
      elim extra [
        | none ↦ read
        | some e ↦ record read {
          tensor_storage = e.tensor_storage;
          codebook = elim (e.codebook) [ none ↦ read.codebook | some codebook ↦ codebook ];
        }
      ]

  unfoldable pub maybe_update_config : Config → Text → Option HfConfig → Option Text → Config
  unfolding load_tensor_storage
  maybe_update_config c model_name hf_config revision =
      let commit : Option Text = elim hf_config [ none ↦ none | some hf ↦ hf.commit_hash ] in
      let asked : Option Text = elim revision [ none ↦ commit | some r ↦ some r ] in
      let named : Config = record c {
        model_name = some model_name;
        revision = asked;
        commit_hash = commit;
      } in
      let read = load_tensor_storage named model_name asked in
      elim hf_config [
        | none ↦ read
        | some hf ↦ record read {
          tie_word_embeddings = some hf.tie_word_embeddings;
          hidden_size = hf.hidden_size;
        }
      ]

-- `apply_dict`: names that map to nothing are dropped.
unfoldable pub rename_keys :
    (Text → Option Text) → List (Text × StorageEntry) → List (Text × StorageEntry)
rename_keys f [] = []
rename_keys f ((k, e) ∷ entries) =
    let rest = rename_keys f entries in elim (f k) [ none ↦ rest | some k' ↦ (k', e) ∷ rest ]

unfoldable pub rename_names : (Text → Option Text) → List Text → List Text
rename_names f [] = []
rename_names f (k ∷ ks) =
    let rest = rename_names f ks in elim (f k) [ none ↦ rest | some k' ↦ k' ∷ rest ]

unfoldable pub apply_vllm_mapper : (Text → Option Text) → Config → Config
unfolding rename_keys rename_names
apply_vllm_mapper f c = record c {
  tensor_storage = elim (c.tensor_storage) [
    | none ↦ none
    | some entries ↦ some (rename_keys f entries)
  ];
  quantized_modules = elim (c.quantized_modules) [
    | none ↦ none
    | some names ↦ some (rename_names f names)
  ];
}

load_tensor_storage_skip :
    (H : Hub) (c : Config) (model_name : Text)
    → H.is_dir model_name ≡ false
    → load_tensor_storage H c model_name none ≡ c
unfolding load_tensor_storage load_index skip_hub_lookup
load_tensor_storage_skip H c model_name h = ground arith

-- Where neither the caller nor the model's config gives a revision of a model that is no local
-- directory, nothing that the file system or the Hub holds of it is used.
pub maybe_update_config-no_revision :
    (H H' : Hub) (c : Config) (model_name : Text) (hf : HfConfig)
    → H.is_dir model_name ≡ false
    → H'.is_dir model_name ≡ false
    → hf.commit_hash ≡ none
    → maybe_update_config H c model_name (some hf) none
      ≡ maybe_update_config H' c model_name (some hf) none
unfolding maybe_update_config
maybe_update_config-no_revision H H' c model_name hf h k none_given = rw none_given (
    let named : Config = record c {
      model_name = some model_name;
      revision = none;
      commit_hash = none;
    } in
    let same =
      load_tensor_storage_skip H named model_name h
      ∙ sym (load_tensor_storage_skip H' named model_name k) in
    ap
      (λ (d : Config). record d {
        tie_word_embeddings = some hf.tie_word_embeddings;
        hidden_size = hf.hidden_size;
      })
      same)

pub rename_names-In :
    (f : Text → Option Text) (names : List Text) (key key' : Text)
    → In key names
    → f key ≡ some key'
    → In key' (rename_names f names)
unfolding rename_names
rename_names-In f [] key key' m h = absurd m
rename_names-In f (k ∷ ks) key key' (inl e) h = rw (← e, h, In) (inl refl)
rename_names-In f (k ∷ ks) key key' (inr m) h = elim (Option-cases (f k)) [
  | inl e ↦ rw (e, In) (rename_names-In f ks key key' m h)
  | inr (k', e) ↦ rw (e, In) (inr (rename_names-In f ks key key' m h))
]
