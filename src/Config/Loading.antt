-- ===== src/Config/Loading.antt =====
-- What reading a checkpoint's tensor names makes the config answer.
use mathlib.Core.Path.{subst}
use vllm_exl3_plugin.Base.{
  ◌≡◌, inl, inr, refl, sym, true, false, none, List, [], ◌∷◌, ◌++◌, arith, In,
}
use vllm_exl3_plugin.Base.Text.{Text, text_eq_refl, ends_with}
use vllm_exl3_plugin.Format.Keys.{
  quantized_module_keys, blockq_module_keys, trellis_embedding_keys, In-quantized_module_keys,
  trellis_suffix, embed_trellis_suffix,
}
use vllm_exl3_plugin.Config.Storage.{Config, contains, is_empty, load_index_modules, exl3_modules}
use vllm_exl3_plugin.Config.Names.{unfuse, is_quantized, any_known, quantized_ancestors}
use vllm_exl3_plugin.Config.Serving.{embedding_is_blockq, blockq_evidence}

pub contains-In : (x : Text) (xs : List Text) → In x xs → contains x xs ≡ true
contains-In x [] m = absurd m
contains-In x (y ∷ ys) (inl e) = let t = text_eq_refl x in rw (← e, t) refl
contains-In x (y ∷ ys) (inr m) = let t = contains-In x ys m in ground arith

pub any_known_self :
    (key : Text) (known ancestors : List Text)
    → contains key known ≡ true
    → any_known (key ∷ []) known ancestors ≡ true
unfolding any_known
any_known_self key known ancestors h = ground arith

-- The names of an index say that a module is quantized, whatever `tensor_storage` says of it.
pub load-IsQuantized :
    (c : Config) (n : Text) (names header : List Text) (key : Text)
    → In (key ++ trellis_suffix) (n ∷ names)
    → ends_with (key ++ trellis_suffix) embed_trellis_suffix ≡ false
    → unfuse c.packed_modules_mapping key ≡ key ∷ []
    → is_quantized (load_index_modules c (n ∷ names) header) key ≡ true
unfolding is_quantized load_index_modules exl3_modules
load-IsQuantized c n names header key m plain alone =
    let ms = quantized_module_keys (n ∷ names) in
    let known = contains-In key ms ((In-quantized_module_keys (n ∷ names) key).1 (m, plain)) in
    let found : any_known (unfuse c.packed_modules_mapping key) ms (quantized_ancestors ms) ≡ true =
      subst (λ ks. any_known ks ms (quantized_ancestors ms) ≡ true) (sym alone)
        (any_known_self key ms (quantized_ancestors ms) known) in
    ground arith

-- An index that names `bq_*` and no trellis embedding makes a config without a storage map serve the
-- embedding from `bq_*`, even with `EXL3_DENSE_EMBED` set and a dense embedding named in the index:
-- reading the index never records the dense one.
pub load-ignores_dense :
    (c : Config) (n : Text) (names header : List Text)
    → c.dense_embed_present ≡ false
    → c.tensor_storage ≡ none
    → is_empty (blockq_module_keys (n ∷ names)) ≡ false
    → is_empty (trellis_embedding_keys (n ∷ names)) ≡ true
    → embedding_is_blockq (load_index_modules c (n ∷ names) header) ≡ true
unfolding load_index_modules embedding_is_blockq blockq_evidence
load-ignores_dense c n names header unset bare stored plain =
    rw (stored, plain, unset, bare) (ground arith)
