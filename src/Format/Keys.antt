-- ===== src/Format/Keys.antt =====
-- Tensor names and the module keys that own them. A set of keys is a list, in which a key may
-- stand more than once.
use mathlib.Core.List.{reverse, append_assoc}
use mathlib.Core.Path.{subst}
use vllm_exl3_plugin.Base.{
  ◌≡◌, ◌↔◌, inl, inr, refl, sym, ◌∙◌, true, false, Option, none, some, List, [], ◌∷◌, ◌++◌, arith,
  In, In-cons, All, All-in, if◌then◌else◌, Option-cases,
}
use vllm_exl3_plugin.Base.Text.{
  Text, codes, strip_suffix, ends_with, strip_suffix-append, strip_suffix-eq-some,
  strip_suffix-clash, clash,
}

abbrev pub trellis_suffix : Text
trellis_suffix = codes ".trellis"

abbrev pub exl3_suffixes : List Text
exl3_suffixes =
    codes ".trellis"
    ∷ codes ".suh"
    ∷ codes ".svh"
    ∷ codes ".mcg"
    ∷ codes ".mul1"
    ∷ codes ".su"
    ∷ codes ".sv"
    ∷ []

abbrev pub blockq_required_suffix : Text
blockq_required_suffix = codes ".bq_q"

abbrev pub embed_trellis_suffix : Text
embed_trellis_suffix = codes ".embed_tokens.trellis"

abbrev pub embed_weight_suffix : Text
embed_weight_suffix = codes ".embed_tokens.weight"

-- The loop of `module_key_for_tensor` over the suffixes.
unfoldable pub first_key : List Text → Text → Option Text
first_key [] name = none
first_key (suffix ∷ suffixes) name = elim (strip_suffix suffix name) [
  | some key ↦ some key
  | none ↦ first_key suffixes name
]

unfoldable pub module_key_for_tensor : Text → Option Text
unfolding first_key
module_key_for_tensor = first_key exl3_suffixes

-- Keeps the keys that a function finds in the names.
unfoldable pub collect : (Text → Option Text) → List Text → List Text
collect f [] = []
collect f (name ∷ names) = elim (f name) [
  | some key ↦ key ∷ collect f names
  | none ↦ collect f names
]

abbrev pub quantized_key : Text → Option Text
quantized_key name =
    if ends_with name embed_trellis_suffix then none else strip_suffix trellis_suffix name

unfoldable pub quantized_module_keys : List Text → List Text
unfolding collect
quantized_module_keys = collect quantized_key

-- `name.removesuffix(".trellis")` returns the name itself where it lacks the suffix.
abbrev pub trellis_embedding_key : Text → Option Text
trellis_embedding_key name =
    if ends_with name embed_trellis_suffix
    then elim (strip_suffix trellis_suffix name) [ some key ↦ some key | none ↦ some name ]
    else none

unfoldable pub trellis_embedding_keys : List Text → List Text
unfolding collect
trellis_embedding_keys = collect trellis_embedding_key

unfoldable pub blockq_module_keys : List Text → List Text
unfolding collect
blockq_module_keys = collect (strip_suffix blockq_required_suffix)

In-collect :
    (f : Text → Option Text) (names : List Text) (key : Text)
    → In key (collect f names)
    → (name : Text) × In name names × (f name ≡ some key)
unfolding collect
In-collect f [] key m = absurd m
In-collect f (n ∷ names) key m = elim (Option-cases (f n)) [
  | inl e ↦
      let (x, x_in, found) = In-collect f names key (rw (e, In, collect) at m) in
      (x, inr x_in, found)
  | inr (k, e) ↦ elim (In-cons key k (collect f names) (rw (e, In, collect) at m)) [
    | inl same ↦ (n, inl refl, rw same e)
    | inr m' ↦ let (x, x_in, found) = In-collect f names key m' in (x, inr x_in, found)
  ]
]

collect-In :
    (f : Text → Option Text) (names : List Text) (name key : Text)
    → In name names
    → f name ≡ some key
    → In key (collect f names)
unfolding collect
collect-In f [] name key m e = absurd m
collect-In f (n ∷ names) name key (inl same) e =
    let e' : f n ≡ some key = rw (← same) e in rw (e', In, collect) (inl refl)
collect-In f (n ∷ names) name key (inr m) e = elim (Option-cases (f n)) [
  | inl none_here ↦ rw (none_here, In, collect) (collect-In f names name key m e)
  | inr (k, here) ↦ rw (here, In, collect) (inr (collect-In f names name key m e))
]

-- No suffix of the list can stand where a later one does.
abbrev pub Separate : List Text → Type 0
Separate [] = Unit
Separate (x ∷ xs) = All (λ s. clash (reverse x) (reverse s) ≡ true) xs × Separate xs

first_key-append :
    (suffixes : List Text) (key suffix : Text)
    → Separate suffixes
    → In suffix suffixes
    → first_key suffixes (key ++ suffix) ≡ some key
unfolding first_key
first_key-append [] key suffix d m = absurd m
first_key-append (x ∷ xs) key suffix d (inl e) = rw (e, strip_suffix-append key x, first_key)
first_key-append (x ∷ xs) key suffix (d, ds) (inr m) =
    rw (strip_suffix-clash x key suffix (All-in _ xs suffix d m), first_key)
      (first_key-append xs key suffix ds m)

first_key-eq-some :
    (suffixes : List Text) (name key : Text)
    → first_key suffixes name ≡ some key
    → (suffix : Text) × In suffix suffixes × (name ≡ key ++ suffix)
unfolding first_key
first_key-eq-some [] name key h = absurd (ground arith)
first_key-eq-some (x ∷ xs) name key h = elim (Option-cases (strip_suffix x name)) [
  | inl e ↦
      let (s, s_in, whole) = first_key-eq-some xs name key (rw (e, first_key) at h) in
      (s, inr s_in, whole)
  | inr (k, e) ↦
      let same : k ≡ key = ground arith in
      (x, inl refl, strip_suffix-eq-some x name key (rw same at e))
]

exl3_suffixes-Separate : Separate exl3_suffixes
exl3_suffixes-Separate = ground arith

-- A tensor's owning module is exactly the key from which one of the storage suffixes makes its name.
pub module_key_for_tensor_iff :
    (name key : Text)
    → (module_key_for_tensor name ≡ some key)
      ↔ ((suffix : Text) × In suffix exl3_suffixes × (name ≡ key ++ suffix))
unfolding module_key_for_tensor
module_key_for_tensor_iff name key = (
  first_key-eq-some exl3_suffixes name key,
  λ (suffix, m, e). rw e (first_key-append exl3_suffixes key suffix exl3_suffixes-Separate m),
)

-- A key is quantized exactly if its `.trellis` tensor is there and is no embedding's.
pub In-quantized_module_keys :
    (names : List Text) (key : Text)
    → In key (quantized_module_keys names) ↔ (
        In (key ++ trellis_suffix) names
        × (ends_with (key ++ trellis_suffix) embed_trellis_suffix ≡ false))
unfolding quantized_module_keys
In-quantized_module_keys names key = (
  λ m.
      let (name, name_in, found) = In-collect quantized_key names key m in
      let here : strip_suffix trellis_suffix name ≡ some key = ground arith in
      let whole : name ≡ key ++ trellis_suffix =
        strip_suffix-eq-some trellis_suffix name key here in
      let dense : ends_with name embed_trellis_suffix ≡ false = ground arith in
      (
        subst (λ n. In n names) whole name_in,
        subst (λ n. ends_with n embed_trellis_suffix ≡ false) whole dense,
      ),
  λ (m, dense).
      collect-In quantized_key names (key ++ trellis_suffix) key m
        (rw dense (strip_suffix-append key trellis_suffix)),
)

-- A name that ends as a trellis embedding's does ends in `.trellis`.
embed_name-trellis :
    (name : Text)
    → ends_with name embed_trellis_suffix ≡ true
    → (key : Text) × (strip_suffix trellis_suffix name ≡ some key)
embed_name-trellis name h = elim (Option-cases (strip_suffix embed_trellis_suffix name)) [
  | inl e ↦ absurd (ground arith)
  | inr (k, e) ↦
      let whole : name ≡ k ++ codes ".embed_tokens" ++ trellis_suffix =
        strip_suffix-eq-some embed_trellis_suffix name k e
        ∙ sym (append_assoc k (codes ".embed_tokens") trellis_suffix) in
      (
        k ++ codes ".embed_tokens",
        rw whole (strip_suffix-append (k ++ codes ".embed_tokens") trellis_suffix),
      )
]

-- A key is a trellis embedding's exactly if its `.trellis` tensor is there and ends as an
-- embedding's does.
pub In-trellis_embedding_keys :
    (names : List Text) (key : Text)
    → In key (trellis_embedding_keys names) ↔ (
        In (key ++ trellis_suffix) names
        × (ends_with (key ++ trellis_suffix) embed_trellis_suffix ≡ true))
unfolding trellis_embedding_keys
In-trellis_embedding_keys names key = (
  λ m.
      let (name, name_in, found) = In-collect trellis_embedding_key names key m in
      let embed : ends_with name embed_trellis_suffix ≡ true = ground arith in
      let (k, stripped) = embed_name-trellis name embed in
      let same : k ≡ key = ground arith in
      let whole : name ≡ key ++ trellis_suffix =
        strip_suffix-eq-some trellis_suffix name key (rw same at stripped) in
      (
        subst (λ n. In n names) whole name_in,
        subst (λ n. ends_with n embed_trellis_suffix ≡ true) whole embed,
      ),
  λ (m, embed).
      collect-In trellis_embedding_key names (key ++ trellis_suffix) key m
        (rw embed (rw (strip_suffix-append key trellis_suffix))),
)
