-- ===== src/Offload/State.antt =====
-- vLLM's offloader as the plugin reads it, the plugin's statistics, the selectors and the counting.
use vllm_exl3_plugin.Base.{
  ℕ, ◌+◌, Bool, true, false, ◌||◌, Option, none, some, List, [], ◌∷◌, ◌++◌, if◌then◌else◌,
}
use vllm_exl3_plugin.Base.Text.{Text, codes, text_eq, strip_prefix}

-- What `get_offloader` gives: an exception, `NoopOffloader`, another class, or `UVAOffloader` with
-- its `uva_offloading`.
pub data Backend : Type 0 where
  unavailable noop unsupported : Backend
  uva : Bool → Backend

-- The offloader's `cpu_offload_params`, `cpu_offload_max_bytes` and `cpu_offload_bytes`, and `_STATS`.
-- Its `layers` and `moe_layers` are sets, here lists without repetition.
pub record Offload : Type 0 where
  pub backend : Backend
  pub params : List Text
  pub limit : ℕ
  pub spent : ℕ
  pub requested : Bool
  pub selective : Bool
  pub total_bytes : ℕ
  pub tensors : ℕ
  pub layers : List Text
  pub expert_bytes : ℕ
  pub moe_layers : List Text
  pub quota : Option ℕ

abbrev pub has_text : Text → List Text → Bool
has_text t [] = false
has_text t (x ∷ xs) = text_eq t x || has_text t xs

abbrev pub add_text : Text → List Text → List Text
add_text t xs = if has_text t xs then xs else t ∷ xs

unfoldable pub declare_moe_layer : Offload → Text → Offload
declare_moe_layer o prefix = record o { moe_layers = add_text prefix o.moe_layers }

-- `p in s`
unfoldable pub occurs : Text → Text → Bool
occurs p [] = elim (strip_prefix p []) [ some _ ↦ true | none ↦ false ]
occurs p (c ∷ s) =
    let later = occurs p s in elim (strip_prefix p (c ∷ s)) [ some _ ↦ true | none ↦ later ]

-- `search` is `re.search(pattern, full)` as a test.
unfoldable pub match_any : (Text → Text → Bool) → List Text → Text → Bool
unfolding occurs
match_any search [] full = false
match_any search (p ∷ ps) full =
    let rest = match_any search ps full in
    elim (strip_prefix (codes "re:") p) [
      | some pattern ↦ search pattern full || rest
      | none ↦ occurs (codes "." ++ p ++ codes ".") full || rest
    ]

-- `_matches`: no selector selects everything.
unfoldable pub selected : (Text → Text → Bool) → List Text → Text → Bool
unfolding match_any
selected search [] full = true
selected search (p ∷ ps) full = match_any search (p ∷ ps) full

-- Whether `_uva_loader` returns the offloader.
unfoldable pub usable : Offload → Bool
usable o = elim (o.backend) [
  | unavailable ↦ false
  | noop ↦ false
  | unsupported ↦ false
  | uva accelerated ↦ accelerated
]

abbrev any_params : List Text → Bool
any_params [] = false
any_params (_ ∷ _) = true

-- What `_uva_loader` notes where it does.
unfoldable pub uva_loader : Offload → Offload
unfolding usable
uva_loader o =
    if usable o
    then record o { requested = true; selective = o.selective || any_params o.params }
    else o

-- `_count`, of one tensor.
unfoldable pub count : Offload → Text → ℕ → Bool → Offload
count o prefix nbytes budget = record o {
  spent = o.spent + (if budget then nbytes else 0);
  expert_bytes = o.expert_bytes + (if budget then 0 else nbytes);
  total_bytes = o.total_bytes + nbytes;
  tensors = o.tensors + 1;
  layers = add_text prefix o.layers;
}

-- `_OFFLOADABLE_COMPONENTS`
abbrev pub offloadable_components : List Text
offloadable_components = codes "trellis" ∷ codes "weight" ∷ []
