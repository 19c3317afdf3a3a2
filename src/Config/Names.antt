-- ===== src/Config/Names.antt =====
-- `is_quantized`: a module's checkpoint names, the modules known, and their ancestors.
use vllm_exl3_plugin.Base.{
  Bool, true, false, ◌&&◌, ◌||◌, Option, none, some, List, [], ◌∷◌, ◌++◌, map, if◌then◌else◌, ◌==◌,
}
use vllm_exl3_plugin.Base.Text.{Text, codes, strip_suffix}
use vllm_exl3_plugin.Config.Storage.{Config, any, contains, exl3_modules}

-- `text.split(".")`, which has at least one part.
unfoldable pub split : Text → List Text
split [] = [] ∷ []
split (c ∷ cs) =
    let rest = split cs in
    if c == 46 then [] ∷ rest else elim rest [ [] ↦ (c ∷ []) ∷ [] | p ∷ ps ↦ (c ∷ p) ∷ ps ]

-- `".".join(parts)`
unfoldable pub join : List Text → Text
join [] = []
join (p ∷ ps) = let rest = join ps in elim ps [ [] ↦ p | _ ∷ _ ↦ p ++ codes "." ++ rest ]

-- `stem + part for part in parts`, for the first fused name that the prefix ends in.
unfoldable pub unfuse : List (Text × List Text) → Text → List Text
unfuse [] pre = pre ∷ []
unfuse ((fused, parts) ∷ rest) pre = elim (strip_suffix fused pre) [
  | some stem ↦ map (λ part. stem ++ part) parts
  | none ↦ unfuse rest pre
]

-- The prefixes of a list with at least one part and not all, as the loop from 1 makes them.
unfoldable pub inner_prefixes : List Text → List (List Text)
inner_prefixes [] = []
inner_prefixes (p ∷ ps) =
    let rest = inner_prefixes ps in elim ps [ [] ↦ [] | _ ∷ _ ↦ (p ∷ []) ∷ map (λ q. p ∷ q) rest ]

unfoldable pub quantized_ancestors : List Text → List Text
unfolding inner_prefixes
quantized_ancestors [] = []
quantized_ancestors (key ∷ keys) = map join (inner_prefixes (split key)) ++ quantized_ancestors keys

-- The lists without one part that is not the last.
unfoldable pub without_one : List Text → List (List Text)
without_one [] = []
without_one (p ∷ ps) =
    let rest = without_one ps in elim ps [ [] ↦ [] | q ∷ qs ↦ (q ∷ qs) ∷ map (λ r. p ∷ r) rest ]

unfoldable pub drop_one_component : Text → List Text
unfolding without_one
drop_one_component pre = map join (without_one (split pre))

-- Whether a name is known, or above a known one, or is so without one of its parts.
unfoldable pub any_known : List Text → List Text → List Text → Bool
unfolding drop_one_component
any_known candidates known ancestors =
    any (λ key. contains key known) candidates
    || any (λ key. contains key ancestors) candidates
    || any (λ key. any (λ variant. contains variant ancestors) (drop_one_component key)) candidates

abbrev pub is_none {ℓ} : {A : Type ℓ} → Option A → Bool
is_none none = true
is_none (some _) = false

unfoldable pub is_quantized : Config → Text → Bool
unfolding unfuse quantized_ancestors any_known exl3_modules
is_quantized c pre =
    if is_none c.tensor_storage && is_none c.quantized_modules
    then true
    else any_known (unfuse c.packed_modules_mapping pre) (exl3_modules c)
        (quantized_ancestors (exl3_modules c))
