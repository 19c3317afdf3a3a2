-- ===== src/Config/Renamed.antt =====
-- Which of vLLM's modules are quantized, after the index's names were renamed to vLLM's.
use vllm_exl3_plugin.Base.{
  ◌≡◌, ◌↔◌, ◌⊎◌, inl, inr, refl, sym, ap, ◌∙◌, true, false, ◌||◌, Bool, Option, some, List, [], ◌∷◌,
  In, Option-cases, arith,
}
use mathlib.Core.Path.{subst}
use vllm_exl3_plugin.Base.Text.{Text}
use vllm_exl3_plugin.Config.Storage.{Config, any, contains, exl3_modules}
use vllm_exl3_plugin.Config.Names.{
  unfuse, quantized_ancestors, drop_one_component, any_known, is_quantized,
}
use vllm_exl3_plugin.Config.Loading.{contains-In}
use vllm_exl3_plugin.Config.Parts.{IsPart, unfuse-IsPart, IsPart-unfuse}
use vllm_exl3_plugin.Config.Known.{
  StandsFor, any-true, any-In, contains-true, quantized_ancestors-Above, Above-quantized_ancestors,
  drop_one_component-Shortened, Shortened-drop_one_component,
}
use vllm_exl3_plugin.Config.Update.{rename_names, apply_vllm_mapper, rename_names-In}

-- One of the candidates is stood for by one of the known modules.
unfoldable Stood : List Text → List Text → Type 0
Stood candidates known =
    (part : Text) × (key : Text) × In part candidates × In key known × StandsFor key part

or_cases : (a b : Bool) → (a || b) ≡ true → (a ≡ true) ⊎ (b ≡ true)
or_cases true b h = inl refl
or_cases false b h = inr h

any_known-Stood :
    (candidates known : List Text)
    → any_known candidates known (quantized_ancestors known) ≡ true
    → Stood candidates known
unfolding any_known Stood StandsFor
any_known-Stood candidates known h =
    let ancestors = quantized_ancestors known in
    let itself : Text → Bool = λ k. contains k known in
    let above : Text → Bool = λ k. contains k ancestors in
    let shorter : Text → Bool = λ k. any (λ v. contains v ancestors) (drop_one_component k) in
    elim (or_cases (any itself candidates || any above candidates) (any shorter candidates) h) [
      | inl h' ↦ elim (or_cases (any itself candidates) (any above candidates) h') [
        | inl e ↦
            let (part, m, k) = any-true itself candidates e in
            (part, part, m, contains-true part known k, inl refl)
        | inr e ↦
            let (part, m, k) = any-true above candidates e in
            let (key, l, a) =
              quantized_ancestors-Above known part (contains-true part ancestors k) in
            (part, key, m, l, inr (inl a))
      ]
      | inr e ↦
          let (part, m, k) = any-true shorter candidates e in
          let (v, n, k') = any-true above (drop_one_component part) k in
          let (key, l, a) = quantized_ancestors-Above known v (contains-true v ancestors k') in
          (part, key, m, l, inr (inr (v, drop_one_component-Shortened part v n, a)))
    ]

Stood-any_known :
    (candidates known : List Text)
    → Stood candidates known
    → any_known candidates known (quantized_ancestors known) ≡ true
unfolding any_known Stood StandsFor
Stood-any_known candidates known (part, key, m, l, inl e) =
    let found =
      any-In (λ k. contains k known) candidates part m
        (contains-In part known (subst (λ z. In z known) (sym e) l)) in
    ground arith
Stood-any_known candidates known (part, key, m, l, inr (inl above)) =
    let found =
      any-In (λ k. contains k (quantized_ancestors known)) candidates part m
        (contains-In part (quantized_ancestors known)
          (Above-quantized_ancestors known part key l above)) in
    ground arith
Stood-any_known candidates known (part, key, m, l, inr (inr (v, short, above))) =
    let inside =
      any-In (λ w. contains w (quantized_ancestors known)) (drop_one_component part) v
        (Shortened-drop_one_component part v short)
        (contains-In v (quantized_ancestors known)
          (Above-quantized_ancestors known v key l above)) in
    let found =
      any-In (λ k. any (λ w. contains w (quantized_ancestors known)) (drop_one_component k))
        candidates part m inside in
    ground arith

rename_names-of :
    (f : Text → Option Text) (names : List Text) (key' : Text)
    → In key' (rename_names f names)
    → (key : Text) × In key names × (f key ≡ some key')
unfolding rename_names
rename_names-of f [] key' m = absurd m
rename_names-of f (k ∷ ks) key' m = elim (Option-cases (f k)) [
  | inl e ↦
      let (key, l, h) = rename_names-of f ks key' (rw (e, rename_names) at m) in (key, inr l, h)
  | inr (x, e) ↦ elim (in_head key' x (rename_names f ks) (rw (e, rename_names) at m)) [
    | inl q ↦ (k, inl refl, e ∙ ap some (sym q))
    | inr n ↦ let (key, l, h) = rename_names-of f ks key' n in (key, inr l, h)
  ]
]
  where
    in_head : (a b : Text) (xs : List Text) → In a (b ∷ xs) → (a ≡ b) ⊎ In a xs
    in_head a b xs h = h

-- Of a config that knows the names of an index, renamed to vLLM's: a module of vLLM is quantized
-- exactly where a name of the index becomes one that stands for one of its parts. The parts are, of
-- the first fused name that the module's name ends in, the rest of it with each part of that, or the
-- module's name itself where it ends in none. A name stands for itself, for every name that a dot
-- follows in it, and for every name that, without one of its components but the last, is such a one.
pub apply_vllm_mapper-is_quantized_iff :
    (f : Text → Option Text) (c : Config) (names : List Text) (pre : Text)
    → c.quantized_modules ≡ some names
    → (is_quantized (apply_vllm_mapper f c) pre ≡ true) ↔ (
        (part : Text) × (key : Text) × (key' : Text) × IsPart c.packed_modules_mapping pre part
        × In key names
        × (f key ≡ some key')
        × StandsFor key' part)
unfolding is_quantized apply_vllm_mapper exl3_modules Stood
apply_vllm_mapper-is_quantized_iff f c names pre known =
    let ms = rename_names f names in
    let candidates = unfuse c.packed_modules_mapping pre in
    let opened : is_quantized (apply_vllm_mapper f c) pre
        ≡ any_known candidates ms (quantized_ancestors ms) =
      rw known (ground arith) in
    (
      λ h.
          (let (part, key', m, l, s) = any_known-Stood candidates ms (sym opened ∙ h) in
            let (key, l', e) = rename_names-of f names key' l in
            (part, key, key', unfuse-IsPart c.packed_modules_mapping pre part m, l', e, s)),
      λ (part, key, key', m, l, e, s).
          opened
          ∙ Stood-any_known candidates ms (
            part,
            key',
            IsPart-unfuse c.packed_modules_mapping pre part m,
            rename_names-In f names key key' l e,
            s,
          ),
    )
