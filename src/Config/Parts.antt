-- ===== src/Config/Parts.antt =====
-- What a fused name of vLLM's expands to.
use vllm_exl3_plugin.Base.{
  ◌≡◌, ◌⊎◌, inl, inr, sym, ap, List, [], ◌∷◌, ◌++◌, map, In, Option-cases, arith,
}
use mathlib.Core.Path.{subst}
use vllm_exl3_plugin.Base.Text.{Text, strip_suffix, strip_suffix-append, strip_suffix-eq-some}
use vllm_exl3_plugin.Config.Names.{unfuse}
use vllm_exl3_plugin.Config.Known.{In-map, map-In}

-- A part of a name: of the first fused name that it ends in, the stem with one of the parts of that,
-- and the name itself where it ends in none.
abbrev pub IsPart : List (Text × List Text) → Text → Text → Type 0
IsPart [] name part = part ≡ name
IsPart ((fused, parts) ∷ rest) name part =
    ((stem : Text) × (p : Text) × (name ≡ stem ++ fused) × In p parts × (part ≡ stem ++ p))
    ⊎ (((stem : Text) → name ≡ stem ++ fused → ⊥) × IsPart rest name part)

pub unfuse-IsPart :
    (mapping : List (Text × List Text)) (name part : Text)
    → In part (unfuse mapping name)
    → IsPart mapping name part
unfolding unfuse
unfuse-IsPart [] name part (inl e) = e
unfuse-IsPart [] name part (inr m) = absurd m
unfuse-IsPart ((fused, parts) ∷ rest) name part m = elim (Option-cases (strip_suffix fused name)) [
  | inr (stem, e) ↦
      let (p, l, q) = map-In (λ p. stem ++ p) parts part (rw (e, unfuse) at m) in
      inl (stem, p, strip_suffix-eq-some fused name stem e, l, q)
  | inl e ↦ inr (
    λ stem q. absurd (ground (arith, e, ap (strip_suffix fused) q, strip_suffix-append stem fused)),
    unfuse-IsPart rest name part (rw (e, unfuse) at m),
  )
]

pub IsPart-unfuse :
    (mapping : List (Text × List Text)) (name part : Text)
    → IsPart mapping name part
    → In part (unfuse mapping name)
unfolding unfuse
IsPart-unfuse [] name part e = inl e
IsPart-unfuse ((fused, parts) ∷ rest) name part (inl (stem, p, e, l, q)) =
    rw (e, strip_suffix-append, unfuse)
      (subst (λ z. In z (map (λ p. stem ++ p) parts)) (sym q) (In-map (λ p. stem ++ p) parts p l))
IsPart-unfuse ((fused, parts) ∷ rest) name part (inr (other, h)) =
    elim (Option-cases (strip_suffix fused name)) [
      | inr (stem, e) ↦ absurd (other stem (strip_suffix-eq-some fused name stem e))
      | inl e ↦ rw (e, unfuse) (IsPart-unfuse rest name part h)
    ]
