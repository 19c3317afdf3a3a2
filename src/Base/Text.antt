-- ===== src/Base/Text.antt =====
-- Text as a list of code points, which proofs can walk, and suffixes of it.
use Prim.Native.Char.{code}
use Prim.Native.String.{String}
use Prim.Native.Nat.{ℕ}
use mathlib.Core.Path.{◌≡◌, refl, sym, ap, ap₂, ◌≡⟨◌⟩◌, ◌∎}
use mathlib.Core.Bool.{Bool, true, false}
use mathlib.Core.Logic.{inl, inr}
use mathlib.Core.Option
use mathlib.Core.Option.{Option, none, some}
use mathlib.Core.List.{List, [], ◌∷◌, ◌++◌, reverse, reverse-append, reverse-reverse}
use native.Mathlib.Omega.{arith}
use vllm_exl3_plugin.Base.Tests.{◌==◌, if◌then◌else◌, Option-cases, ==_refl}

abbrev pub Text : Type 0
Text = List ℕ

abbrev pub codes : String → Text
codes String.[] = []
codes (String.◌∷◌ c s) = code c ∷ codes s

-- Tests on texts, as the source's `==`, `startswith` and `endswith`.
abbrev pub text_eq : Text → Text → Bool
text_eq [] [] = true
text_eq [] (b ∷ bs) = false
text_eq (a ∷ as') [] = false
text_eq (a ∷ as') (b ∷ bs) = if a == b then text_eq as' bs else false

pub text_eq-eq : (a b : Text) → text_eq a b ≡ true → a ≡ b
text_eq-eq [] [] h = refl
text_eq-eq [] (b ∷ bs) h = cc
text_eq-eq (a ∷ as') [] h = cc
text_eq-eq (a ∷ as') (b ∷ bs) h = ground (arith, text_eq-eq as' bs)

pub text_eq_refl : (a : Text) → text_eq a a ≡ true
text_eq_refl [] = refl
text_eq_refl (a ∷ as') = rw ==_refl (text_eq_refl as')

-- What follows a prefix.
unfoldable pub strip_prefix : Text → Text → Option Text
strip_prefix [] s = some s
strip_prefix (p ∷ ps) [] = none
strip_prefix (p ∷ ps) (c ∷ cs) = if p == c then strip_prefix ps cs else none

pub strip_prefix-append : (p s : Text) → strip_prefix p (p ++ s) ≡ some s
unfolding strip_prefix
strip_prefix-append [] s = refl
strip_prefix-append (c ∷ p) s = rw ==_refl (strip_prefix-append p s)

pub strip_prefix-eq-some : (p s k : Text) → strip_prefix p s ≡ some k → s ≡ p ++ k
unfolding strip_prefix
strip_prefix-eq-some [] s k h = ground arith
strip_prefix-eq-some (p ∷ ps) [] k h = cc
strip_prefix-eq-some (p ∷ ps) (c ∷ cs) k h = ground (arith, strip_prefix-eq-some ps cs k)

-- `name[: -len(suffix)]` where `name.endswith(suffix)`, and `none` where it does not.
unfoldable pub strip_suffix : Text → Text → Option Text
unfolding strip_prefix
strip_suffix suffix name = Option.map reverse (strip_prefix (reverse suffix) (reverse name))

abbrev pub ends_with : Text → Text → Bool
ends_with name suffix = elim (strip_suffix suffix name) [ none ↦ false | some _ ↦ true ]

pub strip_suffix-append : (key suffix : Text) → strip_suffix suffix (key ++ suffix) ≡ some key
unfolding strip_suffix
strip_suffix-append key suffix = rw (reverse-append, strip_prefix-append) (rw reverse-reverse)

pub strip_suffix-eq-some :
    (suffix name key : Text) → strip_suffix suffix name ≡ some key → name ≡ key ++ suffix
unfolding strip_suffix
strip_suffix-eq-some suffix name key h =
    elim (Option-cases (strip_prefix (reverse suffix) (reverse name))) [
      | inl e ↦ cc
      | inr (rest, e) ↦
          let key' : reverse rest ≡ key = ground arith in
          let whole : reverse name ≡ reverse suffix ++ rest = strip_prefix-eq-some _ _ rest e in
          name
          ≡⟨ sym (reverse-reverse name) ⟩ reverse (reverse name)
          ≡⟨ ap reverse whole ⟩ reverse (reverse suffix ++ rest)
          ≡⟨ reverse-append (reverse suffix) rest ⟩ reverse rest ++ reverse (reverse suffix)
          ≡⟨ ap₂ ◌++◌ key' (reverse-reverse suffix) ⟩ key ++ suffix ∎
    ]

-- The two texts differ at a place that both have.
abbrev pub clash : Text → Text → Bool
clash [] t = false
clash (a ∷ s) [] = false
clash (a ∷ s) (b ∷ t) = if a == b then clash s t else true

strip_prefix-clash : (p s rest : Text) → clash p s ≡ true → strip_prefix p (s ++ rest) ≡ none
unfolding strip_prefix
strip_prefix-clash [] s rest h = cc
strip_prefix-clash (a ∷ p) [] rest h = cc
strip_prefix-clash (a ∷ p) (b ∷ s) rest h = ground (arith, strip_prefix-clash p s rest)

-- A text that ends in `suffix` does not end in one that differs from it, read from the end.
pub strip_suffix-clash :
    (other key suffix : Text)
    → clash (reverse other) (reverse suffix) ≡ true
    → strip_suffix other (key ++ suffix) ≡ none
unfolding strip_suffix
strip_suffix-clash other key suffix h =
    rw (reverse-append, strip_prefix-clash (reverse other) (reverse suffix) (reverse key) h)
