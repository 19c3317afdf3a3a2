-- ===== src/Config/Dotted.antt =====
-- `split(".")` and `".".join`, as what they do to a name.
use vllm_exl3_plugin.Base.{
  ℕ, ◌≡◌, inl, inr, refl, sym, ap, ◌∙◌, ◌==◌, false, List, [], ◌∷◌, ◌++◌, Bool-cases, arith,
}
use mathlib.Core.List.{append_assoc}
use mathlib.Core.Path.{subst}
use vllm_exl3_plugin.Base.Text.{Text}
use vllm_exl3_plugin.Config.Names.{split, join}

pub split-cons : (s : Text) → (a : Text) × (parts : List Text) × (split s ≡ a ∷ parts)
unfolding split
split-cons [] = ([], [], refl)
split-cons (c ∷ cs) = elim (Bool-cases (c == 46)) [
  | inl e ↦ ([], split cs, rw e refl)
  | inr e ↦ let (a, parts, q) = split-cons cs in (c ∷ a, parts, rw (e, q) refl)
]

-- The first part of a name grows with a character that is no dot.
split-other :
    (c : ℕ) (cs a : Text) (parts : List Text)
    → (c == 46) ≡ false
    → split cs ≡ a ∷ parts
    → split (c ∷ cs) ≡ (c ∷ a) ∷ parts
unfolding split
split-other c cs a parts e q = rw (e, q) refl

pub split-append : (p rest : Text) → split (p ++ 46 ∷ rest) ≡ split p ++ split rest
unfolding split
split-append [] rest = refl
split-append (c ∷ cs) rest = elim (Bool-cases (c == 46)) [
  | inl e ↦ rw (e, split-append cs rest) refl
  | inr e ↦ let (a, parts, q) = split-cons cs in rw (e, split-append cs rest, q) refl
]

join-cons : (p q : Text) (qs : List Text) → join (p ∷ q ∷ qs) ≡ p ++ 46 ∷ join (q ∷ qs)
unfolding join
join-cons [] q qs = refl
join-cons (c ∷ p) q qs = ap (λ s. c ∷ s) (join-cons p q qs)

pub join-append :
    (a : Text) (xs : List Text) (b : Text) (ys : List Text)
    → join (a ∷ xs ++ b ∷ ys) ≡ join (a ∷ xs) ++ 46 ∷ join (b ∷ ys)
unfolding join
join-append a [] b ys = join-cons a b ys
join-append a (x ∷ xs) b ys =
    join-cons a x (xs ++ b ∷ ys)
    ∙ ap (λ s. a ++ 46 ∷ s) (join-append x xs b ys)
    ∙ sym (append_assoc a (46 ∷ join (x ∷ xs)) (46 ∷ join (b ∷ ys)))
    ∙ ap (λ s. s ++ 46 ∷ join (b ∷ ys)) (sym (join-cons a x xs))

join-grow : (c : ℕ) (a : Text) (parts : List Text) → join ((c ∷ a) ∷ parts) ≡ c ∷ join (a ∷ parts)
unfolding join
join-grow c a [] = refl
join-grow c a (b ∷ parts) = refl

pub join-split : (s : Text) → join (split s) ≡ s
unfolding split join
join-split [] = refl
join-split (c ∷ cs) =
    let (a, parts, q) = split-cons cs in
    let rest : join (a ∷ parts) ≡ cs = ap join (sym q) ∙ join-split cs in
    elim (Bool-cases (c == 46)) [
      | inl e ↦
          let dot : 46 ≡ c = ground arith in
          subst (λ d. join (split (d ∷ cs)) ≡ d ∷ cs) dot
            (ap (λ l. join ([] ∷ l)) q ∙ join-cons [] a parts ∙ ap (λ s. 46 ∷ s) rest)
      | inr e ↦ ap join (split-other c cs a parts e q) ∙ join-grow c a parts ∙ ap (λ s. c ∷ s) rest
    ]
