-- ===== src/Config/Known.antt =====
-- What `is_quantized` says of a vLLM module, in terms of the names of the index.
use vllm_exl3_plugin.Base.{
  ◌≡◌, ◌⊎◌, inl, inr, refl, sym, ap, ◌∙◌, Bool, true, List, [], ◌∷◌, ◌++◌, map, In, In-append_left,
  In-append_right, In-append_cases, Bool-cases, arith,
}
use mathlib.Core.Path.{subst}
use vllm_exl3_plugin.Base.Text.{Text, text_eq-eq}
use vllm_exl3_plugin.Config.Storage.{any, contains}
use vllm_exl3_plugin.Config.Dotted.{split-cons, split-append, join-append, join-split}
use vllm_exl3_plugin.Config.Names.{
  split, join, inner_prefixes, quantized_ancestors, without_one, drop_one_component,
}

-- A name is followed by a dot and more in another.
unfoldable pub Above : Text → Text → Type 0
Above p key = (rest : Text) × (key ≡ p ++ 46 ∷ rest)

-- So the other's parts begin with those of the name, and there are more.
Above-parts :
    (p key : Text)
    → Above p key
    → (a : Text) × (front : List Text) × (b : Text) × (back : List Text) × (split key
        ≡ a ∷ front ++ b ∷ back)
      × (p ≡ join (a ∷ front))
unfolding Above
Above-parts p key (rest, e) =
    let (a, front, q) = split-cons p in
    let (b, back, r) = split-cons rest in
    (
      a,
      front,
      b,
      back,
      ap split e ∙ split-append p rest ∙ ap (λ l. l ++ split rest) q ∙ ap (λ l. a ∷ front ++ l) r,
      sym (join-split p) ∙ ap join q,
    )

parts-Above :
    (p key a : Text) (front : List Text) (b : Text) (back : List Text)
    → split key ≡ a ∷ front ++ b ∷ back
    → p ≡ join (a ∷ front)
    → Above p key
unfolding Above
parts-Above p key a front b back e1 e2 = (
  join (b ∷ back),
  sym (join-split key)
      ∙ ap join e1
      ∙ join-append a front b back
      ∙ ap (λ s. s ++ 46 ∷ join (b ∷ back)) (sym e2),
)

-- A name is another without one of its parts that is not the last.
unfoldable pub Shortened : Text → Text → Type 0
Shortened v key =
    (front : List Text) × (x : Text) × (b : Text) × (back : List Text) × (split key
      ≡ front ++ x ∷ b ∷ back)
    × (v ≡ join (front ++ b ∷ back))

-- A known module stands for a name: it is that module, or below that name, or below the name without
-- one of its parts.
unfoldable pub StandsFor : Text → Text → Type 0
unfolding Above Shortened
StandsFor key name = (name ≡ key) ⊎ Above name key ⊎ ((v : Text) × Shortened v name × Above v key)

module _ {A : Type 0} where
  pub any-true : (f : A → Bool) (xs : List A) → any f xs ≡ true → (x : A) × In x xs × (f x ≡ true)
  any-true f [] h = absurd (ground arith)
  any-true f (x ∷ xs) h = elim (Bool-cases (f x)) [
    | inl e ↦ (x, inl refl, e)
    | inr e ↦ let (y, m, g) = any-true f xs (rw e at h) in (y, inr m, g)
  ]

  pub any-In : (f : A → Bool) (xs : List A) (x : A) → In x xs → f x ≡ true → any f xs ≡ true
  any-In f [] x m h = absurd m
  any-In f (y ∷ xs) x (inl e) h = rw (← e, h) refl
  any-In f (y ∷ xs) x (inr m) h = let t = any-In f xs x m h in ground arith

  pub In-map : {B : Type 0} (f : A → B) (xs : List A) (x : A) → In x xs → In (f x) (map f xs)
  In-map f [] x m = absurd m
  In-map f (y ∷ xs) x (inl e) = inl (ap f e)
  In-map f (y ∷ xs) x (inr m) = inr (In-map f xs x m)

  pub map-In :
      {B : Type 0} (f : A → B) (xs : List A) (y : B)
      → In y (map f xs)
      → (x : A) × In x xs × (y ≡ f x)
  map-In f [] y m = absurd m
  map-In f (x ∷ xs) y (inl e) = (x, inl refl, e)
  map-In f (x ∷ xs) y (inr m) = let (z, k, e) = map-In f xs y m in (z, inr k, e)

pub contains-true : (x : Text) (xs : List Text) → contains x xs ≡ true → In x xs
contains-true x xs h =
    let (y, m, e) = any-true _ xs h in subst (λ z. In z xs) (sym (text_eq-eq x y e)) m

inner_prefixes-split :
    (ps q : List Text)
    → In q (inner_prefixes ps)
    → (a : Text) × (front : List Text) × (b : Text) × (back : List Text) × (q ≡ a ∷ front)
      × (ps ≡ a ∷ front ++ b ∷ back)
unfolding inner_prefixes
inner_prefixes-split [] q m = absurd m
inner_prefixes-split (p ∷ []) q m = absurd m
inner_prefixes-split (p ∷ p' ∷ ps) q (inl e) = (p, [], p', ps, e, refl)
inner_prefixes-split (p ∷ p' ∷ ps) q (inr m) =
    let (r, k, e) = map-In (λ q. p ∷ q) (inner_prefixes (p' ∷ ps)) q m in
    let (a, front, b, back, e1, e2) = inner_prefixes-split (p' ∷ ps) r k in
    (p, r, b, back, e, ap (λ l. p ∷ l) (e2 ∙ ap (λ l. l ++ b ∷ back) (sym e1)))

inner_prefixes-In :
    (a : Text) (front : List Text) (b : Text) (back : List Text)
    → In (a ∷ front) (inner_prefixes (a ∷ front ++ b ∷ back))
unfolding inner_prefixes
inner_prefixes-In a [] b back = inl refl
inner_prefixes-In a (c ∷ front) b back =
    inr (In-map (λ q. a ∷ q) _ (c ∷ front) (inner_prefixes-In c front b back))

without_one-split :
    (ps v : List Text)
    → In v (without_one ps)
    → (front : List Text) × (x : Text) × (b : Text) × (back : List Text) × (ps
        ≡ front ++ x ∷ b ∷ back)
      × (v ≡ front ++ b ∷ back)
unfolding without_one
without_one-split [] v m = absurd m
without_one-split (p ∷ []) v m = absurd m
without_one-split (p ∷ q ∷ qs) v (inl e) = ([], p, q, qs, refl, e)
without_one-split (p ∷ q ∷ qs) v (inr m) =
    let (r, k, e) = map-In (λ r. p ∷ r) (without_one (q ∷ qs)) v m in
    let (front, x, b, back, e1, e2) = without_one-split (q ∷ qs) r k in
    (p ∷ front, x, b, back, ap (λ l. p ∷ l) e1, e ∙ ap (λ l. p ∷ l) e2)

without_one-In :
    (front : List Text) (x b : Text) (back : List Text)
    → In (front ++ b ∷ back) (without_one (front ++ x ∷ b ∷ back))
unfolding without_one
without_one-In [] x b back = inl refl
without_one-In (p ∷ []) x b back =
    inr (In-map (λ r. p ∷ r) (without_one (x ∷ b ∷ back)) (b ∷ back) (without_one-In [] x b back))
without_one-In (p ∷ q ∷ front) x b back = inr (
    In-map (λ r. p ∷ r) (without_one (q ∷ front ++ x ∷ b ∷ back)) (q ∷ front ++ b ∷ back)
      (without_one-In (q ∷ front) x b back))

pub quantized_ancestors-Above :
    (names : List Text) (p : Text)
    → In p (quantized_ancestors names)
    → (key : Text) × In key names × Above p key
unfolding quantized_ancestors
quantized_ancestors-Above [] p m = absurd m
quantized_ancestors-Above (n ∷ names) p m =
    elim (In-append_cases p (map join (inner_prefixes (split n))) (quantized_ancestors names) m) [
      | inl k ↦
          let (q, l, e) = map-In join (inner_prefixes (split n)) p k in
          let (a, front, b, back, e1, e2) = inner_prefixes-split (split n) q l in
          (n, inl refl, parts-Above p n a front b back e2 (e ∙ ap join e1))
      | inr k ↦ let (key, l, above) = quantized_ancestors-Above names p k in (key, inr l, above)
    ]

pub Above-quantized_ancestors :
    (names : List Text) (p key : Text)
    → In key names
    → Above p key
    → In p (quantized_ancestors names)
unfolding quantized_ancestors
Above-quantized_ancestors [] p key m above = absurd m
Above-quantized_ancestors (n ∷ names) p key (inl e) above =
    let (a, front, b, back, e1, e2) = Above-parts p key above in
    In-append_left p (map join (inner_prefixes (split n))) (quantized_ancestors names) (
      subst (λ z. In z (map join (inner_prefixes (split n)))) (sym e2)
        (In-map join (inner_prefixes (split n)) (a ∷ front) (
          subst (λ ps. In (a ∷ front) (inner_prefixes ps)) (sym e1 ∙ ap split e)
            (inner_prefixes-In a front b back))))
Above-quantized_ancestors (n ∷ names) p key (inr m) above =
    In-append_right p (map join (inner_prefixes (split n))) (quantized_ancestors names)
      (Above-quantized_ancestors names p key m above)

pub drop_one_component-Shortened : (pre v : Text) → In v (drop_one_component pre) → Shortened v pre
unfolding drop_one_component Shortened
drop_one_component-Shortened pre v m =
    let (r, k, e) = map-In join (without_one (split pre)) v m in
    let (front, x, b, back, e1, e2) = without_one-split (split pre) r k in
    (front, x, b, back, e1, e ∙ ap join e2)

pub Shortened-drop_one_component : (pre v : Text) → Shortened v pre → In v (drop_one_component pre)
unfolding drop_one_component Shortened
Shortened-drop_one_component pre v (front, x, b, back, e1, e2) =
    subst (λ z. In z (map join (without_one (split pre)))) (sym e2)
      (In-map join (without_one (split pre)) (front ++ b ∷ back) (
        subst (λ ps. In (front ++ b ∷ back) (without_one ps)) (sym e1)
          (without_one-In front x b back)))
