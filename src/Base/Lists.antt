-- ===== src/Base/Lists.antt =====
-- Lists measured, indexed and searched by native numbers, under the library's names.
use Prim.Native.Nat.{ℕ, zero, suc, ◌+◌}
use mathlib.Core.Path.{◌≡◌, refl, ap, sym, subst, ◌∙◌}
use mathlib.Core.Logic.{◌⊎◌, inl, inr}
use mathlib.Core.List.{List, [], ◌∷◌, ◌++◌}
use mathlib.Core.Option.{Option, none, some}
use native.Mathlib.Omega.{arith}

module _ {ℓ} {A : Type ℓ} where
  abbrev pub length : List A → ℕ
  length [] = 0
  length (x ∷ xs) = suc (length xs)

  abbrev pub get_elem? : List A → ℕ → Option A
  get_elem? [] i = none
  get_elem? (x ∷ xs) zero = some x
  get_elem? (x ∷ xs) (suc i) = get_elem? xs i

  abbrev pub set : List A → ℕ → A → List A
  set [] i v = []
  set (x ∷ xs) zero v = v ∷ xs
  set (x ∷ xs) (suc i) v = x ∷ set xs i v

  abbrev pub take : ℕ → List A → List A
  take zero xs = []
  take (suc n) [] = []
  take (suc n) (x ∷ xs) = x ∷ take n xs

  abbrev pub drop : ℕ → List A → List A
  drop zero xs = xs
  drop (suc n) [] = []
  drop (suc n) (x ∷ xs) = drop n xs

  abbrev pub replicate : ℕ → A → List A
  replicate zero a = []
  replicate (suc n) a = a ∷ replicate n a

-- Membership as a sum, which the tactics read.
abbrev pub In : {A : Type 0} → A → List A → Type 0
In a [] = ⊥
In a (x ∷ xs) = (a ≡ x) ⊎ In a xs

abbrev pub All : {A : Type 0} → (A → Type 0) → List A → Type 0
All P [] = Unit
All P (x ∷ xs) = P x × All P xs

-- No element stands twice.
abbrev pub Distinct : {A : Type 0} → List A → Type 0
Distinct [] = Unit
Distinct (x ∷ xs) = (¬ In x xs) × Distinct xs

module _ {ℓ} {A : Type ℓ} where
  pub length-append : (xs ys : List A) → length (xs ++ ys) ≡ length xs + length ys
  length-append [] ys = omega arith
  length-append (x ∷ xs) ys = omega (arith, length-append xs ys)

  pub length-set : (xs : List A) (i : ℕ) (v : A) → length (set xs i v) ≡ length xs
  length-set [] i v = refl
  length-set (x ∷ xs) zero v = refl
  length-set (x ∷ xs) (suc i) v = ap suc (length-set xs i v)

  pub length-replicate : (n : ℕ) (a : A) → length (replicate n a) ≡ n
  length-replicate zero a = refl
  length-replicate (suc n) a = ap suc (length-replicate n a)

module _ {A : Type 0} where
  pub In-append_left : (a : A) (xs ys : List A) → In a xs → In a (xs ++ ys)
  In-append_left a [] ys h = absurd h
  In-append_left a (x ∷ xs) ys (inl e) = inl e
  In-append_left a (x ∷ xs) ys (inr h) = inr (In-append_left a xs ys h)

  pub In-append_right : (a : A) (xs ys : List A) → In a ys → In a (xs ++ ys)
  In-append_right a [] ys h = h
  In-append_right a (x ∷ xs) ys h = inr (In-append_right a xs ys h)

  pub In-append_cases : (a : A) (xs ys : List A) → In a (xs ++ ys) → In a xs ⊎ In a ys
  In-append_cases a [] ys h = inr h
  In-append_cases a (x ∷ xs) ys (inl e) = inl (inl e)
  In-append_cases a (x ∷ xs) ys (inr h) = elim (In-append_cases a xs ys h) [
    | inl l ↦ inl (inr l)
    | inr r ↦ inr r
  ]

  pub All-in : (P : A → Type 0) (xs : List A) (a : A) → All P xs → In a xs → P a
  All-in P [] a h m = absurd m
  All-in P (x ∷ xs) a (p, h) (inl e) = subst P (sym e) p
  All-in P (x ∷ xs) a (p, h) (inr m) = All-in P xs a h m

  pub All-append : (P : A → Type 0) (xs ys : List A) → All P xs → All P ys → All P (xs ++ ys)
  All-append P [] ys hx hy = hy
  All-append P (x ∷ xs) ys hx hy = (hx.0, All-append P xs ys hx.1 hy)

  pub In-cons : (a x : A) (xs : List A) → In a (x ∷ xs) → (a ≡ x) ⊎ In a xs
  In-cons a x xs h = h

  pub Distinct-snoc : (a : A) (xs : List A) → Distinct xs → ¬ In a xs → Distinct (xs ++ a ∷ [])
  Distinct-snoc a [] d n = (λ m. m, tt)
  Distinct-snoc a (x ∷ xs) (new, d) n = (
    λ m. elim (In-append_cases x xs (a ∷ []) m) [
      | inl m' ↦ new m'
      | inr m' ↦ elim m' [ inl e ↦ n (inl (sym e)) | inr f ↦ f ]
    ],
    Distinct-snoc a xs d (λ m. n (inr m)),
  )

  pub Distinct-left : (xs ys : List A) → Distinct (xs ++ ys) → Distinct xs
  Distinct-left [] ys d = tt
  Distinct-left (x ∷ xs) ys (new, d) = (λ m. new (In-append_left x xs ys m), Distinct-left xs ys d)

  pub Distinct-disjoint : (a : A) (xs ys : List A) → Distinct (xs ++ ys) → In a xs → ¬ In a ys
  Distinct-disjoint a [] ys d m n = m
  Distinct-disjoint a (x ∷ xs) ys (new, d) (inl e) n =
      new (In-append_right x xs ys (subst (λ t. In t ys) e n))
  Distinct-disjoint a (x ∷ xs) ys (new, d) (inr m) n = Distinct-disjoint a xs ys d m n

  pub Distinct-right : (xs ys : List A) → Distinct (xs ++ ys) → Distinct ys
  Distinct-right [] ys d = d
  Distinct-right (x ∷ xs) ys (new, d) = Distinct-right xs ys d

module _ {ℓ} {A : Type ℓ} where
  pub take_nil : (n : ℕ) → take {A = A} n [] ≡ []
  take_nil zero = refl
  take_nil (suc n) = refl

  pub take-add : (a b : ℕ) (xs : List A) → take a xs ++ take b (drop a xs) ≡ take (b + a) xs
  take-add zero b xs = ap (λ n. take n xs) (omega arith)
  take-add (suc a) b [] = take_nil b ∙ sym (take_nil (b + suc a))
  take-add (suc a) b (x ∷ xs) =
      ap (λ t. x ∷ t) (take-add a b xs) ∙ ap (λ n. take n (x ∷ xs)) (the_suc a b)
    where
      the_suc : (a b : ℕ) → suc (b + a) ≡ b + suc a
      the_suc a b = omega arith

  pub drop-drop : (a b : ℕ) (xs : List A) → drop b (drop a xs) ≡ drop (b + a) xs
  drop-drop zero b xs = ap (λ n. drop n xs) (the_sum b)
    where
      the_sum : (b : ℕ) → b ≡ b + 0
      the_sum b = omega arith
  drop-drop (suc a) b [] = drop_nil b ∙ sym (drop_nil (b + suc a))
    where
      drop_nil : (n : ℕ) → drop {A = A} n [] ≡ []
      drop_nil zero = refl
      drop_nil (suc n) = refl
  drop-drop (suc a) b (x ∷ xs) = drop-drop a b xs ∙ ap (λ n. drop n (x ∷ xs)) (the_suc a b)
    where
      the_suc : (a b : ℕ) → suc (b + a) ≡ b + suc a
      the_suc a b = omega arith
