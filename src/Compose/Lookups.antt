-- ===== src/Compose/Lookups.antt =====
-- What the lists that a shard is written from hold, and where a module's home is.
use mathlib.Core.Path.{subst, ap₂}
use vllm_exl3_plugin.Base.{
  ℕ, ◌≡◌, ◌↔◌, inl, inr, refl, sym, ap, ◌∙◌, true, false, none, some, List, [], ◌∷◌, ◌==◌, arith,
  In, Bool-cases, ℕ_discrete,
}
use vllm_exl3_plugin.Base.Text.{Text, text_eq, text_eq-eq, text_eq_refl}
use vllm_exl3_plugin.Offload.State.{has_text}
use vllm_exl3_plugin.Compose.Modules.{modules_of}
use vllm_exl3_plugin.Compose.Write.{
  Shards, names_of, shard_of, Origin, from_base, from_donor, first_of, home, kept, arrived,
}

pub has_text-In : (n : Text) (ms : List Text) → has_text n ms ≡ true → In n ms
has_text-In n [] h = absurd (ground arith)
has_text-In n (m ∷ ms) h = elim (Bool-cases (text_eq n m)) [
  | inl e ↦ inl (text_eq-eq n m e)
  | inr e ↦ inr (has_text-In n ms (ground arith))
]

In-has_text : (n : Text) (ms : List Text) → In n ms → has_text n ms ≡ true
In-has_text n [] m = absurd m
In-has_text n (x ∷ ms) (inl e) =
    let same : text_eq n x ≡ true = (ap (text_eq n) (sym e) ∙ text_eq_refl n) in rw same refl
In-has_text n (x ∷ ms) (inr l) = let later = In-has_text n ms l in ground arith

pub In-kept :
    (base : Shards) (drop : List Text) (s : ℕ) (n : Text) (o : Origin)
    → In (n, o) (kept base drop s) ↔ ((o ≡ from_base) × In (n, s) base × (In n drop → ⊥))
unfolding kept
In-kept [] drop s n o = (λ m. absurd m, λ m. absurd (m.1))
In-kept ((x, t) ∷ base) drop s n o =
    let (f, g) = In-kept base drop s n o in
    elim (ℕ_discrete s t) [
      | no p ↦
          let other : (s == t) ≡ false = ground arith in
          rw other (
            λ m. (let (a, b, c) = f m in (a, inr b, c)),
            λ m. elim (m.1) [ inl e ↦ absurd (p (ap (λ z. z.1) e)) | inr l ↦ g (m.0, l, m.2) ],
          )
      | yes p ↦
          let here : (s == t) ≡ true = ground arith in
          elim (Bool-cases (has_text x drop)) [
            | inl gone ↦
                rw (here, gone)
                  (
                    λ m. (let (a, b, c) = f m in (a, inr b, c)),
                    λ m. elim (m.1) [
                      | inl e ↦ absurd (
                          m.2 (
                            subst (λ z. In z drop) (ap (λ z. z.0) (sym e))
                              (has_text-In x drop gone)))
                      | inr l ↦ g (m.0, l, m.2)
                    ],
                  )
            | inr stays ↦
                rw (here, stays)
                  (
                    λ m. elim m [
                      | inl e ↦ (
                        ap (λ z. z.1) e,
                        inl (ap₂ (λ a b. (a, b)) (ap (λ z. z.0) e) p),
                        λ i. absurd (
                            ground (
                              arith,
                              stays,
                              In-has_text x drop (subst (λ z. In z drop) (ap (λ z. z.0) e) i),
                            )),
                      )
                      | inr l ↦ (let (a, b, c) = f l in (a, inr b, c))
                    ],
                    λ m. elim (m.1) [
                      | inl e ↦ inl (ap₂ (λ a b. (a, b)) (ap (λ z. z.0) e) (m.0))
                      | inr l ↦ inr (g (m.0, l, m.2))
                    ],
                  )
          ]
    ]

pub In-arrived :
    (n : Text) (o : Origin) (incoming : List (Text × ℕ))
    → In (n, o) (arrived incoming) ↔ ((d : ℕ) × (o ≡ from_donor d) × In (n, d) incoming)
In-arrived n o [] = (λ m. absurd m, λ m. absurd (m.2))
In-arrived n o ((x, e) ∷ incoming) =
    let (f, g) = In-arrived n o incoming in
    (
      λ m. elim m [
        | inl p ↦ (e, ap (λ z. z.1) p, inl (ap (λ z. (z.0, e)) p))
        | inr l ↦ (let (d, a, b) = f l in (d, a, inr b))
      ],
      λ m.
          (let (d, a, b) = m in
            elim b [
              | inl p ↦
                  inl (ap₂ (λ u v. (u, v)) (ap (λ z. z.0) p) (a ∙ ap from_donor (ap (λ z. z.1) p)))
              | inr l ↦ inr (g (d, a, l))
            ]),
    )

shard_of-In : (n : Text) (s : ℕ) (base : Shards) → shard_of n base ≡ some s → In (n, s) base
unfolding shard_of
shard_of-In n s [] h = absurd (ground arith)
shard_of-In n s ((x, t) ∷ base) h = elim (Bool-cases (text_eq n x)) [
  | inl e ↦ inl (ap₂ (λ a b. (a, b)) (text_eq-eq n x e) (ground arith))
  | inr e ↦ inr (shard_of-In n s base (ground arith))
]

pub In-names_of : (n : Text) (s : ℕ) (base : Shards) → In (n, s) base → In n (names_of base)
In-names_of n s [] m = absurd m
In-names_of n s ((x, t) ∷ base) (inl e) = inl (ap (λ z. z.0) e)
In-names_of n s ((x, t) ∷ base) (inr l) = inr (In-names_of n s base l)

first_shard-In :
    (base : Shards) (ns : List Text) (s : ℕ)
    → (elim (first_of ns) [ none ↦ none | some n ↦ shard_of n base ]) ≡ some s
    → (n : Text) × In n ns × In (n, s) base
first_shard-In base [] s h = absurd (ground arith)
first_shard-In base (n ∷ ns) s h = (n, inl refl, shard_of-In n s base h)

-- A module's home is the shard of one of its tensors.
pub home-In :
    (base : Shards) (key : Text) (s : ℕ)
    → home base key ≡ some s
    → (n : Text) × In n (modules_of (names_of base) key) × In (n, s) base
unfolding home
home-In base key s h = first_shard-In base (modules_of (names_of base) key) s h
