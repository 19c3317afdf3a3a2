-- ===== src/Compose/Modules.antt =====
-- Which module a tensor belongs to, and the tensors of each module.
use vllm_exl3_plugin.Base.{
  ◌≡◌, ◌↔◌, inl, inr, sym, ap, ◌∙◌, Bool, true, false, none, some, List, [], ◌∷◌, ◌++◌, ltb, ◌==◌,
  arith, if◌then◌else◌, In, Bool-cases,
}
use vllm_exl3_plugin.Base.Text.{Text, codes, text_eq, text_eq-eq, text_eq_refl}
use vllm_exl3_plugin.Format.Keys.{exl3_suffixes, first_key}

-- `_GROUPING_SUFFIXES`
abbrev pub grouping_suffixes : List Text
grouping_suffixes =
    exl3_suffixes
    ++ codes ".bq_q" ∷ codes ".bq_s" ∷ codes ".bq_r" ∷ codes ".weight" ∷ codes ".bias" ∷ []

unfoldable pub module_key : Text → Text
unfolding first_key
module_key name = elim (first_key grouping_suffixes name) [ some key ↦ key | none ↦ name ]

-- Python's `<` on names, as `sort` uses it.
abbrev pub text_lt : Text → Text → Bool
text_lt [] [] = false
text_lt [] (b ∷ bs) = true
text_lt (a ∷ as') [] = false
text_lt (a ∷ as') (b ∷ bs) = if a == b then text_lt as' bs else ltb a b

abbrev pub insert : Text → List Text → List Text
insert n [] = n ∷ []
insert n (m ∷ ms) = if text_lt m n then m ∷ insert n ms else n ∷ m ∷ ms

abbrev pub sort_names : List Text → List Text
sort_names [] = []
sort_names (n ∷ ns) = insert n (sort_names ns)

abbrev pub named : Text → List Text → List Text
named key [] = []
named key (n ∷ ns) = if text_eq (module_key n) key then n ∷ named key ns else named key ns

-- `modules_of(tensors)[key]`, empty where there is no such key.
unfoldable pub modules_of : List Text → Text → List Text
unfolding module_key
modules_of names key = sort_names (named key names)

In-insert : (n x : Text) (ms : List Text) → In x (insert n ms) ↔ In x (n ∷ ms)
In-insert n x [] = (λ m. m, λ m. m)
In-insert n x (k ∷ ms) = elim (Bool-cases (text_lt k n)) [
  | inr e ↦ rw e (λ m. m, λ m. m)
  | inl e ↦ rw e (swap_in n x k ms (In-insert n x ms))
]
  where
    swap_in :
        (n x k : Text) (ms : List Text)
        → In x (insert n ms) ↔ In x (n ∷ ms)
        → In x (k ∷ insert n ms) ↔ In x (n ∷ k ∷ ms)
    swap_in n x k ms (f, g) = (
      λ m. elim m [
        | inl e ↦ inr (inl e)
        | inr later ↦ elim (f later) [ inl e ↦ inl e | inr l ↦ inr (inr l) ]
      ],
      λ m. elim m [
        | inl e ↦ inr (g (inl e))
        | inr later ↦ elim later [ inl e ↦ inl e | inr l ↦ inr (g (inr l)) ]
      ],
    )

In-sort_names : (x : Text) (ns : List Text) → In x (sort_names ns) ↔ In x ns
In-sort_names x [] = (λ m. m, λ m. m)
In-sort_names x (n ∷ ns) =
    let (f, g) = In-sort_names x ns in
    let (f', g') = In-insert n x (sort_names ns) in
    (
      λ m. elim (f' m) [ inl e ↦ inl e | inr l ↦ inr (f l) ],
      λ m. elim m [ inl e ↦ g' (inl e) | inr l ↦ g' (inr (g l)) ],
    )

In-named : (key x : Text) (ns : List Text) → In x (named key ns) ↔ (In x ns × (module_key x ≡ key))
In-named key x [] = (λ m. absurd m, λ m. absurd (m.0))
In-named key x (n ∷ ns) =
    let (f, g) = In-named key x ns in
    elim (Bool-cases (text_eq (module_key n) key)) [
      | inl e ↦ rw e (
        λ m. elim m [
          | inl p ↦ (inl p, ap module_key p ∙ text_eq-eq (module_key n) key e)
          | inr l ↦ (inr ((f l).0), (f l).1)
        ],
        λ m. elim (m.0) [ inl p ↦ inl p | inr l ↦ inr (g (l, m.1)) ],
      )
      | inr e ↦ rw e (
        λ m. (inr ((f m).0), (f m).1),
        λ m. elim (m.0) [
          | inl p ↦ absurd (
              ground
                (arith, e, ap (λ k. text_eq k key) (ap module_key (sym p) ∙ m.1), text_eq_refl key))
          | inr l ↦ g (l, m.1)
        ],
      )
    ]

-- A tensor is in the group of a key exactly where it is one of the checkpoint's and the key is its
-- module's: every tensor is in one group, its module's.
pub modules_of_iff :
    (names : List Text) (key x : Text)
    → In x (modules_of names key) ↔ (In x names × (module_key x ≡ key))
unfolding modules_of
modules_of_iff names key x =
    let (f, g) = In-sort_names x (named key names) in
    let (f', g') = In-named key x names in (λ m. f' (f m), λ m. g (g' m))
