-- ===== src/Compose/Compare.antt =====
-- `check_module` and `check_restore_module`: whether a donor's module can stand for the base's.
use vllm_exl3_plugin.Base.{
  ℕ, ◌≡◌, inl, inr, refl, sym, Bool, ◌&&◌, ◌||◌, Option, none, some, List, [], ◌∷◌, ◌++◌, ◌==◌,
  length, drop, arith, if◌then◌else◌, In, Bool-cases, Option-cases, ok, ◌>>=◌,
}
use mathlib.Core.Path.{subst}
use vllm_exl3_plugin.Base.Text.{Text, codes, text_eq, text_eq-eq}
use vllm_exl3_plugin.Compose.Modules.{text_lt}
use vllm_exl3_plugin.Format.Consts.{Checked, pad_dim, pad_to_default}
use vllm_exl3_plugin.Format.Widths.{dims_from_trellis_shape}

-- A module's shapes by suffix.
abbrev pub Shapes : Type 0
Shapes = Text → Option (List ℕ)

pub data Problem : Type 0 where
  dims_differ : Text → Problem
  one_side_only : Text → Problem
  shape_differs : Text → Problem
  not_quantized no_dense_weight not_a_matrix other_padding no_bias : Problem

abbrev pub same_dims : ℕ × ℕ → ℕ × ℕ → Bool
same_dims (a, b) (c, d) = (a == c) && (b == d)

-- The exact comparison of one suffix.
abbrev pub compare_shapes : Text → Option (List ℕ) → Option (List ℕ) → List Problem
compare_shapes suffix (some a) (some b) = if text_eq a b then [] else shape_differs suffix ∷ []
compare_shapes suffix _ _ =
    if text_eq suffix (codes ".mcg") || text_eq suffix (codes ".mul1")
    then []
    else one_side_only suffix ∷ []

unfoldable pub check_suffix : Text → Option (List ℕ) → Option (List ℕ) → Checked (List Problem)
unfolding dims_from_trellis_shape
check_suffix suffix (some (a ∷ as')) (some (b ∷ bs)) =
    if text_eq suffix (codes ".trellis")
    then (do
      da ← dims_from_trellis_shape (a ∷ as')
      db ← dims_from_trellis_shape (b ∷ bs)
      ok (if same_dims da db then [] else dims_differ suffix ∷ []))
    else ok (compare_shapes suffix (some (a ∷ as')) (some (b ∷ bs)))
check_suffix suffix a b = ok (compare_shapes suffix a b)

-- The loop, over the suffixes that are left.
unfoldable pub check_suffixes : Shapes → Shapes → List Text → Checked (List Problem)
unfolding check_suffix
check_suffixes base donor [] = ok []
check_suffixes base donor (suffix ∷ suffixes) = do
  here ← check_suffix suffix (base suffix) (donor suffix)
  later ← check_suffixes base donor suffixes
  ok (here ++ later)

-- `n[len(mod):]` for the names of a module's group.
unfoldable pub suffixes_of : Text → List Text → List Text
suffixes_of key [] = []
suffixes_of key (n ∷ ns) = drop (length key) n ∷ suffixes_of key ns

-- `{n[len(mod):]: shapes[n] for n in group}`, where a later name replaces an earlier one.
unfoldable pub shapes_of : Text → List Text → (Text → List ℕ) → Shapes
shapes_of key [] shape suffix = none
shapes_of key (n ∷ ns) shape suffix =
    let later = shapes_of key ns shape suffix in
    elim later [
      | some s ↦ some s
      | none ↦ if text_eq suffix (drop (length key) n) then some (shape n) else none
    ]

-- `sorted(set(…))`
unfoldable pub add_suffix : Text → List Text → List Text
add_suffix s [] = s ∷ []
add_suffix s (t ∷ ts) =
    let rest = add_suffix s ts in
    if text_eq s t then t ∷ ts else if text_lt s t then s ∷ t ∷ ts else t ∷ rest

unfoldable pub sorted_set : List Text → List Text
unfolding add_suffix
sorted_set [] = []
sorted_set (s ∷ ss) = add_suffix s (sorted_set ss)

-- A shape is given for each of a header's names.
unfoldable pub check_module :
    Text → List Text → List Text → (Text → List ℕ) → (Text → List ℕ) → Checked (List Problem)
unfolding check_suffixes suffixes_of shapes_of sorted_set
check_module key base_group donor_group base_shape donor_shape =
    check_suffixes (shapes_of key base_group base_shape) (shapes_of key donor_group donor_shape)
      (sorted_set (suffixes_of key base_group ++ suffixes_of key donor_group))

abbrev pub bias_problem : Option (List ℕ) → Option (List ℕ) → List Problem
bias_problem (some _) none = no_bias ∷ []
bias_problem _ _ = []

abbrev pub check_dense : List ℕ → List ℕ → List Problem → Checked (List Problem)
check_dense t (w_out ∷ w_in ∷ []) bias = do
  dims ← dims_from_trellis_shape t
  padded_in ← pad_dim w_in pad_to_default
  padded_out ← pad_dim w_out pad_to_default
  ok ((if (padded_in == dims.0) && (padded_out == dims.1) then [] else other_padding ∷ []) ++ bias)
check_dense t w bias = do dims ← dims_from_trellis_shape t; ok (not_a_matrix ∷ [])

unfoldable pub check_restore_module : Shapes → Shapes → Checked (List Problem)
unfolding dims_from_trellis_shape pad_dim
check_restore_module base donor = elim (base (codes ".trellis")) [
  | none ↦ ok (not_quantized ∷ [])
  | some t ↦ elim (donor (codes ".weight")) [
    | none ↦ ok (no_dense_weight ∷ [])
    | some w ↦ check_dense t w (bias_problem (base (codes ".bias")) (donor (codes ".bias")))
  ]
]

In-add_suffix_self : (s : Text) (ts : List Text) → In s (add_suffix s ts)
unfolding add_suffix
In-add_suffix_self s [] = inl refl
In-add_suffix_self s (t ∷ ts) = elim (Bool-cases (text_eq s t)) [
  | inl e ↦ rw (e, In) (inl (text_eq-eq s t e))
  | inr e ↦ elim (Bool-cases (text_lt s t)) [
    | inl f ↦ rw (e, f, In) (inl refl)
    | inr f ↦ rw (e, f, In) (inr (In-add_suffix_self s ts))
  ]
]

In-add_suffix : (s x : Text) (ts : List Text) → In x ts → In x (add_suffix s ts)
unfolding add_suffix
In-add_suffix s x [] m = absurd m
In-add_suffix s x (t ∷ ts) m = elim (Bool-cases (text_eq s t)) [
  | inl e ↦ rw e m
  | inr e ↦ elim (Bool-cases (text_lt s t)) [
    | inl f ↦ rw (e, f) (inr m)
    | inr f ↦ elim m [
      | inl q ↦ rw (e, f, In) (inl q)
      | inr l ↦ rw (e, f, In) (inr (In-add_suffix s x ts l))
    ]
  ]
]

pub In-sorted_set : (x : Text) (ss : List Text) → In x ss → In x (sorted_set ss)
unfolding sorted_set
In-sorted_set x [] m = m
In-sorted_set x (s ∷ ss) (inl e) =
    subst (λ y. In y (add_suffix s (sorted_set ss))) (sym e) (In-add_suffix_self s (sorted_set ss))
In-sorted_set x (s ∷ ss) (inr m) = In-add_suffix s x (sorted_set ss) (In-sorted_set x ss m)

pub shapes_of-In :
    (key : Text) (group : List Text) (shape : Text → List ℕ) (suffix : Text) (s : List ℕ)
    → shapes_of key group shape suffix ≡ some s
    → In suffix (suffixes_of key group)
unfolding shapes_of suffixes_of
shapes_of-In key [] shape suffix s h = absurd (ground arith)
shapes_of-In key (n ∷ ns) shape suffix s h = elim (Option-cases (shapes_of key ns shape suffix)) [
  | inr (x, e) ↦ inr (shapes_of-In key ns shape suffix x e)
  | inl e ↦ elim (Bool-cases (text_eq suffix (drop (length key) n))) [
    | inl f ↦ inl (text_eq-eq suffix (drop (length key) n) f)
    | inr f ↦ absurd (ground (arith, rw (e, f) at h))
  ]
]
