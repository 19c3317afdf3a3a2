-- ===== src/Compose/Checks.antt =====
-- What it means that `check_module` or `check_restore_module` finds no problem.
use mathlib.Core.Path.{ap₂, subst}
use vllm_exl3_plugin.Base.{
  All, ℕ, ◌+◌, ◌-◌, ◌*◌, ◌/◌, ◌≡◌, ◌⊎◌, inl, inr, refl, In-append_left, In-append_right, sym, ap,
  ◌∙◌, true, ◌&&◌, ◌||◌, Option, none, some, List, [], ◌∷◌, ◌++◌, ◌==◌, arith, if◌then◌else◌, In,
  Bool-cases, Option-cases, bind-ok, ok, ◌>>=◌,
}
use vllm_exl3_plugin.Base.Text.{Text, codes, text_eq, text_eq-eq}
use vllm_exl3_plugin.Format.Consts.{pad_dim}
use vllm_exl3_plugin.Layers.Ready.{ok-injective}
use vllm_exl3_plugin.Format.Widths.{dims_from_trellis_shape}
use vllm_exl3_plugin.Compose.Sides.{Begins, Has, shapes_of-Has}
use vllm_exl3_plugin.Compose.Compare.{
  Shapes, Problem, dims_differ, not_quantized, no_dense_weight, not_a_matrix, other_padding,
  same_dims, compare_shapes, check_suffix, check_suffixes, suffixes_of, shapes_of, sorted_set,
  check_module, bias_problem, check_dense, check_restore_module, In-sorted_set, shapes_of-In,
}

append-nil_left : {A : Type 0} (xs ys : List A) → xs ++ ys ≡ [] → (xs ≡ []) × (ys ≡ [])
append-nil_left [] ys h = (refl, h)
append-nil_left (x ∷ xs) ys h = absurd (ground arith)

-- A dimension rounded up to whole blocks of 128.
abbrev pub padded : ℕ → ℕ
padded n = (n + 128 - 1) / 128 * 128

-- Nothing but a matrix passes.
only_matrix :
    (t : List ℕ) → (do dims ← dims_from_trellis_shape t; ok (not_a_matrix ∷ [])) ≡ ok [] → ⊥
only_matrix t h =
    let (dims, e, k) = bind-ok (dims_from_trellis_shape t) _ [] h in absurd (ground arith)

pads-eq :
    (dims : ℕ × ℕ) (w_in w_out : ℕ) (bias : List Problem)
    → ((if (padded w_in == dims.0) && (padded w_out == dims.1) then [] else other_padding ∷ [])
        ++ bias)
      ≡ []
    → (dims ≡ (padded w_in, padded w_out)) × (bias ≡ [])
pads-eq (a, b) w_in w_out bias h =
    let (fits, none_of_bias) = append-nil_left _ bias h in
    let first : padded w_in ≡ a = ground arith in
    let second : padded w_out ≡ b = ground arith in
    (sym (ap₂ (λ x y. (x, y)) first second), none_of_bias)

-- What a silent comparison with a dense weight means.
check_dense-nil :
    (t w : List ℕ) (bias : List Problem)
    → check_dense t w bias ≡ ok []
    → (w_out w_in : ℕ) × (w ≡ w_out ∷ w_in ∷ [])
      × (dims_from_trellis_shape t ≡ ok (padded w_in, padded w_out))
      × (bias ≡ [])
unfolding pad_dim
check_dense-nil t [] bias h = absurd (only_matrix t h)
check_dense-nil t (a ∷ []) bias h = absurd (only_matrix t h)
check_dense-nil t (a ∷ b ∷ c ∷ w) bias h = absurd (only_matrix t h)
check_dense-nil t (w_out ∷ w_in ∷ []) bias h =
    let (dims, e, k) = bind-ok (dims_from_trellis_shape t) _ [] h in
    let (same, quiet) = pads-eq dims w_in w_out bias (ok-injective k) in
    (w_out, w_in, refl, e ∙ ap ok same, quiet)

bias_problem-nil :
    (b d : Option (List ℕ))
    → bias_problem b d ≡ []
    → (x : List ℕ) → b ≡ some x
    → (y : List ℕ) × (d ≡ some y)
bias_problem-nil none d h x e = absurd (ground arith)
bias_problem-nil (some b) none h x e = absurd (ground arith)
bias_problem-nil (some b) (some d) h x e = (d, refl)

-- Where `check_restore_module` finds no problem, the base's module is a trellis, the donor has a dense
-- matrix for it whose dimensions, each rounded up to whole blocks of 128, are the trellis's own, and
-- the donor has a bias if the base does.
pub check_restore_module-nil :
    (base donor : Shapes)
    → check_restore_module base donor ≡ ok []
    → (t : List ℕ) × (w_out w_in : ℕ) × (base (codes ".trellis") ≡ some t)
      × (donor (codes ".weight") ≡ some (w_out ∷ w_in ∷ []))
      × (dims_from_trellis_shape t ≡ ok (padded w_in, padded w_out))
      × ((x : List ℕ)
          → base (codes ".bias") ≡ some x
          → (y : List ℕ) × (donor (codes ".bias") ≡ some y))
unfolding check_restore_module
check_restore_module-nil base donor h = elim (Option-cases (base (codes ".trellis"))) [
  | inl e ↦
      let opened : check_restore_module base donor ≡ ok (not_quantized ∷ []) =
        rw (e, check_restore_module) refl in
      absurd (ground (arith, sym opened ∙ h))
  | inr (t, e) ↦ elim (Option-cases (donor (codes ".weight"))) [
    | inl f ↦
        let opened : check_restore_module base donor ≡ ok (no_dense_weight ∷ []) =
          rw (e, f, check_restore_module) refl in
        absurd (ground (arith, sym opened ∙ h))
    | inr (w, f) ↦
        let opened : check_restore_module base donor
            ≡ check_dense t w (bias_problem (base (codes ".bias")) (donor (codes ".bias"))) =
          rw (e, f, check_restore_module) refl in
        let (w_out, w_in, matrix, dims, quiet) = check_dense-nil t w _ (sym opened ∙ h) in
        (
          t,
          w_out,
          w_in,
          e,
          f ∙ ap some matrix,
          dims,
          bias_problem-nil (base (codes ".bias")) (donor (codes ".bias")) quiet,
        )
  ]
]

-- What a donor's copy of a suffix may be, where the base has the other.
unfoldable pub Agrees : Text → Option (List ℕ) → Option (List ℕ) → Type 0
Agrees suffix b d =
    (b ≡ d)
    ⊎ (((suffix ≡ codes ".mcg") ⊎ (suffix ≡ codes ".mul1")) × ((b ≡ none) ⊎ (d ≡ none)))
    ⊎ ((x y : List ℕ) × (dims : ℕ × ℕ) × (b ≡ some x)
        × (d ≡ some y)
        × (suffix ≡ codes ".trellis")
        × (dims_from_trellis_shape x ≡ ok dims)
        × (dims_from_trellis_shape y ≡ ok dims))

is_codebook :
    (suffix : Text)
    → (text_eq suffix (codes ".mcg") || text_eq suffix (codes ".mul1")) ≡ true
    → (suffix ≡ codes ".mcg") ⊎ (suffix ≡ codes ".mul1")
is_codebook suffix h = elim (Bool-cases (text_eq suffix (codes ".mcg"))) [
  | inl e ↦ inl (text_eq-eq suffix (codes ".mcg") e)
  | inr e ↦ inr (text_eq-eq suffix (codes ".mul1") (rw e at h))
]

compare_shapes-Agrees :
    (suffix : Text) (b d : Option (List ℕ)) → compare_shapes suffix b d ≡ [] → Agrees suffix b d
unfolding Agrees
compare_shapes-Agrees suffix (some b) (some d) h = elim (Bool-cases (text_eq b d)) [
  | inl e ↦ inl (ap some (text_eq-eq b d e))
  | inr e ↦ absurd (ground arith)
]
compare_shapes-Agrees suffix none d h =
    elim (Bool-cases (text_eq suffix (codes ".mcg") || text_eq suffix (codes ".mul1"))) [
      | inl e ↦ inr (inl (is_codebook suffix e, inl refl))
      | inr e ↦ absurd (ground (arith, rw e at h))
    ]
compare_shapes-Agrees suffix (some b) none h =
    elim (Bool-cases (text_eq suffix (codes ".mcg") || text_eq suffix (codes ".mul1"))) [
      | inl e ↦ inr (inl (is_codebook suffix e, inr refl))
      | inr e ↦ absurd (ground (arith, rw e at h))
    ]

same_dims-eq : (p q : ℕ × ℕ) → same_dims p q ≡ true → p ≡ q
same_dims-eq (a, b) (c, d) h =
    let first : a ≡ c = ground arith in
    let second : b ≡ d = ground arith in ap₂ (λ x y. (x, y)) first second

trellis-Agrees :
    (suffix : Text) (x y : List ℕ)
    → text_eq suffix (codes ".trellis") ≡ true
    → (do
      da ← dims_from_trellis_shape x
      db ← dims_from_trellis_shape y
      ok (if same_dims da db then [] else dims_differ suffix ∷ []))
      ≡ ok []
    → Agrees suffix (some x) (some y)
unfolding Agrees
trellis-Agrees suffix x y is h =
    let (da, e1, h1) = bind-ok (dims_from_trellis_shape x) _ [] h in
    let (db, e2, h2) = bind-ok (dims_from_trellis_shape y) _ [] h1 in
    elim (Bool-cases (same_dims da db)) [
      | inl s ↦ inr (
          inr (
            x,
            y,
            da,
            refl,
            refl,
            text_eq-eq suffix (codes ".trellis") is,
            e1,
            e2 ∙ ap ok (sym (same_dims-eq da db s)),
          ))
      | inr s ↦ absurd (ground (arith, rw s at h2))
    ]

check_suffix-Agrees :
    (suffix : Text) (b d : Option (List ℕ)) → check_suffix suffix b d ≡ ok [] → Agrees suffix b d
unfolding check_suffix
check_suffix-Agrees suffix (some (x ∷ xs)) (some (y ∷ ys)) h =
    elim (Bool-cases (text_eq suffix (codes ".trellis"))) [
      | inl e ↦ trellis-Agrees suffix (x ∷ xs) (y ∷ ys) e (rw e at h)
      | inr e ↦
          compare_shapes-Agrees suffix (some (x ∷ xs)) (some (y ∷ ys)) (ok-injective (rw e at h))
    ]
check_suffix-Agrees suffix none d h = compare_shapes-Agrees suffix none d (ok-injective h)
check_suffix-Agrees suffix (some []) d h = compare_shapes-Agrees suffix (some []) d (ok-injective h)
check_suffix-Agrees suffix (some (x ∷ xs)) none h =
    compare_shapes-Agrees suffix (some (x ∷ xs)) none (ok-injective h)
check_suffix-Agrees suffix (some (x ∷ xs)) (some []) h =
    compare_shapes-Agrees suffix (some (x ∷ xs)) (some []) (ok-injective h)

check_suffixes-nil :
    (base donor : Shapes) (suffixes : List Text)
    → check_suffixes base donor suffixes ≡ ok []
    → (suffix : Text) → In suffix suffixes
    → Agrees suffix (base suffix) (donor suffix)
unfolding check_suffixes
check_suffixes-nil base donor [] h suffix m = absurd m
check_suffixes-nil base donor (x ∷ xs) h suffix m =
    let (here, e1, h1) = bind-ok (check_suffix x (base x) (donor x)) _ [] h in
    let (later, e2, h2) = bind-ok (check_suffixes base donor xs) _ [] h1 in
    let (quiet, rest) = append-nil_left here later (ok-injective h2) in
    elim m [
      | inl q ↦
          subst (λ s. Agrees s (base s) (donor s)) (sym q)
            (check_suffix-Agrees x (base x) (donor x) (e1 ∙ ap ok quiet))
      | inr l ↦ check_suffixes-nil base donor xs (e2 ∙ ap ok rest) suffix l
    ]

check_module-Agrees :
    (key : Text) (base_group donor_group : List Text) (base_shape donor_shape : Text → List ℕ)
    → check_module key base_group donor_group base_shape donor_shape ≡ ok []
    → (suffix : Text)
    → Agrees suffix
        (shapes_of key base_group base_shape suffix)
        (shapes_of key donor_group donor_shape suffix)
unfolding check_module Agrees
check_module-Agrees key bs ds base_shape donor_shape h suffix =
    let all = sorted_set (suffixes_of key bs ++ suffixes_of key ds) in
    let each =
      check_suffixes-nil (shapes_of key bs base_shape) (shapes_of key ds donor_shape) all h
        suffix in
    let either = suffixes_of key bs ++ suffixes_of key ds in
    elim (Option-cases (shapes_of key bs base_shape suffix)) [
      | inr (s, e) ↦
          let m = shapes_of-In key bs base_shape suffix s e in
          each (In-sorted_set suffix either (In-append_left suffix (suffixes_of key bs) _ m))
      | inl e ↦ elim (Option-cases (shapes_of key ds donor_shape suffix)) [
        | inr (s, f) ↦
            let m = shapes_of-In key ds donor_shape suffix s f in
            each (In-sorted_set suffix either (In-append_right suffix (suffixes_of key bs) _ m))
        | inl f ↦ inl (e ∙ sym f)
      ]
    ]

-- Where `check_module` finds no problem in two groups of names that begin with the module's, the
-- base's and the donor's module agree in every suffix: neither has a tensor of that name, or the two
-- have the same shape, or it is the trellis and they have the same dimensions, whatever their widths,
-- or it names a codebook that one side has.
pub check_module-nil :
    (key : Text) (base_group donor_group : List Text) (base_shape donor_shape : Text → List ℕ)
    → All (Begins key) base_group
    → All (Begins key) donor_group
    → check_module key base_group donor_group base_shape donor_shape ≡ ok []
    → (suffix : Text)
    → (b : Option (List ℕ)) × (d : Option (List ℕ)) × Has key base_group base_shape suffix b
      × Has key donor_group donor_shape suffix d
      × Agrees suffix b d
check_module-nil key bs ds base_shape donor_shape of_base of_donor h suffix = (
  shapes_of key bs base_shape suffix,
  shapes_of key ds donor_shape suffix,
  shapes_of-Has key bs base_shape suffix of_base,
  shapes_of-Has key ds donor_shape suffix of_donor,
  check_module-Agrees key bs ds base_shape donor_shape h suffix,
)
