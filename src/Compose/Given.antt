-- ===== src/Compose/Given.antt =====
-- What it is for modules to be resolved, and the updates that keep it.
use mathlib.Core.Path.{subst}
use vllm_exl3_plugin.Base.{
  ℕ, ◌≡◌, inl, inr, refl, true, none, some, List, [], ◌∷◌, ◌++◌, ◌==◌, arith, if◌then◌else◌, In,
  In-append_left, In-append_right, Bool-cases, ok, some-eq,
}
use vllm_exl3_plugin.Base.Text.{Text}
use vllm_exl3_plugin.Format.Keys.{quantized_module_keys}
use vllm_exl3_plugin.Offload.State.{has_text}
use vllm_exl3_plugin.Layers.Ready.{ok-injective}
use vllm_exl3_plugin.Compose.Lookups.{has_text-In}
use vllm_exl3_plugin.Compose.Rules.{
  Patterns, module_keys, from_dir, Rules, Checkpoint, drop_all, set_all, known_donor, step, run,
  no_rules,
}

known_donor-In : (d : ℕ) (ds : List ℕ) → known_donor d ds ≡ true → In d ds
known_donor-In d [] h = absurd (ground arith)
known_donor-In d (e ∷ ds) h = elim (Bool-cases (d == e)) [
  | inl q ↦ inl (ground arith)
  | inr q ↦ inr (known_donor-In d ds (ground arith))
]

-- The donors once one more is named have that one and all before it.
known_more :
    (d : ℕ) (ds : List ℕ)
    → ((e : ℕ) → In e ds → In e (if known_donor d ds then ds else ds ++ d ∷ []))
      × In d (if known_donor d ds then ds else ds ++ d ∷ [])
known_more d ds = elim (Bool-cases (known_donor d ds)) [
  | inl e ↦ rw e (λ k i. i, known_donor-In d ds e)
  | inr e ↦ rw e (λ k i. In-append_left k ds (d ∷ []) i, In-append_right d ds (d ∷ []) (inl refl))
]

module _ (P : Patterns) (base : Checkpoint) (donor : ℕ → Checkpoint) where
  -- A module that is given a donor is the base's and the donor's, and the donor was named by a `--from`.
  unfoldable pub Given : Rules → Text → ℕ → Type 0
  Given r m d = In m (module_keys base.names) × In m (module_keys (donor d).names) × In d (r.donors)

  -- What rules resolve to: no module both assigned and restored, each from a donor that has it, and
  -- only quantized ones restored.
  unfoldable pub Resolved : Rules → Type 0
  unfolding Given
  Resolved r =
      ((m : Text) (d : ℕ) → r.assign m ≡ some d → Given r m d × (r.restored m ≡ none))
      × ((m : Text) (d : ℕ)
          → r.restored m ≡ some d
          → Given r m d × In m (quantized_module_keys base.names))
      × ((d : ℕ) → r.current ≡ some d → In d r.donors)

  pub no_rules-Resolved : Resolved no_rules
  unfolding Resolved
  no_rules-Resolved =
      (λ m d h. absurd (ground arith), λ m d h. absurd (ground arith), λ d h. absurd (ground arith))

  -- A set of modules assigned.
  pub set-Resolved :
      (r : Rules) (chosen : List Text) (d : ℕ)
      → Resolved r
      → ((m : Text) → In m chosen → Given r m d)
      → Resolved
          (record r { assign = set_all chosen d r.assign; restored = drop_all chosen r.restored })
  unfolding Resolved Given
  set-Resolved r chosen d h given =
      let (a, b, c) = h in
      (
        λ m e q. elim (Bool-cases (has_text m chosen)) [
          | inl i ↦
              (let (x, y, z) = given m (has_text-In m chosen i) in
                let same : d ≡ e = ground arith in
                (
                  (
                    x,
                    subst (λ k. In m (module_keys (donor k).names)) same y,
                    subst (λ k. In k (r.donors)) same z,
                  ),
                  rw i refl,
                ))
          | inr i ↦
              (let was : r.assign m ≡ some e = ground arith in
                let (x, y) = a m e was in (x, rw i y))
        ],
        λ m e q. b m e (ground arith),
        c,
      )

  -- A set of quantized modules restored.
  pub restore-Resolved :
      (r : Rules) (chosen : List Text) (d : ℕ)
      → Resolved r
      → ((m : Text) → In m chosen → Given r m d × In m (quantized_module_keys base.names))
      → Resolved
          (record r { restored = set_all chosen d r.restored; assign = drop_all chosen r.assign })
  unfolding Resolved Given
  restore-Resolved r chosen d h given =
      let (a, b, c) = h in
      (
        λ m e q. elim (Bool-cases (has_text m chosen)) [
          | inl i ↦ absurd (ground arith)
          | inr i ↦
              (let was : r.assign m ≡ some e = ground arith in
                let (x, y) = a m e was in (x, rw i y))
        ],
        λ m e q. elim (Bool-cases (has_text m chosen)) [
          | inl i ↦
              (let (x, quantized) = given m (has_text-In m chosen i) in
                let (x0, y, z) = x in
                let same : d ≡ e = ground arith in
                (
                  (
                    x0,
                    subst (λ k. In m (module_keys (donor k).names)) same y,
                    subst (λ k. In k (r.donors)) same z,
                  ),
                  quantized,
                ))
          | inr i ↦ b m e (ground arith)
        ],
        c,
      )

  pub drop-Resolved :
      (r : Rules) (chosen : List Text)
      → Resolved r
      → Resolved
          (record r { assign = drop_all chosen r.assign; restored = drop_all chosen r.restored })
  unfolding Resolved Given
  drop-Resolved r chosen h =
      let (a, b, c) = h in
      (
        λ m e q. elim (Bool-cases (has_text m chosen)) [
          | inl i ↦ absurd (ground arith)
          | inr i ↦
              (let was : r.assign m ≡ some e = ground arith in
                let (x, y) = a m e was in (x, rw i y))
        ],
        λ m e q. b m e (ground arith),
        c,
      )

  -- A donor named, or named again.
  pub from-Resolved :
      (r : Rules) (d : ℕ)
      → Resolved r
      → (next : Rules) → step P base donor r (from_dir d) ≡ ok next
      → Resolved next
  unfolding Resolved Given step
  from-Resolved r d h next run =
      let (a, b, c) = h in
      let same = ok-injective run in
      let more = known_more d r.donors in
      subst Resolved same (
        λ m e q. (let (g, n) = a m e q in let (x, y, z) = g in ((x, y, more.0 e z), n)),
        λ m e q. (let (g, n) = b m e q in let (x, y, z) = g in ((x, y, more.0 e z), n)),
        λ e q.
            subst (λ k. In k (if known_donor d r.donors then r.donors else r.donors ++ d ∷ []))
              (some-eq d e q) (more.1),
      )
