-- ===== src/Compose/Resolved.antt =====
-- Every rule of a command line keeps what is resolved.
use mathlib.Core.Path.{subst}
use vllm_exl3_plugin.Base.{
  ℕ, ◌≡◌, inl, inr, refl, sym, ap, ◌∙◌, true, false, ◌&&◌, Option, none, some, List, [], ◌∷◌, arith,
  In, Bool-cases, Option-cases, List-cases, bind-ok, Result, ok, raise,
}
use vllm_exl3_plugin.Base.Text.{Text}
use vllm_exl3_plugin.Format.Keys.{quantized_module_keys}
use vllm_exl3_plugin.Offload.State.{has_text}
use vllm_exl3_plugin.Layers.Ready.{ok-injective}
use vllm_exl3_plugin.Compose.Lookups.{has_text-In}
use vllm_exl3_plugin.Compose.Selected.{
  keep_if-In, missing_from-nil, quantized-In, Inside, select-Inside,
}
use vllm_exl3_plugin.Compose.Rules.{
  Patterns, module_keys, keep_if, RuleError, unmet_width, not_in_base, absent_in_donor,
  before_any_from, Rule, from_dir, keep, take, restore, map_file, Rules, Checkpoint, select,
  drop_all, set_all, missing_from, has_bits, supplier, place_map, keys_of_map, take_from,
  restore_from, map_from, step, run, no_rules, any_given, resolve,
}
use vllm_exl3_plugin.Compose.Given.{
  Given, Resolved, no_rules-Resolved, set-Resolved, restore-Resolved, drop-Resolved, from-Resolved,
}

module _ (P : Patterns) (base : Checkpoint) (donor : ℕ → Checkpoint) where
  supplier-In :
      (ds : List ℕ) (m : Text) (k d : ℕ)
      → supplier P base donor ds m k ≡ some d
      → In d ds × In m (module_keys (donor d).names)
  unfolding supplier
  supplier-In [] m k d h = absurd (ground arith)
  supplier-In (e ∷ ds) m k d h =
      elim (Bool-cases
        (has_text m (module_keys (donor e).names) && has_bits ((donor e).bits m) k)) [
          | inl f ↦
              let same : e ≡ d = ground arith in
              let has : has_text m (module_keys (donor e).names) ≡ true = ground arith in
              (
                inl (sym same),
                subst (λ z. In m (module_keys (donor z).names)) same (has_text-In m _ has),
              )
          | inr f ↦ (let (x, y) = supplier-In ds m k d (ground arith) in (inr x, y))
        ]

  named-Given :
      (r : Rules) (m : Text) (d : ℕ) (x : Text)
      → x ≡ m
      → In m (module_keys base.names)
      → In m (module_keys (donor d).names)
      → In d r.donors
      → Given P base donor r x d
  unfolding Given
  named-Given r m d x q in_base in_donor named = (
    subst (λ z. In z (module_keys base.names)) (sym q) in_base,
    subst (λ z. In z (module_keys (donor d).names)) (sym q) in_donor,
    named,
  )

  place_map-none :
      (wanted : List (Text × ℕ)) (r : Rules) (m : Text) (k : ℕ)
      → has_bits (base.bits m) k ≡ false
      → supplier P base donor r.donors m k ≡ none
      → place_map P base donor ((m, k) ∷ wanted) r ≡ raise unmet_width
  unfolding place_map
  place_map-none wanted r m k f e = rw (f, e, place_map) refl

  place_map-some :
      (wanted : List (Text × ℕ)) (r : Rules) (m : Text) (k d : ℕ)
      → has_bits (base.bits m) k ≡ false
      → supplier P base donor r.donors m k ≡ some d
      → place_map P base donor ((m, k) ∷ wanted) r
        ≡ place_map P base donor wanted (record r {
          assign = set_all (m ∷ []) d r.assign;
          restored = drop_all (m ∷ []) r.restored;
        })
  unfolding place_map
  place_map-some wanted r m k d f e = rw (f, e, place_map) refl

  place_map-Resolved :
      (wanted : List (Text × ℕ)) (r next : Rules)
      → ((m : Text) → In m (keys_of_map P base donor wanted) → In m (module_keys base.names))
      → Resolved P base donor r
      → place_map P base donor wanted r ≡ ok next
      → Resolved P base donor next
  unfolding place_map
  place_map-Resolved [] r next known h run = subst (Resolved P base donor) (ok-injective run) h
  place_map-Resolved ((m, k) ∷ wanted) r next known h run =
      let later = (λ (x : Text) (i : In x (keys_of_map P base donor wanted)). known x (inr i)) in
      elim (Bool-cases (has_bits (base.bits m) k)) [
        | inl f ↦ place_map-Resolved wanted r next later h (rw f at run)
        | inr f ↦ elim (Option-cases (supplier P base donor r.donors m k)) [
          | inl e ↦ absurd (ground (arith, sym (place_map-none wanted r m k f e) ∙ run))
          | inr (d, e) ↦
              let (named, has) = supplier-In r.donors m k d e in
              place_map-Resolved wanted _ next later
                (set-Resolved P base donor r (m ∷ []) d h (λ x i. elim i [
                  | inl q ↦ named-Given r m d x q (known m (inl refl)) has named
                  | inr none_more ↦ absurd none_more
                ]))
                (sym (place_map-some wanted r m k d f e) ∙ run)
        ]
      ]

  take_from-Resolved :
      (d : ℕ) (chosen : List Text) (r next : Rules)
      → Resolved P base donor r
      → In d r.donors
      → ((m : Text) → In m chosen → In m (module_keys (donor d).names))
      → take_from P base donor d chosen r ≡ ok next
      → Resolved P base donor next
  unfolding Given
  take_from-Resolved d chosen r next h named has run =
      elim (List-cases (missing_from (module_keys base.names) chosen)) [
        | inr (x, xs, e) ↦
            let opened : take_from P base donor d chosen r ≡ raise not_in_base =
              rw (e, take_from) refl in
            absurd (ground (arith, sym opened ∙ run))
        | inl e ↦
            let opened : take_from P base donor d chosen r
                ≡ ok (record r {
                  assign = set_all chosen d r.assign;
                  restored = drop_all chosen r.restored;
                }) =
              rw (e, take_from) refl in
            subst (Resolved P base donor) (ok-injective (sym opened ∙ run)) (
              set-Resolved P base donor r chosen d h
                (λ m i. (missing_from-nil (module_keys base.names) chosen m e i, has m i, named)))
      ]

  restore_from-Resolved :
      (d : ℕ) (sel : Text) (chosen : List Text) (r next : Rules)
      → Resolved P base donor r
      → In d r.donors
      → ((m : Text) → In m chosen → In m (quantized_module_keys base.names))
      → restore_from P base donor d sel chosen r ≡ ok next
      → Resolved P base donor next
  unfolding Given
  restore_from-Resolved d sel [] r next h named quantized run = absurd (ground arith)
  restore_from-Resolved d sel (m ∷ ms) r next h named quantized run =
      elim (List-cases (missing_from (module_keys (donor d).names) (m ∷ ms))) [
        | inr (x, xs, e) ↦
            let opened : restore_from P base donor d sel (m ∷ ms) r ≡ raise (absent_in_donor sel) =
              rw (e, restore_from) refl in
            absurd (ground (arith, sym opened ∙ run))
        | inl e ↦
            let opened : restore_from P base donor d sel (m ∷ ms) r
                ≡ ok (record r {
                  restored = set_all (m ∷ ms) d r.restored;
                  assign = drop_all (m ∷ ms) r.assign;
                }) =
              rw (e, restore_from) refl in
            subst (Resolved P base donor) (ok-injective (sym opened ∙ run)) (
              restore-Resolved P base donor r (m ∷ ms) d h (λ x i. (
                (
                  quantized-In base.names x (quantized x i),
                  missing_from-nil (module_keys (donor d).names) (m ∷ ms) x e i,
                  named,
                ),
                quantized x i,
              )))
      ]

  map_from-Resolved :
      (wanted : List (Text × ℕ)) (r next : Rules)
      → Resolved P base donor r
      → map_from P base donor wanted r ≡ ok next
      → Resolved P base donor next
  unfolding map_from
  map_from-Resolved wanted r next h e =
      elim (List-cases (missing_from (module_keys base.names) (keys_of_map P base donor wanted))) [
        | inr (x, xs, q) ↦
            let opened : map_from P base donor wanted r ≡ raise not_in_base =
              rw (q, map_from) refl in
            absurd (ground (arith, sym opened ∙ e))
        | inl q ↦
            let opened : map_from P base donor wanted r ≡ place_map P base donor wanted r =
              rw (q, map_from) refl in
            place_map-Resolved wanted r next
              (λ m i.
                missing_from-nil (module_keys base.names) (keys_of_map P base donor wanted) m q i)
              h (sym opened ∙ e)
      ]

  -- The donor that a rule other than `--from` and `--keep` needs.
  with_current :
      (r next : Rules) (f : ℕ → Result RuleError Rules)
      → Resolved P base donor r
      → ((d : ℕ) → In d r.donors → f d ≡ ok next → Resolved P base donor next)
      → (elim (r.current) [ none ↦ raise before_any_from | some d ↦ f d ]) ≡ ok next
      → Resolved P base donor next
  unfolding Resolved
  with_current r next f (a, b, c) k e = by_current r.current c e
    where
      by_current :
          (o : Option ℕ)
          → ((d : ℕ) → o ≡ some d → In d r.donors)
          → (elim o [ none ↦ raise before_any_from | some d ↦ f d ]) ≡ ok next
          → Resolved P base donor next
      by_current none c e = absurd (ground arith)
      by_current (some d) c e = k d (c d refl) e

  step-Resolved :
      (r next : Rules) (rule : Rule)
      → Resolved P base donor r
      → step P base donor r rule ≡ ok next
      → Resolved P base donor next
  unfolding step Inside
  step-Resolved r next (from_dir d) h run = from-Resolved P base donor r d h next run
  step-Resolved r next (keep sel) h run =
      let (chosen, e, run1) =
        bind-ok (select P sel (module_keys base.names) (quantized_module_keys base.names)) _ next
          run in
      subst (Resolved P base donor) (ok-injective run1) (drop-Resolved P base donor r chosen h)
  step-Resolved r next (restore sel) h run =
      with_current r next _ h
        (λ d named go.
          let (chosen, e, run1) =
            bind-ok (select P sel (module_keys base.names) (quantized_module_keys base.names)) _
              next go in
          restore_from-Resolved d sel
            (keep_if (λ m. has_text m (quantized_module_keys base.names)) chosen) r next h named
            (λ m i. has_text-In m (quantized_module_keys base.names) ((keep_if-In _ m chosen i).1))
            run1)
        run
  step-Resolved r next (map_file wanted) h run =
      with_current r next _ h (λ d named go. map_from-Resolved wanted r next h go) run
  step-Resolved r next (take sel) h run =
      with_current r next _ h
        (λ d named go.
          let (chosen, e, run1) =
            bind-ok
              (select P sel (module_keys (donor d).names) (quantized_module_keys (donor d).names)) _
              next go in
          take_from-Resolved d chosen r next h named
            (select-Inside P sel (module_keys (donor d).names)
              (quantized_module_keys (donor d).names) (quantized-In (donor d).names) chosen e)
            run1)
        run

  run-Resolved :
      (rules : List Rule) (r last : Rules)
      → Resolved P base donor r
      → run P base donor r rules ≡ ok last
      → Resolved P base donor last
  unfolding run
  run-Resolved [] r last h e = subst (Resolved P base donor) (ok-injective e) h
  run-Resolved (rule ∷ rules) r last h e =
      let (next, e1, e2) = bind-ok (step P base donor r rule) _ last e in
      run-Resolved rules next last (step-Resolved r next rule h e1) e2

resolve-run :
    (P : Patterns) (base : Checkpoint) (donor : ℕ → Checkpoint) (rules : List Rule) (last : Rules)
    → resolve P base donor rules ≡ ok last
    → run P base donor no_rules rules ≡ ok last
unfolding resolve
resolve-run P base donor rules last h =
    let (r, e, chosen) = bind-ok (run P base donor no_rules rules) _ last h in
    elim (Bool-cases (any_given P base donor r (module_keys base.names))) [
      | inl f ↦ e ∙ ap ok (ok-injective (rw f at chosen))
      | inr f ↦ absurd (ground (arith, rw f at chosen))
    ]

-- Whatever rules a command line has, where they resolve, no module is both assigned and restored; one
-- that is either is the base's and its donor's, and the donor was named by a `--from`; and one that is
-- restored is quantized in the base.
pub resolve-Resolved :
    (P : Patterns) (base : Checkpoint) (donor : ℕ → Checkpoint) (rules : List Rule) (last : Rules)
    → resolve P base donor rules ≡ ok last
    → Resolved P base donor last
resolve-Resolved P base donor rules last h =
    run-Resolved P base donor rules no_rules last (no_rules-Resolved P base donor)
      (resolve-run P base donor rules last h)
