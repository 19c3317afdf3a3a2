-- ===== src/Compose/Ledger.antt =====
-- What the moves of a composition put down for each shard, and the lookups that they use.
use mathlib.Core.Path.{subst, ap₂}
use vllm_exl3_plugin.Base.{
  ℕ, ◌≡◌, ◌↔◌, inl, inr, refl, sym, ap, ◌∙◌, true, false, some, List, [], ◌∷◌, ◌++◌, ◌==◌, arith,
  In, In-append_left, In-append_right, In-append_cases, ℕ_discrete, some-eq, ok,
}
use vllm_exl3_plugin.Base.Text.{Text}
use vllm_exl3_plugin.Compose.Modules.{modules_of}
use vllm_exl3_plugin.Compose.Write.{
  Shards, names_of, Move, carried, home, in_shard, Ledger, with_donor, move_all, at_shard,
}

-- What a first move and the later ones put down, together.
In-step :
    {A : Type 0} (x : A) (here later : List A) (P : Move → Type 0) (mv : Move) (moves : List Move)
    → In x here ↔ P mv
    → In x later ↔ ((m : Move) × In m moves × P m)
    → In x (here ++ later) ↔ ((m : Move) × In m (mv ∷ moves) × P m)
In-step x here later P mv moves (f, g) (f', g') = (
  λ m. elim (In-append_cases x here later m) [
    | inl h ↦ (mv, inl refl, f h)
    | inr l ↦ (let (m', i, p) = f' l in (m', inr i, p))
  ],
  λ m.
      (let (m', i, p) = m in
        elim i [
          | inl e ↦ In-append_left x here later (g (subst P e p))
          | inr l ↦ In-append_right x here later (g' (m', l, p))
        ]),
)

pub In-at_shard :
    {A : Type 0} (s : ℕ) (x : A) (xs : List (ℕ × A)) → In x (at_shard s xs) ↔ In (s, x) xs
unfolding at_shard
In-at_shard s x [] = (λ m. m, λ m. m)
In-at_shard s x ((t, y) ∷ xs) =
    let (f, g) = In-at_shard s x xs in
    elim (ℕ_discrete s t) [
      | yes p ↦
          let here : (s == t) ≡ true = ground arith in
          rw here (
            λ m. elim m [ inl e ↦ inl (ap₂ (λ a b. (a, b)) p e) | inr l ↦ inr (f l) ],
            λ m. elim m [ inl e ↦ inl (ap (λ z. z.1) e) | inr l ↦ inr (g l) ],
          )
      | no p ↦
          let other : (s == t) ≡ false = ground arith in
          rw other
            (λ m. inr (f m), λ m. elim m [ inl e ↦ absurd (p (ap (λ z. z.0) e)) | inr l ↦ g l ])
    ]

In-in_shard :
    {A : Type 0} (s t : ℕ) (x : A) (xs : List A) → In (t, x) (in_shard s xs) ↔ ((t ≡ s) × In x xs)
In-in_shard s t x [] = (λ m. absurd m, λ m. m.1)
In-in_shard s t x (y ∷ xs) =
    let (f, g) = In-in_shard s t x xs in
    (
      λ m. elim m [
        | inl e ↦ (ap (λ z. z.0) e, inl (ap (λ z. z.1) e))
        | inr l ↦ ((f l).0, inr ((f l).1))
      ],
      λ m. elim (m.1) [ inl e ↦ inl (ap₂ (λ a b. (a, b)) (m.0) e) | inr l ↦ inr (g (m.0, l)) ],
    )

In-with_donor :
    (d e : ℕ) (x : Text) (xs : List Text) → In (x, e) (with_donor d xs) ↔ ((e ≡ d) × In x xs)
In-with_donor d e x [] = (λ m. absurd m, λ m. m.1)
In-with_donor d e x (y ∷ xs) =
    let (f, g) = In-with_donor d e x xs in
    (
      λ m. elim m [
        | inl p ↦ (ap (λ z. z.1) p, inl (ap (λ z. z.0) p))
        | inr l ↦ ((f l).0, inr ((f l).1))
      ],
      λ m. elim (m.1) [ inl p ↦ inl (ap₂ (λ a b. (a, b)) p (m.0)) | inr l ↦ inr (g (m.0, l)) ],
    )

-- What one move puts down in `replaced` and in `incoming`.
unfoldable pub Drops : Shards → Move → ℕ → Text → Type 0
Drops base mv s n = (home base mv.key ≡ some s) × In n (modules_of (names_of base) mv.key)

unfoldable pub Brings : Shards → (ℕ → List Text) → Move → ℕ → Text → ℕ → Type 0
Brings base donors mv s n d =
    (home base mv.key ≡ some s) × (d ≡ mv.donor) × In n (carried donors mv)

In-dropped :
    (base : Shards) (mv : Move) (h s : ℕ) (n : Text)
    → home base mv.key ≡ some h
    → In (s, n) (in_shard h (modules_of (names_of base) mv.key)) ↔ Drops base mv s n
unfolding Drops
In-dropped base mv h s n at =
    let (f, g) = In-in_shard h s n (modules_of (names_of base) mv.key) in
    (
      λ m. (let (e, i) = f m in (at ∙ ap some (sym e), i)),
      λ m. g (some-eq _ _ (sym (m.0) ∙ at), m.1),
    )

In-brought :
    (base : Shards) (donors : ℕ → List Text) (mv : Move) (h s : ℕ) (n : Text) (d : ℕ)
    → home base mv.key ≡ some h
    → In (s, (n, d)) (in_shard h (with_donor mv.donor (carried donors mv)))
      ↔ Brings base donors mv s n d
unfolding Brings
In-brought base donors mv h s n d at =
    let (f, g) = In-in_shard h s (n, d) (with_donor mv.donor (carried donors mv)) in
    let (f', g') = In-with_donor mv.donor d n (carried donors mv) in
    (
      λ m. (let (e, i) = f m in let (p, q) = f' i in (at ∙ ap some (sym e), p, q)),
      λ m. g (some-eq _ _ (sym (m.0) ∙ at), g' (m.1, m.2)),
    )

-- A ledger has what its moves put down, and nothing else.
unfoldable pub IsLedger : Shards → (ℕ → List Text) → List Move → Ledger → Type 0
IsLedger base donors moves ledger =
    ((s : ℕ) (n : Text) → In (s, n) ledger.0 ↔ ((mv : Move) × In mv moves × Drops base mv s n))
    × ((s : ℕ) (n : Text) (d : ℕ)
        → In (s, (n, d)) ledger.1 ↔ ((mv : Move) × In mv moves × Brings base donors mv s n d))

pub move_all-IsLedger :
    (base : Shards) (donors : ℕ → List Text) (moves : List Move)
    → ((mv : Move) → In mv moves → (s : ℕ) × (home base mv.key ≡ some s))
    → (ledger : Ledger) × (move_all base donors moves ≡ ok ledger)
      × IsLedger base donors moves ledger
unfolding move_all IsLedger Drops Brings
move_all-IsLedger base donors [] known = (
  ([], []),
  refl,
  (λ s n. (λ m. absurd m, λ m. absurd (m.1)), λ s n d. (λ m. absurd m, λ m. absurd (m.1))),
)
move_all-IsLedger base donors (mv ∷ moves) known =
    let (h, at) = known mv (inl refl) in
    let (later, run, puts) = move_all-IsLedger base donors moves (λ m i. known m (inr i)) in
    let (drops, brings) = puts in
    (
      (
        in_shard h (modules_of (names_of base) mv.key) ++ later.0,
        in_shard h (with_donor mv.donor (carried donors mv)) ++ later.1,
      ),
      rw (at, move_all) (rw run refl),
      (
        λ s n.
            In-step (s, n) _ (later.0) (λ m. Drops base m s n) mv moves
              (In-dropped base mv h s n at) (drops s n),
        λ s n d.
            In-step (s, (n, d)) _ (later.1) (λ m. Brings base donors m s n d) mv moves
              (In-brought base donors mv h s n d at) (brings s n d),
      ),
    )
