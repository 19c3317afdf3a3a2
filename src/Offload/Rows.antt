-- ===== src/Offload/Rows.antt =====
-- Every expert's tensor is where its placement said, however many others load after it.
use vllm_exl3_plugin.Base.{
  ℕ, suc, ◌≤◌, ◌≡◌, ◌≢◌, ◌⊎◌, inl, inr, refl, sym, ap, ◌∙◌, Bool, false, Option, none, some, List,
  [], ◌∷◌, ◌==◌, arith, Bool-cases, Option-cases, ℕ_discrete, Result, ok, raise,
}
use vllm_exl3_plugin.Base.Text.{text_eq}
use vllm_exl3_plugin.Offload.State.{Offload}
use vllm_exl3_plugin.Offload.Experts.{
  Host, Tensor, Block, Collector, Home, on_device, in_row, OffloadError, other_shape, row_of,
  row_from, plan_block, planned, place_in, place_expert, set_block, set_row,
}

row_from-ge : (r e : ℕ) (xs : List ℕ) (k : ℕ) → row_from r e xs ≡ some k → r ≤ k
unfolding row_from
row_from-ge r e [] k h = absurd (ground arith)
row_from-ge r e (x ∷ xs) k h = ground (arith, row_from-ge (suc r) e xs k)

row_from-injective :
    (r e e' : ℕ) (xs : List ℕ) (k : ℕ)
    → row_from r e xs ≡ some k
    → row_from r e' xs ≡ some k
    → e ≡ e'
unfolding row_from
row_from-injective r e e' [] k h h' = absurd (ground arith)
row_from-injective r e e' (x ∷ xs) k h h' = ground (
  arith,
  row_from-ge (suc r) e xs k,
  row_from-ge (suc r) e' xs k,
  row_from-injective (suc r) e e' xs k,
)

-- What a home reads as: a device's copy as it was made, a row of a block as it stands.
unfoldable pub reads : Collector → Home → Option ℕ
reads c (on_device v) = some v
reads c (in_row label row) = elim (c.blocks label) [
  | none ↦ none
  | some plan ↦ elim plan [ none ↦ none | some b ↦ b.rows row ]
]

-- A row is its expert's, in the plan of its projection, and holds its value.
pub record Seat (c : Collector) (label expert row v : ℕ) : Type 0 where
  pub block : Block
  pub stands : c.blocks label ≡ some (some block)
  pub seat : row_of block.experts expert ≡ some row
  pub held : block.rows row ≡ some v

-- What a home shows of the tensor that was placed there.
unfoldable pub Shows : Collector → (label expert value : ℕ) → Home → Type 0
Shows c label expert value (on_device v) = v ≡ value
Shows c label expert value (in_row l row) = (l ≡ label) × Seat c l expert row value

pub Shows-reads :
    (c : Collector) (l x v : ℕ) (home : Home) → Shows c l x v home → reads c home ≡ some v
unfolding Shows reads
Shows-reads c l x v (on_device w) h = ap some h
Shows-reads c l x v (in_row j row) (same, h) = rw (h.stands, reads) (h.held)

pub some-injective {ℓ} : {A : Type ℓ} {a b : A} → some a ≡ some b → a ≡ b
some-injective h = ground arith

-- A plan that is made leaves the rows of the others.
Seat-set_block :
    (c : Collector) (l x row v label : ℕ) (b : Option Block)
    → l ≢ label
    → Seat c l x row v
    → Seat (set_block c label b) l x row v
Seat-set_block c l x row v label b ne h = record {
  block = h.block;
  stands = ground (arith, h.stands);
  seat = h.seat;
  held = h.held;
}

-- So does the write of another expert's row.
Seat-set_row :
    (c : Collector) (l x row v label e r w : ℕ) (b : Block)
    → (l ≢ label) ⊎ (x ≢ e)
    → c.blocks label ≡ some (some b)
    → row_of b.experts e ≡ some r
    → Seat c l x row v
    → Seat (set_block c label (some (set_row b r w))) l x row v
Seat-set_row c l x row v label e r w b ne stands seat h = elim (ℕ_discrete l label) [
  | no other ↦ Seat-set_block c l x row v label (some (set_row b r w)) other h
  | yes same ↦
      let one : h.block ≡ b =
        some-injective (some-injective (sym (h.stands) ∙ ap (c.blocks) same ∙ stands)) in
      let differs : x ≢ e = elim ne [ inl p ↦ absurd (p same) | inr p ↦ p ] in
      let apart : row ≢ r = λ q. differs (
        row_from-injective 0 x e b.experts r
          (sym (ap (λ d. row_of d.experts x) one) ∙ h.seat ∙ ap some q) seat) in
      record {
        block = set_row b r w;
        stands = ground arith;
        seat = sym (ap (λ d. row_of d.experts x) one) ∙ h.seat;
        held =
            (let other : (row == r) ≡ false = ground arith in
              rw other (sym (ap (λ d. d.rows row) one) ∙ h.held));
      }
]

abbrev Outcome : Type 0
Outcome = Result OffloadError (Home × Collector × Offload)

home_of : Home → Outcome → Home
home_of d (ok (home, c, o)) = home
home_of d (raise _) = d

collector_of : Collector → Outcome → Collector
collector_of d (ok (home, c, o)) = c
collector_of d (raise _) = d

-- Where a placement ends: the device, or the row of its expert in the plan.
Ended : Collector → Tensor → ℕ → ℕ → Option Block → Home → Collector → Type 0
Ended c t label e plan home c' =
    ((home ≡ on_device t.value) × (c' ≡ c))
    ⊎ ((b : Block) × (row : ℕ) × (plan ≡ some b)
        × (row_of b.experts e ≡ some row)
        × (home ≡ in_row label row)
        × (c' ≡ set_block c label (some (set_row b row t.value))))

place_in-Ended :
    (c c' : Collector) (o o' : Offload) (t : Tensor) (label e : ℕ) (plan : Option Block)
    (home : Home)
    → place_in c o t label e plan ≡ ok (home, c', o')
    → Ended c t label e plan home c'
unfolding place_in Ended home_of collector_of
place_in-Ended c c' o o' t label e none home run =
    inl (ap (home_of home) (sym run), ap (collector_of c) (sym run))
place_in-Ended c c' o o' t label e (some b) home run = elim (Option-cases (row_of b.experts e)) [
  | inl q ↦
      let opened : place_in c o t label e (some b) ≡ ok (on_device t.value, c, o) =
        rw (q, place_in) refl in
      let ends = sym run ∙ opened in inl (ap (home_of home) ends, ap (collector_of c) ends)
  | inr (r, q) ↦ elim (Bool-cases (text_eq t.shape b.shape)) [
    | inl f ↦
        let opened : place_in c o t label e (some b)
            ≡ ok (in_row label r, set_block c label (some (set_row b r t.value)), o) =
          rw (q, place_in) (rw f refl) in
        let ends = sym run ∙ opened in
        inr (b, r, refl, q, ap (home_of home) ends, ap (collector_of c) ends)
    | inr f ↦
        let opened : place_in c o t label e (some b) ≡ raise (other_shape e) =
          rw (q, place_in) (rw f refl) in
        absurd (ground (arith, sym run ∙ opened))
  ]
]

Seat-Ended :
    (c c' : Collector) (t : Tensor) (label e : ℕ) (plan : Option Block) (home : Home)
    (l x row v : ℕ)
    → Ended c t label e plan home c'
    → c.blocks label ≡ some plan
    → (l ≢ label) ⊎ (x ≢ e)
    → Seat c l x row v
    → Seat c' l x row v
unfolding Ended
Seat-Ended c c' t label e plan home l x row v (inl (_, same)) stands ne h = rw same h
Seat-Ended c c' t label e plan home l x row v (inr (b, r, is, seat, _, after)) stands ne h =
    rw after (Seat-set_row c l x row v label e r t.value b ne (stands ∙ ap some is) seat h)

Shows-Ended :
    (c c' : Collector) (t : Tensor) (label e : ℕ) (plan : Option Block) (home : Home)
    → Ended c t label e plan home c'
    → Shows c' label e (t.value) home
unfolding Ended Shows
Shows-Ended c c' t label e plan home (inl (at, same)) = rw at refl
Shows-Ended c c' t label e plan home (inr (b, r, is, seat, at, after)) = rw at (
  refl,
  record {
    block = set_row b r t.value;
    stands = rw after (ground arith);
    seat = seat;
    held = ground arith;
  },
)

module _ (H : Host) (cached : Bool) where
  pub planned_plan :
      (c : Collector) (o : Offload) (t : Tensor) (label : ℕ)
      → (planned H c cached o t label).1.blocks label ≡ some ((planned H c cached o t label).0)
  unfolding planned
  planned_plan c o t label = elim (Option-cases (c.blocks label)) [
    | inl e ↦ rw (e, planned) (ground arith)
    | inr (b, e) ↦ rw (e, planned) e
  ]

  Seat-planned :
      (c : Collector) (o : Offload) (t : Tensor) (label l x row v : ℕ)
      → Seat c l x row v
      → Seat ((planned H c cached o t label).1) l x row v
  unfolding planned
  Seat-planned c o t label l x row v h = elim (Option-cases (c.blocks label)) [
    | inr (b, e) ↦ rw (e, planned) h
    | inl e ↦
        rw (e, planned)
          (Seat-set_block c l x row v label ((plan_block H c cached o t label).0)
            (λ q. absurd (ground (arith, h.stands, ap (c.blocks) q, e))) h)
  ]

  Seat-place_expert :
      (c c' : Collector) (o o' : Offload) (t : Tensor) (label e : ℕ) (home : Home) (l x row v : ℕ)
      → place_expert H c cached o t label e ≡ ok (home, c', o')
      → (l ≢ label) ⊎ (x ≢ e)
      → Seat c l x row v
      → Seat c' l x row v
  unfolding place_expert
  Seat-place_expert c c' o o' t label e home l x row v run ne h =
      let (plan, c1, o1) = planned H c cached o t label in
      Seat-Ended c1 c' t label e plan home l x row v
        (place_in-Ended c1 c' o1 o' t label e plan home run) (planned_plan c o t label) ne
        (Seat-planned c o t label l x row v h)

  pub Shows-place_expert :
      (c c' : Collector) (o o' : Offload) (t : Tensor) (label e : ℕ) (home : Home)
      → place_expert H c cached o t label e ≡ ok (home, c', o')
      → Shows c' label e (t.value) home
  unfolding place_expert
  Shows-place_expert c c' o o' t label e home run =
      let (plan, c1, o1) = planned H c cached o t label in
      Shows-Ended c1 c' t label e plan home (place_in-Ended c1 c' o1 o' t label e plan home run)

  pub Shows_keeps :
      (c c' : Collector) (o o' : Offload) (t : Tensor) (label e : ℕ) (home : Home) (l x v : ℕ)
      (was : Home)
      → place_expert H c cached o t label e ≡ ok (home, c', o')
      → (l ≢ label) ⊎ (x ≢ e)
      → Shows c l x v was
      → Shows c' l x v was
  unfolding Shows
  Shows_keeps c c' o o' t label e home l x v (on_device w) run ne h = h
  Shows_keeps c c' o o' t label e home l x v (in_row j row) run ne (same, h) =
      (same, Seat-place_expert c c' o o' t label e home j x row v run (rw same ne) h)
