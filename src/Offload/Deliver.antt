-- ===== src/Offload/Deliver.antt =====
-- A layer's experts as they load: where each tensor went is where its contents are at the end.
use vllm_exl3_plugin.Base.{
  ℕ, ◌≡◌, ◌≢◌, ◌⊎◌, inl, inr, refl, sym, ap, ◌∙◌, Bool, Option, none, some, List, [], ◌∷◌, map,
  arith, if◌then◌else◌, All, Bool-cases, Option-cases, ℕ_discrete, Result, ok, ◌>>=◌,
}
use vllm_exl3_plugin.Base.Text.{text_eq_refl}
use vllm_exl3_plugin.Offload.State.{Offload, has_text, usable, uva_loader, offloadable_components}
use vllm_exl3_plugin.Offload.Experts.{
  Host, Tensor, Block, Collector, Home, OffloadError, row_of, host_quota, take_experts, plan_block,
  planned, place_in, place_expert, block_for, set_block, set_row, on_device, in_row,
}
use vllm_exl3_plugin.Offload.Rows.{
  reads, Shows, Shows-reads, Shows_keeps, Shows-place_expert, planned_plan, some-injective,
}

-- A tensor that arrives: its projection and its expert.
pub record Delivery : Type 0 where
  pub label : ℕ
  pub expert : ℕ
  pub tensor : Tensor

-- A tensor that was placed, with where it went.
pub record Sent : Type 0 where
  pub delivery : Delivery
  pub home : Home

-- No projection of an expert arrives twice.
unfoldable pub Once : List Delivery → Type 0
Once [] = Unit
Once (d ∷ ds) = All (λ d'. (d.label ≢ d'.label) ⊎ (d.expert ≢ d'.expert)) ds × Once ds

-- Every plan's rows have the shape of its projection.
Shaped : (ℕ → List ℕ) → Collector → Type 0
Shaped shape c = (label : ℕ) (b : Block) → c.blocks label ≡ some (some b) → b.shape ≡ shape label

block_for_shape :
    (t : Tensor) (taken : List ℕ) (b : Block) → block_for t taken ≡ some b → b.shape ≡ t.shape
block_for_shape t [] b h = absurd (ground arith)
block_for_shape t (x ∷ xs) b h = sym (ap (λ d. d.shape) (some-injective h))

plan_block_shape :
    (H : Host) (c : Collector) (cached : Bool) (o : Offload) (t : Tensor) (label : ℕ) (b : Block)
    → (plan_block H c cached o t label).0 ≡ some b
    → b.shape ≡ t.shape
unfolding plan_block
plan_block_shape H c cached o t label b h =
    let asked = uva_loader o in
    let (quota, o1) : ℕ × Offload =
      if cached then host_quota H asked c.num_experts t.nbytes else (c.num_experts, asked) in
    let (taken, o2) = take_experts H c label t.nbytes cached quota 0 c.num_experts [] o1 in
    let made = block_for_shape t taken b in
    elim (Bool-cases (has_text c.name offloadable_components)) [
      | inr f ↦ absurd (ground (arith, f, h))
      | inl f ↦ elim (Bool-cases (usable o)) [
        | inr g ↦ absurd (ground (arith, f, g, h))
        | inl g ↦ made (ground (arith, f, g, h))
      ]
    ]

module _ (H : Host) (cached : Bool) (shape : ℕ → List ℕ) where
  Shaped-planned :
      (c : Collector) (o : Offload) (t : Tensor) (label : ℕ)
      → t.shape ≡ shape label
      → Shaped shape c
      → Shaped shape ((planned H c cached o t label).1)
  unfolding planned Shaped
  Shaped-planned c o t label same h = elim (Option-cases (c.blocks label)) [
    | inr (b, e) ↦ rw (e, planned) h
    | inl e ↦
        rw (e, planned)
          (λ j b q. elim (ℕ_discrete j label) [
            | yes p ↦
                plan_block_shape H c cached o t label b (ground arith) ∙ same ∙ ap shape (sym p)
            | no p ↦ h j b (ground arith)
          ])
  ]

  -- A placement returns where the shapes agree, and they still do.
  place_in_ok :
      (c : Collector) (o : Offload) (t : Tensor) (label e : ℕ) (plan : Option Block)
      → t.shape ≡ shape label
      → c.blocks label ≡ some plan
      → Shaped shape c
      → (home : Home) × (c' : Collector) × (o' : Offload) × (place_in c o t label e plan
          ≡ ok (home, c', o'))
        × Shaped shape c'
  unfolding place_in Shaped
  place_in_ok c o t label e none same stands h = (on_device t.value, c, o, refl, h)
  place_in_ok c o t label e (some b) same stands h = elim (Option-cases (row_of b.experts e)) [
    | inl q ↦ (on_device t.value, c, o, rw (q, place_in) refl, h)
    | inr (r, q) ↦
        let here : b.shape ≡ t.shape = h label b stands ∙ sym same in
        (
          in_row label r,
          set_block c label (some (set_row b r t.value)),
          o,
          rw (q, place_in) (rw (here, text_eq_refl) refl),
          λ j d f. elim (ℕ_discrete j label) [
            | yes p ↦
                let is : some (some (set_row b r t.value)) ≡ some (some d) = ground arith in
                sym (ap (λ x. x.shape) (some-injective (some-injective is)))
                ∙ h label b stands
                ∙ ap shape (sym p)
            | no p ↦ h j d (ground arith)
          ],
        )
  ]

  place_expert_ok :
      (c : Collector) (o : Offload) (t : Tensor) (label e : ℕ)
      → t.shape ≡ shape label
      → Shaped shape c
      → (home : Home) × (c' : Collector) × (o' : Offload) × (place_expert H c cached o t label e
          ≡ ok (home, c', o'))
        × Shaped shape c'
  unfolding place_expert
  place_expert_ok c o t label e same h =
      let (plan, c1, o1) = planned H c cached o t label in
      place_in_ok c1 o1 t label e plan same (planned_plan H cached c o t label)
        (Shaped-planned c o t label same h)

module _ (H : Host) (cached : Bool) where
  -- The experts of a layer, in the order in which they load.
  unfoldable pub deliver_each :
      Collector → Offload → List Delivery → Result OffloadError (List Sent × Collector × Offload)
  unfolding place_expert
  deliver_each c o [] = ok ([], c, o)
  deliver_each c o (d ∷ ds) =
      place_expert H c cached o d.tensor d.label d.expert >>= λ (home, c1, o1).
      deliver_each c1 o1 ds >>= λ (sent, c2, o2).
      ok (record { delivery = d; home = home } ∷ sent, c2, o2)

  -- What a run of the deliveries leaves: their homes show them, and older homes show what they did.
  record Delivered (c : Collector) (o : Offload) (ds : List Delivery) : Type 0 where
    sent : List Sent
    last : Collector
    after : Offload
    runs : deliver_each c o ds ≡ ok (sent, last, after)
    each : map (λ s. s.delivery) sent ≡ ds
    shown :
        All (λ s. Shows last s.delivery.label s.delivery.expert s.delivery.tensor.value s.home) sent
    older :
        (l x v : ℕ) (was : Home)
        → All (λ d. (l ≢ d.label) ⊎ (x ≢ d.expert)) ds
        → Shows c l x v was
        → Shows last l x v was

  deliver_each-Delivered :
      (shape : ℕ → List ℕ) (c : Collector) (o : Offload) (ds : List Delivery)
      → All (λ d. d.tensor.shape ≡ shape d.label) ds
      → Once ds
      → Shaped shape c
      → Delivered c o ds
  unfolding deliver_each Once
  deliver_each-Delivered shape c o [] shapes once h = record {
    sent = [];
    last = c;
    after = o;
    runs = refl;
    each = refl;
    shown = tt;
    older = λ l x v was _ shows. shows;
  }
  deliver_each-Delivered shape c o (d ∷ ds) (same, shapes) (apart, once) h =
      let (home, c1, o1, run, h1) =
        place_expert_ok H cached shape c o d.tensor d.label d.expert same h in
      let rest = deliver_each-Delivered shape c1 o1 ds shapes once h1 in
      let now = Shows-place_expert H cached c c1 o o1 d.tensor d.label d.expert home run in
      record {
        sent = record { delivery = d; home = home } ∷ rest.sent;
        last = rest.last;
        after = rest.after;
        runs = rw (run, rest.runs) refl;
        each = ap (◌∷◌ d) (rest.each);
        shown = (rest.older d.label d.expert d.tensor.value home apart now, rest.shown);
        older = λ l x v was others shows. rest.older l x v was (others.1) (
            Shows_keeps H cached c c1 o o1 d.tensor d.label d.expert home l x v was run (others.0)
              shows);
      }

shown-reads :
    (c : Collector) (sent : List Sent)
    → All (λ s. Shows c s.delivery.label s.delivery.expert s.delivery.tensor.value s.home) sent
    → All (λ s. reads c s.home ≡ some (s.delivery.tensor.value)) sent
shown-reads c [] h = tt
shown-reads c (s ∷ sent) (one, more) = (
  Shows-reads c s.delivery.label s.delivery.expert s.delivery.tensor.value s.home one,
  shown-reads c sent more,
)

-- Experts of a layer that has no plan yet, each projection of each expert once and all of one shape
-- per projection, are all placed, in any order of arrival: the run returns a home for each, and
-- when the last has arrived each home reads as the tensor that went there, whether it is the
-- device's copy or a row of a host block.
pub deliver_each-reads :
    (H : Host) (cached : Bool) (shape : ℕ → List ℕ) (c : Collector) (o : Offload)
    (ds : List Delivery)
    → ((label : ℕ) → c.blocks label ≡ none)
    → All (λ d. d.tensor.shape ≡ shape d.label) ds
    → Once ds
    → (sent : List Sent) × (c' : Collector) × (o' : Offload) × (deliver_each H cached c o ds
        ≡ ok (sent, c', o'))
      × (map (λ s. s.delivery) sent ≡ ds)
      × All (λ s. reads c' s.home ≡ some (s.delivery.tensor.value)) sent
unfolding Shaped
deliver_each-reads H cached shape c o ds fresh shapes once =
    let r =
      deliver_each-Delivered H cached shape c o ds shapes once
        (λ label b p. absurd (ground (arith, fresh label, p))) in
    (r.sent, r.last, r.after, r.runs, r.each, shown-reads (r.last) (r.sent) (r.shown))
