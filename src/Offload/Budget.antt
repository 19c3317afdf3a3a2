-- ===== src/Offload/Budget.antt =====
-- The counts over a whole load: what is spent, and what is the plugin's of it.
use vllm_exl3_plugin.Base.{
  ℕ, zero, suc, ◌+◌, ◌≤◌, ◌<◌, ◌≡◌, inl, inr, refl, ◌∙◌, max, Bool, true, false, not, ◌&&◌, ◌||◌,
  Option, none, some, List, [], ◌∷◌, ◌++◌, length, leb, arith, if◌then◌else◌, Bool-cases,
  Option-cases,
}
use vllm_exl3_plugin.Base.Text.{Text, codes}
use vllm_exl3_plugin.Offload.State.{
  Offload, has_text, selected, usable, uva_loader, count, offloadable_components,
}
use vllm_exl3_plugin.Offload.Dense.{DenseParam, place, register_offload, no_params, full_name}
use vllm_exl3_plugin.Offload.Experts.{
  Host, Tensor, Collector, expert_name, host_quota, take_experts, plan_block, planned,
}

-- The counts move together: vLLM's budget and the experts' bytes by what the plugin's total moves by,
-- and no tensor is taken once the budget is spent.
unfoldable pub Grows : ℕ → Offload → Offload → Type 0
Grows big o p =
    (p.backend ≡ o.backend)
    × (p.limit ≡ o.limit)
    × (o.spent ≤ p.spent)
    × (o.expert_bytes ≤ p.expert_bytes)
    × (p.spent + p.expert_bytes + o.total_bytes ≡ o.spent + o.expert_bytes + p.total_bytes)
    × (p.spent ≤ max o.spent (o.limit + big))

pub Grows-refl : (big : ℕ) (o : Offload) → Grows big o o
unfolding Grows
Grows-refl big o = (refl, refl, omega arith, omega arith, refl, omega arith)

pub Grows-trans : (big : ℕ) (o p q : Offload) → Grows big o p → Grows big p q → Grows big o q
unfolding Grows
Grows-trans big o p q (b, l, s, e, t, m) (b', l', s', e', t', m') =
    (b' ∙ b, l' ∙ l, omega arith, omega arith, omega arith, omega arith)

uva_loader-Grows : (big : ℕ) (o : Offload) → Grows big o (uva_loader o)
unfolding Grows uva_loader
uva_loader-Grows big o = elim (Bool-cases (usable o)) [
  | inl e ↦ rw e (Grows-refl big o)
  | inr e ↦ rw e (Grows-refl big o)
]

uva_loader_counts :
    (o : Offload) → ((uva_loader o).limit ≡ o.limit) × ((uva_loader o).spent ≡ o.spent)
unfolding uva_loader
uva_loader_counts o = elim (Bool-cases (usable o)) [
  | inl e ↦ rw e (refl, refl)
  | inr e ↦ rw e (refl, refl)
]

count-Grows :
    (big : ℕ) (o : Offload) (prefix : Text) (n : ℕ) (budget : Bool)
    → n ≤ big
    → (budget ≡ true → o.spent < o.limit)
    → Grows big o (count o prefix n budget)
unfolding Grows count
count-Grows big o prefix n true h low =
    let below = low refl in (refl, refl, omega arith, omega arith, omega arith, omega arith)
count-Grows big o prefix n false h low =
    (refl, refl, omega arith, omega arith, omega arith, omega arith)

below-of-or : (a : Bool) (x y : ℕ) → (a || leb x y) ≡ false → y < x
below-of-or true x y h = absurd (ground arith)
below-of-or false x y h = ground arith

pub place-Grows :
    (search : Text → Text → Bool) (big : ℕ) (o : Offload) (param : DenseParam) (n : ℕ)
    → n ≤ big
    → Grows big o ((place search o param n).1)
unfolding place
place-Grows find big o param n h =
    let asked = param.offloadable && has_text param.name offloadable_components in
    let o1 : Offload = if asked then uva_loader o else o in
    let early : (Grows big o o1) × (o1.limit ≡ o.limit) × (o1.spent ≡ o.spent) =
      elim (Bool-cases asked) [
        | inl e ↦ (let (a, b) = uva_loader_counts o in rw e (uva_loader-Grows big o, a, b))
        | inr e ↦ rw e (Grows-refl big o, refl, refl)
      ] in
    let blocked =
      not (asked && usable o)
      || no_params o.params
      || not (selected find o.params (full_name param.prefix param.name)) in
    elim (Bool-cases (blocked || leb o.limit o.spent)) [
      | inl e ↦ rw e (early.0)
      | inr e ↦
          let low = below-of-or blocked o.limit o.spent e in
          rw e (
            Grows-trans big o o1 (count o1 param.prefix n true) (early.0)
              (count-Grows big o1 param.prefix n true h (λ _. omega (arith, early.1, early.2))))
    ]

-- The counts of `o` that a guard reads, after a step that only noted the request.
Noted : ℕ → Offload → Offload → Type 0
Noted big o p = (Grows big o p) × (p.limit ≡ o.limit) × (p.spent ≡ o.spent)

uva_loader-Noted : (big : ℕ) (o : Offload) → Noted big o (uva_loader o)
unfolding Noted
uva_loader-Noted big o = let (a, b) = uva_loader_counts o in (uva_loader-Grows big o, a, b)

-- One tensor counted against the budget, under the guard that a step reads first.
spend-Grows :
    (big : ℕ) (o p : Offload) (prefix : Text) (n : ℕ)
    → Noted big o p
    → n ≤ big
    → o.spent < o.limit
    → Grows big o (count p prefix n true)
unfolding Noted
spend-Grows big o p prefix n (grows, limit, spent) h low =
    Grows-trans big o p (count p prefix n true) grows
      (count-Grows big p prefix n true h (λ _. omega (arith, limit, spent)))

-- Both branches of a test.
if-Grows :
    {A : Type 0} (big : ℕ) (o : Offload) (b : Bool) (x y : A × Offload)
    → (b ≡ true → Grows big o (x.1))
    → (b ≡ false → Grows big o (y.1))
    → Grows big o ((if b then x else y).1)
if-Grows big o true x y f g = f refl
if-Grows big o false x y f g = g refl

pub register_offload-Grows :
    (search : Text → Text → Bool) (big : ℕ) (o : Offload) (prefix : Text) (weight : Option ℕ)
    (already : Bool)
    → ((n : ℕ) → weight ≡ some n → n ≤ big)
    → Grows big o ((register_offload search o prefix weight already).1)
unfolding register_offload
register_offload-Grows find big o prefix none already h =
    if-Grows big o (not (usable o)) _ _ (λ _. uva_loader-Grows big o) (λ _. uva_loader-Grows big o)
register_offload-Grows find big o prefix (some n) already h =
    let blocked = not (selected find o.params (full_name prefix (codes "weight"))) || already in
    if-Grows big o (not (usable o)) _ _ (λ _. uva_loader-Grows big o)
      (λ _.
        if-Grows big o (blocked || leb o.limit o.spent) _ _ (λ _. uva_loader-Grows big o)
          (λ f.
            spend-Grows big o (uva_loader o) prefix n (uva_loader-Noted big o) (h n refl)
              (below-of-or blocked o.limit o.spent f)))

host_quota-Noted :
    (H : Host) (big : ℕ) (o : Offload) (experts n : ℕ) → Noted big o ((host_quota H o experts n).1)
unfolding host_quota Noted Grows
host_quota-Noted H big o experts n = elim (Option-cases (o.quota)) [
  | inl e ↦ rw (e, host_quota) (Grows-refl big o, refl, refl)
  | inr (q, e) ↦ rw (e, host_quota) (Grows-refl big o, refl, refl)
]

take_experts-Grows :
    (H : Host) (big : ℕ) (c : Collector) (label nbytes : ℕ) (cached : Bool) (quota e n : ℕ)
    (taken : List ℕ) (o : Offload)
    → nbytes ≤ big
    → Grows big o ((take_experts H c label nbytes cached quota e n taken o).1)
unfolding take_experts
take_experts-Grows H big c label nbytes cached quota e zero taken o h = Grows-refl big o
take_experts-Grows H big c label nbytes cached quota e (suc n) taken o h =
    elim (Bool-cases (leb quota (length taken) || (not cached && leb o.limit o.spent))) [
      | inl stop ↦ rw stop (Grows-refl big o)
      | inr go ↦ elim (Bool-cases (selected H.search o.params (expert_name H c label e))) [
        | inl chosen ↦
            rw (go, chosen)
              (Grows-trans big o (count o c.prefix nbytes (not cached)) _
                (count-Grows big o c.prefix nbytes (not cached) h
                  (λ cold. ground (arith, go, cold)))
                (take_experts-Grows H big c label nbytes cached quota (suc e) n (taken ++ e ∷ [])
                  (count o c.prefix nbytes (not cached)) h))
        | inr left ↦
            rw (go, left) (take_experts-Grows H big c label nbytes cached quota (suc e) n taken o h)
      ]
    ]

plan_block-Grows :
    (H : Host) (big : ℕ) (c : Collector) (cached : Bool) (o : Offload) (t : Tensor) (label : ℕ)
    → t.nbytes ≤ big
    → Grows big o ((plan_block H c cached o t label).1)
unfolding plan_block Noted
plan_block-Grows H big c cached o t label h =
    let asked = uva_loader o in
    let (quota, o1) : ℕ × Offload =
      if cached then host_quota H asked c.num_experts t.nbytes else (c.num_experts, asked) in
    let early : Grows big o o1 =
      if-Grows big o cached _ _
        (λ _.
          Grows-trans big o asked _ (uva_loader-Grows big o)
            ((host_quota-Noted H big asked c.num_experts t.nbytes).0))
        (λ _. uva_loader-Grows big o) in
    if-Grows big o (not (has_text c.name offloadable_components)) _ _ (λ _. Grows-refl big o)
      (λ _.
        if-Grows big o (not (usable o)) _ _ (λ _. Grows-refl big o)
          (λ _.
            Grows-trans big o o1 _ early
              (take_experts-Grows H big c label t.nbytes cached quota 0 c.num_experts [] o1 h)))

pub planned-Grows :
    (H : Host) (big : ℕ) (c : Collector) (cached : Bool) (o : Offload) (t : Tensor) (label : ℕ)
    → t.nbytes ≤ big
    → Grows big o ((planned H c cached o t label).2)
unfolding planned
planned-Grows H big c cached o t label h = elim (Option-cases (c.blocks label)) [
  | inl e ↦ rw (e, planned) (plan_block-Grows H big c cached o t label h)
  | inr (b, e) ↦ rw (e, planned) (Grows-refl big o)
]
