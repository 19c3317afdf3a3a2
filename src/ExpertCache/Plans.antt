-- ===== src/ExpertCache/Plans.antt =====
-- The loop over the misses keeps the invariant, and so do the copies that it ends in.
use mathlib.Core.Path.{subst, fun_ext}
use mathlib.Core.List.{append_assoc}
use native.Mathlib.Nat.{div-add-mod}
use vllm_exl3_plugin.Base.{
  ℕ, ◌*◌, ◌/◌, ◌%◌, ◌≡◌, ◌≢◌, ◌⊎◌, inl, inr, refl, sym, ap, ◌∙◌, Bool, true, Option, none, some,
  List, [], ◌∷◌, ◌++◌, arith, leb, In, Distinct, Option-cases, Bool-cases, length, some-eq,
  ℕ_discrete,
}
use vllm_exl3_plugin.ExpertCache.State.{Layout, Ref, Content, copying, update2, write}
use vllm_exl3_plugin.ExpertCache.Writes.{to_host, write_slots}
use vllm_exl3_plugin.ExpertCache.Lru.{victim}
use vllm_exl3_plugin.ExpertCache.Victim.{victim-eq-some}
use vllm_exl3_plugin.ExpertCache.Demand.{Demand}
use vllm_exl3_plugin.ExpertCache.Planning.{Plan, release, claim, place, place_all}
use vllm_exl3_plugin.ExpertCache.Tables.{IsWellFormed, write-append, write_slots_ne}
use vllm_exl3_plugin.ExpertCache.Coherence.{
  Table, IsCoherent, claim-IsCoherent, same_ref, update2_ne, update2_self,
}
use vllm_exl3_plugin.ExpertCache.Release.{release-IsCoherent}
use vllm_exl3_plugin.ExpertCache.Order.{keys}

update2_twice :
    (f : ℕ → ℕ → Option ℕ) (l s : ℕ) (v w : Option ℕ)
    → update2 (update2 f l s v) l s w ≡ update2 f l s w
update2_twice f l s v w = fun_ext (λ l'. fun_ext (λ s'. ground arith))

reowned :
    {K : Layout} {slot_of owner owner' : ℕ → ℕ → Option ℕ} {live : ℕ → ℕ → Bool}
    {contents : ℕ → ℕ → ℕ → Content} {table : Table} {moving : List Ref}
    → owner ≡ owner'
    → IsCoherent K slot_of owner live contents table moving
    → IsCoherent K slot_of owner' live contents table moving
reowned {K} {slot_of} {live = live} {contents = contents} {table = table} {moving = moving} p c =
    subst (λ o. IsCoherent K slot_of o live contents table moving) p c

pub key_parts : (k k' n : ℕ) → k / n ≡ k' / n → k % n ≡ k' % n → k ≡ k'
key_parts k k' n a b = omega (arith, div-add-mod k n, div-add-mod k' n, ap (λ (t : ℕ). n * t) a)

victim_live :
    (K : Layout) (p : Plan) (l s old : ℕ)
    → victim K p.cache l ≡ some s
    → p.cache.owner l s ≡ some old
    → p.cache.live l old ≡ true
victim_live K p l s old v o = elim ((victim-eq-some K p.cache l s v).1) [
  | inl free ↦ absurd (ground arith)
  | inr (full, (e, t, least)) ↦
      let same : e ≡ old = some-eq _ _ (sym t.owned ∙ o) in
      subst (λ x. p.cache.live l x ≡ true) same t.live
]

module _ (K : Layout) (wf : IsWellFormed K) (queued : List Ref) where
  -- The invariant within the loop: the table counts as written.
  abbrev pub PlanOk : Plan → Type 0
  PlanOk p =
      IsCoherent K p.cache.slot_of p.cache.owner p.cache.live p.cache.contents
        (write p.cache.table p.updates) (queued ++ p.issued)

  claim-PlanOk :
      (p : Plan) (l s e : ℕ)
      → PlanOk p
      → p.cache.owner l s ≡ none
      → p.cache.slot_of l e ≡ none
      → PlanOk (claim K p l s e)
  unfolding claim
  claim-PlanOk p l s e c free new =
      rw (← append_assoc queued p.issued ((l, e) ∷ []))
        (claim-IsCoherent K wf l s e (queued ++ p.issued) c free new)

  still_new :
      (p : Plan) (l e old : ℕ)
      → p.cache.slot_of l e ≡ none
      → update2 p.cache.slot_of l old none l e ≡ none
  still_new p l e old new = elim (ℕ_discrete e old) [
    | yes q ↦ rw q (update2_self p.cache.slot_of l old none)
    | no q ↦ update2_ne p.cache.slot_of l old none l e (λ _. q) ∙ new
  ]

  swap-PlanOk :
      (p : Plan) (l s e old : ℕ)
      → PlanOk p
      → p.cache.live l old ≡ true
      → p.cache.owner l s ≡ some old
      → p.cache.slot_of l e ≡ none
      → PlanOk (claim K (release K p l old) l s e)
  unfolding claim release to_host
  swap-PlanOk p l s e old c alive own new =
      let seat = c.holds l s old own in
      let freed = release-IsCoherent K wf l s old (queued ++ p.issued) c alive seat in
      let taken =
        claim-IsCoherent K wf l s e (queued ++ p.issued) freed (update2_self p.cache.owner l s none)
          (still_new p l e old new) in
      rw (← append_assoc queued p.issued ((l, e) ∷ []), write-append p.updates _ p.cache.table)
        (reowned (update2_twice p.cache.owner l s none (some e)) taken)

  -- What the body of the loop does: nothing, a claim of a free slot, or a swap with a live victim.
  abbrev pub Placed : Plan → ℕ → ℕ → Type 0
  Placed p l e =
      (place K p l e ≡ p)
      ⊎ ((s : ℕ) × (p.cache.owner l s ≡ none) × (place K p l e ≡ claim K p l s e))
      ⊎ ((s : ℕ) × (old : ℕ) × (p.cache.owner l s ≡ some old)
          × (p.cache.live l old ≡ true)
          × (place K p l e ≡ claim K (release K p l old) l s e))

  pub place_cases : (p : Plan) (l e : ℕ) → Placed p l e
  unfolding place
  place_cases p l e = elim (Option-cases (victim K p.cache l)) [
    | inl v ↦ inl (rw (v, place))
    | inr (s, v) ↦ elim (Option-cases (p.cache.owner l s)) [
      | inl o ↦ inr (inl (s, o, rw (v, o, place)))
      | inr (old, o) ↦ inr (inr (s, old, o, victim_live K p l s old v o, rw (v, o, place)))
    ]
  ]

  -- An expert that is not placed stays out of the slots if it was out.
  pub place_new :
      (p : Plan) (l e l' e' : ℕ)
      → p.cache.slot_of l' e' ≡ none
      → (l' ≡ l → e' ≢ e)
      → (place K p l e).cache.slot_of l' e' ≡ none
  unfolding claim release
  place_new p l e l' e' h ne = elim (place_cases p l e) [
    | inl q ↦ rw q h
    | inr (inl (s, o, q)) ↦ rw q (update2_ne p.cache.slot_of l e (some s) l' e' ne ∙ h)
    | inr (inr (s, old, o, a, q)) ↦ rw q (
        update2_ne (update2 p.cache.slot_of l old none) l e (some s) l' e' ne
        ∙ elim (same_ref l old l' e') [
          | inl (x, y) ↦ rw (x, y) (update2_self p.cache.slot_of l old none)
          | inr ne' ↦ update2_ne p.cache.slot_of l old none l' e' ne' ∙ h
        ])
  ]

  pub place-PlanOk :
      (p : Plan) (l e : ℕ) → PlanOk p → p.cache.slot_of l e ≡ none → PlanOk (place K p l e)
  place-PlanOk p l e c new = elim (place_cases p l e) [
    | inl q ↦ subst PlanOk (sym q) c
    | inr (inl (s, o, q)) ↦ subst PlanOk (sym q) (claim-PlanOk p l s e c o new)
    | inr (inr (s, old, o, a, q)) ↦ subst PlanOk (sym q) (swap-PlanOk p l s e old c a o new)
  ]

  -- The keys still to come are out of the slots.
  abbrev pub Out : Plan → List Demand → Type 0
  Out p ds = (k : ℕ) → In k (keys ds) → p.cache.slot_of (k / K.experts) (k % K.experts) ≡ none

  pub place_all-PlanOk :
      (ds : List Demand) (p : Plan)
      → PlanOk p
      → Distinct (keys ds)
      → Out p ds
      → PlanOk (place_all K ds p)
  unfolding place_all
  place_all-PlanOk [] p c d out = c
  place_all-PlanOk (x ∷ ds) p c (new, d) out =
      let l = x.key / K.experts in
      let e = x.key % K.experts in
      let first = place-PlanOk p l e c (out x.key (inl refl)) in
      let rest = place_all-PlanOk ds (place K p l e) first d (λ k m.
        place_new p l e (k / K.experts) (k % K.experts) (out k (inr m))
          (λ a b. new (subst (λ t. In t (keys ds)) (key_parts k x.key K.experts a b) m))) in
      elim (Bool-cases (leb K.budget (length p.issued))) [ inl t ↦ rw t c | inr t ↦ rw t rest ]

  -- The copies go to slots whose experts are not live.
  pub finish_contents :
      (p : Plan) (l e s j : ℕ)
      → PlanOk p
      → p.cache.slot_of l e ≡ some s
      → ¬ In (l, e) p.issued
      → write_slots K copying p.issued p.cache.slot_of p.cache.contents l j s
        ≡ p.cache.contents l j s
  finish_contents p l e s j c seat out =
      write_slots_ne K copying p.cache.slot_of p.issued p.cache.contents l j s (λ e' m q. out (
        subst (λ t. In (l, t) p.issued) (some-eq _ _ (sym (c.held l e' s q) ∙ c.held l e s seat))
          m))
