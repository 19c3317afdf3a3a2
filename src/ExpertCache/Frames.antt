-- ===== src/ExpertCache/Frames.antt =====
-- What the loop over the misses leaves alone: the seats of experts that wait for their copies, the
-- bytes, the queue, and, if nothing is issued, the table.
use mathlib.Core.Path.{subst}
use vllm_exl3_plugin.Base.{
  ℕ, ◌/◌, ◌%◌, ◌≡◌, ◌≢◌, inl, inr, refl, sym, ◌∙◌, true, none, some, List, [], ◌∷◌, ◌++◌, arith,
  leb, In, Distinct, Bool-cases, In-append_left, length,
}
use vllm_exl3_plugin.ExpertCache.State.{Layout, Ref, update2}
use vllm_exl3_plugin.ExpertCache.Demand.{Demand}
use vllm_exl3_plugin.ExpertCache.Planning.{Plan, release, claim, place, place_all}
use vllm_exl3_plugin.ExpertCache.Tables.{IsWellFormed}
use vllm_exl3_plugin.ExpertCache.Coherence.{update2_ne, along}
use vllm_exl3_plugin.ExpertCache.Plans.{
  PlanOk, place_cases, place-PlanOk, place_new, Out, key_parts,
}
use vllm_exl3_plugin.ExpertCache.Order.{keys}

-- From one plan to a later one, for the experts in `queued`.
pub record Keeps (queued : List Ref) (p p' : Plan) : Type 0 where
  pub seats : (l e : ℕ) → In (l, e) queued → p'.cache.slot_of l e ≡ p.cache.slot_of l e
  pub bytes : p'.cache.contents ≡ p.cache.contents
  pub queue : p'.cache.pending ≡ p.cache.pending
  pub idle : (p.issued ≡ [] → p.updates ≡ []) → p'.issued ≡ [] → p'.updates ≡ []

Keeps-refl : (queued : List Ref) (p : Plan) → Keeps queued p p
Keeps-refl queued p = record {
  seats = λ l e i. refl;
  bytes = refl;
  queue = refl;
  idle = λ h i. h i;
}

Keeps-trans :
    (queued : List Ref) (p q r : Plan) → Keeps queued p q → Keeps queued q r → Keeps queued p r
Keeps-trans queued p q r a b = record {
  seats = λ l e i. b.seats l e i ∙ a.seats l e i;
  bytes = b.bytes ∙ a.bytes;
  queue = b.queue ∙ a.queue;
  idle = λ h. b.idle (a.idle h);
}

snoc_nonempty : (xs : List Ref) (x : Ref) → xs ++ x ∷ [] ≢ []
snoc_nonempty [] x h = cc
snoc_nonempty (y ∷ xs) x h = cc

module _ (K : Layout) (wf : IsWellFormed K) (queued : List Ref) where
  claim-Keeps :
      (p : Plan) (l s e : ℕ)
      → PlanOk K wf queued p
      → p.cache.slot_of l e ≡ none
      → Keeps queued p (claim K p l s e)
  unfolding claim
  claim-Keeps p l s e c new = record {
    seats = λ l' e' i. update2_ne p.cache.slot_of l e (some s) l' e' (λ a b.
        let (dead, (t, seat)) = c.waits l' e' (In-append_left (l', e') queued p.issued i) in
        let gone = along (λ x y. p.cache.slot_of x y ≡ none) a b new in absurd (ground arith));
    bytes = refl;
    queue = refl;
    idle = λ h i. absurd (snoc_nonempty p.issued (l, e) i);
  }

  swap-Keeps :
      (p : Plan) (l s e old : ℕ)
      → PlanOk K wf queued p
      → p.cache.slot_of l e ≡ none
      → p.cache.live l old ≡ true
      → Keeps queued p (claim K (release K p l old) l s e)
  unfolding claim release
  swap-Keeps p l s e old c new alive = record {
    seats = λ l' e' i.
        let (dead, (t, seat)) = c.waits l' e' (In-append_left (l', e') queued p.issued i) in
        update2_ne (update2 p.cache.slot_of l old none) l e (some s) l' e' (λ a b.
          let gone = along (λ x y. p.cache.slot_of x y ≡ none) a b new in absurd (ground arith))
        ∙ update2_ne p.cache.slot_of l old none l' e' (λ a b.
          let on = along (λ x y. p.cache.live x y ≡ true) a b alive in absurd (ground arith));
    bytes = refl;
    queue = refl;
    idle = λ h i. absurd (snoc_nonempty p.issued (l, e) i);
  }

  place-Keeps :
      (p : Plan) (l e : ℕ)
      → PlanOk K wf queued p
      → p.cache.slot_of l e ≡ none
      → Keeps queued p (place K p l e)
  place-Keeps p l e c new = elim (place_cases K wf queued p l e) [
    | inl q ↦ subst (Keeps queued p) (sym q) (Keeps-refl queued p)
    | inr (inl (s, o, q)) ↦ subst (Keeps queued p) (sym q) (claim-Keeps p l s e c new)
    | inr (inr (s, old, o, a, q)) ↦ subst (Keeps queued p) (sym q) (swap-Keeps p l s e old c new a)
  ]

  pub place_all-Keeps :
      (ds : List Demand) (p : Plan)
      → PlanOk K wf queued p
      → Distinct (keys ds)
      → Out K wf queued p ds
      → Keeps queued p (place_all K ds p)
  unfolding place_all
  place_all-Keeps [] p c d out = Keeps-refl queued p
  place_all-Keeps (x ∷ ds) p c (new, d) out =
      let l = x.key / K.experts in
      let e = x.key % K.experts in
      let next = place K p l e in
      let here = out x.key (inl refl) in
      let rest = place_all-Keeps ds next (place-PlanOk K wf queued p l e c here) d (λ k m.
        place_new K wf queued p l e (k / K.experts) (k % K.experts) (out k (inr m))
          (λ a b. new (subst (λ t. In t (keys ds)) (key_parts k x.key K.experts a b) m))) in
      elim (Bool-cases (leb K.budget (length p.issued))) [
        | inl t ↦ rw t (Keeps-refl queued p)
        | inr t ↦
            rw t (Keeps-trans queued p next (place_all K ds next) (place-Keeps p l e c here) rest)
      ]
