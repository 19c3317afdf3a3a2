-- ===== src/ExpertCache/Untouched.antt =====
-- Planning and promoting leave the queue of launched steps alone.
use vllm_exl3_plugin.Base.{
  ℕ, ◌/◌, ◌%◌, ◌≡◌, inl, inr, refl, ◌∙◌, List, [], ◌∷◌, length, leb, arith, Bool-cases,
  Option-cases,
}
use vllm_exl3_plugin.ExpertCache.State.{Layout, Cache, Launch, Ref}
use vllm_exl3_plugin.ExpertCache.Lru.{victim}
use vllm_exl3_plugin.ExpertCache.Demand.{Demand}
use vllm_exl3_plugin.ExpertCache.Planning.{
  Plan, place, place_all, release, claim, promote, promote_if, learn, plan,
}

module _ (K : Layout) where
  place_queue :
      (p : Plan) (l e : ℕ)
      → ((place K p l e).cache.steps ≡ p.cache.steps) × ((place K p l e).cache.step ≡ p.cache.step)
  unfolding place release claim
  place_queue p l e = elim (Option-cases (victim K p.cache l)) [
    | inl nil ↦ ground arith
    | inr (s, got) ↦ elim (Option-cases (p.cache.owner l s)) [
      | inl free ↦ ground arith
      | inr (old, has) ↦ ground arith
    ]
  ]

  place_all_queue :
      (ds : List Demand) (p : Plan)
      → ((place_all K ds p).cache.steps ≡ p.cache.steps)
        × ((place_all K ds p).cache.step ≡ p.cache.step)
  unfolding place_all
  place_all_queue [] p = (refl, refl)
  place_all_queue (d ∷ ds) p =
      let (a, b) = place_queue p (d.key / K.experts) (d.key % K.experts) in
      let (r, t) = place_all_queue ds (place K p (d.key / K.experts) (d.key % K.experts)) in
      elim (Bool-cases (leb K.budget (length p.issued))) [
        | inl full ↦ rw full (refl, refl)
        | inr room ↦ rw room (r ∙ a, t ∙ b)
      ]

  promote_if_queue :
      (refs : List Ref) (p : Plan)
      → ((promote_if K refs p).steps ≡ p.cache.steps) × ((promote_if K refs p).step ≡ p.cache.step)
  unfolding promote_if promote
  promote_if_queue [] p = (refl, refl)
  promote_if_queue (_ ∷ _) p = (refl, refl)

  pub plan_queue :
      (c : Cache) (launch : Launch)
      → ((plan K c launch).steps ≡ c.steps) × ((plan K c launch).step ≡ c.step)
  unfolding plan learn
  plan_queue c launch =
      let p = place_all K _ (record { cache = learn K c launch; updates = []; issued = [] }) in
      let (a, b) = promote_if_queue p.issued p in
      let (r, t) =
        place_all_queue _ (record { cache = learn K c launch; updates = []; issued = [] }) in
      (a ∙ r, b ∙ t)
