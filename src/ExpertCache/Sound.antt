-- ===== src/ExpertCache/Sound.antt =====
-- The invariant of a cache, and that every event keeps it.
use native.Mathlib.Nat.{mul-add-div_right, mul-add-mod_self_right, mod-eq_of_lt, div-eq_of_lt}
use mathlib.Core.Path.{subst, subst₂, ap₂}
use mathlib.Core.List.{append-nil, append_assoc}
use vllm_exl3_plugin.Base.{
  ℕ, ◌+◌, ◌*◌, ◌/◌, ◌%◌, ◌<◌, ◌≡◌, inl, inr, refl, sym, ap, ◌∙◌, true, false, none, some, List, [],
  ◌∷◌, ◌++◌, arith, In, All, Bool-cases, Option-cases, Distinct-disjoint, In-cons, List-cases,
  In-append_right, some-eq, All-append,
}
use vllm_exl3_plugin.ExpertCache.State.{
  Layout, Cache, Batch, Launch, Ref, copying, write, offloaded,
}
use vllm_exl3_plugin.ExpertCache.Writes.{write_slots}
use vllm_exl3_plugin.ExpertCache.Demand.{sort, unique_counts}
use vllm_exl3_plugin.ExpertCache.Landing.{land_flips, pop_landed}
use vllm_exl3_plugin.ExpertCache.Planning.{
  Plan, place_all, wanted_keys, finish, promote, promote_if, learn, routed, plan,
}
use vllm_exl3_plugin.ExpertCache.Steps.{copies_land}
use vllm_exl3_plugin.ExpertCache.Tables.{IsWellFormed}
use vllm_exl3_plugin.ExpertCache.Coherence.{IsCoherent}
use vllm_exl3_plugin.ExpertCache.Release.{recopy-IsCoherent}
use vllm_exl3_plugin.ExpertCache.Order.{In-wanted, wanted-Distinct}
use vllm_exl3_plugin.ExpertCache.Plans.{PlanOk, Out, place_all-PlanOk, finish_contents}
use vllm_exl3_plugin.ExpertCache.Frames.{Keeps, place_all-Keeps}
use vllm_exl3_plugin.ExpertCache.Landed.{
  refs_of, BatchOk, land_next_lem, flips-IsCoherent, pop_landed_lem, All-move,
}

-- The slots, the table, the bytes and the queue of promotions agree.
pub record IsSound (K : Layout) (c : Cache) : Type 0 where
  pub coherent : IsCoherent K c.slot_of c.owner c.live c.contents c.table (refs_of c.pending)
  pub queued : All (BatchOk K c.slot_of c.contents) c.pending

key_of : (l e n : ℕ) → e < n → ((l * n + e) / n ≡ l) × ((l * n + e) % n ≡ e)
key_of l e n h =
    let pos : 0 < n = omega arith in
    (
      omega (arith, mul-add-div_right pos l e, div-eq_of_lt h),
      mul-add-mod_self_right l n e ∙ mod-eq_of_lt h,
    )

refs_of-append : (bs bs' : List Batch) → refs_of (bs ++ bs') ≡ refs_of bs ++ refs_of bs'
refs_of-append [] bs' = refl
refs_of-append (b ∷ bs) bs' =
    ap (λ t. b.moved ++ t) (refs_of-append bs bs')
    ∙ sym (append_assoc b.moved (refs_of bs) (refs_of bs'))

module _ (K : Layout) (wf : IsWellFormed K) where
  one_owner :
      (c : Cache)
      → IsSound K c
      → (l e e' s : ℕ) → c.slot_of l e ≡ some s
      → c.slot_of l e' ≡ some s
      → e' ≡ e
  one_owner c h l e e' s p q =
      some-eq _ _ (sym (h.coherent.held l e' s q) ∙ h.coherent.held l e s p)

  pub land_flips-IsSound : (c : Cache) → IsSound K c → IsSound K (land_flips K c)
  unfolding land_flips
  land_flips-IsSound c h =
      let (refs, keeps, bytes) = pop_landed_lem K c.slot_of c.contents c.pending h.queued in
      record {
        coherent =
            flips-IsCoherent K wf c (pop_landed K c.pending).0 (refs_of (pop_landed K c.pending).1)
              c.live c.table
              (subst (IsCoherent K c.slot_of c.owner c.live c.contents c.table) refs h.coherent)
              bytes;
        queued = keeps;
      }

  pub copies_land-IsSound : (c : Cache) → IsSound K c → IsSound K (copies_land K c)
  unfolding copies_land
  copies_land-IsSound c h =
      let (refs, keeps, other) =
        land_next_lem K c.slot_of c.pending c.contents (one_owner c h) h.queued
          h.coherent.distinct in
      record {
        coherent = subst (IsCoherent K c.slot_of c.owner c.live _ c.table) (sym refs) (
            recopy-IsCoherent K wf _ (refs_of c.pending) h.coherent (λ l e s j a alive seat n.
              other l e s j seat
                (λ i. let (dead, _) = h.coherent.waits l e i in absurd (ground arith))));
        queued = keeps;
      }

  offloaded_lt : (l e : ℕ) → offloaded K l e ≡ true → e < K.experts
  unfolding offloaded
  offloaded_lt l e h = first_row (K.host l e) refl
    where
      first_row : (rows : List (ℕ × ℕ)) → K.host l e ≡ rows → e < K.experts
      first_row [] q = absurd (ground arith)
      first_row ((j, a) ∷ rows) q = wf.expert_lt l e j a (subst (In (j, a)) (sym q) (inl refl))

  -- A wanted key is the key of an expert that is in no slot.
  In-wanted_keys :
      (c : Cache) (refs : List Ref) (k : ℕ)
      → In k (wanted_keys K c refs)
      → c.slot_of (k / K.experts) (k % K.experts) ≡ none
  unfolding wanted_keys
  In-wanted_keys c [] k m = absurd m
  In-wanted_keys c ((l, e) ∷ refs) k m = elim (Bool-cases (offloaded K l e)) [
    | inl o ↦ elim (Option-cases (c.slot_of l e)) [
      | inl new ↦
          elim (In-cons k (l * K.experts + e) (wanted_keys K c refs)
            (rw (o, new, In, wanted_keys) at m)) [
              | inl eq ↦ let (q, r) = key_of l e K.experts (offloaded_lt l e o) in rw (eq, q, r) new
              | inr m' ↦ In-wanted_keys c refs k m'
            ]
      | inr (s, seat) ↦ In-wanted_keys c refs k (rw (o, seat, In, wanted_keys) at m)
    ]
    | inr o ↦ In-wanted_keys c refs k (rw (o, In, wanted_keys) at m)
  ]

  abbrev start : Cache → Plan
  start c = record { cache = c; updates = []; issued = [] }

  queue_refs :
      (c : Cache) (p : Plan)
      → Keeps (refs_of c.pending) (start c) p
      → refs_of (
          p.cache.pending
          ++ record { landed = false; moved = p.issued; target = p.cache.slot_of } ∷ [])
        ≡ refs_of c.pending ++ p.issued
  queue_refs c p k =
      refs_of-append p.cache.pending _ ∙ ap₂ ◌++◌ (ap refs_of k.queue) (append-nil p.issued)

  promote-IsSound :
      (c : Cache) (p : Plan)
      → IsSound K c
      → PlanOk K wf (refs_of c.pending) p
      → Keeps (refs_of c.pending) (start c) p
      → IsSound K (promote K p)
  unfolding promote
  promote-IsSound c p h ok k =
      let m' = write_slots K copying p.issued p.cache.slot_of p.cache.contents in
      record {
        coherent =
            subst
              (IsCoherent K p.cache.slot_of p.cache.owner p.cache.live m'
                (write p.cache.table p.updates))
              (sym (queue_refs c p k))
              (recopy-IsCoherent K wf m' (refs_of c.pending ++ p.issued) ok
                (λ l e s j a alive seat n.
                  finish_contents K wf (refs_of c.pending) p l e s j ok seat (λ i.
                    let (dead, _) =
                      ok.waits l e (In-append_right (l, e) (refs_of c.pending) p.issued i) in
                    absurd (ground arith))));
        queued =
            All-append (BatchOk K p.cache.slot_of m') p.cache.pending _
              (subst (All (BatchOk K p.cache.slot_of m')) (sym k.queue) (
                All-move K c.slot_of p.cache.slot_of c.contents m' c.pending h.queued k.seats
                  (λ l e s j i seat.
                    finish_contents K wf (refs_of c.pending) p l e s j ok seat
                      (Distinct-disjoint (l, e) (refs_of c.pending) p.issued ok.distinct i)
                    ∙ ap (λ f. f l j s) k.bytes)))
              (record { targets = λ l e i. refl; arrived = λ f. absurd (ground arith) }, tt);
      }

  finish_some : (p : Plan) (x : Ref) (xs : List Ref) → p.issued ≡ x ∷ xs → finish K p ≡ promote K p
  unfolding promote_if
  finish_some p x xs h = ap (λ r. promote_if K r p) h

  finish_none : (p : Plan) → p.issued ≡ [] → finish K p ≡ p.cache
  unfolding promote_if
  finish_none p h = ap (λ r. promote_if K r p) h

  idle_refs :
      (c : Cache) (p : Plan)
      → Keeps (refs_of c.pending) (start c) p
      → p.issued ≡ []
      → refs_of c.pending ++ p.issued ≡ refs_of p.cache.pending
  idle_refs c p k e =
      ap (λ t. refs_of c.pending ++ t) e ∙ append-nil (refs_of c.pending) ∙ ap refs_of (sym k.queue)

  finish-IsSound :
      (c : Cache) (p : Plan)
      → IsSound K c
      → PlanOk K wf (refs_of c.pending) p
      → Keeps (refs_of c.pending) (start c) p
      → IsSound K (finish K p)
  unfolding write
  finish-IsSound c p h ok k = elim (List-cases p.issued) [
    | inr (x, xs, e) ↦ subst (IsSound K) (sym (finish_some p x xs e)) (promote-IsSound c p h ok k)
    | inl e ↦ subst (IsSound K) (sym (finish_none p e)) (record {
      coherent =
          subst₂
            (λ u r.
              IsCoherent K p.cache.slot_of p.cache.owner p.cache.live p.cache.contents
                (write p.cache.table u) r)
            (k.idle (λ _. refl) e) (idle_refs c p k e) ok;
      queued = subst (All (BatchOk K p.cache.slot_of p.cache.contents)) (sym k.queue) (
          All-move K c.slot_of p.cache.slot_of c.contents p.cache.contents c.pending h.queued
            k.seats (λ l e' s j i seat. ap (λ f. f l j s) k.bytes));
    })
  ]

  -- The plan made of a list of keys that are in no slot.
  keys-IsSound :
      (c : Cache) (clock : ℕ) (ks : List ℕ)
      → IsSound K c
      → ((k : ℕ) → In k ks → c.slot_of (k / K.experts) (k % K.experts) ≡ none)
      → IsSound K (finish K (place_all K (sort K clock (unique_counts ks)) (start c)))
  unfolding write
  keys-IsSound c clock ks h new =
      let ds = sort K clock (unique_counts ks) in
      let ok : PlanOk K wf (refs_of c.pending) (start c) =
        subst (IsCoherent K c.slot_of c.owner c.live c.contents c.table)
          (sym (append-nil (refs_of c.pending))) h.coherent in
      let out : Out K wf (refs_of c.pending) (start c) ds =
        λ k m. new k (In-wanted K clock k ks m) in
      let once = wanted-Distinct K clock ks in
      finish-IsSound c (place_all K ds (start c)) h
        (place_all-PlanOk K wf (refs_of c.pending) ds (start c) ok once out)
        (place_all-Keeps K wf (refs_of c.pending) ds (start c) ok once out)

  learn-IsSound : (c : Cache) (launch : Launch) → IsSound K c → IsSound K (learn K c launch)
  unfolding learn
  learn-IsSound c launch h = record { coherent = h.coherent; queued = h.queued }

  pub plan-IsSound : (c : Cache) (launch : Launch) → IsSound K c → IsSound K (plan K c launch)
  unfolding plan
  plan-IsSound c launch h =
      let seen = learn K c launch in
      keys-IsSound seen seen.clock (wanted_keys K seen (routed K c launch))
        (learn-IsSound c launch h) (In-wanted_keys seen (routed K c launch))
