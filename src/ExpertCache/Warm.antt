-- ===== src/ExpertCache/Warm.antt =====
-- The warm start fills every layer's slots with distinct experts, and leaves a sound cache.
use mathlib.Core.Path.{subst}
use vllm_exl3_plugin.Base.{
  ℕ, zero, suc, ◌≤◌, ◌<◌, ◌≡◌, inl, inr, refl, sym, ◌∙◌, true, none, some, List, [], ◌∷◌, arith, In,
  Distinct, Bool-cases, In-cons, some-eq,
}
use vllm_exl3_plugin.ExpertCache.State.{
  Layout, Cache, bytes_of, update2, write, offloaded, hosted_from, hosted, capacity, entry,
  slot_addr,
}
use vllm_exl3_plugin.ExpertCache.Writes.{entries, to_slot, set_contents}
use vllm_exl3_plugin.ExpertCache.Steps.{fill_layer, fill_from, fill, cold}
use vllm_exl3_plugin.ExpertCache.Tables.{IsWellFormed, set_contents_ne, set_contents_self}
use vllm_exl3_plugin.ExpertCache.Coherence.{
  IsCoherent, update2_ne, update2_self, claim-IsCoherent, flip-IsCoherent,
}
use vllm_exl3_plugin.ExpertCache.Release.{recopy-IsCoherent}
use vllm_exl3_plugin.ExpertCache.Sound.{IsSound}

-- Before the warm start, the table holds the host address of every hosted row.
unfoldable pub AtHost : Layout → (ℕ → ℕ) → Type 0
AtHost K table = (l e j a : ℕ) → In (j, a) (K.host l e) → table (entry K l j e) ≡ a

module _ (K : Layout) where
  hosted_from_ge : (l e n x : ℕ) → In x (hosted_from K l e n) → e ≤ x
  unfolding hosted_from
  hosted_from_ge l e zero x m = absurd m
  hosted_from_ge l e (suc n) x m = elim (Bool-cases (offloaded K l e)) [
    | inl o ↦ elim (In-cons x e (hosted_from K l (suc e) n) (rw (o, hosted_from) at m)) [
      | inl eq ↦ omega arith
      | inr m' ↦ let h = hosted_from_ge l (suc e) n x m' in omega arith
    ]
    | inr o ↦ let h = hosted_from_ge l (suc e) n x (rw (o, hosted_from) at m) in omega arith
  ]

  hosted_from-Distinct : (l e n : ℕ) → Distinct (hosted_from K l e n)
  unfolding hosted_from
  hosted_from-Distinct l e zero = tt
  hosted_from-Distinct l e (suc n) = elim (Bool-cases (offloaded K l e)) [
    | inl o ↦ rw o (
      λ m. let h = hosted_from_ge l (suc e) n e m in omega arith,
      hosted_from-Distinct l (suc e) n,
    )
    | inr o ↦ rw o (hosted_from-Distinct l (suc e) n)
  ]

  -- No expert of layer `l` has a slot, and no slot from `s` on is taken.
  record Unused (c : Cache) (l s : ℕ) (es : List ℕ) : Type 0 where
    free : (t : ℕ) → s ≤ t → c.owner l t ≡ none
    absent : (e : ℕ) → In e es → c.slot_of l e ≡ none
    later : (l' t : ℕ) → l < l' → (c.owner l' t ≡ none) × (c.slot_of l' t ≡ none)
    idle : c.pending ≡ []
    coherent : IsCoherent K c.slot_of c.owner c.live c.contents c.table []

  abbrev taken : Cache → ℕ → ℕ → ℕ → Cache
  taken c l s e = record c {
    owner = update2 c.owner l s (some e);
    slot_of = update2 c.slot_of l e (some s);
    live = update2 c.live l e true;
    contents = set_contents K (l, e) (some s) (bytes_of e) c.contents;
  }

  abbrev filled : Cache → ℕ → ℕ → ℕ → Cache
  filled c l s e = record (taken c l s e) {
    table = write c.table (to_slot K (taken c l s e) (l, e));
  }

  to_slot-some :
      (c : Cache) (l e s : ℕ)
      → c.slot_of l e ≡ some s
      → to_slot K c (l, e) ≡ entries K l e (λ j a. slot_addr K l j s) (K.host l e)
  unfolding to_slot
  to_slot-some c l e s h = rw (to_slot, h) refl

  module _ (wf : IsWellFormed K) where
    filled-Unused :
        (c : Cache) (l s e : ℕ) (es : List ℕ)
        → Distinct (e ∷ es)
        → Unused c l s (e ∷ es)
        → Unused (filled c l s e) l (suc s) es
    filled-Unused c l s e es (new, d) u = record {
      free =
          λ t h. update2_ne c.owner l s (some e) l t (λ p q. omega arith) ∙ u.free t (omega arith);
      absent = λ e' m.
          update2_ne c.slot_of l e (some s) l e' (λ p q. new (subst (λ x. In x es) q m))
          ∙ u.absent e' (inr m);
      later = λ l' t h. (
        update2_ne c.owner l s (some e) l' t (λ p. absurd (omega arith)) ∙ (u.later l' t h).0,
        update2_ne c.slot_of l e (some s) l' t (λ p. absurd (omega arith)) ∙ (u.later l' t h).1,
      );
      idle = u.idle;
      coherent =
          let seat = update2_self c.slot_of l e (some s) in
          let claimed =
            claim-IsCoherent K wf l s e [] u.coherent (u.free s (omega arith))
              (u.absent e (inl refl)) in
          let copied =
            recopy-IsCoherent K wf (set_contents K (l, e) (some s) (bytes_of e) c.contents)
              ((l, e) ∷ []) claimed
              (λ l' e' s' j a alive at i.
                set_contents_ne K l e l' j s' (some s) (bytes_of e) c.contents (λ p q.
                  let own = claimed.held l' e' s' at in
                  let mine = update2_self c.owner l s (some e) in
                  let same : e' ≡ e = some-eq e' e (sym own ∙ rw (p, ← some-eq s s' q) mine) in
                  let (dead, _) = claimed.waits l e (inl refl) in
                  let alive2 : c.live l e ≡ true = rw (← p, ← same) alive in
                  absurd (ground arith))) in
          let flipped =
            flip-IsCoherent K wf l e s [] copied seat
              (λ j a i. set_contents_self K l e j a s (some s) (bytes_of e) c.contents refl i) in
          rw (to_slot-some (taken c l s e) l e s seat) flipped;
    }

    fill_layer-Unused :
        (l s n : ℕ) (es : List ℕ) (c : Cache)
        → Distinct es
        → Unused c l s es
        → (t : ℕ) × (rest : List ℕ) × Unused (fill_layer K l s n es c) l t rest
    unfolding fill_layer
    fill_layer-Unused l s zero es c d u = (s, es, u)
    fill_layer-Unused l s (suc n) [] c d u = (s, [], u)
    fill_layer-Unused l s (suc n) (e ∷ es) c (new, d) u =
        fill_layer-Unused l (suc s) n es (filled c l s e) d (filled-Unused c l s e es (new, d) u)

    -- No layer from `l` on has a slot taken.
    record Untouched (c : Cache) (l : ℕ) : Type 0 where
      later : (l' t : ℕ) → l ≤ l' → (c.owner l' t ≡ none) × (c.slot_of l' t ≡ none)
      idle : c.pending ≡ []
      coherent : IsCoherent K c.slot_of c.owner c.live c.contents c.table []

    record Started (c : Cache) : Type 0 where
      idle : c.pending ≡ []
      coherent : IsCoherent K c.slot_of c.owner c.live c.contents c.table []

    fill_from-Started : (l n : ℕ) (c : Cache) → Untouched c l → Started (fill_from K l n c)
    unfolding fill_from hosted
    fill_from-Started l zero c u = record { idle = u.idle; coherent = u.coherent }
    fill_from-Started l (suc n) c u =
        let (t, rest, v) =
          fill_layer-Unused l 0 (capacity K l) (hosted K l) c (hosted_from-Distinct l 0 K.experts)
            (record {
              free = λ t h. (u.later l t (omega arith)).0;
              absent = λ e m. (u.later l e (omega arith)).1;
              later = λ l' t h. u.later l' t (omega arith);
              idle = u.idle;
              coherent = u.coherent;
            }) in
        fill_from-Started (suc l) n (fill_layer K l 0 (capacity K l) (hosted K l) c)
          (record { later = λ l' t h. v.later l' t h; idle = v.idle; coherent = v.coherent })

    -- The warm start of a table of host addresses is sound.
    pub fill-IsSound : (table : ℕ → ℕ) → AtHost K table → IsSound K (fill K table)
    unfolding fill AtHost
    fill-IsSound table at =
        let u = fill_from-Started 0 K.layers (cold K table) (record {
          later = λ l t h. (refl, refl);
          idle = refl;
          coherent = record {
            held = λ l e s h. absurd (ground arith);
            holds = λ l s e h. absurd (ground arith);
            seated = λ l e h. absurd (ground arith);
            ready = λ l e s j a h. absurd (ground arith);
            slot_entry = λ l e s j a h. absurd (ground arith);
            host_entry = λ l e j a h m. at l e j a m;
            waits = λ l e m. absurd m;
            distinct = tt;
          };
        }) in
        record { coherent = rw u.idle u.coherent; queued = rw u.idle tt }
