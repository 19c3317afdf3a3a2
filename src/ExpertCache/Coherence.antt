-- ===== src/ExpertCache/Coherence.antt =====
-- The invariant of the slots, the pointer table and the slots' bytes, and the changes that keep it.
use mathlib.Core.Path.{subst₂}
use vllm_exl3_plugin.Base.{
  ℕ, ◌≡◌, ◌≢◌, ◌⊎◌, inl, inr, refl, sym, ap, ◌∙◌, Bool, true, false, Option, none, some, List, [],
  ◌∷◌, ◌++◌, arith, In, Bool-cases, ℕ_discrete, Distinct, some-eq, Distinct-snoc, In-append_cases,
}
use vllm_exl3_plugin.ExpertCache.State.{
  Layout, Ref, Update, Content, bytes_of, update2, entry, write, slot_addr,
}
use vllm_exl3_plugin.ExpertCache.Writes.{entries}
use vllm_exl3_plugin.ExpertCache.Tables.{
  IsWellFormed, entry-injective, write-entries_ne, write-entries_self,
}

abbrev pub Table : Type 0
Table = ℕ → ℕ

-- Two pairs of indices are the same or not.
pub same_ref : (l e l' e' : ℕ) → ((l' ≡ l) × (e' ≡ e)) ⊎ (l' ≡ l → e' ≢ e)
same_ref l e l' e' = elim (ℕ_discrete l' l) [
  | yes p ↦ elim (ℕ_discrete e' e) [ yes q ↦ inl (p, q) | no q ↦ inr (λ _. q) ]
  | no p ↦ inr (λ r. absurd (p r))
]

pub along : {l e l' e' : ℕ} (P : ℕ → ℕ → Type 0) → l' ≡ l → e' ≡ e → P l e → P l' e'
along P p q h = subst₂ P (sym p) (sym q) h

module _ {A : Type 0} (f : ℕ → ℕ → A) (l e : ℕ) (v : A) where
  pub update2_ne : (l' e' : ℕ) → (l' ≡ l → e' ≢ e) → update2 f l e v l' e' ≡ f l' e'
  update2_ne l' e' h = elim (ℕ_discrete l' l) [
    | yes p ↦ let q : e' ≢ e = h p in ground arith
    | no p ↦ ground arith
  ]

  pub update2_self : update2 f l e v l e ≡ v
  update2_self = ground arith

module _ (K : Layout) where
  -- `moving` lists the experts that were promoted and are not live yet.
  pub record IsCoherent (slot_of : ℕ → ℕ → Option ℕ) (owner : ℕ → ℕ → Option ℕ)
      (live : ℕ → ℕ → Bool) (contents : ℕ → ℕ → ℕ → Content) (table : Table) (moving : List Ref)
      : Type 0 where
    pub held : (l e s : ℕ) → slot_of l e ≡ some s → owner l s ≡ some e
    pub holds : (l s e : ℕ) → owner l s ≡ some e → slot_of l e ≡ some s
    pub seated : (l e : ℕ) → live l e ≡ true → (s : ℕ) × (slot_of l e ≡ some s)
    pub ready :
        (l e s j a : ℕ)
        → live l e ≡ true
        → slot_of l e ≡ some s
        → In (j, a) (K.host l e)
        → contents l j s ≡ bytes_of e
    pub slot_entry :
        (l e s j a : ℕ)
        → live l e ≡ true
        → slot_of l e ≡ some s
        → In (j, a) (K.host l e)
        → table (entry K l j e) ≡ slot_addr K l j s
    pub host_entry :
        (l e j a : ℕ) → live l e ≡ false → In (j, a) (K.host l e) → table (entry K l j e) ≡ a
    pub waits :
        (l e : ℕ) → In (l, e) moving → (live l e ≡ false) × ((s : ℕ) × (slot_of l e ≡ some s))
    pub distinct : Distinct moving

module _ (K : Layout) (wf : IsWellFormed K) where
  -- Entries of other experts are untouched by the writes for one expert.
  pub other_entry :
      (l e l' j' e' a' : ℕ)
      → In (j', a') (K.host l' e')
      → (l' ≡ l → e' ≢ e)
      → (j a : ℕ) → In (j, a) (K.host l e)
      → entry K l' j' e' ≢ entry K l j e
  other_entry l e l' j' e' a' m ne j a n eq =
      let (p, _, q) =
        entry-injective K l' j' e' l j e (wf.label_lt l' e' j' a' m) (wf.label_lt l e j a n)
          (wf.expert_lt l' e' j' a' m) (wf.expert_lt l e j a n) eq in
      ne p q

  pub self_entry :
      (l e j a : ℕ) (f : ℕ → ℕ → ℕ) (t : Table)
      → In (j, a) (K.host l e)
      → write t (entries K l e f (K.host l e)) (entry K l j e) ≡ f j a
  self_entry l e j a f t m =
      write-entries_self K l e j a f (K.host l e) t (wf.expert_lt l e j a m) (wf.label_lt l e)
        (λ a' n. wf.one_row l e j a a' m n) m

  module _ {slot_of : ℕ → ℕ → Option ℕ} {owner : ℕ → ℕ → Option ℕ} {live : ℕ → ℕ → Bool}
      {contents : ℕ → ℕ → ℕ → Content} {table : Table} where
    -- Pointing a promoted expert's entries at its slot, once its bytes are there.
    pub flip-IsCoherent :
        (l e s : ℕ) (moving : List Ref)
        → IsCoherent K slot_of owner live contents table ((l, e) ∷ moving)
        → slot_of l e ≡ some s
        → ((j a : ℕ) → In (j, a) (K.host l e) → contents l j s ≡ bytes_of e)
        → IsCoherent K slot_of owner
            (update2 live l e true)
            contents
            (write table (entries K l e (λ j a. slot_addr K l j s) (K.host l e)))
            moving
    flip-IsCoherent l e s moving c seat bytes = record {
      held = c.held;
      holds = c.holds;
      seated = λ l' e' h. elim (same_ref l e l' e') [
        | inl (p, q) ↦ (s, along (λ x y. slot_of x y ≡ some s) p q seat)
        | inr ne ↦ c.seated l' e' (rw (← update2_ne live l e true l' e' ne) h)
      ];
      ready = λ l' e' s' j a h k m. elim (same_ref l e l' e') [
        | inl (p, q) ↦
            along
              (λ x y. slot_of x y ≡ some s' → In (j, a) (K.host x y) → contents x j s' ≡ bytes_of y)
              p q (λ k' m'. let ss : s ≡ s' = ground arith in rw (← ss) (bytes j a m')) k m
        | inr ne ↦ c.ready l' e' s' j a (rw (← update2_ne live l e true l' e' ne) h) k m
      ];
      slot_entry = λ l' e' s' j a h k m. elim (same_ref l e l' e') [
        | inl (p, q) ↦
            along
              (λ x y.
                slot_of x y ≡ some s'
                → In (j, a) (K.host x y)
                → write table writes (entry K x j y) ≡ slot_addr K x j s')
              p q
              (λ k' m'. let ss : s ≡ s' = ground arith in rw (← ss) (self_entry l e j a _ table m'))
              k m
        | inr ne ↦
            write-entries_ne K l e _ _ (K.host l e) table (other_entry l e l' j e' a m ne)
            ∙ c.slot_entry l' e' s' j a (rw (← update2_ne live l e true l' e' ne) h) k m
      ];
      host_entry = λ l' e' j a h m. elim (same_ref l e l' e') [
        | inl (p, q) ↦ absurd (ground arith)
        | inr ne ↦
            write-entries_ne K l e _ _ (K.host l e) table (other_entry l e l' j e' a m ne)
            ∙ c.host_entry l' e' j a (rw (← update2_ne live l e true l' e' ne) h) m
      ];
      waits = λ l' e' m. elim (same_ref l e l' e') [
        | inl (p, q) ↦ absurd (along (λ x y. In (x, y) moving → ⊥) p q c.distinct.0 m)
        | inr ne ↦
            let (dead, seat') = c.waits l' e' (inr m) in
            (update2_ne live l e true l' e' ne ∙ dead, seat')
      ];
      distinct = c.distinct.1;
    }
      where
        writes : List Update
        writes = entries K l e (λ j a. slot_addr K l j s) (K.host l e)

    -- A miss takes a free slot: its expert waits for the copy.
    pub claim-IsCoherent :
        (l s e : ℕ) (moving : List Ref)
        → IsCoherent K slot_of owner live contents table moving
        → owner l s ≡ none
        → slot_of l e ≡ none
        → IsCoherent K
            (update2 slot_of l e (some s))
            (update2 owner l s (some e))
            live
            contents
            table
            (moving ++ (l, e) ∷ [])
    claim-IsCoherent l s e moving c free new = record {
      held = λ l' e' s' h. elim (same_ref l e l' e') [
        | inl (p, q) ↦
            let ss : s' ≡ s = some-eq _ _ (
              sym h
              ∙ along (λ x y. update2 slot_of l e (some s) x y ≡ some s) p q
                  (update2_self slot_of l e (some s))) in
            rw (p, q, ss) (update2_self owner l s (some e))
        | inr ne ↦
            let seat : slot_of l' e' ≡ some s' =
              sym (update2_ne slot_of l e (some s) l' e' ne) ∙ h in
            let own : owner l' s' ≡ some e' = c.held l' e' s' seat in
            update2_ne owner l s (some e) l' s' (not_free l' s' e' own) ∙ own
      ];
      holds = λ l' s' e' h. elim (same_ref l s l' s') [
        | inl (p, q) ↦
            let ee : e' ≡ e = some-eq _ _ (
              sym h
              ∙ along (λ x y. update2 owner l s (some e) x y ≡ some e) p q
                  (update2_self owner l s (some e))) in
            rw (p, q, ee) (update2_self slot_of l e (some s))
        | inr ne ↦
            let seat : slot_of l' e' ≡ some s' =
              c.holds l' s' e' (sym (update2_ne owner l s (some e) l' s' ne) ∙ h) in
            update2_ne slot_of l e (some s) l' e' (not_new l' e' s' seat) ∙ seat
      ];
      seated = λ l' e' h.
          let (t, seat) = c.seated l' e' h in
          (t, update2_ne slot_of l e (some s) l' e' (not_live l' e' h) ∙ seat);
      ready = λ l' e' s' j a h k m. c.ready l' e' s' j a h (seat_before l' e' s' h k) m;
      slot_entry = λ l' e' s' j a h k m. c.slot_entry l' e' s' j a h (seat_before l' e' s' h k) m;
      host_entry = c.host_entry;
      waits = λ l' e' m. elim (In-append_cases (l', e') moving ((l, e) ∷ []) m) [
        | inl m' ↦
            let (dead, (t, seat)) = c.waits l' e' m' in
            (dead, (t, update2_ne slot_of l e (some s) l' e' (not_new l' e' t seat) ∙ seat))
        | inr m' ↦ elim m' [
          | inr f ↦ absurd f
          | inl eq ↦
              let p : l' ≡ l = ap (λ r. r.0) eq in
              let q : e' ≡ e = ap (λ r. r.1) eq in
              (rw (p, q) dead_new, (s, rw (p, q) (update2_self slot_of l e (some s))))
        ]
      ];
      distinct =
          Distinct-snoc (l, e) moving c.distinct
            (λ m. let (dead, (t, seat)) = c.waits l e m in ground arith);
    }
      where
        not_new : (l' e' t : ℕ) → slot_of l' e' ≡ some t → l' ≡ l → e' ≢ e
        not_new l' e' t seat p q =
            let gone = along (λ x y. slot_of x y ≡ none) p q new in ground arith

        not_free : (l' s' e' : ℕ) → owner l' s' ≡ some e' → l' ≡ l → s' ≢ s
        not_free l' s' e' own p q =
            let gone = along (λ x y. owner x y ≡ none) p q free in ground arith

        dead_new : live l e ≡ false
        dead_new = elim (Bool-cases (live l e)) [
          | inl h ↦ let (t, seat) = c.seated l e h in absurd (not_new l e t seat refl refl)
          | inr h ↦ h
        ]

        not_live : (l' e' : ℕ) → live l' e' ≡ true → l' ≡ l → e' ≢ e
        not_live l' e' h p q = let (t, seat) = c.seated l' e' h in not_new l' e' t seat p q

        seat_before :
            (l' e' s' : ℕ)
            → live l' e' ≡ true
            → update2 slot_of l e (some s) l' e' ≡ some s'
            → slot_of l' e' ≡ some s'
        seat_before l' e' s' h k =
            sym (update2_ne slot_of l e (some s) l' e' (not_live l' e' h)) ∙ k
