-- ===== src/ExpertCache/Release.antt =====
-- A victim gives its slot up, and takes its entries back to the host.
use vllm_exl3_plugin.Base.{
  ℕ, ◌≡◌, ◌≢◌, inl, inr, sym, ◌∙◌, Bool, true, false, Option, none, some, List, arith, In, some-eq,
}
use vllm_exl3_plugin.ExpertCache.State.{Layout, Ref, Content, update2, entry, write}
use vllm_exl3_plugin.ExpertCache.Writes.{entries}
use vllm_exl3_plugin.ExpertCache.Tables.{IsWellFormed, write-entries_ne}
use vllm_exl3_plugin.ExpertCache.Coherence.{
  Table, IsCoherent, same_ref, along, update2_ne, update2_self, other_entry, self_entry,
}

module _ (K : Layout) (wf : IsWellFormed K) where
  module _ {slot_of : ℕ → ℕ → Option ℕ} {owner : ℕ → ℕ → Option ℕ} {live : ℕ → ℕ → Bool}
      {contents : ℕ → ℕ → ℕ → Content} {table : Table} where
    -- The slot counts as free until it is claimed, though `owner` is only written then.
    pub release-IsCoherent :
        (l s old : ℕ) (moving : List Ref)
        → IsCoherent K slot_of owner live contents table moving
        → live l old ≡ true
        → slot_of l old ≡ some s
        → IsCoherent K
            (update2 slot_of l old none)
            (update2 owner l s none)
            (update2 live l old false)
            contents
            (write table (entries K l old (λ j a. a) (K.host l old)))
            moving
    release-IsCoherent l s old moving c alive seat = record {
      held = λ l' e' s' h.
          let before : slot_of l' e' ≡ some s' = seat_before l' e' s' h in
          let own = c.held l' e' s' before in
          update2_ne owner l s none l' s' (λ p q.
            not_old l' e' s' h p (
              some-eq _ _
                (sym own ∙ along (λ x y. owner x y ≡ some old) p q (c.held l old s seat))))
          ∙ own;
      holds = λ l' s' e' h. elim (same_ref l s l' s') [
        | inl (p, q) ↦
            let gone =
              along (λ x y. update2 owner l s none x y ≡ none) p q (update2_self owner l s none) in
            absurd (ground arith)
        | inr ne ↦
            let before : slot_of l' e' ≡ some s' =
              c.holds l' s' e' (sym (update2_ne owner l s none l' s' ne) ∙ h) in
            update2_ne slot_of l old none l' e' (λ p q.
              ne p (some-eq _ _ (sym before ∙ along (λ x y. slot_of x y ≡ some s) p q seat)))
            ∙ before
      ];
      seated = λ l' e' h.
          let (t, before) = c.seated l' e' (live_before l' e' h) in
          (t, update2_ne slot_of l old none l' e' (not_dead l' e' h) ∙ before);
      ready = λ l' e' s' j a h k m.
          c.ready l' e' s' j a (live_before l' e' h) (seat_before l' e' s' k) m;
      slot_entry = λ l' e' s' j a h k m.
          write-entries_ne K l old _ _ (K.host l old) table
            (other_entry K wf l old l' j e' a m (not_dead l' e' h))
          ∙ c.slot_entry l' e' s' j a (live_before l' e' h) (seat_before l' e' s' k) m;
      host_entry = λ l' e' j a h m. elim (same_ref l old l' e') [
        | inl (p, q) ↦
            along
              (λ x y.
                In (j, a) (K.host x y)
                → write table (entries K l old (λ j a. a) (K.host l old)) (entry K x j y) ≡ a)
              p q (λ m'. self_entry K wf l old j a (λ j a. a) table m') m
        | inr ne ↦
            write-entries_ne K l old _ _ (K.host l old) table
              (other_entry K wf l old l' j e' a m ne)
            ∙ c.host_entry l' e' j a (sym (update2_ne live l old false l' e' ne) ∙ h) m
      ];
      waits = λ l' e' m.
          let (dead, (t, before)) = c.waits l' e' m in
          let ne : l' ≡ l → e' ≢ old =
            λ p q. let alive' = along (λ x y. live x y ≡ true) p q alive in ground arith in
          (
            update2_ne live l old false l' e' ne ∙ dead,
            (t, update2_ne slot_of l old none l' e' ne ∙ before),
          );
      distinct = c.distinct;
    }
      where
        not_old : (l' e' s' : ℕ) → update2 slot_of l old none l' e' ≡ some s' → l' ≡ l → e' ≢ old
        not_old l' e' s' h p q =
            let gone =
              along (λ x y. update2 slot_of l old none x y ≡ none) p q
                (update2_self slot_of l old none) in
            ground arith

        seat_before :
            (l' e' s' : ℕ) → update2 slot_of l old none l' e' ≡ some s' → slot_of l' e' ≡ some s'
        seat_before l' e' s' h = sym (update2_ne slot_of l old none l' e' (not_old l' e' s' h)) ∙ h

        not_dead : (l' e' : ℕ) → update2 live l old false l' e' ≡ true → l' ≡ l → e' ≢ old
        not_dead l' e' h p q =
            let gone =
              along (λ x y. update2 live l old false x y ≡ false) p q
                (update2_self live l old false) in
            ground arith

        live_before : (l' e' : ℕ) → update2 live l old false l' e' ≡ true → live l' e' ≡ true
        live_before l' e' h = sym (update2_ne live l old false l' e' (not_dead l' e' h)) ∙ h

    -- Bytes that no live expert has may change.
    pub recopy-IsCoherent :
        (contents' : ℕ → ℕ → ℕ → Content) (moving : List Ref)
        → IsCoherent K slot_of owner live contents table moving
        → ((l e s j a : ℕ)
            → live l e ≡ true
            → slot_of l e ≡ some s
            → In (j, a) (K.host l e)
            → contents' l j s ≡ contents l j s)
        → IsCoherent K slot_of owner live contents' table moving
    recopy-IsCoherent contents' moving c same = record {
      held = c.held;
      holds = c.holds;
      seated = c.seated;
      ready = λ l e s j a h k m. same l e s j a h k m ∙ c.ready l e s j a h k m;
      slot_entry = c.slot_entry;
      host_entry = c.host_entry;
      waits = c.waits;
      distinct = c.distinct;
    }
