-- ===== src/ExpertCache/Writes.antt =====
-- Table writes for an expert's labels, and the copies of its rows into a slot.
use vllm_exl3_plugin.Base.{ℕ, ◌-◌, ◌&&◌, Option, none, some, List, [], ◌∷◌, ◌==◌, if◌then◌else◌}
use vllm_exl3_plugin.ExpertCache.State.{Layout, Cache, Ref, Update, Content, slot_addr, entry}

module _ (K : Layout) where
  -- Table writes for the labels of an expert, to the address that `f` gives for each.
  unfoldable pub entries : ℕ → ℕ → (ℕ → ℕ → ℕ) → List (ℕ × ℕ) → List Update
  entries l e f [] = []
  entries l e f ((j, a) ∷ rows) = (entry K l j e, f j a) ∷ entries l e f rows

  -- To the slot that the expert holds; a slot of -1 lies one slot before the first.
  unfoldable pub to_slot : Cache → Ref → List Update
  unfolding entries
  to_slot c (l, e) = elim (c.slot_of l e) [
    | some s ↦ entries l e (λ j a. slot_addr K l j s) (K.host l e)
    | none ↦ entries l e (λ j a. K.slot_base l j - K.slot_bytes l j) (K.host l e)
  ]

  unfoldable pub to_host : Ref → List Update
  unfolding entries
  to_host (l, e) = entries l e (λ j a. a) (K.host l e)

  -- The copies of one expert's rows into a slot, as the contents of the slot's labels.
  unfoldable pub fill_labels :
      List (ℕ × ℕ) → ℕ → ℕ → Content → (ℕ → ℕ → ℕ → Content) → ℕ → ℕ → ℕ → Content
  fill_labels [] l s v m = m
  fill_labels ((j, _) ∷ rows) l s v m =
      fill_labels rows l s v (λ l' j' s'. if l' == l && (j' == j && s' == s) then v else m l' j' s')

  unfoldable pub set_contents :
      Ref → Option ℕ → Content → (ℕ → ℕ → ℕ → Content) → ℕ → ℕ → ℕ → Content
  unfolding fill_labels
  set_contents (l, e) none v m = m
  set_contents (l, e) (some s) v m = fill_labels (K.host l e) l s v m

  -- Such copies for a list of experts, in order, each into its target slot. `mark` says what the
  -- slot's bytes are from then on.
  unfoldable pub write_slots :
      (ℕ → Content) → List Ref → (ℕ → ℕ → Option ℕ) → (ℕ → ℕ → ℕ → Content) → ℕ → ℕ → ℕ → Content
  unfolding set_contents
  write_slots mark [] target m = m
  write_slots mark ((l, e) ∷ refs) target m =
      write_slots mark refs target (set_contents (l, e) (target l e) (mark e) m)
