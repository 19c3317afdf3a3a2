-- ===== src/ExpertCache/Landing.antt =====
-- The first part of `step_begin`: promotions whose copies have landed are pointed at their slots.
use vllm_exl3_plugin.Base.{ℕ, Bool, true, List, [], ◌∷◌, ◌++◌, if◌then◌else◌}
use vllm_exl3_plugin.ExpertCache.State.{Layout, Cache, Batch, Ref, Update, update2, write}
use vllm_exl3_plugin.ExpertCache.Writes.{to_slot}

module _ (K : Layout) where
  -- The promotions whose copies have landed, up to the first that
  -- has not, and the rest of the queue.
  unfoldable pub pop_landed : List Batch → List Ref × List Batch
  pop_landed [] = ([], [])
  pop_landed (b ∷ bs) =
      let rest = pop_landed bs in if b.landed then (b.moved ++ rest.0, rest.1) else ([], b ∷ bs)

  -- The loop over them: table updates, and `live`.
  unfoldable pub flips : Cache → List Ref → List Update
  unfolding to_slot
  flips c [] = []
  flips c (r ∷ refs) = to_slot K c r ++ flips c refs

  unfoldable pub mark_live : List Ref → (ℕ → ℕ → Bool) → ℕ → ℕ → Bool
  mark_live [] live = live
  mark_live ((l, e) ∷ refs) live = mark_live refs (update2 live l e true)

  unfoldable pub land_flips : Cache → Cache
  unfolding pop_landed flips mark_live
  land_flips c =
      let (done, queue) = pop_landed c.pending in
      record c {
        table = write c.table (flips c done);
        live = mark_live done c.live;
        pending = queue;
      }
