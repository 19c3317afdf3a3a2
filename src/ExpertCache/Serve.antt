-- ===== src/ExpertCache/Serve.antt =====
-- What a started cache's table says, after any events.
use vllm_exl3_plugin.Base.{ℕ, List, In}
use vllm_exl3_plugin.ExpertCache.State.{Layout}
use vllm_exl3_plugin.ExpertCache.Steps.{fill, Event, run}
use vllm_exl3_plugin.ExpertCache.Tables.{IsWellFormed}
use vllm_exl3_plugin.ExpertCache.Run.{Served, run-IsSound, IsSound-Served}
use vllm_exl3_plugin.ExpertCache.Warm.{AtHost, fill-IsSound}

-- After the warm start of a table of host addresses, whatever step boundaries and completions of
-- copies and routing follow, and in whatever order, every hosted row of every expert is read from
-- its host address or from a slot that holds all bytes of that expert for the row's label.
pub run-Served :
    (K : Layout) (wf : IsWellFormed K) (table : ℕ → ℕ)
    → AtHost K table
    → (es : List Event) (l e j a : ℕ) → In (j, a) (K.host l e)
    → Served K (run K es (fill K table)) l j e a
run-Served K wf table at es l e j a m =
    IsSound-Served K wf _ (run-IsSound K wf es _ (fill-IsSound K wf table at)) l e j a m
