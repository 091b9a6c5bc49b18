-- ===== src/Tests/Stores.antt =====
-- The in-memory store of pkg/scheduler/transition_store_memory.go at concrete values.
use dagens_public.Prelude.{◌≡◌, ◌≢◌, ◌↔◌, ◌≤◌, ◌<◌, ◌++◌, ℕ, refl, true, false, [], ◌∷◌, arith}
use dagens_public.Prelude.Maps.{lookup, insert}
use dagens_public.Prelude.Sort.{IsSorted, sort_by, insert_sorted}
use mathlib.Core.List.{Perm}
use dagens_public.Prelude.Results.{ok}
use dagens_public.Lifecycle.{TransitionRecord, DurableJobRecord, DurableTaskRecord, validate}
use dagens_public.Store.{
  TransitionStore, new_store, by_sequence, append_transition, append_valid, list_transitions_by_job,
  claim_task_dispatch, upsert_job, upsert_task,
}
use dagens_public.Store.Claim.{MayClaim, claim_task_dispatch_iff, refused_claim_unchanged}
use dagens_public.Store.Fence.{granted_claim_fences, store_run, claim, append}
use dagens_public.Store.Log.{
  IsConsistent, append_transition_log, append_transition-IsConsistent, sequence_of,
  sequence_monotone,
}
use dagens_public.Tests.{first_record, third_record, one_task, claim_at}

claim_task_dispatch_iff_example :
    ((claim_task_dispatch (claim_at 2) one_task).0 ≡ true)
    ↔ ((0 < 7) × MayClaim (lookup 7 one_task.tasks) 2)
claim_task_dispatch_iff_example = claim_task_dispatch_iff (claim_at 2) one_task

granted_claim_fences_example :
    (claim_task_dispatch (claim_at 1) (
      store_run
        (claim (claim_at 3) ∷ append third_record ∷ [])
        (claim_task_dispatch (claim_at 2) one_task).1)).0
    ≡ false
unfolding claim_task_dispatch lookup
granted_claim_fences_example =
    granted_claim_fences (claim_at 2) (claim_at 1) (claim (claim_at 3) ∷ append third_record ∷ [])
      one_task refl (tt, (tt, tt)) refl (omega arith)

refused_claim_unchanged_example : (claim_task_dispatch (claim_at 1) one_task).1 ≡ one_task
unfolding claim_task_dispatch lookup
refused_claim_unchanged_example = refused_claim_unchanged (claim_at 1) one_task refl

abbrev once : TransitionStore
once = append_valid third_record new_store

abbrev twice : TransitionStore
twice = append_valid first_record once

appends_once : append_transition third_record new_store ≡ ok once
unfolding append_transition validate
appends_once = refl

appends_twice : append_transition first_record once ≡ ok twice
unfolding append_transition validate
appends_twice = refl

-- The record with the smaller number arrives last and is listed first.
listed : list_transitions_by_job 1 twice ≡ first_record ∷ third_record ∷ []
unfolding list_transitions_by_job append_valid new_store lookup insert sort_by insert_sorted
listed = refl

append_transition_log_example :
    IsSorted by_sequence (list_transitions_by_job 1 twice)
    × Perm (list_transitions_by_job 1 twice) (list_transitions_by_job 1 once ++ first_record ∷ [])
    × ((j : ℕ) → j ≢ 1 → list_transitions_by_job j twice ≡ list_transitions_by_job j once)
append_transition_log_example = append_transition_log first_record once twice appends_twice

new_store-IsConsistent : IsConsistent new_store
unfolding new_store list_transitions_by_job lookup
new_store-IsConsistent = record { ordered = λ j. tt; owned = λ j. tt }

append_transition-IsConsistent_example : IsConsistent once
append_transition-IsConsistent_example =
    append_transition-IsConsistent third_record new_store once new_store-IsConsistent appends_once

sequence_monotone_example :
    ((r : TransitionRecord) (t : TransitionStore)
      → append_transition r once ≡ ok t
      → sequence_of (lookup 1 once.jobs) ≤ sequence_of (lookup 1 t.jobs))
    × ((job : DurableJobRecord)
        → sequence_of (lookup 1 once.jobs) ≤ sequence_of (lookup 1 (upsert_job job once).jobs))
    × ((task : DurableTaskRecord)
        → sequence_of (lookup 1 once.jobs) ≤ sequence_of (lookup 1 (upsert_task task once).jobs))
sequence_monotone_example = sequence_monotone 1 once
