-- ===== src/Replay/Chain.antt =====
-- The states that a transition log gives to its job and to each of its tasks, for the replay of
-- pkg/scheduler/replay.go.
use dagens_public.Prelude.{
  ℕ, ◌≡◌, sym, subst, ap, ◌⊎◌, Bool, true, none, some, Option, List, [], ◌∷◌, ◌==◌, if◌then◌else◌,
}
use dagens_public.Prelude.Maps.{lookup}
use dagens_public.Lifecycle.{State, empty, EntityType, job_entity, task_entity, TransitionRecord}
use dagens_public.Replay.{ReplayedJobState, task_or_zero}

-- After `s`, the state `t` is accepted: nothing is known yet, or the move is legal.
abbrev pub Follows : (State → State → Bool) → State → State → Type 0
Follows can s t = (s ≡ empty) ⊎ (can s t ≡ true)

abbrev pub Chain : (State → State → Bool) → State → List State → Type 0
Chain can s [] = Unit
Chain can s (t ∷ ts) = Follows can s t × Chain can t ts

abbrev pub last_of : State → List State → State
last_of s [] = s
last_of s (t ∷ ts) = last_of t ts

abbrev pub push {ℓ} : {A : Type ℓ} → Option A → List A → List A
push none xs = xs
push (some x) xs = x ∷ xs

-- The state that a record gives to the job, and to the task `t`, if any.
abbrev pub job_part : EntityType → TransitionRecord → Option State
job_part job_entity r = some r.new_state
job_part _ r = none

abbrev pub task_part : ℕ → EntityType → TransitionRecord → Option State
task_part t task_entity r = if r.task_id == t then some r.new_state else none
task_part t _ r = none

abbrev pub job_states : List TransitionRecord → List State
job_states [] = []
job_states (r ∷ rs) = push (job_part r.entity_type r) (job_states rs)

abbrev pub task_states : ℕ → List TransitionRecord → List State
task_states t [] = []
task_states t (r ∷ rs) = push (task_part t r.entity_type r) (task_states t rs)

abbrev pub task_state : ℕ → ReplayedJobState → State
task_state t st = (task_or_zero (lookup t st.tasks)).current_state

-- One step of one entity, which the record may concern or not.
abbrev pub StepOf : (State → State → Bool) → State → State → Option State → Type 0
StepOf can s s' none = s' ≡ s
StepOf can s s' (some t) = Follows can s t × (s' ≡ t)

abbrev pub MayStep : (State → State → Bool) → State → Option State → Type 0
MayStep can s none = Unit
MayStep can s (some t) = Follows can s t

module _ (can : State → State → Bool) where
  pub Chain-push :
      (s s' : State) (o : Option State) (ss : List State)
      → StepOf can s s' o
      → Chain can s' ss
      → Chain can s (push o ss)
  Chain-push s s' none ss e c = subst (λ u. Chain can u ss) e c
  Chain-push s s' (some t) ss (f, e) c = (f, subst (λ u. Chain can u ss) e c)

  pub Chain-pop :
      (s s' : State) (o : Option State) (ss : List State)
      → StepOf can s s' o
      → Chain can s (push o ss)
      → Chain can s' ss
  Chain-pop s s' none ss e c = subst (λ u. Chain can u ss) (sym e) c
  Chain-pop s s' (some t) ss (f, e) c = subst (λ u. Chain can u ss) (sym e) c.1

  pub MayStep-of_Chain :
      (s : State) (o : Option State) (ss : List State) → Chain can s (push o ss) → MayStep can s o
  MayStep-of_Chain s none ss c = tt
  MayStep-of_Chain s (some t) ss c = c.0

  pub last_of-push :
      (s s' : State) (o : Option State) (ss : List State)
      → StepOf can s s' o
      → last_of s' ss ≡ last_of s (push o ss)
  last_of-push s s' none ss e = ap (λ u. last_of u ss) e
  last_of-push s s' (some t) ss (f, e) = ap (λ u. last_of u ss) e
