-- ===== src/Queue/Steps.antt =====
-- The job queue of pkg/scheduler/scheduler.go under any interleaving of its operations.
use dagens_public.Prelude.{
  ℕ, ◌≤◌, ◌≡◌, ◌≢◌, refl, sym, subst, inl, inr, true, false, not, ◌||◌, Option, none, some, List,
  [], ◌∷◌, ◌++◌, ltb, length, length-append, All, All-append, All-map, arith, Bool-cases,
}
use dagens_public.Prelude.Maps.{Map, lookup, insert, lookup-insert, lookup-delete}
use dagens_public.Scheduler.{Job, Scheduler}
use dagens_public.Queue.{
  is_some, enqueue_job_locked, submit_reserve, submit_finish, receive_job, mark_job_dequeued,
  receive, cleanup_terminal_jobs_once,
}
use dagens_public.Queue.Retention.{Spares, Cleans, cleanup_terminal_jobs_once-Cleans}

-- One step of a goroutine that works with the queue.
pub data QueueOp : Type 0 where
  reserve : Job → QueueOp
  finish requeue : ℕ → QueueOp
  receive_next mark_received : QueueOp
  clean_up : (now ttl : ℕ) → QueueOp

-- The scheduler, and the job that the loop has received and not yet marked.
pub record QueueState : Type 0 where
  pub scheduler : Scheduler
  pub received : Option ℕ

receive_into : Option ℕ → Scheduler → QueueState
receive_into none s = record { scheduler = (receive_job s).1; received = (receive_job s).0 }
receive_into (some j) s = record { scheduler = s; received = some j }

mark_from : Option ℕ → Scheduler → QueueState
mark_from none s = record { scheduler = s; received = none }
mark_from (some j) s = record { scheduler = mark_job_dequeued j s; received = none }

unfoldable pub queue_step : QueueOp → QueueState → QueueState
unfolding receive_into mark_from
queue_step (reserve job) q = record q { scheduler = (submit_reserve job q.scheduler).1 }
queue_step (finish j) q = record q { scheduler = (submit_finish j q.scheduler).1 }
queue_step (requeue j) q = record q { scheduler = (enqueue_job_locked j q.scheduler).1 }
queue_step receive_next q = receive_into q.received q.scheduler
queue_step mark_received q = mark_from q.received q.scheduler
queue_step (clean_up now ttl) q = record q {
  scheduler = (cleanup_terminal_jobs_once now ttl q.scheduler).1;
}

unfoldable pub queue_run : List QueueOp → QueueState → QueueState
queue_run [] q = q
queue_run (op ∷ ops) q = queue_run ops (queue_step op q)

abbrev pub Distinct : List ℕ → Type 0
Distinct [] = Unit
Distinct (x ∷ xs) = All (λ y. x ≢ y) xs × Distinct xs

abbrev pub Marked : Map (Unit {0}) → ℕ → Type 0
Marked m j = is_some (lookup j m) ≡ true

abbrev pub InFlight : Option ℕ → Scheduler → Type 0
InFlight none s = Unit
InFlight (some j) s = Marked s.queued_jobs j × All (λ k. j ≢ k) s.job_queue

-- The queue is within its size, no job is in it twice, and each job in it is marked as queued; a job
-- that has been received and not yet marked is not in it.
pub record IsQueue (q : QueueState) : Type 0 where
  pub bounded : length q.scheduler.job_queue ≤ q.scheduler.job_queue_size
  pub distinct : Distinct q.scheduler.job_queue
  pub marked : All (Marked q.scheduler.queued_jobs) q.scheduler.job_queue
  pub in_flight : InFlight q.received q.scheduler

All-both {ℓ} :
    {P Q R : ℕ → Type ℓ} → ((j : ℕ) → P j → Q j → R j) → (l : List ℕ) → All P l → All Q l → All R l
All-both f [] a b = tt
All-both f (x ∷ l) a b = (f x a.0 b.0, All-both f l a.1 b.1)

Distinct-append : (l : List ℕ) (j : ℕ) → Distinct l → All (λ k. k ≢ j) l → Distinct (l ++ j ∷ [])
Distinct-append [] j d a = (tt, tt)
Distinct-append (x ∷ l) j d a = (All-append _ l (j ∷ []) d.0 (a.0, tt), Distinct-append l j d.1 a.1)

Marked-insert : (k j : ℕ) (m : Map (Unit {0})) → Marked m j → Marked (insert k tt m) j
Marked-insert k j m h = ground (arith, lookup-insert k j tt m)

enqueue_fresh :
    (j : ℕ) (r : Option ℕ) (s : Scheduler)
    → is_some (lookup j s.queued_jobs) ≡ false
    → InFlight r s
    → InFlight r
        (record s { job_queue = s.job_queue ++ j ∷ []; queued_jobs = insert j tt s.queued_jobs })
enqueue_fresh j none s h f = tt
enqueue_fresh j (some k) s h f = (
  Marked-insert j k s.queued_jobs f.0,
  All-append (λ i. k ≢ i) s.job_queue (j ∷ []) f.1 ((λ e. ground arith), tt),
)

enqueue_job_locked-IsQueue :
    (j : ℕ) (r : Option ℕ) (s : Scheduler)
    → IsQueue (record { scheduler = s; received = r })
    → IsQueue (record { scheduler = (enqueue_job_locked j s).1; received = r })
unfolding enqueue_job_locked
enqueue_job_locked-IsQueue j r s q =
    elim (Bool-cases
      (is_some (lookup j s.queued_jobs) || not (ltb (length s.job_queue) s.job_queue_size))) [
        | inl e ↦ rw e q
        | inr e ↦ rw e (record {
          bounded = ground (arith, length-append s.job_queue (j ∷ []));
          distinct = Distinct-append s.job_queue j q.distinct (
              All-map (Marked s.queued_jobs) (λ k. k ≢ j) (λ k m e'. ground arith) s.job_queue
                q.marked);
          marked =
              All-append (Marked (insert j tt s.queued_jobs)) s.job_queue (j ∷ [])
                (All-map (Marked s.queued_jobs) (Marked (insert j tt s.queued_jobs))
                  (λ k. Marked-insert j k s.queued_jobs) s.job_queue q.marked)
                (ground (arith, lookup-insert j j tt s.queued_jobs), tt);
          in_flight = enqueue_fresh j r s (ground arith) q.in_flight;
        })
      ]

InFlight-same :
    (r : Option ℕ) (s t : Scheduler)
    → t.job_queue ≡ s.job_queue
    → t.queued_jobs ≡ s.queued_jobs
    → InFlight r s
    → InFlight r t
InFlight-same none s t q m f = tt
InFlight-same (some j) s t q m f =
    (subst (λ l. Marked l j) (sym m) f.0, subst (λ l. All (λ k. j ≢ k) l) (sym q) f.1)

-- What changes neither the queue nor the marks keeps the invariant.
IsQueue-same :
    (r : Option ℕ) (s t : Scheduler)
    → t.job_queue ≡ s.job_queue
    → t.queued_jobs ≡ s.queued_jobs
    → t.job_queue_size ≡ s.job_queue_size
    → IsQueue (record { scheduler = s; received = r })
    → IsQueue (record { scheduler = t; received = r })
IsQueue-same r s t q m n k = record {
  bounded = rw q (rw n k.bounded);
  distinct = subst Distinct (sym q) k.distinct;
  marked = rw q (rw m k.marked);
  in_flight = InFlight-same r s t q m k.in_flight;
}

submit_reserve-IsQueue :
    (job : Job) (r : Option ℕ) (s : Scheduler)
    → IsQueue (record { scheduler = s; received = r })
    → IsQueue (record { scheduler = (submit_reserve job s).1; received = r })
unfolding submit_reserve
submit_reserve-IsQueue job r s k =
    IsQueue-same r s (submit_reserve job s).1 (ground arith) (ground arith) (ground arith) k

receive_job-IsQueue :
    (queue : List ℕ) (s : Scheduler)
    → s.job_queue ≡ queue
    → IsQueue (record { scheduler = s; received = none })
    → IsQueue (record { scheduler = (receive queue s).1; received = (receive queue s).0 })
unfolding receive
receive_job-IsQueue [] s e k = k
receive_job-IsQueue (j ∷ queue) s e k =
    let distinct = subst Distinct e k.distinct in
    let marked = subst (All (Marked s.queued_jobs)) e k.marked in
    record {
      bounded = ground (arith, k.bounded);
      distinct = distinct.1;
      marked = marked.1;
      in_flight = (marked.0, distinct.0);
    }

mark_job_dequeued-IsQueue :
    (j : ℕ) (s : Scheduler)
    → IsQueue (record { scheduler = s; received = some j })
    → IsQueue (record { scheduler = mark_job_dequeued j s; received = none })
unfolding mark_job_dequeued
mark_job_dequeued-IsQueue j s k = record {
  bounded = k.bounded;
  distinct = k.distinct;
  marked =
      All-both (λ i m ne. ground (arith, lookup-delete j i s.queued_jobs)) s.job_queue k.marked
        k.in_flight.1;
  in_flight = tt;
}

receive_into-IsQueue :
    (r : Option ℕ) (s : Scheduler)
    → IsQueue (record { scheduler = s; received = r })
    → IsQueue (receive_into r s)
unfolding receive_into receive_job
receive_into-IsQueue none s k = receive_job-IsQueue s.job_queue s refl k
receive_into-IsQueue (some j) s k = k

mark_from-IsQueue :
    (r : Option ℕ) (s : Scheduler)
    → IsQueue (record { scheduler = s; received = r })
    → IsQueue (mark_from r s)
unfolding mark_from
mark_from-IsQueue none s k = k
mark_from-IsQueue (some j) s k = mark_job_dequeued-IsQueue j s k

-- A retention clean-up that meets no expired job in the queue, nor as the received job.
abbrev SparesReceived : (now ttl : ℕ) → Map Job → Option ℕ → Type 0
SparesReceived now ttl jobs none = Unit
SparesReceived now ttl jobs (some j) = Spares now ttl j jobs

abbrev SparesQueued : QueueOp → QueueState → Type 0
SparesQueued (clean_up now ttl) q =
    All (λ j. Spares now ttl j q.scheduler.jobs) q.scheduler.job_queue
    × SparesReceived now ttl q.scheduler.jobs q.received
SparesQueued _ q = Unit

abbrev pub AllSpare : List QueueOp → QueueState → Type 0
AllSpare [] q = Unit
AllSpare (op ∷ ops) q = SparesQueued op q × AllSpare ops (queue_step op q)

cleaned-InFlight :
    (now ttl : ℕ) (r : Option ℕ) (s t : Scheduler)
    → Cleans now ttl s t
    → SparesReceived now ttl s.jobs r
    → InFlight r s
    → InFlight r t
cleaned-InFlight now ttl none s t c p f = tt
cleaned-InFlight now ttl (some j) s t c p f =
    (rw (c.marks j p) f.0, subst (All (λ k. j ≢ k)) (sym c.same_queue) f.1)

cleaned-IsQueue :
    (now ttl : ℕ) (r : Option ℕ) (s t : Scheduler)
    → Cleans now ttl s t
    → All (λ j. Spares now ttl j s.jobs) s.job_queue
    → SparesReceived now ttl s.jobs r
    → IsQueue (record { scheduler = s; received = r })
    → IsQueue (record { scheduler = t; received = r })
cleaned-IsQueue now ttl r s t c a p k = record {
  bounded = rw (c.same_queue, c.same_size) k.bounded;
  distinct = subst Distinct (sym c.same_queue) k.distinct;
  marked = subst (All (Marked t.queued_jobs)) (sym c.same_queue) (
      All-both {P = Marked s.queued_jobs} {Q = λ j. Spares now ttl j s.jobs}
        {R = Marked t.queued_jobs} (λ j m q. rw (c.marks j q) m) s.job_queue k.marked a);
  in_flight = cleaned-InFlight now ttl r s t c p k.in_flight;
}

queue_step-IsQueue :
    (op : QueueOp) (q : QueueState) → SparesQueued op q → IsQueue q → IsQueue (queue_step op q)
unfolding queue_step submit_finish receive_job
queue_step-IsQueue (reserve job) q a k = submit_reserve-IsQueue job q.received q.scheduler k
queue_step-IsQueue (finish j) q a k =
    enqueue_job_locked-IsQueue j q.received _
      (IsQueue-same q.received q.scheduler _ refl refl refl k)
queue_step-IsQueue (requeue j) q a k = enqueue_job_locked-IsQueue j q.received q.scheduler k
queue_step-IsQueue receive_next q a k = receive_into-IsQueue q.received q.scheduler k
queue_step-IsQueue mark_received q a k = mark_from-IsQueue q.received q.scheduler k
queue_step-IsQueue (clean_up now ttl) q a k =
    cleaned-IsQueue now ttl q.received q.scheduler _
      (cleanup_terminal_jobs_once-Cleans now ttl q.scheduler) a.0 a.1 k

-- If the queue holds no more jobs than its size and no job twice, each job in it is marked as
-- queued, and a job that was received and is not yet marked is not in it, then all this holds
-- after any interleaving of submissions, requeues, the loop that receives jobs and retention
-- clean-ups, provided that no clean-up finds a job in the queue, or the received one, terminal and
-- as old as the retention.
pub queue_run-IsQueue :
    (ops : List QueueOp) (q : QueueState) → AllSpare ops q → IsQueue q → IsQueue (queue_run ops q)
unfolding queue_run
queue_run-IsQueue [] q a k = k
queue_run-IsQueue (op ∷ ops) q a k =
    queue_run-IsQueue ops (queue_step op q) a.1 (queue_step-IsQueue op q a.0 k)
