-- ===== src/Threads/Wait/Wake.antt =====
-- threads/thread.c: thread_wakeup moves the threads of a wait queue behind the ready queue.
use mathlib.Core.Path.{subst, sym}
use mathlib.Core.List.{append_assoc, append-nil}
use ece344_operating_systems.Base.{
  ℕ, zero, suc, ◌+◌, ◌≤◌, ◌≡◌, ◌≢◌, refl, true, false, Option, none, some, [], ◌∷◌, ◌++◌, arith,
  ◌==◌, length, Bool-cases, inl, inr, ap, ◌∙◌,
}
use ece344_operating_systems.Base.Run.{Run, ok}
use ece344_operating_systems.Threads.Memory.{
  Ptr, null, ThreadStatus, ready, Thread, Memory, write, is_null,
}
use ece344_operating_systems.Threads.Memory.Seg.{
  Cells, has, has-append, first-Seg, null_of_nil, not_null_of_cons,
}
use ece344_operating_systems.Threads.Queue.{WaitQueue, Queued, changed}
use ece344_operating_systems.Threads.Queue.Ends.{
  IsQueue, IsQueue-frame, node_at-Points, append_node_to_queue-Becomes, pop_queue-Pops,
}
use ece344_operating_systems.Threads.Queue.Status.{set_thread_status-some}
use ece344_operating_systems.Threads.Kernel.{Kernel}
use ece344_operating_systems.Threads.Wait.{wake_one, wake_loop}

-- Every cell's thread is an object of its own.
abbrev pub HaveThreads : (Ptr → Option Thread) → Cells → Type 0
HaveThreads f [] = Unit
HaveThreads f ((_, th) ∷ xs) = (th ≢ null) × ((t : Thread) × (f th ≡ some t)) × HaveThreads f xs

pub HaveThreads-write :
    (f : Ptr → Option Thread) (xs : Cells) (a : Ptr) (t : Thread)
    → HaveThreads f xs
    → HaveThreads (write f a (some t)) xs
HaveThreads-write f [] a t h = tt
HaveThreads-write f ((p, th) ∷ xs) a t h = (
  h.0,
  elim (Bool-cases (th == a)) [ inl e ↦ (t, rw e refl) | inr e ↦ (h.1.0, rw e h.1.1) ],
  HaveThreads-write f xs a t h.2,
)

abbrev pub Disjoint : Cells → Cells → Type 0
Disjoint xs ys = (a : Ptr) → has a xs ≡ true → has a ys ≡ false

-- The thread at `th` with its new status.
abbrev pub with_status : ThreadStatus → Option Thread → Option Thread
with_status st none = none
with_status st (some t) = some (record t { status = changed t.status st })

-- The threads of `xs`, one after the other, with a new status.
abbrev pub set_statuses : (Ptr → Option Thread) → ThreadStatus → Cells → Ptr → Option Thread
set_statuses f st [] = f
set_statuses f st ((_, th) ∷ xs) = set_statuses (write f th (with_status st (f th))) st xs

-- A kernel whose ready queue holds `rs` and whose wait queue at `wq` holds `xs`.
pub record Waiting (s : Kernel) (wq : Ptr) (queue : WaitQueue) (rs xs : Cells) : Type 0 where
  pub at_wq : s.queues wq ≡ some queue
  pub ready_queue : IsQueue s.memory.nodes s.rq rs
  pub wait_queue : IsQueue s.memory.nodes queue xs
  pub apart : Disjoint xs rs
  pub objects : HaveThreads s.memory.threads xs

-- What stays as it was where cells of `rs` and `xs` are moved.
pub record Keeps (s s' : Kernel) (wq : Ptr) (rs xs : Cells) : Type 0 where
  pub nodes : (a : Ptr) → has a rs ≡ false → has a xs ≡ false → s'.memory.nodes a ≡ s.memory.nodes a
  pub queues : (a : Ptr) → (a == wq) ≡ false → s'.queues a ≡ s.queues a
  pub eq : s'.eq ≡ s.eq
  pub threads : s'.threads ≡ s.threads
  pub wait_queues : s'.wait_queues ≡ s.wait_queues
  pub locks : s'.locks ≡ s.locks
  pub cvs : s'.cvs ≡ s.cvs
  pub stacks : s'.memory.stacks ≡ s.memory.stacks
  pub enabled : s'.enabled ≡ s.enabled

-- One round.
pub record WakesOne (s : Kernel) (wq th : Ptr) (rs xs left : Cells) (x : Ptr × Ptr)
    (r : Run Kernel (Unit {0})) : Type 0 where
  state : Kernel
  queue : WaitQueue
  run : r ≡ ok tt state
  waiting : Waiting state wq queue (rs ++ x ∷ []) left
  keeps : Keeps s state wq rs xs
  statuses :
      state.memory.threads ≡ write s.memory.threads th (with_status ready (s.memory.threads th))

wake_one-WakesOne :
    (s : Kernel) (wq : Ptr) (queue : WaitQueue) (rs xs : Cells) (p th : Ptr)
    → Waiting s wq queue rs ((p, th) ∷ xs)
    → WakesOne s wq th rs ((p, th) ∷ xs) xs (p, th) (wake_one wq s)
unfolding wake_one
wake_one-WakesOne s wq queue rs xs p th w =
    let s₀ : Queued = record { memory = s.memory; queue = queue } in
    let a = pop_queue-Pops s₀ p th xs w.wait_queue in
    let m₁ : Memory = record (s.memory) { nodes = a.nodes } in
    let t : Thread = w.objects.1.0 in
    let t' : Thread = record t { status = changed t.status ready } in
    let m₂ : Memory = record m₁ { threads = write s.memory.threads th (some t') } in
    let fresh : has p rs ≡ false = w.apart p (ground arith) in
    let rq₁ : IsQueue a.nodes s.rq rs =
      IsQueue-frame a.nodes w.ready_queue (λ c i. a.outside c (ground (arith, i, fresh))) in
    let b =
      append_node_to_queue-Becomes (record { memory = m₂; queue = s.rq }) rs p th rq₁ a.points
        fresh in
    let out : has p xs ≡ false =
      let head = first-Seg p th xs w.wait_queue.chain in ground (arith, head.at_head, head.out) in
    record {
      state = record s {
        memory = record m₂ { nodes = b.nodes };
        rq = b.queue;
        queues = write s.queues wq (some a.queue);
      };
      queue = a.queue;
      run =
          rw
            (
              w.at_wq,
              a.run,
              node_at-Points (record { memory = m₁; queue = s.rq }) a.points,
              set_thread_status-some (record { memory = m₁; queue = s.rq }) th t w.objects.0
                  w.objects.1.1 ready,
              b.run,
            )
            refl;
      waiting = record {
        at_wq = ground arith;
        ready_queue = b.valid;
        wait_queue =
            IsQueue-frame b.nodes a.valid (λ c i. b.outside c (w.apart c (ground (arith, i))));
        apart = λ c i.
            ground (arith, has-append c rs ((p, th) ∷ []), w.apart c (ground (arith, i)), i, out);
        objects = HaveThreads-write s.memory.threads xs th t' w.objects.2;
      };
      keeps = record {
        nodes = λ c o i. b.outside c o ∙ a.outside c (ground (arith, i));
        queues = λ c o. ground (arith, o);
        eq = refl;
        threads = refl;
        wait_queues = refl;
        locks = refl;
        cvs = refl;
        stacks = refl;
        enabled = refl;
      };
      statuses = rw w.objects.1.1 refl;
    }

Keeps-trans :
    (s s₁ s₂ : Kernel) (wq p th : Ptr) (rs xs : Cells)
    → Keeps s s₁ wq rs ((p, th) ∷ xs)
    → Keeps s₁ s₂ wq (rs ++ (p, th) ∷ []) xs
    → Keeps s s₂ wq rs ((p, th) ∷ xs)
Keeps-trans s s₁ s₂ wq p th rs xs k l = record {
  nodes = λ a o i.
      l.nodes a (ground (arith, has-append a rs ((p, th) ∷ []), o, i)) (ground (arith, i))
      ∙ k.nodes a o i;
  queues = λ a o. l.queues a o ∙ k.queues a o;
  eq = l.eq ∙ k.eq;
  threads = l.threads ∙ k.threads;
  wait_queues = l.wait_queues ∙ k.wait_queues;
  locks = l.locks ∙ k.locks;
  cvs = l.cvs ∙ k.cvs;
  stacks = l.stacks ∙ k.stacks;
  enabled = l.enabled ∙ k.enabled;
}

-- A run that moves the cells `xs` from the wait queue, where `left` stay, behind the ready queue, and
-- makes their threads ready.
pub record Wakes (s : Kernel) (wq : Ptr) (rs xs left : Cells) (n : ℕ) (r : Run Kernel ℕ)
    : Type 0 where
  pub state : Kernel
  pub queue : WaitQueue
  pub run : r ≡ ok n state
  pub waiting : Waiting state wq queue (rs ++ xs) left
  pub keeps : Keeps s state wq rs (xs ++ left)
  pub statuses : state.memory.threads ≡ set_statuses s.memory.threads ready xs

pub wake_loop-one :
    (fuel count : ℕ) (s : Kernel) (wq : Ptr) (queue : WaitQueue) (rs xs : Cells) (p th : Ptr)
    → Waiting s wq queue rs ((p, th) ∷ xs)
    → Wakes s wq rs ((p, th) ∷ []) xs (count + 1) (wake_loop (suc fuel) wq false count s)
unfolding wake_loop
wake_loop-one fuel count s wq queue rs xs p th w =
    let o = wake_one-WakesOne s wq queue rs xs p th w in
    record {
      state = o.state;
      queue = o.queue;
      run = rw (o.run, o.waiting.at_wq) refl;
      waiting = o.waiting;
      keeps = o.keeps;
      statuses = o.statuses;
    }

pub wake_loop-all :
    (fuel count : ℕ) (s : Kernel) (wq : Ptr) (queue : WaitQueue) (rs : Cells) (p th : Ptr)
    (xs : Cells)
    → Waiting s wq queue rs ((p, th) ∷ xs)
    → length xs ≤ fuel
    → Wakes s wq rs
        ((p, th) ∷ xs)
        []
        (count + suc (length xs))
        (wake_loop (suc fuel) wq true count s)
unfolding wake_loop
wake_loop-all fuel count s wq queue rs p th [] w h =
    let o = wake_one-WakesOne s wq queue rs [] p th w in
    let e : is_null o.queue.head ≡ true = ground (arith, null_of_nil o.waiting.wait_queue.chain) in
    record {
      state = o.state;
      queue = o.queue;
      run = rw (o.run, o.waiting.at_wq, e) refl;
      waiting = o.waiting;
      keeps = o.keeps;
      statuses = o.statuses;
    }
wake_loop-all zero count s wq queue rs p th (_ ∷ xs) w h = elim h [ ]
wake_loop-all (suc fuel) count s wq queue rs p th ((p', th') ∷ xs) w h =
    let o = wake_one-WakesOne s wq queue rs ((p', th') ∷ xs) p th w in
    let e : is_null o.queue.head ≡ false = not_null_of_cons o.waiting.wait_queue.chain in
    let l =
      wake_loop-all fuel (count + 1) o.state wq o.queue (rs ++ (p, th) ∷ []) p' th' xs o.waiting
        (omega (arith, h)) in
    let all : (rs ++ (p, th) ∷ []) ++ (p', th') ∷ xs ≡ rs ++ (p, th) ∷ (p', th') ∷ xs =
      append_assoc rs ((p, th) ∷ []) ((p', th') ∷ xs) in
    record {
      state = l.state;
      queue = l.queue;
      run = rw (o.run, o.waiting.at_wq, e) (l.run ∙ ap (λ n. ok n l.state) (omega arith));
      waiting = subst (λ zs. Waiting l.state wq l.queue zs []) all l.waiting;
      keeps =
          Keeps-trans s o.state l.state wq p th rs ((p', th') ∷ (xs ++ []))
            (subst (λ zs. Keeps s o.state wq rs ((p, th) ∷ (p', th') ∷ zs)) (sym (append-nil xs))
              o.keeps)
            l.keeps;
      statuses = l.statuses ∙ ap (λ f. set_statuses f ready ((p', th') ∷ xs)) o.statuses;
    }
