-- ===== src/Threads/Exit/Leave.antt =====
-- threads/thread.c: thread_exit, where another thread is ready.
use ece344_operating_systems.Base.{
  ℕ, ◌≡◌, ◌≢◌, ◌∙◌, ap, refl, true, false, ◌==◌, none, some, [], ◌∷◌, ◌++◌, arith,
}
use ece344_operating_systems.Base.Int.{pos}
use ece344_operating_systems.Base.Run.{Run, ok, ◌>>◌}
use ece344_operating_systems.Threads.Memory.{Ptr, null, ready, Thread, Memory, write, is_null}
use ece344_operating_systems.Threads.Memory.Seg.{
  Cells, Nodes, has, has-append, first-Seg, not_null_of_cons, null_of_nil,
}
use ece344_operating_systems.Threads.Queue.{WaitQueue, clear_queue, clear_loop}
use ece344_operating_systems.Threads.Queue.Ends.{
  IsQueue, IsQueue-frame, node_at-Points, append_node_to_queue-Becomes, pop_queue-Pops,
}
use ece344_operating_systems.Threads.Kernel.{
  Kernel, Control, switched, set_slot, put_wait_queue, interrupts_set,
}
use ece344_operating_systems.Threads.Wait.{thread_wakeup, wait_queue_destroy}
use ece344_operating_systems.Threads.Wait.Wake.{Disjoint, Waiting, Wakes, set_statuses}
use ece344_operating_systems.Threads.Wait.Wakeup.{thread_wakeup_all-Wakes}
use ece344_operating_systems.Threads.Exit.{leave_ready, drop_wait_queue, thread_exit}
use ece344_operating_systems.Threads.Exit.Kill.{Runs, thread_id-Runs}

-- The next thread runs, and the node of the current one is the last of the exited ones.
pub record Leaves (s : Kernel) (p th p' th' : Ptr) (rs es : Cells) (r : Run Kernel Control)
    : Type 0 where
  pub nodes : Nodes
  pub rq : WaitQueue
  pub eq : WaitQueue
  pub run :
      r
      ≡ ok
          (switched th' (pos 0) false)
          (record s { memory = record (s.memory) { nodes = nodes }; rq = rq; eq = eq })
  pub ready_queue : IsQueue nodes rq ((p', th') ∷ rs)
  pub exit_queue : IsQueue nodes eq (es ++ (p, th) ∷ [])

pub leave_ready-Leaves :
    (s : Kernel) (p th p' th' : Ptr) (rs es : Cells)
    → IsQueue s.memory.nodes s.rq ((p, th) ∷ (p', th') ∷ rs)
    → IsQueue s.memory.nodes s.eq es
    → Disjoint es ((p, th) ∷ (p', th') ∷ rs)
    → Leaves s p th p' th' rs es (leave_ready s)
unfolding leave_ready
leave_ready-Leaves s p th p' th' rs es front gone apart =
    let fresh : has p es ≡ false = ground (arith, apart p) in
    let a =
      pop_queue-Pops (record { memory = s.memory; queue = s.rq }) p th ((p', th') ∷ rs) front in
    let eq₁ : IsQueue a.nodes s.eq es =
      IsQueue-frame a.nodes gone (λ b i. a.outside b (ground (arith, i, fresh))) in
    let m₁ : Memory = record (s.memory) { nodes = a.nodes } in
    let b =
      append_node_to_queue-Becomes (record { memory = m₁; queue = s.eq }) es p th eq₁ a.points
        fresh in
    let rq₁ : IsQueue b.nodes a.queue ((p', th') ∷ rs) =
      IsQueue-frame b.nodes a.valid (λ d i. b.outside d (ground (arith, apart d, i))) in
    let m₂ : Memory = record (s.memory) { nodes = b.nodes } in
    let f = first-Seg p' th' rs rq₁.chain in
    let head : is_null a.queue.head ≡ false = not_null_of_cons a.valid.chain in
    record {
      nodes = b.nodes;
      rq = a.queue;
      eq = b.queue;
      run =
          rw (a.run, head, b.run, node_at-Points (record { memory = m₂; queue = a.queue }) f.points)
            refl;
      ready_queue = rq₁;
      exit_queue = b.valid;
    }

-- An empty wait queue is freed.
wait_queue_destroy-empty :
    (s : Kernel) (wq : Ptr) (queue : WaitQueue)
    → wq ≢ null
    → s.queues wq ≡ some queue
    → IsQueue s.memory.nodes queue []
    → wait_queue_destroy wq s
      ≡ ok tt (record s {
        queues =
            write
              (write s.queues wq (some (record { size = 0; head = null; tail = null })))
              wq
              none;
      })
unfolding wait_queue_destroy clear_queue clear_loop
wait_queue_destroy-empty s wq queue h at is =
    let here : is_null wq ≡ false = ground (arith, h) in
    let size : queue.size ≡ 0 = is.count in
    let head : is_null queue.head ≡ true = ground (arith, null_of_nil is.chain) in
    rw (here, at, size, head) refl

-- The state without the wait queue of thread `id`.
abbrev pub dropped : Kernel → Ptr → ℕ → Kernel
dropped s wq id = record s {
  queues = write (write s.queues wq (some (record { size = 0; head = null; tail = null }))) wq none;
  wait_queues = set_slot s.wait_queues id null;
}

drop_wait_queue-dropped :
    (s : Kernel) (wq : Ptr) (id : ℕ) (queue : WaitQueue)
    → s.wait_queues id ≡ wq
    → wq ≢ null
    → s.queues wq ≡ some queue
    → IsQueue s.memory.nodes queue []
    → drop_wait_queue id s ≡ leave_ready (dropped s wq id)
unfolding drop_wait_queue
drop_wait_queue-dropped s wq id queue its h at is =
    ap (λ q. (wait_queue_destroy q >> (put_wait_queue id null >> leave_ready)) s) its
    ∙ rw (wait_queue_destroy-empty s wq queue h at is) refl

-- A thread with waiters that can give way to another.
pub record CanExit (s : Kernel) (wq : Ptr) (queue : WaitQueue) (p th : Ptr) (t : Thread)
    (p' th' : Ptr) (rs ws es : Cells) : Type 0 where
  pub runs : Runs s p th t ((p', th') ∷ rs)
  pub its_queue : s.wait_queues t.id ≡ wq
  pub ne_null : wq ≢ null
  pub waiting : Waiting s wq queue ((p, th) ∷ (p', th') ∷ rs) ws
  pub exit_queue : IsQueue s.memory.nodes s.eq es
  pub apart : Disjoint es ((p, th) ∷ (p', th') ∷ rs ++ ws)

-- The waiters are ready behind the others, the id is free, the wait queue is freed, and the thread is
-- the last of the exited ones.
pub record Exits (s : Kernel) (wq p th : Ptr) (t : Thread) (p' th' : Ptr) (rs ws es : Cells)
    (r : Run Kernel Control) : Type 0 where
  pub state : Kernel
  pub run : r ≡ ok (switched th' (pos 0) false) state
  pub ready_queue : IsQueue state.memory.nodes state.rq ((p', th') ∷ rs ++ ws)
  pub exit_queue : IsQueue state.memory.nodes state.eq (es ++ (p, th) ∷ [])
  pub statuses : state.memory.threads ≡ set_statuses s.memory.threads ready ws
  pub threads : state.threads ≡ set_slot s.threads t.id null
  pub wait_queues : state.wait_queues ≡ set_slot s.wait_queues t.id null
  pub destroyed : state.queues wq ≡ none
  pub other_queues : (a : Ptr) → (a == wq) ≡ false → state.queues a ≡ s.queues a
  pub masked : state.enabled ≡ false

-- What thread_exit has done when it wakes up the waiters.
abbrev pub exiting : Kernel → Thread → Kernel
exiting s t = record s { enabled = false; threads = set_slot s.threads t.id null }

module _ {s : Kernel} {wq : Ptr} {queue : WaitQueue} {p th : Ptr} {t : Thread} {p' th' : Ptr}
    {rs ws es : Cells} (c : CanExit s wq queue p th t p' th' rs ws es) where
  waiting_exiting : Waiting (exiting s t) wq queue ((p, th) ∷ (p', th') ∷ rs) ws
  waiting_exiting = record {
    at_wq = c.waiting.at_wq;
    ready_queue = c.waiting.ready_queue;
    wait_queue = c.waiting.wait_queue;
    apart = c.waiting.apart;
    objects = c.waiting.objects;
  }

  -- The queue of exited threads is as before.
  exited_before :
      {n : ℕ} {r : Run Kernel ℕ}
      → (a : Wakes (exiting s t) wq ((p, th) ∷ (p', th') ∷ rs) ws [] n r)
      → IsQueue a.state.memory.nodes a.state.eq es
  exited_before a = rw (a.keeps.eq) (
      IsQueue-frame a.state.memory.nodes c.exit_queue (λ d i.
        a.keeps.nodes d (ground (arith, c.apart d i, has-append d rs ws))
          (ground (arith, c.apart d i, has-append d rs ws, has-append d ws []))))

  woken-Exits :
      {n : ℕ}
      → Wakes
          (exiting s t)
          wq
          ((p, th) ∷ (p', th') ∷ rs)
          ws
          []
          n
          (thread_wakeup wq true (exiting s t))
      → Exits s wq p th t p' th' rs ws es (thread_exit s)
  unfolding thread_exit interrupts_set
  woken-Exits a =
      let its : a.state.wait_queues t.id ≡ wq =
        ap (λ f. f t.id) a.keeps.wait_queues ∙ c.its_queue in
      let k : Kernel = dropped a.state wq t.id in
      let l =
        leave_ready-Leaves k p th p' th' (rs ++ ws) es a.waiting.ready_queue (exited_before a)
          c.apart in
      record {
        state = record k { memory = record (k.memory) { nodes = l.nodes }; rq = l.rq; eq = l.eq };
        run =
            rw (thread_id-Runs s p th t ((p', th') ∷ rs) c.runs false, c.its_queue, a.run)
              (drop_wait_queue-dropped a.state wq t.id a.queue its c.ne_null a.waiting.at_wq
                  a.waiting.wait_queue
                ∙ l.run);
        ready_queue = l.ready_queue;
        exit_queue = l.exit_queue;
        statuses = a.statuses;
        threads = a.keeps.threads;
        wait_queues = ap (λ f. set_slot f t.id null) a.keeps.wait_queues;
        destroyed = ground arith;
        other_queues = λ d o. ground (arith, a.keeps.queues d o, o);
        masked = a.keeps.enabled;
      }

  -- thread_exit of a thread with a wait queue, with another thread that is ready, frees its id
  -- and its wait queue and no other, makes all its waiters ready, unless they have exited, behind the ready
  -- queue and in their order, puts its node behind the exited ones, and sets the context of the
  -- next thread with interrupts off.
  pub thread_exit-Exits : Exits s wq p th t p' th' rs ws es (thread_exit s)
  thread_exit-Exits = woken-Exits (
      thread_wakeup_all-Wakes (exiting s t) wq queue ((p, th) ∷ (p', th') ∷ rs) ws waiting_exiting
        c.ne_null)
