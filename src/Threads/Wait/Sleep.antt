-- ===== src/Threads/Wait/Sleep.antt =====
-- threads/thread.c: thread_sleep puts the current thread behind a wait queue.
use ece344_operating_systems.Base.{◌≡◌, ◌≢◌, refl, false, some, [], ◌∷◌, ◌++◌, arith, ◌==◌, ◌∙◌}
use ece344_operating_systems.Base.Int.{pos}
use ece344_operating_systems.Base.Run.{Run, ok}
use ece344_operating_systems.Threads.Memory.{Ptr, null, blocked, Thread, Memory, write, is_null}
use ece344_operating_systems.Threads.Memory.Seg.{Cells, has, Points, first-Seg}
use ece344_operating_systems.Threads.Queue.{WaitQueue, Queued, changed}
use ece344_operating_systems.Threads.Queue.Ends.{
  IsQueue, IsQueue-frame, node_at-Points, append_node_to_queue-Becomes, pop_queue-Pops,
}
use ece344_operating_systems.Threads.Queue.Find.{id_of-some}
use ece344_operating_systems.Threads.Queue.Status.{set_thread_status-some}
use ece344_operating_systems.Threads.Kernel.{Kernel, Control, switched, interrupts_set}
use ece344_operating_systems.Threads.Wait.{thread_sleep}
use ece344_operating_systems.Threads.Wait.Wake.{Disjoint, HaveThreads}

-- The current thread, at the head of the ready queue, with others behind it, and a wait queue.
pub record CanSleep (s : Kernel) (wq : Ptr) (queue : WaitQueue) (p th p' th' : Ptr) (rs xs : Cells)
    : Type 0 where
  pub at_wq : s.queues wq ≡ some queue
  pub ready_queue : IsQueue s.memory.nodes s.rq ((p, th) ∷ (p', th') ∷ rs)
  pub wait_queue : IsQueue s.memory.nodes queue xs
  pub apart : Disjoint xs ((p, th) ∷ (p', th') ∷ rs)
  pub objects : HaveThreads s.memory.threads ((p, th) ∷ (p', th') ∷ [])

-- The next thread in the ready queue runs; the current one is the last in the wait queue, blocked
-- unless it has exited, and will return the id of the next.
pub record Sleeps (s : Kernel) (wq p th p' th' : Ptr) (t t' : Thread) (rs xs : Cells)
    (r : Run Kernel Control) : Type 0 where
  pub state : Kernel
  pub queue : WaitQueue
  pub run : r ≡ ok (switched th' (pos t'.id) s.enabled) state
  pub at_wq : state.queues wq ≡ some queue
  pub ready_queue : IsQueue state.memory.nodes state.rq ((p', th') ∷ rs)
  pub wait_queue : IsQueue state.memory.nodes queue (xs ++ (p, th) ∷ [])
  pub status : state.memory.threads th ≡ some (record t { status = changed t.status blocked })
  pub others : (a : Ptr) → (a == th) ≡ false → state.memory.threads a ≡ s.memory.threads a
  pub locks : state.locks ≡ s.locks
  pub masked : state.enabled ≡ false

-- thread_sleep, with another thread that is ready, moves the running thread from the front of the
-- ready queue to the end of the wait queue, blocks it unless it has exited, sets the context of
-- the next thread and will return the id of that one; the other threads and the locks stay, and
-- interrupts are off.
pub thread_sleep-Sleeps :
    (s : Kernel) (wq : Ptr) (queue : WaitQueue) (p th p' th' : Ptr) (rs xs : Cells)
    → (c : CanSleep s wq queue p th p' th' rs xs) → wq ≢ null
    → Sleeps s wq p th p' th' c.objects.1.0 c.objects.2.1.0 rs xs (thread_sleep wq s)
unfolding thread_sleep interrupts_set
thread_sleep-Sleeps s wq queue p th p' th' rs xs c h =
    let here : is_null wq ≡ false = ground (arith, h) in
    let many : (s.rq.size == 1) ≡ false = ground (arith, c.ready_queue.count) in
    let a =
      pop_queue-Pops (record { memory = s.memory; queue = s.rq }) p th ((p', th') ∷ rs)
        c.ready_queue in
    let fresh : has p xs ≡ false = ground (arith, c.apart p) in
    let wq₁ : IsQueue a.nodes queue xs =
      IsQueue-frame a.nodes c.wait_queue (λ b i. a.outside b (ground (arith, i, fresh))) in
    let m₁ : Memory = record (s.memory) { nodes = a.nodes } in
    let b =
      append_node_to_queue-Becomes (record { memory = m₁; queue = queue }) xs p th wq₁ a.points
        fresh in
    let rq₁ : IsQueue b.nodes a.queue ((p', th') ∷ rs) =
      IsQueue-frame b.nodes a.valid (λ d i. b.outside d (ground (arith, c.apart d, i))) in
    let m₂ : Memory = record (s.memory) { nodes = b.nodes } in
    let t : Thread = c.objects.1.0 in
    let t' : Thread = c.objects.2.1.0 in
    let f = first-Seg p' th' rs rq₁.chain in
    let q₂ : Queued = record { memory = m₂; queue = a.queue } in
    let points : Points b.nodes p th null = record {
      ne_null = a.points.ne_null;
      holds = b.outside p fresh ∙ a.points.holds;
    } in
    let m₃ : Memory = record m₂ {
      threads = write s.memory.threads th (some (record t { status = changed t.status blocked }));
    } in
    record {
      state = record s {
        enabled = false;
        memory = m₃;
        rq = a.queue;
        queues = write s.queues wq (some b.queue);
      };
      queue = b.queue;
      run =
          rw
            (
              here,
              many,
              a.run,
              c.at_wq,
              b.run,
              id_of-some q₂ t' f.points c.objects.2.0 c.objects.2.1.1,
              node_at-Points q₂ points,
              set_thread_status-some q₂ th t c.objects.0 c.objects.1.1 blocked,
              node_at-Points (record { memory = m₃; queue = a.queue }) f.points,
            )
            refl;
      at_wq = ground arith;
      ready_queue = rq₁;
      wait_queue = b.valid;
      status = ground arith;
      others = λ d o. ground (arith, o);
      locks = refl;
      masked = refl;
    }
