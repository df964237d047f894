-- ===== src/Threads/Wait.antt =====
-- threads/thread.c: wait queues, sleep, wakeup, and waiting for a thread.
pub mod Wake
pub mod Wakeup
pub mod Sleep
use ece344_operating_systems.Base.{
  ℕ, zero, suc, ◌+◌, ◌-◌, Bool, true, false, not, ◌&&◌, ◌||◌, Option, none, some, ltb, leb, ◌==◌,
  if◌then◌else◌,
}
use ece344_operating_systems.Base.Int.{ℤ, pos, negsuc, is_neg}
use ece344_operating_systems.Base.Run.{
  Run, ok, halt, Halt, aborted, faulted, diverged, Cmd, pure, ◌>>=◌, ◌>>◌, modify, assert,
}
use ece344_operating_systems.Threads.Memory.{
  Ptr, null, ThreadStatus, running, ready, blocked, Node, Thread, Memory, write, is_null,
}
use ece344_operating_systems.Threads.Queue.{
  WaitQueue, Queued, node_at, thread_at, set_node, set_thread, free_stack, id_of, same_tid,
  find_in_queue_with_prev, append_node_to_queue, append_to_queue, move_head_to_end, move_to_head,
  pop_queue, clear_queue, set_thread_status,
}
use ece344_operating_systems.Threads.Kernel.{
  queue_at, returned, switched, started, thread_max_threads, thread_any, thread_self,
  thread_invalid, thread_none, thread_nomore, thread_nomemory, Lock, Kernel, Control, set_rq,
  set_eq, set_wq, on_rq, on_eq, on_found, on_queue, get_kernel, after, interrupts_set,
  interrupts_on, interrupts_off, leave, set_slot, get_thread, put_thread, put_wait_queue, thread_id,
}

-- One node goes from the wait queue to the end of the ready queue.
unfoldable pub wake_one : Ptr → Cmd Kernel (Unit {0})
unfolding pop_queue append_node_to_queue set_thread_status node_at
wake_one queue = do
  node ← on_queue queue pop_queue
  n ← on_rq (node_at node)
  on_rq (set_thread_status n.thread ready)
  on_rq (append_node_to_queue node)

-- do { … } while (all && queue->head != NULL)
unfoldable pub wake_loop : ℕ → Ptr → Bool → ℕ → Cmd Kernel ℕ
unfolding wake_one
wake_loop zero queue all count = λ _. halt diverged
wake_loop (suc fuel) queue all count = do
  wake_one queue
  q ← queue_at queue
  let rest = wake_loop fuel queue all (count + 1)
  if all && not (is_null q.head) then rest else pure (count + 1)

-- The loop goes round at most once for each node, so the fuel suffices.
unfoldable pub thread_wakeup : Ptr → Bool → Cmd Kernel ℕ
unfolding wake_loop
thread_wakeup queue all = do
  enabled ← interrupts_off
  if is_null queue then (do interrupts_set enabled; pure 0) else do
    q ← queue_at queue
    if q.size == 0
        then (do interrupts_set enabled; pure 0)
        else do count ← wake_loop q.size queue all 0; interrupts_set enabled; pure count

unfoldable pub wait_queue_create : Ptr → Cmd Kernel (Unit {0})
wait_queue_create wq = do
  assert (not (is_null wq))
  modify λ s. record s {
    queues = write s.queues wq (some (record { size = 0; head = null; tail = null }));
  }

unfoldable pub wait_queue_destroy : Ptr → Cmd Kernel (Unit {0})
unfolding clear_queue
wait_queue_destroy wq =
    if is_null wq
    then pure tt
    else do on_queue wq clear_queue; modify λ s. record s { queues = write s.queues wq none }

-- The caller gives the processor away until a thread_wakeup on the queue.
unfoldable pub thread_sleep : Ptr → Cmd Kernel Control
unfolding pop_queue append_node_to_queue set_thread_status node_at id_of
thread_sleep queue = do
  enabled ← interrupts_off
  if is_null queue
      then leave enabled thread_invalid
      else get_kernel λ s. if s.rq.size == 1 then leave enabled thread_none else do
        current_thread ← on_rq pop_queue
        on_queue queue (append_node_to_queue current_thread)
        get_kernel λ s. do
          ret_id ← on_rq (id_of s.rq.head)
          n ← on_rq (node_at current_thread)
          on_rq (set_thread_status n.thread blocked)
          new ← on_rq (node_at s.rq.head)
          pure (switched new.thread (pos ret_id) enabled)

-- What thread_wait makes of the end of thread_sleep: it returns `tid` in any case.
abbrev pub waited : Bool → ℤ → Control → Cmd Kernel Control
waited enabled tid (returned a) = leave enabled tid
waited enabled tid (switched to result e) = pure (switched to tid enabled)
waited enabled tid started = pure started

abbrev pub wait_for : Bool → ℕ → Ptr → Cmd Kernel Control
wait_for enabled tid wq = do c ← thread_sleep wq; waited enabled (pos tid) c

-- Where the thread has no wait queue yet, `malloc` gives `new_wq`.
abbrev pub wait_on : Bool → ℕ → Ptr → Cmd Kernel Control
wait_on enabled tid new_wq = get_kernel λ s.
    if is_null (s.wait_queues tid)
    then (do wait_queue_create new_wq; put_wait_queue tid new_wq; wait_for enabled tid new_wq)
    else wait_for enabled tid (s.wait_queues tid)

-- Whether the id is valid is tested against the array of threads, without a test of its bound.
abbrev pub wait_valid : Bool → ℤ → Ptr → Cmd Kernel Control
wait_valid enabled (negsuc n) new_wq = leave enabled thread_invalid
wait_valid enabled (pos tid) new_wq = do
  id ← thread_id
  if tid == id then leave enabled thread_invalid else do
    th ← get_thread tid
    if is_null th then leave enabled thread_invalid else wait_on enabled tid new_wq

unfoldable pub thread_wait : ℤ → Ptr → Cmd Kernel Control
unfolding thread_sleep wait_queue_create thread_id
thread_wait tid new_wq = do enabled ← interrupts_off; wait_valid enabled tid new_wq
