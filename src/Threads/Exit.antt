-- ===== src/Threads/Exit.antt =====
-- threads/thread.c: the end of a thread, and a thread that runs again or for the first time.
pub mod Kill
pub mod Leave
pub mod Resume
use ece344_operating_systems.Base.{
  ℕ, zero, suc, ◌+◌, ◌-◌, Bool, true, false, not, ◌&&◌, ◌||◌, Option, none, some, ltb, leb, ◌==◌,
  if◌then◌else◌,
}
use ece344_operating_systems.Base.Int.{ℤ, pos, negsuc, is_neg}
use ece344_operating_systems.Base.Run.{
  Run, ok, halt, Halt, aborted, faulted, diverged, Cmd, pure, ◌>>=◌, ◌>>◌, modify, assert,
}
use ece344_operating_systems.Threads.Memory.{
  Ptr, null, ThreadStatus, running, ready, blocked, Node, Thread, Memory, write, is_null,
}
use ece344_operating_systems.Threads.Queue.{
  WaitQueue, Queued, node_at, thread_at, set_node, set_thread, free_stack, id_of, same_tid,
  find_in_queue_with_prev, append_node_to_queue, append_to_queue, move_head_to_end, move_to_head,
  pop_queue, clear_queue, set_thread_status,
}
use ece344_operating_systems.Threads.Kernel.{
  returned, switched, started, thread_max_threads, thread_any, thread_self, thread_invalid,
  thread_none, thread_nomore, thread_nomemory, Lock, Kernel, Control, set_rq, set_eq, set_wq, on_rq,
  on_eq, on_found, on_queue, get_kernel, after, interrupts_set, interrupts_on, interrupts_off,
  leave, set_slot, get_thread, put_thread, put_wait_queue, thread_id,
}
use ece344_operating_systems.Threads.Wait.{thread_wakeup, wait_queue_destroy}

-- for (i = 0; i < THREAD_MAX_THREADS; ++i) wait_queue_destroy(thread_wait_queues[i])
unfoldable pub destroy_loop : ℕ → ℕ → Cmd Kernel (Unit {0})
unfolding wait_queue_destroy
destroy_loop zero i = pure tt
destroy_loop (suc rounds) i = do
  get_kernel λ s. wait_queue_destroy (s.wait_queues i)
  destroy_loop rounds (i + 1)

-- The end of the last thread.
unfoldable pub exit_last : Ptr → Cmd Kernel Control
unfolding destroy_loop
exit_last node = do
  on_eq clear_queue
  destroy_loop thread_max_threads 0
  n ← on_rq (node_at node)
  t ← on_rq (thread_at n.thread)
  on_rq (set_node node none)
  on_rq (set_thread n.thread none)
  on_rq (free_stack t.stack)
  λ _. halt Halt.exited

-- setcontext(&rq.head->thread->context), with no way back to the caller
abbrev pub switch_to_head : Cmd Kernel Control
switch_to_head =
    get_kernel λ s. do n ← on_rq (node_at s.rq.head); pure (switched n.thread (pos 0) false)

-- The running thread goes from the ready queue to the queue of exited threads.
unfoldable pub leave_ready : Cmd Kernel Control
unfolding pop_queue append_node_to_queue exit_last node_at
leave_ready = do
  node ← on_rq pop_queue
  get_kernel λ s.
      if is_null s.rq.head
      then exit_last node
      else do on_eq (append_node_to_queue node); switch_to_head

-- thread_exit from the deletion of the wait queue on.
unfoldable pub drop_wait_queue : ℕ → Cmd Kernel Control
unfolding wait_queue_destroy leave_ready
drop_wait_queue id = do
  get_kernel λ s. wait_queue_destroy (s.wait_queues id)
  put_wait_queue id null
  leave_ready

unfoldable pub thread_exit : Cmd Kernel Control
unfolding thread_id thread_wakeup drop_wait_queue
thread_exit = do
  interrupts_off
  id ← thread_id
  put_thread id null
  get_kernel λ s. thread_wakeup (s.wait_queues id) true
  drop_wait_queue id

-- A thread that runs again, in thread_yield and in thread_sleep.
unfoldable pub resume : Bool → ℤ → Cmd Kernel Control
unfolding thread_exit
resume enabled result = get_kernel λ s. do
  n ← on_rq (node_at s.rq.head)
  t ← on_rq (thread_at n.thread)
  elim t.status [
    | ThreadStatus.exited ↦ thread_exit
    | _ ↦ do on_rq (set_thread_status n.thread running); on_eq clear_queue; leave enabled result
  ]

-- thread_stub, up to the call of the thread's function
unfoldable pub thread_stub : Cmd Kernel Control
unfolding thread_exit
thread_stub = do
  interrupts_on
  get_kernel λ s. do
    n ← on_rq (node_at s.rq.head)
    t ← on_rq (thread_at n.thread)
    elim t.status [
      | ThreadStatus.exited ↦ thread_exit
      | _ ↦ do on_rq (set_thread_status n.thread running); on_eq clear_queue; pure started
    ]

abbrev pub kill_valid : Bool → ℕ → ℤ → Cmd Kernel ℤ
kill_valid enabled id (negsuc n) = interrupts_set enabled >> pure thread_invalid
kill_valid enabled id (pos tid) =
    if (tid == id) || leb thread_max_threads tid
    then interrupts_set enabled >> pure thread_invalid
    else do
      th ← get_thread tid
      if is_null th then (interrupts_set enabled >> pure thread_invalid) else do
        t ← on_rq (thread_at th)
        on_rq (set_thread_status th ThreadStatus.exited)
        interrupts_set enabled
        pure (pos t.id)

unfoldable pub thread_kill : ℤ → Cmd Kernel ℤ
unfolding thread_id set_thread_status thread_at
thread_kill tid = do enabled ← interrupts_off; id ← thread_id; kill_valid enabled id tid
