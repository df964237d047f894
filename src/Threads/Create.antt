-- ===== src/Threads/Create.antt =====
-- threads/thread.c: the first thread, and new ones.
-- What `malloc` returns are arguments.
pub mod Outcome
use ece344_operating_systems.Base.{
  ℕ, zero, suc, ◌+◌, ◌-◌, Bool, true, false, not, ◌&&◌, ◌||◌, Option, none, some, ltb, leb, ◌==◌,
  if◌then◌else◌,
}
use ece344_operating_systems.Base.Int.{ℤ, pos, negsuc, is_neg}
use ece344_operating_systems.Base.Run.{
  Run, ok, halt, Halt, aborted, faulted, diverged, Cmd, pure, ◌>>=◌, ◌>>◌, modify, assert,
}
use ece344_operating_systems.Threads.Memory.{
  Ptr, null, ThreadStatus, running, ready, blocked, Node, Thread, Memory, write, is_null,
}
use ece344_operating_systems.Threads.Queue.{
  WaitQueue, Queued, node_at, thread_at, set_node, set_thread, free_stack, id_of, same_tid,
  find_in_queue_with_prev, append_node_to_queue, append_to_queue, move_head_to_end, move_to_head,
  pop_queue, clear_queue, set_thread_status,
}
use ece344_operating_systems.Threads.Kernel.{
  returned, switched, started, thread_max_threads, thread_any, thread_self, thread_invalid,
  thread_none, thread_nomore, thread_nomemory, Lock, Kernel, Control, set_rq, set_eq, set_wq, on_rq,
  on_eq, on_found, on_queue, get_kernel, after, interrupts_set, interrupts_on, interrupts_off,
  leave, set_slot, get_thread, put_thread, put_wait_queue, thread_id,
}

-- The argument `stack` is what the memory of the new thread holds in that field.
unfoldable pub thread_init : Ptr → Ptr → Ptr → Cmd Kernel (Unit {0})
unfolding append_to_queue
thread_init th stack new_node = if is_null th then (λ _. halt faulted) else do
  on_rq (set_thread th (some (record { id = 0; status = running; stack = stack })))
  modify λ s. record s { rq = record (s.rq) { size = 0 }; eq = record (s.eq) { size = 0 } }
  on_rq (append_to_queue new_node th)
  put_thread 0 th

-- for (i = 0; i < THREAD_MAX_THREADS; ++i) if (threads[i] == NULL)
unfoldable pub free_tid : ℕ → ℕ → (ℕ → Ptr) → Option ℕ
free_tid zero i threads = none
free_tid (suc rounds) i threads = elim (is_null (threads i)) [
  | true ↦ some i
  | false ↦ free_tid rounds (i + 1) threads
]

abbrev pub created : Bool → Ptr → Ptr → ℕ → Bool → Cmd Kernel ℤ
created enabled th stack id success =
    if success then (do put_thread id th; interrupts_set enabled; pure (pos id)) else do
      on_rq (free_stack stack)
      on_rq (set_thread th none)
      interrupts_set enabled
      pure thread_nomemory

-- The thread is packed with its stack; its context is not modelled.
unfoldable pub thread_create_with : Bool → Ptr → Ptr → Ptr → Option ℕ → Cmd Kernel ℤ
unfolding append_to_queue
thread_create_with enabled th stack new_node none = do interrupts_set enabled; pure thread_nomore
thread_create_with enabled th stack new_node (some id) =
    if is_null th
    then (do interrupts_set enabled; pure thread_nomemory)
    else if is_null stack
    then (do on_rq (set_thread th none); interrupts_set enabled; pure thread_nomemory)
    else do
      on_rq (set_thread th (some (record { id = id; status = ready; stack = stack })))
      modify
          λ s. record s { memory = record (s.memory) { stacks = write s.memory.stacks stack true } }
      success ← on_rq (append_to_queue new_node th)
      created enabled th stack id success

unfoldable pub thread_create : Ptr → Ptr → Ptr → Cmd Kernel ℤ
unfolding thread_create_with free_tid
thread_create th stack new_node = do
  enabled ← interrupts_off
  get_kernel
      λ s. thread_create_with enabled th stack new_node (free_tid thread_max_threads 0 s.threads)
