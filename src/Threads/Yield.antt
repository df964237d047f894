-- ===== src/Threads/Yield.antt =====
-- threads/thread.c: thread_yield.
pub mod Bring
pub mod Outcome
use ece344_operating_systems.Base.{
  ℕ, zero, suc, ◌+◌, ◌-◌, Bool, true, false, not, ◌&&◌, ◌||◌, Option, none, some, ltb, leb, ◌==◌,
  if◌then◌else◌,
}
use ece344_operating_systems.Base.Int.{ℤ, pos, negsuc, is_neg}
use ece344_operating_systems.Base.Run.{
  Run, ok, halt, Halt, aborted, faulted, diverged, Cmd, pure, ◌>>=◌, ◌>>◌, modify, assert,
}
use ece344_operating_systems.Threads.Memory.{
  Ptr, null, ThreadStatus, running, ready, blocked, Node, Thread, Memory, write, is_null,
}
use ece344_operating_systems.Threads.Queue.{
  WaitQueue, Queued, node_at, thread_at, set_node, set_thread, free_stack, id_of, same_tid,
  find_in_queue_with_prev, append_node_to_queue, append_to_queue, move_head_to_end, move_to_head,
  pop_queue, clear_queue, set_thread_status,
}
use ece344_operating_systems.Threads.Kernel.{
  returned, switched, started, thread_max_threads, thread_any, thread_self, thread_invalid,
  thread_none, thread_nomore, thread_nomemory, Lock, Kernel, Control, set_rq, set_eq, set_wq, on_rq,
  on_eq, on_found, on_queue, get_kernel, after, interrupts_set, interrupts_on, interrupts_off,
  leave, set_slot, get_thread, put_thread, put_wait_queue, thread_id,
}

-- What thread_yield finds: an error, or a node and its thread id.
pub data Choice : Type 0 where
  refused : ℤ → Choice
  chosen : Ptr → ℤ → Choice

unfoldable pub choose_any : Cmd Kernel Choice
unfolding node_at id_of move_head_to_end
choose_any = get_kernel λ s. if s.rq.size == 1 then pure (refused thread_none) else do
  n ← on_rq (node_at s.rq.head)
  id ← on_rq (id_of n.next)
  on_rq move_head_to_end
  pure (chosen n.next (pos id))

unfoldable pub choose_tid : ℤ → Cmd Kernel Choice
unfolding find_in_queue_with_prev move_head_to_end move_to_head
choose_tid want_tid = do
  (want_thread, prev) ← on_rq (find_in_queue_with_prev want_tid)
  if is_null want_thread then pure (refused thread_invalid) else do
    on_rq move_head_to_end
    on_rq (move_to_head want_thread prev)
    pure (chosen want_thread want_tid)

abbrev pub is_tid : ℤ → ℤ → Bool
is_tid (pos a) (pos b) = a == b
is_tid (pos a) (negsuc b) = false
is_tid (negsuc a) (pos b) = false
is_tid (negsuc a) (negsuc b) = a == b

unfoldable pub choose : ℤ → Cmd Kernel Choice
unfolding choose_any choose_tid thread_id
choose want_tid = if is_tid want_tid thread_any then choose_any else do
  id ← thread_id
  if is_tid want_tid thread_self || same_tid id want_tid
      then (get_kernel λ s. pure (chosen s.rq.head (pos id)))
      else choose_tid want_tid

-- The current thread is made ready, and the context of the chosen one is set.
abbrev pub yield_to : Bool → Ptr → Choice → Cmd Kernel Control
yield_to enabled current (refused a) = leave enabled a
yield_to enabled current (chosen want_thread want_tid) = do
  n ← on_rq (node_at current)
  on_rq (set_thread_status n.thread ready)
  w ← on_rq (node_at want_thread)
  pure (switched w.thread want_tid enabled)

unfoldable pub thread_yield : ℤ → Cmd Kernel Control
unfolding choose node_at set_thread_status
thread_yield want_tid = do
  enabled ← interrupts_off
  get_kernel λ s. do c ← choose want_tid; yield_to enabled s.rq.head c
