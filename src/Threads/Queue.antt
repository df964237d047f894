-- ===== src/Threads/Queue.antt =====
-- threads/thread.c: queues of threads as linked lists with a head, a tail and a size.
-- The loops over a queue run on fuel, one round more than the size. A size is decremented only
-- behind an access to a node of the queue.
pub mod Clear
pub mod Ends
pub mod Find
pub mod Front
pub mod Status
pub mod Rotate
use ece344_operating_systems.Base.{
  ℕ, zero, suc, ◌+◌, ◌-◌, Bool, true, false, Option, none, some, leb, ◌==◌, if◌then◌else◌,
}
use ece344_operating_systems.Base.Int.{ℤ, pos, negsuc}
use ece344_operating_systems.Base.Run.{
  Run, ok, halt, faulted, diverged, Cmd, pure, ◌>>=◌, ◌>>◌, modify,
}
use ece344_operating_systems.Threads.Memory.{
  Ptr, null, ThreadStatus, running, ready, blocked, Node, Thread, Memory, write, is_null,
}

-- struct wait_queue
pub record WaitQueue : Type 0 where
  pub size : ℕ
  pub head : Ptr
  pub tail : Ptr

-- A queue and the memory in which its nodes lie.
pub record Queued : Type 0 where
  pub memory : Memory
  pub queue : WaitQueue

abbrev pub get_queue : {A : Type 0} → (WaitQueue → Cmd Queued A) → Cmd Queued A
get_queue k s = k s.queue s

abbrev pub set_queue : WaitQueue → Cmd Queued (Unit {0})
set_queue q s = ok tt (record s { queue = q })

-- *p
abbrev pub found : {C : Type 0} → Option C → Cmd Queued C
found none s = halt faulted
found (some c) s = ok c s

unfoldable pub node_at : Ptr → Cmd Queued Node
node_at p s = if is_null p then halt faulted else found (s.memory.nodes p) s

unfoldable pub thread_at : Ptr → Cmd Queued Thread
thread_at p s = if is_null p then halt faulted else found (s.memory.threads p) s

abbrev pub set_node : Ptr → Option Node → Cmd Queued (Unit {0})
set_node p c s =
    ok tt (record s { memory = record (s.memory) { nodes = write s.memory.nodes p c } })

abbrev pub set_thread : Ptr → Option Thread → Cmd Queued (Unit {0})
set_thread p c s =
    ok tt (record s { memory = record (s.memory) { threads = write s.memory.threads p c } })

-- p->next = next
unfoldable pub set_next : Ptr → Ptr → Cmd Queued (Unit {0})
unfolding node_at
set_next p next = do n ← node_at p; set_node p (some (record n { next = next }))

-- p->thread->id
unfoldable pub id_of : Ptr → Cmd Queued ℕ
unfolding node_at thread_at
id_of p = do n ← node_at p; t ← thread_at n.thread; pure t.id

abbrev pub same_tid : ℕ → ℤ → Bool
same_tid id (pos tid) = id == tid
same_tid id (negsuc n) = false

unfoldable pub find_loop : ℕ → Ptr → ℤ → Cmd Queued Ptr
unfolding id_of node_at
find_loop zero current tid = λ _. halt diverged
find_loop (suc fuel) current tid =
    let body : Cmd Queued Ptr = (do
      id ← id_of current
      n ← node_at current
      let rest = find_loop fuel n.next tid
      if same_tid id tid then pure current else rest) in
    if is_null current then pure null else body

unfoldable pub find_in_queue : ℤ → Cmd Queued Ptr
unfolding find_loop
find_in_queue tid = get_queue λ q. find_loop (q.size + 1) q.head tid

-- The node and the one before it.
unfoldable pub find_loop_with_prev : ℕ → Ptr → ℤ → Cmd Queued (Ptr × Ptr)
unfolding id_of node_at
find_loop_with_prev zero current tid = λ _. halt diverged
find_loop_with_prev (suc fuel) current tid = do
  n ← node_at current
  let body : Cmd Queued (Ptr × Ptr) = (do
    id ← id_of n.next
    let rest = find_loop_with_prev fuel n.next tid
    if same_tid id tid then pure (n.next, current) else rest)
  if is_null n.next then pure (null, current) else body

unfoldable pub find_in_queue_with_prev : ℤ → Cmd Queued (Ptr × Ptr)
unfolding find_loop_with_prev
find_in_queue_with_prev tid = get_queue λ q. do
  id ← id_of q.head
  if same_tid id tid then pure (q.head, null) else find_loop_with_prev (q.size + 1) q.head tid

unfoldable pub append_node_to_queue : Ptr → Cmd Queued (Unit {0})
unfolding set_next
append_node_to_queue node = get_queue λ q.
    if is_null q.head
    then set_queue (record { size = q.size + 1; head = node; tail = node })
    else do
      set_next q.tail node
      n ← node_at q.tail
      set_queue (record { size = q.size + 1; head = q.head; tail = n.next })

-- The argument `new_node` is what `malloc` returned.
unfoldable pub append_to_queue : Ptr → Ptr → Cmd Queued Bool
unfolding append_node_to_queue
append_to_queue new_node th = if is_null new_node then pure false else do
  set_node new_node (some (record { thread = th; next = null }))
  append_node_to_queue new_node
  pure true

unfoldable pub move_head_to_end : Cmd Queued (Unit {0})
unfolding set_next
move_head_to_end = get_queue λ q. if leb q.size 1 then pure tt else do
  n ← node_at q.head
  set_next q.tail q.head
  set_next q.head null
  set_queue (record q { head = n.next; tail = q.head })

unfoldable pub move_to_head : Ptr → Ptr → Cmd Queued (Unit {0})
unfolding set_next
move_to_head target prev = get_queue λ q.
    if leb q.size 1 then pure tt else if target == q.head then pure tt else do
      n ← node_at target
      set_next prev n.next
      set_next target q.head
      set_queue (record q { head = target; tail = if q.tail == target then prev else q.tail })

unfoldable pub pop_queue : Cmd Queued Ptr
unfolding set_next
pop_queue = get_queue λ q. do
  n ← node_at q.head
  set_next q.head null
  set_queue (record q { head = n.next; size = q.size - 1 })
  pure q.head

unfoldable pub remove_from_queue : Ptr → Ptr → Cmd Queued (Unit {0})
unfolding set_next
remove_from_queue target prev = get_queue λ q.
    if q.size == 1
    then set_queue (record { size = q.size - 1; head = null; tail = null })
    else if target == q.head
    then (do
      n ← node_at q.head
      set_next target null
      set_queue (record q { size = q.size - 1; head = n.next }))
    else do
      n ← node_at target
      set_next prev n.next
      set_next target null
      set_queue (record q { size = q.size - 1; tail = if target == q.tail then prev else q.tail })

-- free(stack), which may be NULL
-- free(stack): NULL is left alone, and the free of what is no allocated stack is a fault.
abbrev pub free_stack : Ptr → Cmd Queued (Unit {0})
free_stack p s =
    if is_null p
    then ok tt s
    else if s.memory.stacks p
    then ok tt (record s { memory = record (s.memory) { stacks = write s.memory.stacks p false } })
    else halt faulted

unfoldable pub free_node : Ptr → Cmd Queued (Unit {0})
unfolding node_at thread_at
free_node node = if is_null node then pure tt else do
  n ← node_at node
  t ← thread_at n.thread
  free_stack t.stack
  set_thread n.thread none
  set_node node none

unfoldable pub clear_loop : ℕ → Cmd Queued (Unit {0})
unfolding free_node
clear_loop zero = λ _. halt diverged
clear_loop (suc fuel) = get_queue λ q.
    let body : Cmd Queued (Unit {0}) = (do
      n ← node_at q.head
      free_node q.head
      set_queue (record q { head = n.next })
      clear_loop fuel) in
    if is_null q.head then set_queue (record { size = 0; head = null; tail = null }) else body

-- The queue is not NULL.
unfoldable pub clear_queue : Cmd Queued (Unit {0})
unfolding clear_loop
clear_queue = get_queue λ q. clear_loop (q.size + 1)

-- The status of a thread that exited stays.
abbrev pub changed : ThreadStatus → ThreadStatus → ThreadStatus
changed ThreadStatus.exited new = ThreadStatus.exited
changed running new = new
changed ready new = new
changed blocked new = new

unfoldable pub set_thread_status : Ptr → ThreadStatus → Cmd Queued (Unit {0})
unfolding thread_at
set_thread_status th status = do
  t ← thread_at th
  set_thread th (some (record t { status = changed t.status status }))
