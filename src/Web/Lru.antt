-- ===== src/Web/Lru.antt =====
-- webserver/server_thread.c: the LRU list, a linked list of cache entries with a head, a tail and
-- a size. The loops over it run on fuel, one round more than the size. The size is decremented
-- only behind an access to a node of the list.
pub mod Ends
pub mod Find
pub mod Rotate
pub mod Move
pub mod Remove
use ece344_operating_systems.Base.{
  ℕ, zero, suc, ◌+◌, ◌-◌, Bool, true, false, Option, none, some, leb, ◌==◌, if◌then◌else◌,
}
use ece344_operating_systems.Base.Run.{
  Run, ok, halt, aborted, faulted, diverged, Cmd, pure, ◌>>=◌, ◌>>◌,
}
use ece344_operating_systems.Base.Store.{Ptr, null, write, is_null}

-- LRUEntry
pub record LruEntry : Type 0 where
  pub entry : Ptr
  pub next : Ptr

-- LRUList
pub record LruList : Type 0 where
  pub head : Ptr
  pub tail : Ptr
  pub size : ℕ

-- The list and the memory in which its nodes lie.
pub record Lru : Type 0 where
  pub list : LruList
  pub nodes : Ptr → Option LruEntry

abbrev pub get_list : {A : Type 0} → (LruList → Cmd Lru A) → Cmd Lru A
get_list k s = k s.list s

abbrev pub set_list : LruList → Cmd Lru (Unit {0})
set_list l s = ok tt (record s { list = l })

-- *p
abbrev pub found : {S C : Type 0} → Option C → Cmd S C
found none s = halt faulted
found (some c) s = ok c s

unfoldable pub node_at : Ptr → Cmd Lru LruEntry
node_at p s = if is_null p then halt faulted else found (s.nodes p) s

abbrev pub set_node : Ptr → Option LruEntry → Cmd Lru (Unit {0})
set_node p c s = ok tt (record s { nodes = write s.nodes p c })

-- p->next = next
unfoldable pub set_next : Ptr → Ptr → Cmd Lru (Unit {0})
unfolding node_at
set_next p next = do n ← node_at p; set_node p (some (record n { next = next }))

-- free(p), which is NULL or a node
unfoldable pub free_node : Ptr → Cmd Lru (Unit {0})
unfolding node_at
free_node p = if is_null p then pure tt else do node_at p; set_node p none

-- The node of `target` or NULL.
unfoldable pub find_loop : ℕ → Ptr → Ptr → Cmd Lru Ptr
unfolding node_at
find_loop zero current target = λ _. halt diverged
find_loop (suc fuel) current target =
    let body : Cmd Lru Ptr = (do
      n ← node_at current
      let rest = find_loop fuel n.next target
      if n.entry == target then pure current else rest) in
    if is_null current then pure null else body

unfoldable pub find_in_lru : Ptr → Cmd Lru Ptr
unfolding find_loop
find_in_lru target = get_list λ l. find_loop (l.size + 1) l.head target

-- The node of `target`, or NULL, and the node before it.
unfoldable pub find_loop_with_prev : ℕ → Ptr → Ptr → Ptr → Cmd Lru (Ptr × Ptr)
unfolding node_at
find_loop_with_prev zero current prev target = λ _. halt diverged
find_loop_with_prev (suc fuel) current prev target =
    let body : Cmd Lru (Ptr × Ptr) = (do
      n ← node_at current
      let rest = find_loop_with_prev fuel n.next current target
      if n.entry == target then pure (current, prev) else rest) in
    if is_null current then pure (null, prev) else body

unfoldable pub find_in_lru_with_prev : Ptr → Cmd Lru (Ptr × Ptr)
unfolding find_loop_with_prev
find_in_lru_with_prev target = get_list λ l. find_loop_with_prev (l.size + 1) l.head null target

-- The argument `node` is what `malloc` returned.
unfoldable pub add_to_lru : Ptr → Ptr → Cmd Lru (Unit {0})
unfolding set_next
add_to_lru node entry = if is_null node then (λ _. halt aborted) else do
  set_node node (some (record { entry = entry; next = null }))
  get_list λ l.
      if is_null l.head
      then set_list (record { head = node; tail = node; size = l.size + 1 })
      else do
        set_next l.tail node
        n ← node_at l.tail
        set_list (record { head = l.head; tail = n.next; size = l.size + 1 })

unfoldable pub move_head_to_end : Cmd Lru (Unit {0})
unfolding set_next
move_head_to_end = get_list λ l. if leb l.size 1 then pure tt else do
  n ← node_at l.head
  set_next l.tail l.head
  set_next l.head null
  set_list (record l { head = n.next; tail = l.head })

-- `node` is the one found, and `prev` the one before it.
unfoldable pub move_found_to_end : Ptr → Ptr → Cmd Lru (Unit {0})
unfolding set_next move_head_to_end
move_found_to_end node prev = get_list λ l.
    if is_null node
    then pure tt
    else if node == l.head
    then move_head_to_end
    else if node == l.tail
    then pure tt
    else do
      n ← node_at node
      set_next prev n.next
      set_next node null
      set_next l.tail node
      set_list (record l { tail = node })

unfoldable pub move_node_to_end : Ptr → Cmd Lru (Unit {0})
unfolding find_in_lru_with_prev move_found_to_end
move_node_to_end entry = get_list λ l.
    if leb l.size 1
    then pure tt
    else do r ← find_in_lru_with_prev entry; move_found_to_end (r.0) (r.1)

unfoldable pub pop_lru : Cmd Lru Ptr
unfolding set_next
pop_lru = get_list λ l. do
  n ← node_at l.head
  set_next l.head null
  set_list (record l { head = n.next; size = l.size - 1 })
  pure l.head

unfoldable pub remove_from_lru : Ptr → Cmd Lru (Unit {0})
unfolding free_node set_next find_in_lru_with_prev
remove_from_lru target = get_list λ l.
    if l.size == 1
    then (do free_node l.head; set_list (record { head = null; tail = null; size = 0 }))
    else do
      r ← find_in_lru_with_prev target
      let current = r.0
      let prev = r.1
      if is_null current then pure tt else do
        n ← node_at current
        let at_head = is_null prev
        if at_head then pure tt else set_next prev n.next
        set_next current null
        free_node current
        set_list (record {
          head = if at_head then n.next else l.head;
          tail = if current == l.tail then prev else l.tail;
          size = l.size - 1;
        })

-- The result is the node behind the removed one.
unfoldable pub remove_node_from_lru : Ptr → Ptr → Cmd Lru Ptr
unfolding free_node set_next
remove_node_from_lru target prev = get_list λ l.
    if l.size == 1
    then (do
      free_node target
      set_list (record { head = null; tail = null; size = l.size - 1 })
      pure null)
    else if is_null prev
    then (do
      n ← node_at l.head
      set_next target null
      free_node target
      set_list (record l { head = n.next; size = l.size - 1 })
      pure n.next)
    else do
      n ← node_at target
      set_next prev n.next
      set_next target null
      m ← node_at prev
      free_node target
      set_list (record l { tail = if target == l.tail then prev else l.tail; size = l.size - 1 })
      pure m.next

unfoldable pub clear_loop : ℕ → Cmd Lru (Unit {0})
unfolding free_node
clear_loop zero = λ _. halt diverged
clear_loop (suc fuel) = get_list λ l.
    let body : Cmd Lru (Unit {0}) = (do
      n ← node_at l.head
      free_node l.head
      set_list (record l { head = n.next })
      clear_loop fuel) in
    if is_null l.head then set_list (record { head = null; tail = null; size = 0 }) else body

-- The list is not NULL.
unfoldable pub clear_lru : Cmd Lru (Unit {0})
unfolding clear_loop
clear_lru = get_list λ l. clear_loop (l.size + 1)
