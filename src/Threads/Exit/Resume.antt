-- ===== src/Threads/Exit/Resume.antt =====
-- threads/thread.c: a thread that runs again.
use ece344_operating_systems.Base.{ℕ, ◌≡◌, ◌≢◌, refl, Bool, false, none, some, [], ◌∷◌, arith}
use ece344_operating_systems.Base.Int.{ℤ}
use ece344_operating_systems.Base.Run.{Run, ok}
use ece344_operating_systems.Threads.Memory.{
  Ptr, null, ThreadStatus, running, ready, Thread, Memory, write,
}
use ece344_operating_systems.Threads.Memory.Seg.{Cells, Nodes, has, first-Seg}
use ece344_operating_systems.Threads.Queue.{Queued}
use ece344_operating_systems.Threads.Queue.Ends.{IsQueue, IsQueue-frame, node_at-Points}
use ece344_operating_systems.Threads.Queue.Status.{thread_at-some, set_thread_status-some}
use ece344_operating_systems.Threads.Queue.Clear.{
  OwnThreads, OwnThreads-write, OwnStacks, OwnStacks-write, freed_stacks, freed_stacks-write,
  has_thread, freed_nodes, freed_threads, clear_queue-Clears,
}
use ece344_operating_systems.Threads.Wait.Wake.{Disjoint}
use ece344_operating_systems.Threads.Kernel.{Kernel, Control, returned, interrupts_set}
use ece344_operating_systems.Threads.Exit.{resume}

abbrev pub of_status : ℕ → Ptr → ThreadStatus → Thread
of_status id stack st = record { id = id; status = st; stack = stack }

-- The thread at the head of the ready queue was made ready, and others have exited.
pub record CanResume (s : Kernel) (p th : Ptr) (id : ℕ) (stack : Ptr) (rs es : Cells) : Type 0 where
  pub ready_queue : IsQueue s.memory.nodes s.rq ((p, th) ∷ rs)
  pub ne_null : th ≢ null
  pub holds : s.memory.threads th ≡ some (of_status id stack ready)
  pub exit_queue : IsQueue s.memory.nodes s.eq es
  pub apart : Disjoint es ((p, th) ∷ rs)
  pub exited : OwnThreads s.memory.threads es
  pub other : has_thread th es ≡ false
  pub own_stacks : OwnStacks s.memory.threads s.memory.stacks es

-- It runs, no exited thread is left, and the caller gets its answer.
pub record Resumes (s : Kernel) (p th : Ptr) (id : ℕ) (stack : Ptr) (enabled : Bool) (result : ℤ)
    (rs es : Cells) (r : Run Kernel Control) : Type 0 where
  pub state : Kernel
  pub run : r ≡ ok (returned result) state
  pub nodes : state.memory.nodes ≡ freed_nodes s.memory.nodes es
  pub threads :
      state.memory.threads
      ≡ freed_threads (write s.memory.threads th (some (of_status id stack running))) es
  pub stacks : state.memory.stacks ≡ freed_stacks s.memory.threads s.memory.stacks es
  pub ready_queue : IsQueue state.memory.nodes state.rq ((p, th) ∷ rs)
  pub exit_queue : state.eq ≡ record { size = 0; head = null; tail = null }
  pub unmasked : state.enabled ≡ enabled

freed_nodes-other : (f : Nodes) (es : Cells) (a : Ptr) → has a es ≡ false → freed_nodes f es a ≡ f a
freed_nodes-other f [] a out = refl
freed_nodes-other f ((p, th) ∷ es) a out =
    ground (arith, freed_nodes-other (write f p none) es a (ground (arith, out)), out)

module _ {s : Kernel} {p th : Ptr} {id : ℕ} {stack : Ptr} {rs es : Cells}
    (c : CanResume s p th id stack rs es) where
  -- A ready thread whose context is set again, in thread_yield or thread_sleep, runs and returns
  -- its answer with interrupts as they were before its call. Where each of the exited threads has
  -- a stack of its own that is allocated, as the initial thread has not, their nodes, those threads
  -- and their stacks are freed, no other node, thread or stack is touched, and the ready queue keeps
  -- its order.
  pub resume-Resumes :
      (enabled : Bool) (result : ℤ)
      → Resumes s p th id stack enabled result rs es (resume enabled result s)
  unfolding resume interrupts_set
  resume-Resumes enabled result =
      let q : Queued = record { memory = s.memory; queue = s.rq } in
      let a = first-Seg p th rs c.ready_queue.chain in
      let m : Memory = record (s.memory) {
        threads = write s.memory.threads th (some (of_status id stack running));
      } in
      let z =
        clear_queue-Clears (record { memory = m; queue = s.eq }) es c.exit_queue
          (OwnThreads-write s.memory.threads es th (some (of_status id stack running)) c.other
            c.exited)
          (OwnStacks-write s.memory.threads th (some (of_status id stack running)) s.memory.stacks
            es c.other c.own_stacks) in
      record {
        state = record s {
          memory = record {
            nodes = freed_nodes s.memory.nodes es;
            threads = freed_threads m.threads es;
            stacks = freed_stacks m.threads s.memory.stacks es;
          };
          eq = record { size = 0; head = null; tail = null };
          enabled = enabled;
        };
        run =
            rw
              (
                node_at-Points q a.points,
                thread_at-some q th (of_status id stack ready) c.ne_null c.holds,
                set_thread_status-some q th (of_status id stack ready) c.ne_null c.holds running,
                z.run,
              )
              refl;
        nodes = refl;
        threads = refl;
        stacks =
            freed_stacks-write s.memory.threads th (some (of_status id stack running))
              s.memory.stacks es c.other;
        ready_queue =
            IsQueue-frame (freed_nodes s.memory.nodes es) c.ready_queue
              (λ d i. freed_nodes-other s.memory.nodes es d (ground (arith, c.apart d, i)));
        exit_queue = refl;
        unmasked = refl;
      }
