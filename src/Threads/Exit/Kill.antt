-- ===== src/Threads/Exit/Kill.antt =====
-- threads/thread.c: thread_kill, and thread_wait on an id that is out of range.
use ece344_operating_systems.Base.{
  ℕ, ◌<◌, ◌≤◌, ◌≡◌, ◌≢◌, ◌⊎◌, refl, Bool, true, false, ◌||◌, some, ◌∷◌, arith, ◌==◌, ltb, leb,
  Bool-cases, inl, inr,
}
use ece344_operating_systems.Base.Int.{pos}
use ece344_operating_systems.Base.Run.{ok}
use ece344_operating_systems.Threads.Memory.{Ptr, null, ThreadStatus, Thread, write, is_null}
use ece344_operating_systems.Threads.Memory.Seg.{Cells, first-Seg}
use ece344_operating_systems.Threads.Queue.{Queued, changed}
use ece344_operating_systems.Threads.Queue.Ends.{IsQueue}
use ece344_operating_systems.Threads.Queue.Find.{id_of-some}
use ece344_operating_systems.Threads.Queue.Status.{
  changed-exited, thread_at-some, set_thread_status-some,
}
use ece344_operating_systems.Threads.Kernel.{
  Kernel, thread_id, interrupts_set, thread_invalid, thread_max_threads,
}
use ece344_operating_systems.Threads.Exit.{thread_kill}

-- The thread `t`, at the head of the ready queue, is running.
pub record Runs (s : Kernel) (p th : Ptr) (t : Thread) (xs : Cells) : Type 0 where
  pub ready_queue : IsQueue s.memory.nodes s.rq ((p, th) ∷ xs)
  pub ne_null : th ≢ null
  pub holds : s.memory.threads th ≡ some t

module _ (s : Kernel) (p th : Ptr) (t : Thread) (xs : Cells) (runs : Runs s p th t xs) where
  -- thread_id is the id of the running thread.
  pub thread_id-Runs :
      (on : Bool) → thread_id (record s { enabled = on }) ≡ ok t.id (record s { enabled = on })
  unfolding thread_id
  thread_id-Runs on =
      let a = first-Seg p th xs runs.ready_queue.chain in
      rw
        (id_of-some (record { memory = s.memory; queue = s.rq }) t a.points runs.ne_null runs.holds)
        refl

  -- thread_kill of the running thread, of an id that is out of range or of one that no thread has
  -- answers THREAD_INVALID and changes nothing.
  pub thread_kill-invalid :
      (k : ℕ)
      → (k ≡ t.id) ⊎ (thread_max_threads ≤ k) ⊎ (is_null (s.threads k) ≡ true)
      → thread_kill (pos k) s ≡ ok thread_invalid s
  unfolding thread_kill interrupts_set
  thread_kill-invalid k h =
      rw (thread_id-Runs false) (elim (Bool-cases ((k == t.id) || leb thread_max_threads k)) [
        | inl e ↦ rw e refl
        | inr e ↦
            let small : ltb k 1024 ≡ true = ground (arith, e) in
            let gone : is_null (s.threads k) ≡ true = ground (arith, e, h) in
            rw (e, small, gone) refl
      ])

  -- thread_kill of another thread, whose id is in range, marks it as exited and answers its id;
  -- nothing else changes.
  pub thread_kill-marks :
      (k : ℕ) (u : Thread)
      → k ≢ t.id
      → k < thread_max_threads
      → s.threads k ≢ null
      → s.memory.threads (s.threads k) ≡ some u
      → thread_kill (pos k) s
        ≡ ok (pos u.id) (record s {
          memory = record (s.memory) {
            threads =
                write s.memory.threads
                  (s.threads k)
                  (some (record u { status = ThreadStatus.exited }));
          };
        })
  unfolding thread_kill interrupts_set
  thread_kill-marks k u other small ne held =
      let valid : ((k == t.id) || leb thread_max_threads k) ≡ false =
        ground (arith, other, small) in
      let inside : ltb k 1024 ≡ true = ground (arith, small) in
      let there : is_null (s.threads k) ≡ false = ground (arith, ne) in
      let q : Queued = record { memory = s.memory; queue = s.rq } in
      let marked : changed u.status ThreadStatus.exited ≡ ThreadStatus.exited =
        changed-exited u.status in
      rw
        (
          thread_id-Runs false,
          valid,
          inside,
          there,
          thread_at-some q (s.threads k) u ne held,
          set_thread_status-some q (s.threads k) u ne held ThreadStatus.exited,
          marked,
        )
        refl
