-- ===== src/Threads/Queue/Status.antt =====
-- threads/thread.c: set_thread_status.
use ece344_operating_systems.Base.{◌≡◌, ◌≢◌, refl, false, some, arith}
use ece344_operating_systems.Base.Run.{ok}
use ece344_operating_systems.Threads.Memory.{
  Ptr, null, ThreadStatus, running, ready, blocked, Thread, write, is_null,
}
use ece344_operating_systems.Threads.Queue.{Queued, thread_at, changed, set_thread_status}

abbrev pub with_thread : Queued → Ptr → Thread → Queued
with_thread s th t = record s {
  memory = record (s.memory) { threads = write s.memory.threads th (some t) };
}

module _ (s : Queued) (th : Ptr) (t : Thread) (ne_null : th ≢ null)
    (e : s.memory.threads th ≡ some t) where
  pub thread_at-some : thread_at th s ≡ ok t s
  unfolding thread_at
  thread_at-some = let h : is_null th ≡ false = ground (arith, ne_null) in rw (h, e) refl

  pub set_thread_status-some :
      (st : ThreadStatus)
      → set_thread_status th st s
        ≡ ok tt (with_thread s th (record t { status = changed t.status st }))
  unfolding set_thread_status
  set_thread_status-some st = rw thread_at-some refl

pub changed-exited : (st : ThreadStatus) → changed st ThreadStatus.exited ≡ ThreadStatus.exited
changed-exited running = refl
changed-exited ready = refl
changed-exited blocked = refl
changed-exited ThreadStatus.exited = refl
