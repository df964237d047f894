-- ===== src/Threads/Memory.antt =====
-- threads/thread.c: the objects that the library allocates, each struct in a store of its own.
pub mod Seg
pub use ece344_operating_systems.Base.Store.{Ptr, null, write, is_null}
use ece344_operating_systems.Base.{ℕ, Bool, Option, none, some, ◌==◌, if◌then◌else◌}

-- THREAD_STATUS
pub data ThreadStatus : Type 0 where
  running ready blocked exited : ThreadStatus

-- struct thread_list
pub record Node : Type 0 where
  pub thread : Ptr
  pub next : Ptr

-- struct thread, without its context
pub record Thread : Type 0 where
  pub id : ℕ
  pub status : ThreadStatus
  pub stack : Ptr

pub record Memory : Type 0 where
  pub nodes : Ptr → Option Node
  pub threads : Ptr → Option Thread
  pub stacks : Ptr → Bool
