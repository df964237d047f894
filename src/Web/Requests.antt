-- ===== src/Web/Requests.antt =====
-- webserver/server_thread.c: the buffer of requests between the main thread and the workers.
-- What a thread does while it holds `sv->lock` is one step. A thread that would wait on a condition
-- variable answers `waits`, and makes its test again when it is woken; `outside` is an access behind
-- the end of the allocated array. The `Bool` of a step says whether it broadcasts.
pub mod Ring
pub mod Fifo
pub mod Refine
pub mod Keeps
pub mod Overflow
use ece344_operating_systems.Base.{
  ℕ, ◌+◌, ◌-◌, ◌%◌, Bool, true, false, not, ◌&&◌, ◌||◌, ltb, leb, ◌==◌, if◌then◌else◌, ◌≡◌,
}

-- struct request_buffer, with the number of requests for which `malloc` was called
pub record RequestBuffer : Type 0 where
  pub requests : ℕ → ℕ
  pub allocated : ℕ
  pub next_in : ℕ
  pub next_out : ℕ
  pub max_size : ℕ

-- struct server, without its threads and its cache
pub record Server : Type 0 where
  pub nr_threads : ℕ
  pub max_requests : ℕ
  pub exiting : Bool
  pub buffer : RequestBuffer

-- The fields of the buffer are set only if there are workers and room for a request.
unfoldable pub server_init : ℕ → ℕ → Server
server_init nr_threads max_requests = record {
  nr_threads = nr_threads;
  max_requests = max_requests + 1;
  exiting = false;
  buffer = record {
    requests = λ _. 0;
    allocated = if ltb 0 nr_threads && ltb 1 (max_requests + 1) then max_requests else 0;
    next_in = 0;
    next_out = 0;
    max_size = if ltb 0 nr_threads && ltb 1 (max_requests + 1) then max_requests + 1 else 0;
  };
}

-- (in - out + max_size) % max_size == max_size - 1
abbrev pub is_full : RequestBuffer → Bool
is_full b = (b.next_in + b.max_size - b.next_out) % b.max_size == b.max_size - 1

-- in == out
abbrev pub is_empty : RequestBuffer → Bool
is_empty b = b.next_in == b.next_out

-- requests[i] = connfd
abbrev pub write : (ℕ → ℕ) → ℕ → ℕ → ℕ → ℕ
write r i connfd j = if i == j then connfd else r j

-- The changes of the buffer in `add_request` and `take_request`.
abbrev pub put_in : RequestBuffer → ℕ → RequestBuffer
put_in b connfd = record b {
  requests = write b.requests b.next_in connfd;
  next_in = (b.next_in + 1) % b.max_size;
}

abbrev pub take_out : RequestBuffer → RequestBuffer
take_out b = record b { next_out = (b.next_out + 1) % b.max_size }

pub data AddResult : Type 0 where
  waits : AddResult
  outside : AddResult
  added : Bool → Server → AddResult

unfoldable pub add_request : Server → ℕ → AddResult
add_request sv connfd =
    if is_full sv.buffer
    then waits
    else if ltb sv.buffer.next_in sv.buffer.allocated
    then added (is_empty sv.buffer) (record sv { buffer = put_in sv.buffer connfd })
    else outside

pub data TakeResult : Type 0 where
  waits : TakeResult
  outside : TakeResult
  took : Bool → ℕ → Server → TakeResult

-- Behind the step the thread performs the request if the server is not exiting.
unfoldable pub take_request : Server → TakeResult
take_request sv =
    if not sv.exiting && is_empty sv.buffer
    then TakeResult.waits
    else if ltb sv.buffer.next_out sv.buffer.allocated
    then took (is_full sv.buffer) (sv.buffer.requests sv.buffer.next_out)
        (record sv { buffer = take_out sv.buffer })
    else TakeResult.outside

-- sv->exiting = 1
abbrev pub start_exit : Server → Server
start_exit sv = record sv { exiting = true }

-- Whether `server_request` hands the request to the workers.
abbrev pub is_threaded : Server → Bool
is_threaded sv = not ((sv.nr_threads == 0) || leb sv.max_requests 1)

-- The steps of the main thread and the workers, in any order.
pub data Step (sv : Server) : Server → Type 0 where
  add :
      {sv' : Server} (connfd : ℕ) {woken : Bool}
      → is_threaded sv ≡ true
      → add_request sv connfd ≡ added woken sv'
      → Step sv sv'
  take :
      {sv' : Server} {connfd : ℕ} {woken : Bool}
      → is_threaded sv ≡ true
      → take_request sv ≡ took woken connfd sv'
      → Step sv sv'
  leave : Step sv (start_exit sv)

pub data Reach (sv : Server) : Server → Type 0 where
  here : Reach sv sv
  next : {sv₁ sv₂ : Server} → Reach sv sv₁ → Step sv₁ sv₂ → Reach sv sv₂
