-- ===== src/Web/Requests/Overflow.antt =====
-- webserver/server_thread.c: the ring has one place more than the array of requests.
use ece344_operating_systems.Base.{
  ℕ, zero, suc, ◌+◌, ◌≤◌, ◌<◌, ◌≡◌, refl, sym, ap, ◌∙◌, true, false, not, ◌&&◌, ltb, arith,
}
use mathlib.Core.Path.{subst}
use mathlib.Core.Bool.{and-false}
use native.Mathlib.Nat.{mod-eq_of_lt}
use ece344_operating_systems.Web.Requests.{
  Server, server_init, is_full, is_empty, is_threaded, put_in, take_out, AddResult, added,
  add_request, took, take_request, Step, Reach,
}
use ece344_operating_systems.Web.Requests.Fifo.{distance}

-- The server holds `n` requests from the start of the ring on, and none was taken.
record Started (k n : ℕ) (sv : Server) : Type 0 where
  threaded : is_threaded sv ≡ true
  ring : sv.buffer.max_size ≡ k + 1
  array : sv.buffer.allocated ≡ k
  at_in : sv.buffer.next_in ≡ n
  at_out : sv.buffer.next_out ≡ 0

server_init-Started : (n k : ℕ) → 0 < n → 0 < k → Started k 0 (server_init n k)
unfolding server_init
server_init-Started n k hn hk =
    let room : (ltb 0 n && ltb 1 (k + 1)) ≡ true = ground (arith, hn, hk) in
    record {
      threaded = ground (arith, hn, hk);
      ring = rw room refl;
      array = rw room refl;
      at_in = refl;
      at_out = refl;
    }

add_request-room :
    (sv : Server) (connfd : ℕ)
    → is_full sv.buffer ≡ false
    → sv.buffer.next_in < sv.buffer.allocated
    → add_request sv connfd
      ≡ added (is_empty sv.buffer) (record sv { buffer = put_in sv.buffer connfd })
unfolding add_request
add_request-room sv connfd h lt =
    let fits : ltb sv.buffer.next_in sv.buffer.allocated ≡ true = ground (arith, lt) in
    rw (h, fits) refl

add_request-outside :
    (sv : Server) (connfd : ℕ)
    → is_full sv.buffer ≡ false
    → sv.buffer.next_in ≡ sv.buffer.allocated
    → add_request sv connfd ≡ AddResult.outside
unfolding add_request
add_request-outside sv connfd h at =
    let out : ltb sv.buffer.next_in sv.buffer.allocated ≡ false = ground (arith, at) in
    rw (h, out) refl

module _ (k n : ℕ) (sv : Server) (started : Started k n sv) (h : n < k) where
  Started-not_full : is_full sv.buffer ≡ false
  Started-not_full = ground (
    arith,
    distance sv.buffer.next_in sv.buffer.next_out sv.buffer.max_size
        (omega (arith, started.ring, started.at_in, h))
        (omega (arith, started.ring, started.at_out)),
    started.ring,
    started.at_in,
    started.at_out,
    h,
  )

  Started-add : (connfd : ℕ) → Started k (n + 1) (record sv { buffer = put_in sv.buffer connfd })
  Started-add connfd = record {
    threaded = started.threaded;
    ring = started.ring;
    array = started.array;
    at_in =
        mod-eq_of_lt (omega (arith, started.ring, started.at_in, h))
        ∙ ap (λ i. i + 1) started.at_in;
    at_out = started.at_out;
  }

-- A server that is reached, with `n` requests from the start of the ring on.
record Fill (n k i : ℕ) : Type 0 where
  server : Server
  reached : Reach (server_init n k) server
  started : Started k i server

module _ (n k : ℕ) (hn : 0 < n) (hk : 0 < k) where
  filled-add : (i : ℕ) → i < k → Fill n k i → Fill n k (i + 1)
  filled-add i h f = record {
    server = record (f.server) { buffer = put_in f.server.buffer 0 };
    reached = Reach.next f.reached (
        Step.add 0 f.started.threaded (
          add_request-room f.server 0 (Started-not_full k i f.server f.started h)
            (omega (arith, f.started.at_in, f.started.array, h))));
    started = Started-add k i f.server f.started h 0;
  }

  filled : (i : ℕ) → i ≤ k → Fill n k i
  filled zero h = record {
    server = server_init n k;
    reached = Reach.here;
    started = server_init-Started n k hn hk;
  }
  filled (suc i) h =
      let e : i + 1 ≡ suc i = omega arith in
      subst (Fill n k) e (filled-add i (omega (arith, h)) (filled i (omega (arith, h))))

-- A reachable server whose next request goes behind the end of the array.
pub record Overflows (n k : ℕ) : Type 0 where
  pub server : Server
  pub reached : Reach (server_init n k) server
  pub threaded : is_threaded server ≡ true
  pub accepts : is_full server.buffer ≡ false
  pub outside : server.buffer.next_in ≡ server.buffer.allocated
  pub stores_outside : (connfd : ℕ) → add_request server connfd ≡ AddResult.outside

take_request-some :
    (sv : Server)
    → is_empty sv.buffer ≡ false
    → sv.buffer.next_out < sv.buffer.allocated
    → take_request sv
      ≡ took
          (is_full sv.buffer)
          (sv.buffer.requests sv.buffer.next_out)
          (record sv { buffer = take_out sv.buffer })
unfolding take_request
take_request-some sv h lt =
    let fits : ltb sv.buffer.next_out sv.buffer.allocated ≡ true = ground (arith, lt) in
    let e : (not sv.exiting && is_empty sv.buffer) ≡ false =
      ap (λ t. not sv.exiting && t) h ∙ and-false (not sv.exiting) in
    rw (e, fits) refl

module _ (k : ℕ) (sv : Server) (started : Started k k sv) (hk : 0 < k) where
  Started-not_empty : is_empty sv.buffer ≡ false
  Started-not_empty = ground (arith, started.at_in, started.at_out, hk)

  next_out-taken : (take_out sv.buffer).next_out ≡ 1
  next_out-taken =
      mod-eq_of_lt (omega (arith, started.ring, started.at_out, hk))
      ∙ ap (λ i. i + 1) started.at_out

  taken-not_full : is_full (take_out sv.buffer) ≡ false
  taken-not_full = ground (
    arith,
    distance sv.buffer.next_in (take_out sv.buffer).next_out sv.buffer.max_size
        (omega (arith, started.ring, started.at_in))
        (omega (arith, started.ring, next_out-taken, hk)),
    next_out-taken,
    started.ring,
    started.at_in,
    hk,
  )

overflow_after : (n k : ℕ) → 0 < k → Fill n k k → Overflows n k
overflow_after n k hk f = record {
  server = record (f.server) { buffer = take_out f.server.buffer };
  reached = Reach.next f.reached (
      Step.take f.started.threaded (
        take_request-some f.server (Started-not_empty k f.server f.started hk)
          (omega (arith, f.started.at_out, f.started.array, hk))));
  threaded = f.started.threaded;
  accepts = taken-not_full k f.server f.started hk;
  outside = f.started.at_in ∙ sym f.started.array;
  stores_outside = λ connfd.
      add_request-outside (record (f.server) { buffer = take_out f.server.buffer }) connfd
        (taken-not_full k f.server f.started hk) (f.started.at_in ∙ sym f.started.array);
}

-- A server with workers and room for at least one request can be reached by adding requests and
-- taking one, so that add_request does not wait and stores the next request at the index that is
-- the number of requests for which the array was allocated.
pub server_init-Overflows : (n k : ℕ) → 0 < n → 0 < k → Overflows n k
server_init-Overflows n k hn hk = overflow_after n k hk (filled n k hn hk k (omega arith))
