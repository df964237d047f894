-- ===== src/Web/Examples.antt =====
-- The theorems on webserver/ at concrete inputs.
use ece344_operating_systems.Base.{◌+◌, refl, false, arith}
use ece344_operating_systems.Web.Requests.{
  Server, server_init, put_in, add_request, take_request, Step, Reach,
}
use ece344_operating_systems.Web.Requests.Ring.{IsValid}
use ece344_operating_systems.Web.Requests.Refine.{
  AddsRequest, TakesRequest, add_request-AddsRequest, take_request-TakesRequest,
}
use ece344_operating_systems.Web.Requests.Keeps.{Unwrapped, Reach-Unwrapped}
use ece344_operating_systems.Web.Requests.Overflow.{Overflows, server_init-Overflows}

-- Two of at most three requests are waiting, at the places 0 and 1.
abbrev sv₁ : Server
sv₁ = record {
  nr_threads = 2;
  max_requests = 4;
  exiting = false;
  buffer = record {
    requests = λ i. 10 + i;
    allocated = 3;
    next_in = 2;
    next_out = 0;
    max_size = 4;
  };
}

sv₁-IsValid : IsValid sv₁.buffer
sv₁-IsValid = record { in_ring = omega arith; out_ring = omega arith }

add_request-AddsRequest_example : AddsRequest sv₁ 7 (add_request sv₁ 7)
add_request-AddsRequest_example = add_request-AddsRequest sv₁ sv₁-IsValid 7

take_request-TakesRequest_example : TakesRequest sv₁ (take_request sv₁)
take_request-TakesRequest_example = take_request-TakesRequest sv₁ sv₁-IsValid

-- A new server with room for two requests, and with one of them.
abbrev sv₂ : Server
sv₂ = server_init 1 2

abbrev sv₃ : Server
sv₃ = record sv₂ { buffer = put_in sv₂.buffer 7 }

sv₃-Reach : Reach sv₂ sv₃
unfolding server_init add_request
sv₃-Reach = Reach.next Reach.here (Step.add 7 refl refl)

Reach-Unwrapped_example : Unwrapped 2 sv₃
Reach-Unwrapped_example = Reach-Unwrapped {n = 1} (omega arith) (omega arith) sv₃-Reach

server_init-Overflows_example : Overflows 1 2
server_init-Overflows_example = server_init-Overflows 1 2 (omega arith) (omega arith)
