-- ===== src/Tests/Requesting.antt =====
-- A client of examples/ that is connected and whose read then fails.
use beast_router.Base.{ℕ, ◌≡◌, refl, Bool, true, false, [], ◌∷◌, some, none, ◌⊎◌}
use beast_router.Base.Outcome.{done, undefined, ◌>>=◌}
use beast_router.Connection.{Connection, shutdown_both, plain}
use beast_router.Connector.{connects, resolves}
use beast_router.EventLoop.{EventLoop, event_loop, is_running}
use beast_router.HttpUtility.{Status}
use beast_router.Session.{Impl, do_eof, cancel_timer}
use beast_router.Examples.Client.{Stopping}
use beast_router.Examples.Client.Running.{
  Main, client, port, start, complete_resolve, complete_connect, complete_read,
}
use beast_router.Examples.Client.Calling.{called, start-called}
use beast_router.Examples.Client.Ending.{complete_read-is_running}
use beast_router.Tests.Data.{opened, some_router}
use beast_router.Tests.Programs.{ops, boost, rq, env}
use beast_router.Tests.Serving.{io_context}

abbrev S : Type 0
S = Impl Status ℕ (Connection Bool) ℕ

abbrev OneClient : Type 0
OneClient = Main Bool ℕ Status ℕ (Connection Bool) ℕ Bool

abbrev make : Bool → Connection Bool
make socket = record { m_stream = socket }

abbrev looping : EventLoop Bool
looping = event_loop io_context 2

abbrev resolving : OneClient
resolving = start boost false client true looping

-- Resolving gives the endpoints 21.
start-called_example :
    (i : S) × ((complete_resolve boost false 0 21 resolving
        >>= complete_connect boost false ops client 30 make some_router 0)
      ≡ done (record resolving {
        connector = record resolving.connector {
          m_connection = record { m_stream = false };
          started = resolves "wttr.in" (port client) ∷ connects 21 ∷ [];
          connected = true ∷ [];
        };
        session = some i;
      }))
    × (resolving.connector.started ≡ resolves "wttr.in" (port client) ∷ [])
    × (i.started ≡ called ops boost client)
    × (i.m_on_error ≡ true)
start-called_example = start-called boost false ops client 30 make some_router true looping 0 0 21

abbrev reading : S
reading = record {
  m_connection = opened;
  m_timer = 0;
  m_on_error = true;
  m_queue = [];
  m_serializer = none;
  m_dispatcher = record { m_method_map = 0; m_mutex = 1 };
  started = called ops boost client;
  reports = [];
}

abbrev in_group : Bool
in_group = false

-- An error that is not the end of the stream, on the thread that has called `exec`.
complete_read-is_running_example :
    let r =
      complete_read boost io_context in_group
        (env (Stopping Bool) "/")
        (λ m ctx w. (ctx, w))
        5
        rq
        reading
        resolving in
    ((boost.is_end_of_stream 5 ≡ true)
      × (r
          ≡ done (record resolving {
            session = some (do_eof boost shutdown_both (cancel_timer boost reading));
          })))
    ⊎ ((boost.is_end_of_stream 5 ≡ false)
        × (((in_group ≡ true) × (r ≡ undefined))
            ⊎ ((in_group ≡ false)
                × (t : OneClient) × (r ≡ done t)
                × (is_running io_context t.event_loop ≡ false))))
unfolding plain
complete_read-is_running_example =
    complete_read-is_running boost io_context (env (Stopping Bool) "/") (λ m ctx w. (ctx, w))
      in_group 5 rq reading resolving (λ c. refl) refl
