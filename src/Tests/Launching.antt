-- ===== src/Tests/Launching.antt =====
-- The calls that launch a session in examples/, and one on a TLS server in full.
use beast_router.Base.{◌≡◌, refl, true, false}
use beast_router.Utility.{TimeType, chrono_duration, duration_reference}
use beast_router.Session.Overloads.{
  recvs, sends, http_server_type, http_client_type, ssl_http_client_type, ssl_http_server_type,
  compile_call, compiles, hard_error,
}

-- `1s`.
abbrev one_second : TimeType
one_second = chrono_duration 64 1

-- The calls in examples/.
examples_compile :
    (compile_call (recvs true false) http_server_type 1 one_second ≡ compiles)
    × (compile_call (recvs true true) ssl_http_server_type 1 one_second ≡ compiles)
    × (compile_call (sends true false) http_client_type 1 one_second ≡ compiles)
    × (compile_call (sends false true) ssl_http_client_type 1 one_second ≡ compiles)
unfolding compile_call
examples_compile = (refl, refl, refl, refl)

-- The call in the documentation of `listener` hands the duration over as a callback.
documented_call : compile_call (recvs false false) http_server_type 2 one_second ≡ hard_error
unfolding compile_call
documented_call = refl

-- A variable that holds the duration, and a timed send over TLS.
timed_sends :
    (compile_call (sends true false) http_client_type 1 (duration_reference 64 1) ≡ hard_error)
    × (compile_call (sends true true) ssl_http_client_type 1 one_second ≡ hard_error)
unfolding compile_call
timed_sends = (refl, refl)
