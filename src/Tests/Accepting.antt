-- ===== src/Tests/Accepting.antt =====
-- Listening.
use beast_router.Base.{ℕ, suc, ◌≡◌, true, List, [], ◌∷◌, ◌++◌, ◌==◌, if◌then◌else◌}
use beast_router.Listener.{AcceptorOps, Listener, listener}
use beast_router.Listener.Accepting.{Event, completes, runs, run, run-delivers, sockets}
use beast_router.Tests.Data.{is_failure}

-- An acceptor counts its calls. Binding to the endpoint 0 fails with 7.
abbrev pub acceptor_ops : AcceptorOps ℕ ℕ ℕ
acceptor_ops = record {
  open_ = λ e a. (0, suc a);
  set_reuse_address = λ a. (0, suc a);
  bind = λ e a. (if e == 0 then 7 else 0, suc a);
  listen = λ a. (0, suc a);
  close_ = λ a. 0;
  failed = is_failure;
}

abbrev listening : Listener ℕ ℕ ℕ ℕ
listening = listener acceptor_ops 0 true

abbrev events : List (Event ℕ ℕ)
events = completes 0 11 ∷ completes 4 12 ∷ runs ∷ completes 0 13 ∷ []

run-delivers_example :
    ((run acceptor_ops events listening).connected
        ++ sockets acceptor_ops (run acceptor_ops events listening).posted
      ≡ 11 ∷ 13 ∷ [])
    × ((run acceptor_ops events listening).accepts ≡ 3)
unfolding listener
run-delivers_example = run-delivers acceptor_ops events listening
