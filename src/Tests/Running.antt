-- ===== src/Tests/Running.antt =====
-- A server of examples/ that accepts two connections, the second with an error.
use beast_router.Base.{
  ◌⊎◌, ℕ, suc, ◌+◌, ◌≡◌, refl, Bool, true, false, [], ◌∷◌, map, some, All, length,
}
use beast_router.Base.Outcome.{done, threw}
use beast_router.Connection.{Connection}
use beast_router.Session.{recv_for, run_task}
use beast_router.Session.Context.{dispatch}
use beast_router.Session.Flow.{Orderly}
use beast_router.Session.Steps.{flow_of}
use beast_router.Examples.Servers.{hello_world, Server, start, run_posted, complete_accept}
use beast_router.Examples.Servers.Running.{Step, Reach, served}
use beast_router.Examples.Servers.Sessions.{Reach-served}
use beast_router.Examples.Servers.Failing.{run_rounds, Reach-fails}
use beast_router.Tests.Accepting.{acceptor_ops}
use beast_router.Tests.Data.{boost, opened, some_router}

abbrev OneServer : Type 0
OneServer = Server ℕ ℕ ℕ ℕ ℕ (Connection Bool) ℕ

abbrev listening : OneServer
listening = record {
  listener = record {
    m_acceptor = 4;
    m_on_error = true;
    m_endpoint = some 1;
    accepts = 1;
    posted = [];
    reports = [];
    connected = [];
  };
  sessions = [];
}

abbrev accepted : OneServer
accepted = record listening {
  listener = record listening.listener { accepts = 2; posted = (0, 11) ∷ [] };
}

abbrev make : ℕ → Connection Bool
make socket = opened

abbrev handed_over : OneServer
handed_over = served acceptor_ops boost hello_world 30 make some_router false true 11 [] accepted

abbrev failing : OneServer
failing = record handed_over {
  listener = record handed_over.listener { accepts = 3; posted = (5, 12) ∷ [] };
}

starts : start acceptor_ops 0 1 ≡ done listening
unfolding start
starts = refl

runs_first :
    run_posted acceptor_ops boost hello_world 30 make some_router false true accepted
    ≡ done handed_over
unfolding run_posted dispatch run_task
runs_first = refl

runs_all : Reach acceptor_ops boost hello_world 30 make some_router false true listening failing
unfolding complete_accept
runs_all =
    Reach.then
      (Reach.then (Reach.then Reach.here (Step.completes 0 11 refl)) (Step.runs runs_first))
      (Step.completes 5 12 refl)

Reach-served_example :
    (map (λ l. l.socket) failing.sessions ≡ failing.listener.connected)
    × (failing.listener.accepts ≡ suc (length failing.sessions + length failing.listener.posted))
    × (failing.listener.reports ≡ [])
    × All
        (λ l.
          Orderly boost.need_eof (flow_of l.state)
          × (l.state.impl.m_on_error ≡ false)
          × (l.state.impl.reports ≡ [])
          × ((l.tasks ≡ recv_for 30 ∷ []) ⊎ (l.tasks ≡ [])))
        failing.sessions
Reach-served_example =
    Reach-served acceptor_ops boost hello_world 30 make some_router false true 0 1 listening failing
      starts runs_all

Reach-fails_example :
    run_rounds acceptor_ops boost hello_world 30 make some_router false true 1 failing
    ≡ threw (record failing {
      listener = record failing.listener { posted = []; reports = (5, "accept/loop") ∷ [] };
    })
Reach-fails_example =
    Reach-fails acceptor_ops boost hello_world 30 make some_router false true 0 1 listening failing
      starts runs_all
