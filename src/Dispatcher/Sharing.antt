-- ===== src/Dispatcher/Sharing.antt =====
-- Dispatchers (include/beast_router/base/dispatcher.hpp) over the tables of routers
-- (include/beast_router/impl/router.ipp), also after `swap`.
use beast_router.Base.{◌≡◌, ◌≢◌, refl, Bool, true, false, arith, ◌==◌, ==_iff, if◌then◌else◌}
use beast_router.Router.{Store, Router, Registration, register, register_at, initial, router, swap}
use beast_router.Dispatcher.{Env, dispatcher, process_request, process_response, do_process_request}

module _ {Message Context Match W Regex : Type 0} (env : Env Message Context Match W Regex) where
  -- What a dispatcher does with a message, by the table that its pointer shows.
  do_process_request_lem :
      (is_request : Bool) (r : Router) (s : Store Message Context Match W) (message : Message)
      (w : W)
      → do_process_request env is_request (dispatcher r) s message w ≡ (
          if is_request
          then process_request env (s.method_map_at r.m_method_map) message w
          else process_response env (s.method_map_at r.m_method_map) message w)
  unfolding do_process_request dispatcher
  do_process_request_lem true r s message w = refl
  do_process_request_lem false r s message w = refl

  -- A registration after the dispatcher was made counts for its next message. One through a router
  -- with another table changes nothing for it.
  pub dispatcher-register_at :
      (r q : Router) (reg : Registration Message Context Match W)
      (s : Store Message Context Match W) (message : Message) (w : W)
      → do_process_request env true (dispatcher r) (register_at q reg s) message w
        ≡ process_request env
            (if q.m_method_map == r.m_method_map
              then register reg (s.method_map_at r.m_method_map)
              else s.method_map_at r.m_method_map)
            message
            w
  unfolding register_at
  dispatcher-register_at r q reg s message w =
      rw (do_process_request_lem true r (register_at q reg s) message w)
        (ground (arith, ==_iff q.m_method_map r.m_method_map))

  -- After `swap(first, second)` a dispatcher that was made from `first` follows the registrations
  -- through `second` and locks the mutex of `second`; those through `first` do not reach it, if the
  -- routers had different tables.
  pub swap-dispatcher :
      (first second : Router) (reg : Registration Message Context Match W)
      (s : Store Message Context Match W) (message : Message) (w : W)
      → first.m_method_map ≢ second.m_method_map
      → let (first', second') = swap first second in
        let d = dispatcher first in
        (do_process_request env true d (register_at second' reg s) message w
          ≡ process_request env (register reg (s.method_map_at first.m_method_map)) message w)
        × (d.m_mutex ≡ second'.m_mutex)
        × (do_process_request env true d (register_at first' reg s) message w
            ≡ do_process_request env true d s message w)
  unfolding swap dispatcher do_process_request register_at
  swap-dispatcher first second reg s message w h = (ground arith, refl, ground arith)

  -- Two routers that are made one after the other share neither table nor mutex, and each finds the
  -- table of its constructor.
  pub router_twice :
      (send_not_found : Message → Context → W → Context × W) (is_request : Bool)
      (s : Store Message Context Match W)
      → let (r, s') = router send_not_found is_request s in
        let (q, s'') = router send_not_found is_request s' in
        (r.m_method_map ≢ q.m_method_map)
        × (r.m_mutex ≢ q.m_mutex)
        × (s''.method_map_at r.m_method_map ≡ initial send_not_found is_request)
        × (s''.method_map_at q.m_method_map ≡ initial send_not_found is_request)
  unfolding router
  router_twice send_not_found is_request s = (omega arith, omega arith, ground arith, ground arith)
