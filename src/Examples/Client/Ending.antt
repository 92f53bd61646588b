-- ===== src/Examples/Client/Ending.antt =====
-- What ends the clients of examples/.
use beast_router.Base.{
  ◌⊎◌, String, List, Bool, false, ◌≡◌, refl, ap, ◌∙◌, true, false, List, [], ◌∷◌, some, arith,
  Bool-cases, drop, drop-length, length, not, inl, inr,
}
use beast_router.Base.Outcome.{done, undefined, ◌>>=◌}
use beast_router.Base.Dict.{string_eq, find, insert, insert_or_assign, modify}
use beast_router.Dispatcher.{Env, handle_unknown}
use beast_router.EventLoop.{IoContext, EventLoop, stop_by, stop, is_running}
use beast_router.Router.{register, add_resource}
use beast_router.Storage.{on_message}
use beast_router.Storage.Laws.{begin_execute-storage}
use beast_router.Utility.{closure, void_type}
use beast_router.Connection.{shutdown_both}
use beast_router.Session.{Boost, Impl, do_eof, on_read, report_if, cancel_timer}
use beast_router.Examples.Client.{Stopping, on_error, on_response}
use beast_router.Examples.Client.Running.{
  with_loop, Main, complete_read, print_response, told, after,
}

module _ {Message Ec C T : Type 0} (b : Boost Message Ec C T) where
  -- The session after a read that gave a message.
  abbrev pub read_by : Ec → Impl Message Ec C T → Impl Message Ec C T
  read_by ec i = report_if b (b.failed ec) ec "async_read/on_read" (cancel_timer b i)

  do_eof-reports :
      (i : Impl Message Ec C T)
      → b.failed (b.connection.shutdown shutdown_both i.m_connection).0 ≡ false
      → (do_eof b shutdown_both (cancel_timer b i)).reports ≡ i.reports
  unfolding do_eof
  do_eof-reports i e = ground arith

module _ {L Ec Code : Type 0} (io : IoContext L Ec Code) where
  told-done :
      (reports : List (Ec × String)) (l : EventLoop L)
      → (l' : EventLoop L) × (told io false reports l ≡ done l')
  unfolding on_error
  told-done [] l = (l, refl)
  told-done ((ec, msg) ∷ more) l = told-done more (stop io l)

  told-in_group :
      (reports : List (Ec × String)) (l : EventLoop L)
      → (told io true reports l ≡ done l) ⊎ (told io true reports l ≡ undefined)
  unfolding on_error
  told-in_group [] l = inl refl
  told-in_group ((ec, msg) ∷ more) l = inr refl

module _ {S R Message Ec C T L Code : Type 0} (b : Boost Message Ec C T) (io : IoContext L Ec Code)
    (in_group : Bool) {Ctx Match Regex : Type 0} (env : Env Message Ctx Match (Stopping L) Regex)
    (send_not_found : Message → Ctx → Stopping L → Ctx × Stopping L) where
  print_response-stop_by :
      (message : Message) (m : Main S R Message Ec C T L)
      → print_response b io in_group env send_not_found message m
        ≡ with_loop (stop_by io in_group m.event_loop) m
  unfolding print_response handle_unknown register add_resource find insert insert_or_assign modify
      on_response
  print_response-stop_by message m =
      ap (λ r. with_loop r.2 m)
        (begin_execute-storage
          (record { callable = closure void_type; func = on_message (on_response io in_group) }
            ∷ [])
          message env.fresh env.no_match (done m.event_loop))

  pub complete_read-other :
      (ec : Ec) (message : Message) (i : Impl Message Ec C T) (m : Main S R Message Ec C T L)
      → b.is_end_of_stream ec ≡ false
      → complete_read b io in_group env send_not_found ec message i m ≡ (
          after io in_group i (read_by b ec i) m
          >>= print_response b io in_group env send_not_found message)
  unfolding complete_read on_read
  complete_read-other ec message i m other = rw other refl

  complete_read-ended :
      (ec : Ec) (message : Message) (i : Impl Message Ec C T) (m : Main S R Message Ec C T L)
      → b.failed (b.connection.shutdown shutdown_both i.m_connection).0 ≡ false
      → b.is_end_of_stream ec ≡ true
      → complete_read b io in_group env send_not_found ec message i m
        ≡ done (record m { session = some (do_eof b shutdown_both (cancel_timer b i)) })
  unfolding complete_read on_read
  complete_read-ended ec message i m shut ended =
      let j = do_eof b shutdown_both (cancel_timer b i) in
      let unreported =
        ap (drop (length i.reports)) (do_eof-reports b i shut) ∙ drop-length i.reports in
      rw ended (
        ap (λ rs. with_loop (told io in_group rs m.event_loop) (record m { session = some j }))
          unreported)

module _ {S R Message Ec C T L Code : Type 0} (b : Boost Message Ec C T) (io : IoContext L Ec Code)
    {Ctx Match Regex : Type 0} (env : Env Message Ctx Match (Stopping L) Regex)
    (send_not_found : Message → Ctx → Stopping L → Ctx × Stopping L) where
  read_in_group :
      (message : Message) (i j : Impl Message Ec C T) (m : Main S R Message Ec C T L)
      → (after io true i j m >>= print_response b io true env send_not_found message) ≡ undefined
  unfolding stop_by
  read_in_group message i j m =
      elim (told-in_group io (drop (length i.reports) j.reports) m.event_loop) [
        | inl e ↦ ground (
          arith,
          e,
          print_response-stop_by b io true env send_not_found message
              (record m { session = some j }),
        )
        | inr e ↦ ground (arith, e)
      ]

  pub read_outside :
      (message : Message) (i j : Impl Message Ec C T) (m : Main S R Message Ec C T L)
      → (l : EventLoop L) × ((after io false i j m
            >>= print_response b io false env send_not_found message)
          ≡ done (record m { session = some j; event_loop = stop io l }))
  unfolding stop_by
  read_outside message i j m =
      let (l, e) = told-done io (drop (length i.reports) j.reports) m.event_loop in
      (
        l,
        rw e (
            print_response-stop_by b io false env send_not_found message
              (record m { session = some j; event_loop = l })),
      )

  read-is_running :
      (in_group : Bool) (message : Message) (i j : Impl Message Ec C T)
      (m : Main S R Message Ec C T L)
      → ((c : L) → io.stopped (io.stop c) ≡ true)
      → let r =
          after io in_group i j m >>= print_response b io in_group env send_not_found message in
        ((in_group ≡ true) × (r ≡ undefined))
        ⊎ ((in_group ≡ false)
            × (t : Main S R Message Ec C T L) × (r ≡ done t)
            × (is_running io t.event_loop ≡ false))
  unfolding is_running stop
  read-is_running true message i j m stops = inl (refl, read_in_group message i j m)
  read-is_running false message i j m stops =
      let (l, e) = read_outside message i j m in
      inr (refl, record m { session = some j; event_loop = stop io l }, e, ap not (stops l.m_ioc))

  -- Stopping stops, and shutting the connection down does not fail. A read of the response that ends with
  -- the end of the stream leaves the event loop as it was: the client goes on, without its connection. One
  -- that ends with anything else, with an error or not, stops the event loop if its handler runs on the
  -- thread that has called `exec`; on a thread of the group it makes that thread join itself.
  pub complete_read-is_running :
      (in_group : Bool) (ec : Ec) (message : Message) (i : Impl Message Ec C T)
      (m : Main S R Message Ec C T L)
      → ((c : L) → io.stopped (io.stop c) ≡ true)
      → b.failed (b.connection.shutdown shutdown_both i.m_connection).0 ≡ false
      → let r = complete_read b io in_group env send_not_found ec message i m in
        ((b.is_end_of_stream ec ≡ true)
          × (r ≡ done (record m { session = some (do_eof b shutdown_both (cancel_timer b i)) })))
        ⊎ ((b.is_end_of_stream ec ≡ false)
            × (((in_group ≡ true) × (r ≡ undefined))
                ⊎ ((in_group ≡ false)
                    × (t : Main S R Message Ec C T L) × (r ≡ done t)
                    × (is_running io t.event_loop ≡ false))))
  complete_read-is_running in_group ec message i m stops shut =
      elim (Bool-cases (b.is_end_of_stream ec)) [
        | inl ended ↦
            inl (
              ended,
              complete_read-ended b io in_group env send_not_found ec message i m shut ended,
            )
        | inr other ↦ inr (
          other,
          rw (complete_read-other b io in_group env send_not_found ec message i m other)
              (read-is_running in_group message i (read_by b ec i) m stops),
        )
      ]
