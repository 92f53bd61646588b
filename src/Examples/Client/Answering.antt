-- ===== src/Examples/Client/Answering.antt =====
-- The clients of examples/ with their session, over the handlers of the session.
use mathlib.Core.Path.{subst}
use beast_router.Base.{
  ℕ, suc, ◌<◌, ◌≡◌, refl, sym, ap, ◌∙◌, inl, inr, Bool, true, false, List, [], ◌∷◌, ◌++◌, some,
  arith, drop, Bool-cases, length, if◌then◌else◌,
}
use beast_router.Base.Outcome.{done}
use beast_router.Dispatcher.{Env}
use beast_router.EventLoop.{IoContext, EventLoop}
use beast_router.HttpUtility.{MessageOps}
use beast_router.Router.{Verb, Router}
use beast_router.Session.{Task, send, Boost, Impl, on_read, on_write, on_timer, handshake_done}
use beast_router.Session.Calls.{
  Keeps, on_read-Keeps, on_write-Keeps, on_timer-Keeps, handshake_done-Keeps,
}
use beast_router.Session.Delivery.{fresh}
use beast_router.Session.Effects.{writes_of}
use beast_router.Session.Steps
use beast_router.Session.Steps.{State, flow_of}
use beast_router.Examples.Client.{Stopping, request}
use beast_router.Examples.Client.Reaching.{
  Run, handshakes_of, handshakes_of-inputs_of, count_reads, count_reads-inputs_of,
}
use beast_router.Examples.Client.Running.{
  Program, Main, complete_handshake, complete_write, complete_time, complete_read, after,
}
use beast_router.Examples.Client.Told.{after_lem, goes_on-done, complete_read-stopped}
use beast_router.Examples.Client.Promises.{
  HasSent, handshakes_of-inputs, count_reads-inputs, HasSent-shook, Loop-Told, OnceRead-first,
  OnceRead, Loop, Answering,
}

module _ {S R Message File Ec C T L Code : Type 0} (ops : MessageOps Message Verb File Ec)
    (b : Boost Message Ec C T) (program : Program) (make : S → C) (router : Router)
    (io : IoContext L Ec Code) (stops : (c : L) → io.stopped (io.stop c) ≡ true) (socket : S)
    (l : EventLoop L) where
  -- A handler of the session takes `i` to `j` and hands no response on.
  goes-Answering :
      (s : Run S R Message Ec C T L) (i j : Impl Message Ec C T) (m : Main S R Message Ec C T L)
      (sent : List Message) (shaken written : ℕ)
      → Answering ops b program make router io socket l i s
      → Keeps i j
      → after io false i j s.main ≡ done m
      → HasSent ops program shaken sent
      → Steps.Reach b false
          (fresh b false (make socket) router true)
          (record { impl = j; completed = written; sent = sent })
      → Answering ops b program make router io socket l j
          (record s { main = m; shaken = shaken; written = written })
  goes-Answering s i j m sent shaken written h k e has r =
      let (one, same, told) = after_lem io stops i j s.main m k e in
      record {
        one = one;
        over = h.over ∙ ap (λ c. length c.started) (sym same);
        connected = ap (λ c. c.connected) same ∙ h.connected;
        reached = (sent, has, r);
        inputs_so = k.inputs ∙ h.inputs_so;
        once = h.once;
        loop = Loop-Told io l stops i j s.main m s.answered told h.loop;
      }

  pub wrote-Answering :
      (s : Run S R Message Ec C T L) (i : Impl Message Ec C T) (message : Message) (close : Bool)
      (rest : List (Message × Bool)) (ec : Ec) (m : Main S R Message Ec C T L)
      → Answering ops b program make router io socket l i s
      → drop s.written (writes_of i.started) ≡ (message, close) ∷ rest
      → complete_write b io false ec close i s.main ≡ done m
      → (j : Impl Message Ec C T) × Answering ops b program make router io socket l j
          (record s { main = m; written = suc s.written })
  unfolding complete_write
  wrote-Answering s i message close rest ec m h d e =
      let (j, ran, on) = goes_on-done io stops i (on_write b ec close i) s.main m e in
      let (sent, has, r) = h.reached in
      (
        j,
        goes-Answering s i j m sent s.shaken (suc s.written) h (on_write-Keeps b ec close i j ran)
            on has (Steps.Reach.then r (Steps.Step.write message close rest ec d ran refl refl)),
      )

  pub timed-Answering :
      (s : Run S R Message Ec C T L) (i : Impl Message Ec C T) (ec : Ec) (now : ℕ)
      (m : Main S R Message Ec C T L)
      → Answering ops b program make router io socket l i s
      → complete_time b io false ec now i s.main ≡ done m
      → Answering ops b program make router io socket l
          (on_timer b ec now i)
          (record s { main = m })
  unfolding complete_time
  timed-Answering s i ec now m h e =
      let (sent, has, r) = h.reached in
      goes-Answering s i (on_timer b ec now i) m sent s.shaken s.written h
        (on_timer-Keeps b ec now i) e has
        (Steps.Reach.then r (Steps.Step.time ec now refl refl refl))

  pub shook-Answering :
      (s : Run S R Message Ec C T L) (i : Impl Message Ec C T) (server : Bool) (func : Task Message)
      (rest : List (Bool × Task Message)) (ec : Ec) (m : Main S R Message Ec C T L)
      → Answering ops b program make router io socket l i s
      → drop s.shaken (handshakes_of i.started) ≡ (server, func) ∷ rest
      → complete_handshake b io false ec func i s.main ≡ done m
      → (j : Impl Message Ec C T) × Answering ops b program make router io socket l j
          (record s { main = m; shaken = suc s.shaken })
  unfolding complete_handshake
  shook-Answering s i server func rest ec m h d e =
      let those = handshakes_of-inputs_of i.started ∙ ap handshakes_of h.inputs_so in
      let (tls, first, that) =
        handshakes_of-inputs ops program s.shaken server func rest
          (ap (drop s.shaken) (sym those) ∙ d) in
      let (j, ran, on) =
        goes_on-done io stops i (handshake_done b false ec (send (request ops)) i) s.main m
          (ap (λ f. complete_handshake b io false ec f i s.main) (sym that) ∙ e) in
      let (sent, has, r) = h.reached in
      (
        j,
        goes-Answering s i j m (sent ++ (if b.failed ec then [] else request ops ∷ []))
            (suc s.shaken) s.written h (handshake_done-Keeps b false ec (request ops) i j ran) on
            (HasSent-shook ops program s.shaken sent (b.failed ec) tls first has)
            (Steps.Reach.then r (Steps.Step.shake ec (send (request ops)) ran refl refl)),
      )

  got_end-Answering :
      (s : Run S R Message Ec C T L) (i j : Impl Message Ec C T) (ec : Ec) (message : Message)
      (m : Main S R Message Ec C T L) (answered : List Message)
      → Answering ops b program make router io socket l i s
      → on_read b (λ k x. done x) ec message i ≡ done j
      → (m.session ≡ some j)
      → (m.connector ≡ s.main.connector)
      → OnceRead (suc s.read) answered
      → Loop io l j answered m.event_loop
      → Answering ops b program make router io socket l j
          (record s { main = m; read = suc s.read; answered = answered })
  got_end-Answering s i j ec message m answered h ran one same once loop =
      let (sent, has, r) = h.reached in
      record {
        one = one;
        over = h.over ∙ ap (λ c. length c.started) (sym same);
        connected = ap (λ c. c.connected) same ∙ h.connected;
        reached = (sent, has, Steps.Reach.then r (Steps.Step.read ec message ran refl refl));
        inputs_so = (on_read-Keeps b ec message i j ran).inputs ∙ h.inputs_so;
        once = once;
        loop = loop;
      }

  module _ {Ctx Match Regex : Type 0} (env : Env Message Ctx Match (Stopping L) Regex)
      (send_not_found : Message → Ctx → Stopping L → Ctx × Stopping L) where
    pub got-Answering :
        (s : Run S R Message Ec C T L) (i : Impl Message Ec C T) (ec : Ec) (message : Message)
        (m : Main S R Message Ec C T L)
        → Answering ops b program make router io socket l i s
        → s.read < count_reads i.started
        → complete_read b io false env send_not_found ec message i s.main ≡ done m
        → (j : Impl Message Ec C T) × Answering ops b program make router io socket l j (record s {
          main = m;
          read = suc s.read;
          answered = s.answered ++ (if b.is_end_of_stream ec then [] else message ∷ []);
        })
    unfolding complete_read
    got-Answering s i ec message m h lt e =
        let reads =
          count_reads-inputs_of i.started
          ∙ ap count_reads h.inputs_so
          ∙ count_reads-inputs ops program in
        let first : s.read ≡ 0 = omega (arith, reads) in
        let before = OnceRead-first s.read s.answered h.once first in
        let more = if b.is_end_of_stream ec then [] else message ∷ [] in
        let now = s.answered ++ more in
        elim (Bool-cases (b.is_end_of_stream ec)) [
          | inl eos ↦
              let none_answered : now ≡ [] = ap (λ a. a ++ more) before ∙ rw eos refl in
              let read = on_read b (λ k x. done x) ec message i in
              let (j, ran, on) = goes_on-done io stops i read s.main m (rw eos at e) in
              let (one, same, told) =
                after_lem io stops i j s.main m (on_read-Keeps b ec message i j ran) on in
              let loop =
                Loop-Told io l stops i j s.main m [] told
                  (subst (λ a. Loop io l i a s.main.event_loop) before h.loop) in
              (
                j,
                got_end-Answering s i j ec message m now h ran one same
                    (inr (ap suc first, inl none_answered))
                    (subst (λ a. Loop io l j a m.event_loop) (sym none_answered) loop),
              )
          | inr other ↦
              let one_answered : now ≡ message ∷ [] = ap (λ a. a ++ more) before ∙ rw other refl in
              let (j, ran, one, same, off) =
                complete_read-stopped io stops b env send_not_found ec message i s.main m other e in
              (
                j,
                got_end-Answering s i j ec message m now h ran one same
                    (inr (ap suc first, inr (message, one_answered)))
                    (inr (off, inr (λ x. ground (arith, one_answered)))),
              )
        ]
