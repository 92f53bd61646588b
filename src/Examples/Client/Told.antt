-- ===== src/Examples/Client/Told.antt =====
-- What the handlers of a client's session do to its event loop (examples/client/main.cpp and
-- examples/ssl/client/main.cpp): it goes on unless an error is reported or the response is read.
use beast_router.Base.{
  ◌≡◌, ◌≢◌, refl, sym, ap, ◌∙◌, ◌⊎◌, inl, inr, true, false, not, String, List, [], ◌∷◌, ◌++◌, some,
  arith, drop, length,
}
use mathlib.Core.List.{append-nil}
use beast_router.Base.Outcome.{Outcome, done, threw, undefined, ◌>>=◌}
use beast_router.Dispatcher.{Env}
use beast_router.EventLoop.{IoContext, EventLoop, stop, is_running}
use beast_router.Session.{Boost, Impl, on_read}
use beast_router.Session.Calls.{Keeps}
use beast_router.Examples.Client.{Stopping, on_error}
use beast_router.Examples.Client.Ending.{read_by, read_outside, complete_read-other}
use beast_router.Examples.Client.Running.{Main, with_loop, told, after, goes_on, complete_read}

module _ {A : Type 0} where
  drop-length-append : (xs ys : List A) → drop (length xs) (xs ++ ys) ≡ ys
  drop-length-append [] ys = refl
  drop-length-append (x ∷ xs) ys = drop-length-append xs ys

  append-ne-nil : (xs ys : List A) → ys ≢ [] → xs ++ ys ≢ []
  append-ne-nil [] ys h = h
  append-ne-nil (x ∷ xs) ys h = λ e. ground arith

module _ {A B W : Type 0} where
  throws-ne-done : (o : Outcome A W) (f : A → W) (x : B) → (o >>= λ a. threw (f a)) ≢ done x
  throws-ne-done (done a) f x = λ e. ground arith
  throws-ne-done (threw w) f x = λ e. ground arith
  throws-ne-done undefined f x = λ e. ground arith

module _ {S R Message Ec C T L : Type 0} where
  pub with_loop-done :
      (o : Stopping L) (m m' : Main S R Message Ec C T L)
      → with_loop o m ≡ done m'
      → (l : EventLoop L) × (o ≡ done l) × (m' ≡ record m { event_loop = l })
  with_loop-done (done l) m m' e = (l, refl, ground arith)
  with_loop-done (threw l) m m' e = absurd (ground arith)
  with_loop-done undefined m m' e = absurd (ground arith)

module _ {L Ec Code : Type 0} (io : IoContext L Ec Code)
    (stops : (c : L) → io.stopped (io.stop c) ≡ true) where
  told-is_running :
      (reports : List (Ec × String)) (l l' : EventLoop L)
      → is_running io l ≡ false
      → told io false reports l ≡ done l'
      → is_running io l' ≡ false
  unfolding on_error is_running stop
  told-is_running [] l l' r e = ground arith
  told-is_running ((ec, msg) ∷ more) l l' r e =
      told-is_running more (stop io l) l' (ap not (stops l.m_ioc)) e

  told-cases :
      (reports : List (Ec × String)) (l l' : EventLoop L)
      → told io false reports l ≡ done l'
      → ((reports ≡ []) × (l' ≡ l)) ⊎ ((reports ≢ []) × (is_running io l' ≡ false))
  unfolding on_error is_running stop
  told-cases [] l l' e = inl (refl, ground arith)
  told-cases ((ec, msg) ∷ more) l l' e =
      inr (ground arith, told-is_running more (stop io l) l' (ap not (stops l.m_ioc)) e)

  module _ {S R Message C T : Type 0} where
    -- The event loop is as before and nothing was reported, or it has been stopped.
    abbrev pub Told : (i j : Impl Message Ec C T) (m m' : Main S R Message Ec C T L) → Type 0
    Told i j m m' =
        ((j.reports ≡ i.reports) × (m'.event_loop ≡ m.event_loop))
        ⊎ ((j.reports ≢ []) × (is_running io m'.event_loop ≡ false))

    pub after_lem :
        (i j : Impl Message Ec C T) (m m' : Main S R Message Ec C T L)
        → Keeps i j
        → after io false i j m ≡ done m'
        → (m'.session ≡ some j) × (m'.connector ≡ m.connector) × Told i j m m'
    after_lem i j m m' k e =
        let (more, grown) = k.reported in
        let new : drop (length i.reports) j.reports ≡ more =
          ap (drop (length i.reports)) grown ∙ drop-length-append i.reports more in
        let (l, told_l, made) =
          with_loop-done (told io false (drop (length i.reports) j.reports) m.event_loop)
            (record m { session = some j }) m' e in
        let cases =
          told-cases more m.event_loop l
            (ap (λ rs. told io false rs m.event_loop) (sym new) ∙ told_l) in
        let loop : m'.event_loop ≡ l = ap (λ x. x.event_loop) made in
        (
          ap (λ x. x.session) made,
          ap (λ x. x.connector) made,
          elim cases [
            | inl (none_new, same) ↦
                inl
                  (grown ∙ ap (λ rs. i.reports ++ rs) none_new ∙ append-nil i.reports, loop ∙ same)
            | inr (some_new, stopped) ↦ inr (
              λ h. append-ne-nil i.reports more some_new (sym grown ∙ h),
              ap (is_running io) loop ∙ stopped,
            )
          ],
        )

    pub goes_on-done :
        (i : Impl Message Ec C T) (o : Outcome (Impl Message Ec C T) (Impl Message Ec C T))
        (m m' : Main S R Message Ec C T L)
        → goes_on io false i o m ≡ done m'
        → (j : Impl Message Ec C T) × (o ≡ done j) × (after io false i j m ≡ done m')
    goes_on-done i (done j) m m' e = (j, refl, e)
    goes_on-done i (threw j) m m' e = absurd (throws-ne-done (after io false i j m) (λ x. x) m' e)
    goes_on-done i undefined m m' e = absurd (ground arith)

    -- A read that is not the end of the stream stops the event loop.
    pub complete_read-stopped :
        {Ctx Match Regex : Type 0} (b : Boost Message Ec C T)
        (env : Env Message Ctx Match (Stopping L) Regex)
        (send_not_found : Message → Ctx → Stopping L → Ctx × Stopping L) (ec : Ec)
        (message : Message) (i : Impl Message Ec C T) (m m' : Main S R Message Ec C T L)
        → b.is_end_of_stream ec ≡ false
        → complete_read b io false env send_not_found ec message i m ≡ done m'
        → (j : Impl Message Ec C T) × (on_read b (λ k j. done j) ec message i ≡ done j)
          × (m'.session ≡ some j)
          × (m'.connector ≡ m.connector)
          × (is_running io m'.event_loop ≡ false)
    unfolding on_read is_running stop
    complete_read-stopped b env send_not_found ec message i m m' other e =
        let j = read_by b ec i in
        let (l, outside) = read_outside b io env send_not_found message i j m in
        let both =
          sym e
          ∙ complete_read-other b io false env send_not_found ec message i m other
          ∙ outside in
        let made : m' ≡ record m { session = some j; event_loop = stop io l } =
          ground (arith, both) in
        (
          j,
          rw other refl,
          ap (λ x. x.session) made,
          ap (λ x. x.connector) made,
          ap (λ x. is_running io x.event_loop) made ∙ ap not (stops l.m_ioc),
        )
