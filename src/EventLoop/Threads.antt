-- ===== src/EventLoop/Threads.antt =====
-- How many threads an event loop (include/beast_router/common/impl/event_loop.ipp) starts, and what
-- becomes of them.
use Prim.Native.Nat.{◌%◌, ◌^◌}
use beast_router.Base.{
  sym, ◌∙◌, ◌<◌, ltb, Bool-cases, inl, inr, none, some, true, false, ℕ, zero, suc, ◌+◌, ◌-◌, ◌≤◌,
  ◌≡◌, refl, true, false, not, ap, arith, ◌==◌, if◌then◌else◌,
}
use beast_router.EventLoop.{
  IoContext, EventLoop, create, get_threads, stop, is_running, create_threads, exec,
}

module _ {C : Type 0} where
  -- With enough fuel the loop starts one thread for each number from `i` up to the bound.
  create_threads-count :
      (fuel i : ℕ) (l : EventLoop C)
      → l.m_threads_num ≤ i + fuel
      → l.m_threads_num < 2 ^ 32
      → ((create_threads fuel i l).m_threads ≡ l.m_threads + (l.m_threads_num - i))
        × ((create_threads fuel i l).m_threads_num ≡ l.m_threads_num)
        × ((create_threads fuel i l).m_ioc ≡ l.m_ioc)
  unfolding create_threads
  create_threads-count zero i l h b = (omega arith, refl, refl)
  create_threads-count (suc fuel) i l h b = elim (Bool-cases (ltb i l.m_threads_num)) [
    | inl more ↦
        let rest =
          create_threads-count fuel ((i + 1) % 2 ^ 32) (record l { m_threads = suc l.m_threads })
            (ground arith) b in
        (ground (arith, rest), ground (arith, rest), ground (arith, rest))
    | inr last ↦ (ground arith, ground arith, ground arith)
  ]

  create_threads-over :
      (fuel i : ℕ) (l : EventLoop C) → l.m_threads_num ≤ i → create_threads fuel i l ≡ l
  unfolding create_threads
  create_threads-over zero i l h = refl
  create_threads-over (suc fuel) i l h = ground arith

  -- The loop ends by its own condition, and not for want of fuel: on a number of threads below 2 ^ 32,
  -- any two amounts of fuel that are enough for the rest of the count give the same event loop.
  pub create_threads-ends :
      (fuel more i : ℕ) (l : EventLoop C)
      → l.m_threads_num < 2 ^ 32
      → l.m_threads_num ≤ i + fuel
      → l.m_threads_num ≤ i + more
      → create_threads fuel i l ≡ create_threads more i l
  unfolding create_threads
  create_threads-ends zero more i l b h k =
      create_threads-over 0 i l (omega arith) ∙ sym (create_threads-over more i l (omega arith))
  create_threads-ends (suc fuel) zero i l b h k =
      create_threads-over (suc fuel) i l (omega arith)
      ∙ sym (create_threads-over 0 i l (omega arith))
  create_threads-ends (suc fuel) (suc more) i l b h k = elim (Bool-cases (ltb i l.m_threads_num)) [
    | inl before ↦
        let rest =
          create_threads-ends fuel more ((i + 1) % 2 ^ 32)
            (record l { m_threads = suc l.m_threads }) b (ground arith) (ground arith) in
        ground (arith, rest)
    | inr over ↦ ground arith
  ]

module _ {C Ec Code : Type 0} (io : IoContext C Ec Code) where
  -- A new event loop of `n` threads, below 2 ^ 32, runs its handlers on `n` threads, that of the caller
  -- among them, and on that of the caller alone where `n` is 0: the counter of the loop does not wrap.
  -- `exec` returns the value of the error code of the signal, if the loop has ended by a signal, and
  -- success otherwise. If stopping stops the `io_context`, the event loop is not running once it has been
  -- stopped, by a signal or by `stop`; without a signal it is running unless the `io_context` has stopped.
  -- And `stop` joins every thread that was started.
  pub exec-threads :
      (n : ℕ)
      → n < 2 ^ 32
      → ((c : C) → io.stopped (io.stop c) ≡ true)
      → let (code, l) = exec io (create io n) in
        let signalled = (io.run (io.wait io.make)).0 in
        (suc l.m_threads ≡ (if n == 0 then 1 else n))
        × (code ≡ elim signalled [ none ↦ io.success | some ec ↦ io.value ec ])
        × (is_running io l ≡ elim signalled [
          | none ↦ not (io.stopped (io.run (io.wait io.make)).1)
          | some ec ↦ false
        ])
        × (is_running io (stop io l) ≡ false)
        × ((stop io l).joined ≡ l.m_threads)
        × (get_threads l ≡ n)
  unfolding exec create stop is_running get_threads
  exec-threads n small s =
      let l : EventLoop C = record {
        m_threads_num = n;
        m_threads = 0;
        joined = 0;
        m_ioc = io.wait io.make;
      } in
      let (count, kept, same) = create_threads-count n 1 l (omega arith) small in
      (
        ground (arith, count),
        ground (arith, same),
        ground (arith, same, s (io.run (io.wait io.make)).1),
        ap not (s _),
        refl,
        ground (arith, kept),
      )
