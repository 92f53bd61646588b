-- ===== src/ConnQueue.antt =====
-- include/beast_router/base/conn_queue.hpp: the messages of a session that wait to be written, the
-- one that is being written at the front. `do_write` is the owner's function.
use beast_router.Base.{
  List, [], ◌∷◌, ◌++◌, length, length-append, ◌==◌, if◌then◌else◌, ◌≡◌, refl, arith,
}
use beast_router.Base.Outcome.{Outcome, done, undefined}

-- The queue with the owner whose writes it starts.
pub record Queue (Message I : Type 0) : Type 0 where
  pub m_impl : I
  pub m_items : List Message

module _ {Message I : Type 0} where
  -- The constructor.
  unfoldable pub conn_queue : I → Queue Message I
  conn_queue impl = record { m_impl = impl; m_items = [] }

module _ {Message I : Type 0} (do_write : Message → I → I) where
  -- `front()` of an empty queue is undefined.
  unfoldable pub do_handle : Queue Message I → Outcome (Queue Message I) I
  do_handle q = elim q.m_items [
    | [] ↦ undefined
    | rsp ∷ rest ↦ done (record q { m_impl = do_write rsp q.m_impl })
  ]

  -- `operator()`.
  unfoldable pub push : Message → Queue Message I → Outcome (Queue Message I) I
  unfolding do_handle
  push rsp q =
      let q' : Queue Message I = record q { m_items = q.m_items ++ rsp ∷ [] } in
      if length q'.m_items == 1 then do_handle q' else done q'

  -- `pop()` of an empty queue is undefined.
  unfoldable pub on_write : Queue Message I → Outcome (Queue Message I) I
  unfolding do_handle
  on_write q = elim q.m_items [
    | [] ↦ undefined
    | written ∷ rest ↦
        let q' : Queue Message I = record q { m_items = rest } in
        if length rest == 0 then done q' else do_handle q'
  ]

  push_at :
      (rsp : Message) (impl : I) (items : List Message)
      → push rsp (record { m_impl = impl; m_items = items }) ≡ elim items [
        | [] ↦ done (record { m_impl = do_write rsp impl; m_items = rsp ∷ [] })
        | m ∷ rest ↦ done (record { m_impl = impl; m_items = m ∷ (rest ++ rsp ∷ []) })
      ]
  unfolding push
  push_at rsp impl [] = refl
  push_at rsp impl (m ∷ rest) = ground (arith, length-append rest (rsp ∷ []))

  -- A message on an empty queue is written at once. Behind others it waits, and the owner is left
  -- alone.
  pub push_lem :
      (rsp : Message) (q : Queue Message I)
      → push rsp q ≡ elim q.m_items [
        | [] ↦ done (record { m_impl = do_write rsp q.m_impl; m_items = rsp ∷ [] })
        | m ∷ rest ↦ done (record { m_impl = q.m_impl; m_items = m ∷ (rest ++ rsp ∷ []) })
      ]
  push_lem rsp q = push_at rsp q.m_impl q.m_items

  -- A finished write takes the front away and starts the next, if there is one.
  pub on_write_lem :
      (q : Queue Message I)
      → on_write q ≡ elim q.m_items [
        | [] ↦ undefined
        | written ∷ rest ↦ elim rest [
          | [] ↦ done (record { m_impl = q.m_impl; m_items = [] })
          | next ∷ more ↦ done (record { m_impl = do_write next q.m_impl; m_items = next ∷ more })
        ]
      ]
  unfolding on_write
  on_write_lem q = ground arith
