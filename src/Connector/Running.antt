-- ===== src/Connector/Running.antt =====
-- A connection attempt (include/beast_router/impl/connector.ipp) from its start to its end.
use beast_router.Base.{
  ℕ, suc, ◌≡◌, Bool, String, List, [], ◌∷◌, none, some, arith, get_elem?, if◌then◌else◌, ◌&&◌, not,
}
use beast_router.Connector.{
  Operation, resolves, connects, Connector, on_resolve, on_connect, connect,
}

module _ {S R Ec : Type 0} (failed : Ec → Bool) (moved_from : S) where
  -- The handler that was bound to a call, with what the call gave.
  complete : Operation R → Ec × R → Connector S R Ec → Connector S R Ec
  complete (resolves address port) (ec, results) = on_resolve failed moved_from ec results
  complete (connects endpoints) (ec, results) = on_connect failed moved_from ec

  -- The calls complete in the order in which they were started, the `n`-th next; the list says how.
  -- Where no call is open, nothing completes.
  unfoldable pub run : List (Ec × R) → (n : ℕ) → Connector S R Ec → Connector S R Ec
  unfolding complete
  run [] n c = c
  run (x ∷ xs) n c = elim (get_elem? c.started n) [
    | none ↦ c
    | some op ↦ run xs (suc n) (complete op x c)
  ]

  -- An attempt ends after at most two completions, whatever follows. If resolving fails, that is
  -- reported, if an error handler is set, and no connecting is started. If connecting fails, that is
  -- reported. Otherwise the socket is handed to `on_connect`, once, and nothing is reported. Connecting
  -- is started with what resolving gave.
  pub run-connect :
      (address port : String) (socket : S) (on_error : Bool) (resolved connected : Ec × R)
      (later : List (Ec × R))
      → let c =
          run
            (resolved ∷ connected ∷ later)
            0
            (connect failed moved_from address port socket on_error) in
        (c.started
          ≡ resolves address port ∷ (if failed resolved.0 then [] else connects resolved.1 ∷ []))
        × (c.connected
            ≡ (if not (failed resolved.0) && not (failed connected.0) then socket ∷ [] else []))
        × (c.reports ≡ (
            if on_error
            then if failed resolved.0
              then (resolved.0, "on_resovle") ∷ []
              else if failed connected.0
              then (connected.0, "on_connect") ∷ []
              else []
            else []))
  unfolding run connect on_resolve on_connect
  run-connect address port socket on_error (ec, results) (fc, _) [] =
      (ground arith, ground arith, ground arith)
  run-connect address port socket on_error (ec, results) (fc, _) (x ∷ xs) =
      (ground arith, ground arith, ground arith)
