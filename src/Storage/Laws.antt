-- ===== src/Storage/Laws.antt =====
-- What a chain of handlers (include/beast_router/base/storage.hpp) does when it runs.
use beast_router.Base.{
  ℕ, zero, suc, ◌+◌, ◌≡◌, refl, ◌∙◌, sym, true, false, List, [], ◌∷◌, ◌++◌, map, length, arith,
  if◌then◌else◌, Bool-cases, inl, inr, drop, drop-cons, drop-length,
}
use mathlib.Core.List.{append_assoc, append-nil}
use beast_router.Utility.{void_type, func_traits_result}
use beast_router.Utility.Laws.{tuple_func_idx-at}
use beast_router.Storage.{
  Handler, Callback, entry_type, bind_func, callback_impl, call, store_from, storage, begin_execute,
}

module _ {Message Context Match W : Type 0} where
  abbrev pub stored : Handler Message Context Match W → Callback Message Context Match W
  stored h = callback_impl (entry_type h.callable) h.func

  store_from-drop :
      (rounds idx : ℕ) (tuple : List (Handler Message Context Match W))
      (clbs : List (Callback Message Context Match W))
      → idx + rounds ≡ length tuple
      → store_from rounds idx tuple clbs ≡ clbs ++ map stored (drop idx tuple)
  unfolding store_from
  store_from-drop zero idx tuple clbs e =
      let done : idx ≡ length tuple = omega arith in
      rw (done, drop-length tuple) (sym (append-nil clbs))
  store_from-drop (suc rounds) idx tuple clbs e =
      let (entry, found, rest) = drop-cons idx tuple (omega arith) in
      let longer = clbs ++ stored entry ∷ [] in
      rw
        (tuple_func_idx-at tuple _ idx 0 (length tuple) clbs entry (omega arith) (omega arith)
          found)
        (store_from-drop rounds (suc idx) tuple longer (omega arith)
          ∙ rw (rest, append_assoc clbs (stored entry ∷ []) (map stored (drop (suc idx) tuple)))
              refl)

  -- The constructor stores one callback for each handler, in the order of the arguments.
  pub storage-map :
      (handlers : List (Handler Message Context Match W)) → storage handlers ≡ map stored handlers
  unfolding storage
  storage-map handlers = store_from-drop (length handlers) 0 handlers [] (omega arith)

  -- Of no callable does the constructor's `entry` have a return type but void.
  stored-void : (h : Handler Message Context Match W) → (stored h).return_type ≡ void_type
  unfolding callback_impl entry_type func_traits_result
  stored-void h = refl

  -- All effects in turn, whatever the handlers return.
  abbrev pub run_all :
      List (Handler Message Context Match W) → Message → Context → Match → W → Context × W
  run_all [] request ctx match w = (ctx, w)
  run_all (h ∷ hs) request ctx match w =
      let (_, ctx', w') = bind_func h.func request ctx match w in run_all hs request ctx' match w'

  begin_execute-stored :
      (handlers : List (Handler Message Context Match W)) (request : Message) (ctx : Context)
      (match : Match) (w : W)
      → let (ctx', w') = run_all handlers request ctx match w in
        begin_execute (map stored handlers) request ctx match w ≡ (true, ctx', w')
  unfolding begin_execute call callback_impl entry_type func_traits_result
  begin_execute-stored [] request ctx match w = refl
  begin_execute-stored (h ∷ hs) request ctx match w =
      let (_, ctx', w') = bind_func h.func request ctx match w in
      begin_execute-stored hs request ctx' match w'

  -- A chain built from handlers always runs to its end and reports true: each handler's effects
  -- take place in turn on the context and the state that the one before left, whatever it returned.
  pub begin_execute-storage :
      (handlers : List (Handler Message Context Match W)) (request : Message) (ctx : Context)
      (match : Match) (w : W)
      → let (ctx', w') = run_all handlers request ctx match w in
        begin_execute (storage handlers) request ctx match w ≡ (true, ctx', w')
  begin_execute-storage handlers request ctx match w =
      rw (storage-map handlers) (begin_execute-stored handlers request ctx match w)

  -- The loop over any callbacks, whatever their return types: a longer chain goes on from where a
  -- chain that reports true has left off, and is cut off where one reports false.
  pub begin_execute-append :
      (cs ds : List (Callback Message Context Match W)) (request : Message) (ctx : Context)
      (match : Match) (w : W)
      → let (continued, ctx', w') = begin_execute cs request ctx match w in
        begin_execute (cs ++ ds) request ctx match w
        ≡ (if continued then begin_execute ds request ctx' match w' else (false, ctx', w'))
  unfolding begin_execute
  begin_execute-append [] ds request ctx match w = refl
  begin_execute-append (c ∷ cs) ds request ctx match w =
      let (continued, ctx', w') = call c request ctx match w in
      elim (Bool-cases continued) [
        | inl e ↦ rw (e, begin_execute) (begin_execute-append cs ds request ctx' match w')
        | inr e ↦ rw (e, begin_execute) refl
      ]

  -- The chains that the constructor makes.
  abbrev pub IsBuilt : List (Callback Message Context Match W) → Type 0
  IsBuilt st = (handlers : List (Handler Message Context Match W)) × (st ≡ storage handlers)

  pub begin_execute-IsBuilt :
      (st : List (Callback Message Context Match W)) (request : Message) (ctx : Context)
      (match : Match) (w : W)
      → IsBuilt st
      → (begin_execute st request ctx match w).0 ≡ true
  begin_execute-IsBuilt st request ctx match w (handlers, e) =
      rw (e, begin_execute-storage handlers request ctx match w) refl
