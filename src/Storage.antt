-- ===== src/Storage.antt =====
-- include/beast_router/base/storage.hpp: the handlers of one resource. A handler is a C++ callable
-- of one of three shapes; it changes the context and the state `W` that it shares with the session.
pub mod Laws
use beast_router.Base.{ℕ, zero, suc, Bool, true, false, List, [], ◌∷◌, ◌++◌, length, if◌then◌else◌}
use beast_router.Utility.{
  ReturnType, void_type, bool_type, other_type, CallableType, closure, std_function,
  function_pointer, function_reference, const_reference, func_traits_result, index_sequence,
  tuple_func_idx,
}

-- `std::make_tuple` stores the decayed type.
decay : CallableType → CallableType
decay (function_reference r) = function_pointer r
decay (const_reference t) = decay t
decay t = t

-- `decltype(entry)`: `std::get` of a constant tuple gives a constant reference.
unfoldable pub entry_type : CallableType → CallableType
unfolding decay
entry_type t = const_reference (decay t)

abbrev pub is_bool : ReturnType → Bool
is_bool void_type = false
is_bool bool_type = true
is_bool other_type = false

module _ (Message Context Match W : Type 0) where
  -- The result of a handler that returns void stands for no value.
  pub data Invocable : Type 0 where
    on_match : (Message → Context → Match → W → Bool × Context × W) → Invocable
    on_message : (Message → Context → W → Bool × Context × W) → Invocable
    on_context : (Context → W → Bool × Context × W) → Invocable

  pub record Handler : Type 0 where
    pub callable : CallableType
    pub func : Invocable

  -- `callback_impl<Func>` with its `return_type`.
  pub record Callback : Type 0 where
    pub return_type : ReturnType
    pub m_func : Message → Context → Match → W → Bool × Context × W

module _ {Message Context Match W : Type 0} where
  -- The three constructors bind the placeholders that the callable takes.
  abbrev pub bind_func :
      Invocable Message Context Match W → Message → Context → Match → W → Bool × Context × W
  bind_func (on_match f) request ctx match w = f request ctx match w
  bind_func (on_message f) request ctx match w = f request ctx w
  bind_func (on_context f) request ctx match w = f ctx w

  unfoldable pub callback_impl :
      CallableType → Invocable Message Context Match W → Callback Message Context Match W
  callback_impl func_type func = record {
    return_type = func_traits_result func_type;
    m_func = bind_func func;
  }

  -- `callback_impl::operator()`: any other return type counts as true.
  unfoldable pub call :
      Callback Message Context Match W → Message → Context → Match → W → Bool × Context × W
  call c request ctx match w =
      let (result, ctx', w') = c.m_func request ctx match w in
      (if is_bool c.return_type then result else true, ctx', w')

  -- The constructor's loop over the indices `idx`, with `rounds` of them left.
  store_from :
      (rounds idx : ℕ) (tuple : List (Handler Message Context Match W))
      → List (Callback Message Context Match W)
      → List (Callback Message Context Match W)
  store_from zero idx tuple m_clbs = m_clbs
  store_from (suc rounds) idx tuple m_clbs = store_from rounds (suc idx) tuple (
      tuple_func_idx idx tuple (index_sequence 0 (length tuple))
        (λ entry clbs. clbs ++ callback_impl (entry_type entry.callable) entry.func ∷ []) m_clbs)

  unfoldable pub storage :
      List (Handler Message Context Match W) → List (Callback Message Context Match W)
  unfolding store_from
  storage on_request = store_from (length on_request) 0 on_request []

  -- The context lives for one call of `begin_execute`, and the handlers share it.
  unfoldable pub begin_execute :
      List (Callback Message Context Match W) → Message → Context → Match → W → Bool × Context × W
  begin_execute [] request ctx match w = (true, ctx, w)
  begin_execute (c ∷ m_clbs) request ctx match w =
      let (continued, ctx', w') = call c request ctx match w in
      let rest = begin_execute m_clbs request ctx' match w' in
      elim continued [ true ↦ rest | false ↦ (false, ctx', w') ]
