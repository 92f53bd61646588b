-- ===== src/Session/Rereading.antt =====
-- The members of `session::impl` that a read uses (include/beast_router/session.hpp), `m_buffer` and
-- `m_parser`, beside the session, and what becomes of them over several reads on one session
-- (`do_read` and `on_read` of include/beast_router/impl/session.ipp). Parsers `P`, buffers `B` and what
-- arrives, `Input`, are outside the repository.
use beast_router.Base.{
  ℕ, zero, suc, ◌≡◌, refl, sym, ap, ◌∙◌, Bool, true, false, List, [], ◌∷◌, length, if◌then◌else◌,
}
use beast_router.Base.Outcome.{Outcome, done, ◌>>=◌, bind_assoc, bind_cong}
use beast_router.Router.{Router}
use beast_router.Session.{Boost, Impl, init_context, on_read, report_if, cancel_timer}

-- `async_read` is the whole call: the error code and what it leaves of the buffer and the parser.
-- `release` gives the message and what the move leaves.
pub record ParserOps (P B Message Input Ec : Type 0) : Type 0 where
  pub parser : P
  pub buffer : B
  pub async_read : Input → B → P → Ec × B × P
  pub release : P → Message × P

pub record Reader (P B Message Ec C T : Type 0) : Type 0 where
  pub impl : Impl Message Ec C T
  pub m_buffer : B
  pub m_parser : P

module _ {P B Message Input Ec C T : Type 0} (b : Boost Message Ec C T)
    (ops : ParserOps P B Message Input Ec) where
  -- The members as `init_context` and the constructor of `impl` make them.
  unfoldable pub reader : C → Router → (on_error : Bool) → Reader P B Message Ec C T
  reader connection router on_error = record {
    impl = init_context b connection router on_error;
    m_buffer = ops.buffer;
    m_parser = ops.parser;
  }

  module _
      (process : Message
        → Impl Message Ec C T
        → Outcome (Impl Message Ec C T) (Impl Message Ec C T)) where
    -- `do_read` up to its completion, and `on_read`, which releases the message unless the stream has
    -- ended.
    unfoldable pub read :
        Input
        → Reader P B Message Ec C T
        → Outcome (Reader P B Message Ec C T) (Impl Message Ec C T)
    read input r =
        let (ec, buffer, parser) = ops.async_read input r.m_buffer r.m_parser in
        let (message, moved_from) = ops.release parser in
        on_read b process ec message r.impl >>= λ i. done (record {
          impl = i;
          m_buffer = buffer;
          m_parser = if b.is_end_of_stream ec then parser else moved_from;
        })

    -- One read after another.
    unfoldable pub read_all :
        List Input
        → Reader P B Message Ec C T
        → Outcome (Reader P B Message Ec C T) (Impl Message Ec C T)
    read_all [] r = done r
    read_all (input ∷ inputs) r = read input r >>= read_all inputs

    -- The message `moved_from` is processed again and again.
    abbrev pub process_again :
        (times : ℕ)
        → (moved_from : Message) → Impl Message Ec C T
        → Outcome (Impl Message Ec C T) (Impl Message Ec C T)
    process_again zero moved_from i = done i
    process_again (suc times) moved_from i =
        process moved_from (cancel_timer b i) >>= process_again times moved_from

    module _ (is_done : P → Bool) (success : Ec) (moved_from : Message)
        (at_once : (input : Input) (buffer : B) (p : P)
          → is_done p ≡ true
          → ops.async_read input buffer p ≡ (success, buffer, p))
        (still_done : (p : P) → is_done p ≡ true → is_done (ops.release p).1 ≡ true)
        (released : (p : P)
          → is_done p ≡ true
          → ops.release (ops.release p).1 ≡ (moved_from, (ops.release p).1))
        (fine : b.failed success ≡ false) (no_end : b.is_end_of_stream success ≡ false) where
      read-again :
          (input : Input) (i : Impl Message Ec C T) (buffer : B) (p : P)
          → is_done p ≡ true
          → ops.release p ≡ (moved_from, p)
          → read input (record { impl = i; m_buffer = buffer; m_parser = p }) ≡ (
              process moved_from (cancel_timer b i) >>= λ j.
              done (record { impl = j; m_buffer = buffer; m_parser = p }))
      unfolding read on_read
      read-again input i buffer p d e = rw (at_once input buffer p d, e, no_end, fine) refl

      read_all-again :
          (inputs : List Input) (i : Impl Message Ec C T) (buffer : B) (p : P)
          → is_done p ≡ true
          → ops.release p ≡ (moved_from, p)
          → read_all inputs (record { impl = i; m_buffer = buffer; m_parser = p }) ≡ (
              process_again (length inputs) moved_from i >>= λ j.
              done (record { impl = j; m_buffer = buffer; m_parser = p }))
      unfolding read_all
      read_all-again [] i buffer p d e = refl
      read_all-again (input ∷ inputs) i buffer p d e =
          ap (λ o. o >>= read_all inputs) (read-again input i buffer p d e)
          ∙ bind_assoc (process moved_from (cancel_timer b i)) _ _
          ∙ bind_cong (process moved_from (cancel_timer b i)) _ _
              (λ j. read_all-again inputs j buffer p d e)
          ∙ sym (bind_assoc (process moved_from (cancel_timer b i)) _ _)

      -- The parser is as Boost documents it: a read with a parser that is done ends at once without an
      -- error and takes nothing in, and a released parser is done as before and releases a moved-from
      -- message from then on. Then, once a read of a session has come to the end of a message, every later
      -- read hands the moved-from message to the dispatcher, whatever the peer sends, and neither the
      -- buffer nor the parser changes any more.
      pub read_all-released :
          (input : Input) (inputs : List Input) (ec : Ec) (buffer : B) (p : P)
          (r : Reader P B Message Ec C T)
          → ops.async_read input r.m_buffer r.m_parser ≡ (ec, buffer, p)
          → is_done p ≡ true
          → b.is_end_of_stream ec ≡ false
          → read_all (input ∷ inputs) r ≡ (
              process
                (ops.release p).0
                (report_if b (b.failed ec) ec "async_read/on_read" (cancel_timer b r.impl))
              >>= process_again (length inputs) moved_from
              >>= λ j. done (record { impl = j; m_buffer = buffer; m_parser = (ops.release p).1 }))
      unfolding read_all read on_read
      read_all-released input inputs ec buffer p r e d n =
          let first =
            process (ops.release p).0
              (report_if b (b.failed ec) ec "async_read/on_read" (cancel_timer b r.impl)) in
          rw (e, n)
            (bind_assoc first _ _
              ∙ bind_cong first _ _ (λ j.
                read_all-again inputs j buffer (ops.release p).1 (still_done p d) (released p d))
              ∙ sym (bind_assoc first _ _))
