-- ===== src/Examples/TimeCounter/Pages.antt =====
-- The requests that the server of examples/time-counter/main.cpp has a page for, on a session.
use beast_router.Base.{
  ℕ, ◌≡◌, ◌≢◌, refl, sym, ◌∙◌, ap, true, false, String, [], ◌∷◌, ◌++◌, Option, none, some, arith,
}
use mathlib.Core.Option
use mathlib.Core.Path.{subst}
use beast_router.Base.Outcome.{done, ◌>>=◌}
use beast_router.Base.Dict.{string_eq, find, insert, insert_or_assign, modify}
use beast_router.Utility.{ReturnType, void_type, other_type}
use beast_router.ConnQueue.{push_lem}
use beast_router.HttpUtility.{MessageOps, Status}
use beast_router.Storage.{storage}
use beast_router.Storage.Laws.{begin_execute-storage}
use beast_router.Router.{
  Verb, get, MethodMap, Storage, register, register_all, add_resource, initial,
}
use beast_router.Router.Tables.{resources}
use beast_router.Dispatcher.{Env}
use beast_router.Dispatcher.Matching.{Compile, hit, cons_hit, hit_lem, hits, run_hits}
use beast_router.Dispatcher.Requests.{IsWalk}
use beast_router.Dispatcher.Order.{hits-perm, perm-one}
use beast_router.Session.{
  send, Boost, Impl, on_read, do_write, run_task, cancel_timer, report_if, as_queue,
}
use beast_router.Session.Serving.{Served, serve, server_table, on_read-hits}
use beast_router.Examples.TimeCounter.{serve_file, move_to_index, tell_time, sends_back, routes}

pub data Page : Type 0 where
  files index clock : Page

abbrev pub pattern : Page → String
pattern files = "^.*\\.(js|html|css)$"
pattern index = "^/$"
pattern clock = "^/update$"

abbrev returns : Page → ReturnType
returns files = other_type
returns _ = void_type

module _ {Message File Ec C T Ctx Match Regex : Type 0} (b : Boost Message Ec C T)
    (ops : MessageOps Message Verb File Ec) (version : Message → ℕ) (result : Message → Status)
    (doc_base_path : String) (env : Env Message Ctx Match (Served Message Ec C T) Regex)
    (now : String) where
  abbrev pub respond : Page → Message → Message
  respond files = serve_file ops version result env.target doc_base_path
  respond index = move_to_index ops version
  respond clock = tell_time ops version now

  abbrev pub table : MethodMap Message Ctx Match (Served Message Ec C T)
  table = server_table b ops version env (routes ops version result env.target doc_base_path b now)

  abbrev entry : Page → String × Storage Message Ctx Match (Served Message Ec C T)
  entry p = (pattern p, storage (sends_back b (returns p) (respond p) ∷ []))

  table-resources : resources get table ≡ entry files ∷ entry index ∷ entry clock ∷ []
  unfolding routes register_all register add_resource initial find insert insert_or_assign modify
  table-resources = refl

  hit-entry :
      (p : Page) (r : Regex) (rq : Message) (o : Option Match)
      → env.regex (pattern p) ≡ some r
      → env.regex_match (env.target rq) r ≡ o
      → hit env rq (entry p)
        ≡ Option.map (λ m. (storage (sends_back b (returns p) (respond p) ∷ []), m)) o
  hit-entry p r rq o c e =
      hit_lem env rq (pattern p) (storage (sends_back b (returns p) (respond p) ∷ [])) r o c e

  hits-three :
      (rq : Message) (e f g : String × Storage Message Ctx Match (Served Message Ec C T))
      {o q r : Option (Storage Message Ctx Match (Served Message Ec C T) × Match)}
      → hit env rq e ≡ o
      → hit env rq f ≡ q
      → hit env rq g ≡ r
      → hits env rq (e ∷ f ∷ g ∷ []) ≡ cons_hit o (cons_hit q (cons_hit r []))
  hits-three rq e f g u v w = rw (u, v, w) refl

  hits-entry :
      (re : Page → Regex) (p : Page) (rq : Message) (m : Match)
      → ((q : Page) → env.regex (pattern q) ≡ some (re q))
      → env.regex_match (env.target rq) (re p) ≡ some m
      → ((q : Page) → q ≢ p → env.regex_match (env.target rq) (re q) ≡ none)
      → hits env rq (entry files ∷ entry index ∷ entry clock ∷ [])
        ≡ (storage (sends_back b (returns p) (respond p) ∷ []), m) ∷ []
  hits-entry re files rq m c e f =
      hits-three rq (entry files) (entry index) (entry clock)
        (hit-entry files (re files) rq (some m) (c files) e)
        (hit-entry index (re index) rq none (c index) (f index (ground arith)))
        (hit-entry clock (re clock) rq none (c clock) (f clock (ground arith)))
  hits-entry re index rq m c e f =
      hits-three rq (entry files) (entry index) (entry clock)
        (hit-entry files (re files) rq none (c files) (f files (ground arith)))
        (hit-entry index (re index) rq (some m) (c index) e)
        (hit-entry clock (re clock) rq none (c clock) (f clock (ground arith)))
  hits-entry re clock rq m c e f =
      hits-three rq (entry files) (entry index) (entry clock)
        (hit-entry files (re files) rq none (c files) (f files (ground arith)))
        (hit-entry index (re index) rq none (c index) (f index (ground arith)))
        (hit-entry clock (re clock) rq (some m) (c clock) e)

  run_hits-sends_back :
      (type : ReturnType) (f : Message → Message) (rq : Message) (m : Match)
      (w : Served Message Ec C T)
      → run_hits env rq ((storage (sends_back b type f ∷ []), m) ∷ []) w
        ≡ (w >>= run_task b true (send (f rq)))
  run_hits-sends_back type f rq m w =
      ap (λ r. r.2) (begin_execute-storage (sends_back b type f ∷ []) rq env.fresh m w)

  -- The three patterns compile, and the walk over the resources visits each once. A GET request that
  -- was read without an error, and whose target one of the patterns matches and the others do not, is
  -- answered with the response of that page: it is written at once if no message waits in the queue
  -- of the session, and is put behind those that do otherwise.
  pub on_read-respond :
      (re : Page → Regex) (p : Page) (rq : Message) (m : Match) (ec : Ec) (i : Impl Message Ec C T)
      → IsWalk env
      → ((q : Page) → env.regex (pattern q) ≡ some (re q))
      → env.method rq ≡ get
      → env.regex_match (env.target rq) (re p) ≡ some m
      → ((q : Page) → q ≢ p → env.regex_match (env.target rq) (re q) ≡ none)
      → b.failed ec ≡ false
      → b.is_end_of_stream ec ≡ false
      → on_read b (serve b ops version env table) ec rq i ≡ elim i.m_queue [
        | [] ↦
            done (record (do_write b (respond p rq) (cancel_timer b i)) {
              m_queue = respond p rq ∷ [];
            })
        | n ∷ rest ↦ done (record (cancel_timer b i) { m_queue = n ∷ (rest ++ respond p rq ∷ []) })
      ]
  unfolding run_task
  on_read-respond re p rq m ec i walk c g e f fine no_end =
      let x : Storage Message Ctx Match (Served Message Ec C T) × Match =
        (storage (sends_back b (returns p) (respond p) ∷ []), m) in
      let found : resources (env.method rq) table ≡ entry files ∷ entry index ∷ entry clock ∷ [] =
        ap (λ v. resources v table) g ∙ table-resources in
      let compile : Compile env (entry files ∷ entry index ∷ entry clock ∷ []) =
        ((re files, c files), ((re index, c index), ((re clock, c clock), tt))) in
      let hit_one : hits env rq (resources (env.method rq) table) ≡ x ∷ [] =
        ap (hits env rq) found ∙ hits-entry re p rq m c e f in
      let before : Served Message Ec C T =
        done (report_if b (b.failed ec) ec "async_read/on_read" (cancel_timer b i)) in
      let walked = perm-one x (hits-perm env rq (walk (resources (env.method rq) table))) hit_one in
      on_read-hits b ops version env (routes ops version result env.target doc_base_path b now) ec
        rq i walk (subst (Compile env) (sym found) compile) (λ none_hit. ground (arith, hit_one))
        no_end
      ∙ ap (λ hs. run_hits env rq hs before) walked
      ∙ run_hits-sends_back (returns p) (respond p) rq m before
      ∙ ground (arith, push_lem (do_write b) (respond p rq) (as_queue b (cancel_timer b i)))
