-- ===== src/Dispatcher/Commuting.antt =====
-- Requests under two orders of the walk over the resources (include/beast_router/base/dispatcher.hpp):
-- `std::unordered_map` promises none.
use mathlib.Core.Path.{subst}
use mathlib.Core.List.{Permᴰ}
use beast_router.Base.{◌≡◌, refl, sym, ap, ◌∙◌, List, [], ◌∷◌, arith, All}
use beast_router.Storage.{begin_execute}
use beast_router.Router.{unknown, Storage, ResourceMap, MethodMap}
use beast_router.Router.Tables.{resources, registered, IsServer}
use beast_router.Dispatcher.{Env, process_request}
use beast_router.Dispatcher.Matching.{Compile, hit, cons_hit, hits, run_hits}
use beast_router.Dispatcher.Order.{hits-perm, is_nonempty-perm, Compile-perm}
use beast_router.Dispatcher.Requests.{IsWalk, process_request-hits}

All-perm : {A : Type 0} (P : A → Type 0) {xs ys : List A} → Permᴰ xs ys → All P xs → All P ys
All-perm P Permᴰ.nil h = tt
All-perm P (Permᴰ.cons e p) h = (subst P e h.0, All-perm P p h.1)
All-perm P (Permᴰ.swap e f) h = (subst P f h.1.0, (subst P e h.0, h.1.1))
All-perm P (Permᴰ.trans p q) h = All-perm P q (All-perm P p h)

module _ {Message Context Match W Regex : Type 0} (env : Env Message Context Match W Regex)
    (request : Message) where
  -- The effect of one chain that matches.
  abbrev pub run_hit : Storage Message Context Match W × Match → W → W
  run_hit h w = (begin_execute h.0 request env.fresh h.1 w).2

  -- The effects of any two of these chains commute.
  abbrev pub Commute : (Storage Message Context Match W × Match → Type 0) → Type 0
  Commute P =
      (h g : Storage Message Context Match W × Match) (w : W)
      → P h
      → P g
      → run_hit h (run_hit g w) ≡ run_hit g (run_hit h w)

  run_hits-perm :
      (P : Storage Message Context Match W × Match → Type 0)
      {hs gs : List (Storage Message Context Match W × Match)} (w : W)
      → Commute P
      → Permᴰ hs gs
      → All P hs
      → run_hits env request hs w ≡ run_hits env request gs w
  run_hits-perm P w c Permᴰ.nil a = refl
  run_hits-perm P w c (Permᴰ.cons {a = h} {b = g} {l₁ = hs} {l₂ = gs} e p) a =
      run_hits-perm P (run_hit h w) c p a.1 ∙ ap (λ x. run_hits env request gs (run_hit x w)) e
  run_hits-perm P w c (Permᴰ.swap {a = h} {b = g} {a' = g'} {l = l} e f) a =
      ap (run_hits env request l) (c g h w a.1.0 a.0)
      ∙ ap (λ x. run_hits env request l (run_hit h (run_hit x w))) f
      ∙ ap (λ x. run_hits env request l (run_hit x (run_hit g' w))) e
  run_hits-perm P w c (Permᴰ.trans p q) a =
      run_hits-perm P w c p a ∙ run_hits-perm P w c q (All-perm P p a)

module _ {Message Context Match W Regex : Type 0} (env : Env Message Context Match W Regex)
    (other : ResourceMap Message Context Match W → ResourceMap Message Context Match W) where
  abbrev pub reordered : Env Message Context Match W Regex
  reordered = record env { iterate = other }

  hits-reordered :
      (request : Message) (es : ResourceMap Message Context Match W)
      → hits reordered request es ≡ hits env request es
  hits-reordered request [] = refl
  hits-reordered request (e ∷ es) = ap (cons_hit (hit env request e)) (hits-reordered request es)

  run_hits-reordered :
      (request : Message) (hs : List (Storage Message Context Match W × Match)) (w : W)
      → run_hits reordered request hs w ≡ run_hits env request hs w
  run_hits-reordered request [] w = refl
  run_hits-reordered request (h ∷ hs) w = run_hits-reordered request hs (run_hit env request h w)

  Compile-reordered :
      (es : ResourceMap Message Context Match W) → Compile env es → Compile reordered es
  Compile-reordered [] c = tt
  Compile-reordered (e ∷ es) c = (c.0, Compile-reordered es c.1)

  -- Two tables with the same resources for a method in two orders, and the same chain for what is not
  -- found, under two walks.
  pub process_request-perm :
      (P : Storage Message Context Match W × Match → Type 0)
      (m n : MethodMap Message Context Match W) (request : Message) (w : W)
      → IsWalk env
      → IsWalk reordered
      → IsServer m
      → IsServer n
      → Permᴰ (resources (env.method request) m) (resources (env.method request) n)
      → registered unknown "" m ≡ registered unknown "" n
      → Compile env (resources (env.method request) m)
      → Commute env request P
      → All P (hits env request (resources (env.method request) m))
      → process_request reordered n request w ≡ process_request env m request w
  process_request-perm P m n request w walk walk' server server' p last c commute a =
      let es = resources (env.method request) m in
      let fs = resources (env.method request) n in
      let (here, perm) = process_request-hits env walk m server request w c in
      let (there, perm') =
        process_request-hits reordered walk' n server' request w
          (Compile-reordered fs (Compile-perm env p c)) in
      let same = hits-reordered request fs in
      let both = hits-perm env request p in
      let perm'' : Permᴰ (hits env request es) (hits reordered request (other fs)) =
        Permᴰ.trans both (subst (λ hs. Permᴰ hs (hits reordered request (other fs))) same perm') in
      let one = run_hits-perm env request P w commute perm a in
      let two =
        run_hits-perm env request P w commute perm'' a
        ∙ sym (run_hits-reordered request (hits reordered request (other fs)) w) in
      let any = is_nonempty-perm both in ground (arith, here, there, same, one, two, any, last)
