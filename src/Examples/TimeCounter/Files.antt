-- ===== src/Examples/TimeCounter/Files.antt =====
-- Which files the server of examples/time-counter/main.cpp sends, and when.
use Prim.Native.String.{◌++◌}
use beast_router.Base.{ℕ, ◌≡◌, ◌∙◌, ◌⊎◌, inl, inr, Bool-cases, String, arith, if◌then◌else◌}
use beast_router.HttpUtility.{
  MessageOps, Status, Field, Body, ok, not_found, bad_request, make_string_response,
  make_file_response, create_response,
}
use beast_router.Router.{Verb}
use beast_router.Examples.TimeCounter.{serve_file}
use beast_router.Examples.TimeCounter.Targets.{Legal, Legal-cases}

module _ {Message File Ec : Type 0} (ops : MessageOps Message Verb File Ec) (version : Message → ℕ)
    (result : Message → Status) (target : Message → String) (doc_base_path : String)
    (result_response : (code : Status) (v : ℕ) (body : Body File)
      → result (ops.response code v body) ≡ code)
    (result_set : (field : Field) (value : String) (m : Message)
      → result (ops.set field value m) ≡ result m)
    (result_length : (size : ℕ) (m : Message) → result (ops.content_length size m) ≡ result m) where
  make_file_response-result :
      (v : ℕ) (name : String)
      → result (make_file_response ops v name)
        ≡ (if ops.failed (ops.open_ name).0 then not_found else ok)
  unfolding make_file_response create_response
  make_file_response-result v name = elim (Bool-cases (ops.failed (ops.open_ name).0)) [
    | inl failed ↦ rw failed (result_response _ _ _)
    | inr fine ↦ rw fine (result_set _ _ _ ∙ result_length _ _ ∙ result_response _ _ _)
  ]

  -- The status of a response is that with which it was made, and neither a field nor the length
  -- changes it. A request whose target is legal, one that begins with a slash and has no dot behind a
  -- dot, is answered with the file of that name below the base directory, or with a 404 if that file
  -- does not open. Any other request is answered with a 400, whatever files there are.
  pub serve_file-Legal :
      (rq : Message)
      → let name = doc_base_path ++ target rq in
        let answer = serve_file ops version result target doc_base_path rq in
        (Legal (target rq)
          × (answer ≡ (
              if ops.failed (ops.open_ name).0
              then make_string_response ops not_found (version rq) "Not Found" "text/html"
              else make_file_response ops (version rq) name)))
        ⊎ ((¬ Legal (target rq))
            × (answer
                ≡ make_string_response ops bad_request
                    (version rq)
                    "Illegal request-target"
                    "text/html"))
  unfolding serve_file
  serve_file-Legal rq = elim (Legal-cases (target rq)) [
    | inl (legal, e) ↦
        inl (
          legal,
          ground (arith, make_file_response-result (version rq) (doc_base_path ++ target rq)),
        )
    | inr (illegal, e) ↦ inr (illegal, ground arith)
  ]
