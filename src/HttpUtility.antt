-- ===== src/HttpUtility.antt =====
-- include/beast_router/common/http_utility.hpp and impl/http_utility.ipp: making messages. The
-- messages `M` and files `File` are outside the repository.
mod Text
pub mod Files
use beast_router.Base.{ℕ, suc, ◌+◌, Bool, String, List, [], ◌∷◌, Option, none, some, if◌then◌else◌}
use mathlib.Core.Option
use beast_router.Base.Dict.{string_eq, find}
use beast_router.HttpUtility.Text.{rfind_dot, substr}

-- `http::status` and `http::field` as far as they are named.
pub data Status : Type 0 where
  ok moved_permanently bad_request not_found : Status
  other_status : ℕ → Status

pub data Field : Type 0 where
  location content_type host user_agent accept : Field

-- What a message is made from: no body, a text, an open file, or a file body without a file.
pub data Body (File : Type 0) : Type 0 where
  empty_body no_file : Body File
  string_body : String → Body File
  file_body : File → Body File

-- Boost's messages and files.
pub record MessageOps (M Verb File Ec : Type 0) : Type 0 where
  pub response : Status → (version : ℕ) → Body File → M
  pub request : Verb → (version : ℕ) → (target : String) → M
  pub set : Field → String → M → M
  pub prepare_payload : M → M
  pub content_length : ℕ → M → M
  pub open_ : String → Ec × File
  pub size : File → ℕ
  pub failed : Ec → Bool

abbrev pub default_mime : String
default_mime = "application/type"

abbrev pub mime_types : List (String × String)
mime_types =
    ("html", "text/html")
    ∷ ("js", "application/javascript")
    ∷ ("css", "text/css")
    ∷ ("png", "image/png")
    ∷ ("jpg", "image/jpeg")
    ∷ ("fvl", "video/x-flv")
    ∷ []

unfoldable pub get_mime_type : String → String
get_mime_type ext = Option.get_or (find ext mime_types) default_mime

module _ {M Verb File Ec : Type 0} (ops : MessageOps M Verb File Ec) where
  -- `create_response` and the two `message_creator`s for responses.
  unfoldable pub create_response : Status → (version : ℕ) → Body File → M
  create_response code version args = ops.response code version args

  unfoldable pub create_request : Verb → (version : ℕ) → (target : String) → M
  create_request verb version target = ops.request verb version target

  unfoldable pub make_empty_response : Status → (version : ℕ) → M
  unfolding create_response
  make_empty_response code version = create_response code version empty_body

  unfoldable pub make_moved_response : (version : ℕ) → String → M
  unfolding make_empty_response
  make_moved_response version place =
      ops.set location place (make_empty_response moved_permanently version)

  unfoldable pub make_string_response : Status → (version : ℕ) → (data_ content : String) → M
  unfolding create_response
  make_string_response code version data_ content =
      ops.set content_type content
        (ops.prepare_payload (create_response code version (string_body data_)))

  unfoldable pub file_extension : String → String
  file_extension file_name = elim (rfind_dot file_name) [
    | none ↦ ""
    | some idx ↦ substr (suc idx) file_name
  ]

  unfoldable pub make_file_response : (version : ℕ) → String → M
  unfolding create_response file_extension
  make_file_response version file_name =
      let (ec, body) = ops.open_ file_name in
      if ops.failed ec
      then create_response not_found version no_file
      else ops.set content_type (get_mime_type (file_extension file_name))
          (ops.content_length (ops.size body) (create_response ok version (file_body body)))

  unfoldable pub make_empty_request : Verb → (version : ℕ) → (target : String) → M
  unfolding create_request
  make_empty_request verb version target = create_request verb version target
