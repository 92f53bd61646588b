-- ===== src/HttpUtility/Files.antt =====
-- The response for a file (include/beast_router/common/impl/http_utility.ipp), by the last part of
-- its name.
use beast_router.Base.{ℕ, ◌≡◌, refl, true, false, String, if◌then◌else◌}
use Prim.Native.String.{◌∷◌, ◌++◌}
use Prim.Native.Char.{Char}
use beast_router.HttpUtility.Text.{
  is_dot, has_dot, rfind_dot-none, rfind_dot-between, substr-between,
}
use beast_router.Base.Dict.{find}
use beast_router.HttpUtility.{
  MessageOps, ok, not_found, content_type, no_file, file_body, default_mime, get_mime_type,
  create_response, file_extension, make_file_response,
}

module _ {M Verb File Ec : Type 0} (ops : MessageOps M Verb File Ec) where
  file_extension-between :
      (stem ext : String) (dot : Char)
      → is_dot dot ≡ true
      → has_dot ext ≡ false
      → file_extension ops (stem ++ dot ∷ ext) ≡ ext
  unfolding file_extension
  file_extension-between stem ext dot d h =
      rw (file_extension, rfind_dot-between stem ext dot d h) (substr-between stem ext dot)

  file_extension-no_dot :
      (file_name : String) → has_dot file_name ≡ false → file_extension ops file_name ≡ ""
  unfolding file_extension
  file_extension-no_dot file_name h = rw (file_extension, rfind_dot-none file_name h) refl

  -- The answer for a file that opens is sent with status 200, the file's size as its length, and the
  -- type that the table gives for the text behind the last dot of the name, also where that dot is in
  -- the name of a directory. For a file that does not open it is a 404 without a type.
  pub make_file_response-between :
      (version : ℕ) (stem ext : String) (dot : Char)
      → is_dot dot ≡ true
      → has_dot ext ≡ false
      → let (ec, file) = ops.open_ (stem ++ dot ∷ ext) in
        make_file_response ops version (stem ++ dot ∷ ext) ≡ (
          if ops.failed ec
          then create_response ops not_found version no_file
          else ops.set content_type (get_mime_type ext) (
              ops.content_length (ops.size file) (create_response ops ok version (file_body file))))
  unfolding make_file_response
  make_file_response-between version stem ext dot d h =
      rw (file_extension-between stem ext dot d h) refl

  -- The file of a name without a dot is sent, if it opens, with the default type.
  pub make_file_response-no_dot :
      (version : ℕ) (file_name : String)
      → has_dot file_name ≡ false
      → ops.failed (ops.open_ file_name).0 ≡ false
      → let file = (ops.open_ file_name).1 in
        make_file_response ops version file_name
        ≡ ops.set content_type default_mime
            (ops.content_length (ops.size file) (create_response ops ok version (file_body file)))
  unfolding make_file_response get_mime_type find
  make_file_response-no_dot version file_name h o = rw (o, file_extension-no_dot file_name h) refl
