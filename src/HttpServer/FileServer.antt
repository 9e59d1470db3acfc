-- ===== src/HttpServer/FileServer.antt =====
-- `file_request` and `file_reader` of src/httpserver/FileServer.cpp: a directory that is served over
-- HTTP. The daemon (libmicrohttpd) calls the handler twice for a request: when the headers are there,
-- and when the request is complete. What stat, fopen and the daemon do is a parameter.
pub mod Serving
pub mod Shared
use ceph_mesos.Prelude.{
  Bool, Option, Text, [], codes, false, if◌then◌else◌, none, some, suc, take, text_eq, true, zero,
  ℕ, ◌++◌, ◌∷◌,
}

-- What the handler calls. Its file name points into a temporary string that is gone when it is used:
-- `text_at` is what the memory holds there then.
pub record FileSystem : Type 0 where
  pub text_at : Text → Text
  -- the size that `stat` gives, and the bytes of the file that `fopen` opens
  pub size_of : Text → Option ℕ
  pub open_file : Text → Option Text
  -- whether the daemon makes a response that reads from a callback
  pub makes_response : Bool

-- `MHD_NO`; `MHD_YES` without a response; a page not found, with its body; a file of the given size,
-- with its bytes; or the url, which has no first byte, is read beyond its end.
pub data FileReply : Type 0 where
  file_no file_yes beyond_url : FileReply
  not_found : Text → FileReply
  serves : ℕ → Text → FileReply

pub record FileCall : Type 0 where
  pub reply : FileReply
  -- whether `*con_cls` points to the handler's mark
  pub marked : Bool

abbrev pub get_method : Text
get_method = codes "GET"

-- `std::string surl(&url[1])`
abbrev pub url_tail : Text → Option Text
url_tail [] = none
url_tail (c ∷ s) = some s

abbrev pub drop_bytes : ℕ → Text → Text
drop_bytes zero s = s
drop_bytes (suc n) [] = []
drop_bytes (suc n) (c ∷ s) = drop_bytes n s

-- `fseek` and `fread`: at most `max` bytes, from the position on.
unfoldable pub file_reader : Text → ℕ → ℕ → Text
file_reader file position max = take max (drop_bytes position file)

module _ (fs : FileSystem) where
  -- `stat`, and `fopen` if there is something.
  unfoldable pub find_file : Text → Option (ℕ × Text)
  find_file filepath = elim (fs.size_of filepath) [
    | none ↦ none
    | some size ↦ elim (fs.open_file filepath) [ none ↦ none | some file ↦ some (size, file) ]
  ]

  -- From the file name on.
  unfoldable pub serve_path : Text → FileReply
  unfolding find_file
  serve_path filepath = elim (find_file filepath) [
    | none ↦ not_found filepath
    | some (size, file) ↦ if fs.makes_response then serves size file else file_no
  ]

  -- `file_request`, for the directory that the server was started on.
  unfoldable pub file_request : Text → Text → Text → Bool → FileCall
  unfolding serve_path
  file_request path method url marked =
      if text_eq method get_method
      then (if marked
          then (elim (url_tail url) [
            | none ↦ record { reply = beyond_url; marked = false }
            | some surl ↦ record { reply = serve_path (fs.text_at (path ++ surl)); marked = false }
          ])
          else record { reply = file_yes; marked = true })
      else record { reply = file_no; marked = marked }
