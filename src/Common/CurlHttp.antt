-- ===== src/Common/CurlHttp.antt =====
-- src/common/CurlHttp.cpp, which no other file uses. libcurl and the files are parameters.
use ceph_mesos.Prelude.{Bool, Text, arith, if◌then◌else◌, ℕ, ℤ, ◌≡◌}
use ceph_mesos.Common.NetUtil.{CallResult, returns, undefined_call}

pub data Handle : Type 0 where
  no_handle live freed : Handle

-- `curl_easy_init` and `fopen` may give a null pointer; `curl_easy_perform` gives a code.
pub record Curl : Type 0 where
  pub easy_init : Bool
  pub opens : Text → Bool
  pub perform : Handle → Text → ℤ

module _ (curl : Curl) where
  unfoldable pub initialize : Handle
  initialize = if curl.easy_init then live else no_handle

  -- `curl_easy_cleanup`, which does nothing on a null pointer.
  abbrev cleanup : Handle → Handle
  cleanup no_handle = no_handle
  cleanup live = freed
  cleanup freed = freed

  -- `get` with the handle that it leaves: a freed handle must not be used, nor a file that is not open be
  -- closed.
  unfoldable pub get : Text → Text → Handle → CallResult (ℤ × Handle)
  get url filepath freed = undefined_call
  get url filepath h =
      if curl.opens filepath then returns (curl.perform h url, cleanup h) else undefined_call

  -- `writeCallback` hands its arguments to `fwrite` and returns its result.
  unfoldable pub write_callback : (Text → ℕ → ℕ → ℕ) → Text → ℕ → ℕ → ℕ
  write_callback fwrite data_ptr size nmemb = fwrite data_ptr size nmemb

  -- The handle is freed by the first `get` and never made again: a second one is undefined, whatever it asks
  -- for.
  pub get-get :
      (url filepath url' filepath' : Text) (code : ℤ) (h : Handle)
      → get url filepath live ≡ returns (code, h)
      → get url' filepath' h ≡ undefined_call
  unfolding get
  get-get url filepath url' filepath' code h e = ground arith
