-- ===== src/Status.antt =====
-- Errors as values: the gRPC status errors of the handlers, the SDKs' errors, and `IsNotFound`
-- (pkg/common/common.go). A message is modelled by the text that the code formats into it from the
-- error it wraps; its fixed words are left out, and it is empty where no error is wrapped.
use huaweicloud_csi_driver.Prelude.{ℕ, String, Bool, true, false, ◌||◌}

-- google.golang.org/grpc/codes, the codes that the drivers use
pub data Code : Type 0 where
  unknown invalid_argument not_found already_exists failed_precondition : Code
  out_of_range unimplemented internal unavailable : Code

pub data Error : Type 0 where
  -- status.Error(code, message)
  status : Code → String → Error
  -- golangsdk.ErrDefault404
  default_404 : String → Error
  -- any other error: its text
  plain : String → Error
  -- wait.ErrWaitTimeout
  wait_timeout : Error
  -- obs.ObsError: StatusCode, Code and the text
  obs_error : ℕ → String → String → Error
  -- an error that os.IsNotExist, or os.IsExist, is true of: its text
  os_not_exist os_exist : String → Error
  -- a run-time panic, which no handler recovers from
  panic : Error
  -- no error of the code: a loop that has no bound had not ended when the fuel of its model was used up
  out_of_fuel : Error

pub data Result (A : Type 0) : Type 0 where
  ok : A → Result A
  err : Error → Result A

-- err.Error()
abbrev pub text : Error → String
text (status code message) = message
text (default_404 message) = message
text (plain message) = message
text wait_timeout = "timed out waiting for the condition"
text (obs_error http_status code message) = message
text (os_not_exist message) = message
text (os_exist message) = message
text panic = ""
text out_of_fuel = ""

-- status.Code: an error that is no status error has the code Unknown.
abbrev pub code_of : Error → Code
code_of (status code message) = code
code_of (default_404 message) = unknown
code_of (plain message) = unknown
code_of wait_timeout = unknown
code_of (obs_error http_status code message) = unknown
code_of (os_not_exist message) = unknown
code_of (os_exist message) = unknown
code_of panic = unknown
code_of out_of_fuel = unknown

abbrev pub is_default_404 : Error → Bool
is_default_404 (default_404 message) = true
is_default_404 _ = false

-- os.IsNotExist and os.IsExist
abbrev pub is_not_exist : Error → Bool
is_not_exist (os_not_exist message) = true
is_not_exist _ = false

abbrev pub is_exist : Error → Bool
is_exist (os_exist message) = true
is_exist _ = false

abbrev pub is_not_found_code : Code → Bool
is_not_found_code not_found = true
is_not_found_code _ = false

unfoldable pub is_not_found : Error → Bool
is_not_found e = is_default_404 e || is_not_found_code (code_of e)

-- A status error that wraps another error, and one that wraps none.
abbrev pub wrapping : Code → Error → Error
wrapping code e = status code (text e)

abbrev pub refuse : Code → Error
refuse code = status code ""

-- The error that a handler makes of another: it is not reached by a panic or by a loop that has not ended.
abbrev pub unless_panic : (Error → Error) → Error → Error
unless_panic f panic = panic
unless_panic f out_of_fuel = out_of_fuel
unless_panic f e = f e
