-- ===== src/Std/Io.antt =====
-- `std::io::Error` and `std::io::ErrorKind`, as far as the program reads them.
use Prim.Native.String.{String}
use zc_splice_proxy.Base.{ℕ, List}

pub data ErrorKind : Type 0 where
  not_found permission_denied connection_refused connection_reset host_unreachable : ErrorKind
  network_unreachable connection_aborted not_connected addr_in_use addr_not_available : ErrorKind
  network_down broken_pipe already_exists would_block invalid_input invalid_data : ErrorKind
  timed_out write_zero interrupted unsupported unexpected_eof out_of_memory other : ErrorKind

unfoldable pub ErrorKind-discrete : Discrete ErrorKind
ErrorKind-discrete = hlevel

-- What an error displays, as the format strings that the program builds it with. `os_error` is the
-- text of a system error, which the program never builds.
pub data Text : Type 0 where
  os_error : ℕ → Text
  literal : String → Text
  display_of : List ℕ → Text
  prefixed : String → Text → Text
  all_failed : ℕ → Text → Text

pub record IoError : Type 0 where
  pub kind : ErrorKind
  pub message : Text
