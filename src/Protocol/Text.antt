-- ===== src/Protocol/Text.antt =====
-- `validate_text` of src/protocol.rs, over the standard library's `str::from_utf8`.
mod Utf8
pub mod Splice
pub mod Policy
unfoldable pub use Utf8.{from_utf8, step}
pub use Utf8.{Utf8State, boundary, inside}
use hashline_rs.Prelude.{
  ℕ, Bool, Option, none, some, Result, ok, err, ◌>>=◌, ◌>>◌, Bytes, length, position,
}
use hashline_rs.Protocol.Errors.{ContractError, nul_file, invalid_utf8, validate_file_size}

nul_check : Bytes → Result ContractError (Unit {0})
nul_check bytes = elim (position 0 bytes) [ none ↦ ok tt | some byte ↦ err (nul_file byte) ]

utf8_check : Bytes → Result ContractError Bytes
utf8_check bytes = elim (from_utf8 bytes) [ none ↦ ok bytes | some at ↦ err (invalid_utf8 at) ]

unfoldable pub validate_text : Bytes → Result ContractError Bytes
unfolding validate_file_size nul_check utf8_check
validate_text bytes = do validate_file_size (length bytes); nul_check bytes; utf8_check bytes
