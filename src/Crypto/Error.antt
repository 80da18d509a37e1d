-- ===== src/Crypto/Error.antt =====
-- askar-crypto/src/error.rs: the kinds of error of the crate. An `Error` is modelled by its kind;
-- its message text and its cause are left out.
use iviadc_aries_askar.Base.{String}

pub data ErrorKind : Type 0 where
  custom encryption exceeded_buffer invalid invalid_key_data invalid_nonce missing_secret_key
        unexpected usage unsupported :
      ErrorKind

unfoldable pub as_str : ErrorKind → String
as_str custom = "Custom error"
as_str encryption = "Encryption error"
as_str exceeded_buffer = "Exceeded buffer size"
as_str invalid = "Invalid input"
as_str invalid_nonce = "Invalid encryption nonce"
as_str invalid_key_data = "Invalid key data"
as_str missing_secret_key = "Missing secret key"
as_str unexpected = "Unexpected error"
as_str usage = "Usage error"
as_str unsupported = "Unsupported"
