-- ===== src/Storage/Error.antt =====
-- askar-storage/src/error.rs: the kinds of error of the crate. An `Error` is modelled by its kind; its
-- message text and its cause are left out.
use iviadc_aries_askar.Base.{String}
use iviadc_aries_askar.Crypto.Error as Crypto

pub data ErrorKind : Type 0 where
  backend busy custom duplicate encryption input not_found unexpected unsupported : ErrorKind

unfoldable pub as_str : ErrorKind → String
as_str backend = "Backend error"
as_str busy = "Busy"
as_str custom = "Custom error"
as_str duplicate = "Duplicate"
as_str encryption = "Encryption error"
as_str input = "Input error"
as_str not_found = "Not found"
as_str unexpected = "Unexpected error"
as_str unsupported = "Unsupported"

-- `impl From<CryptoError> for Error`
unfoldable pub from_crypto : Crypto.ErrorKind → ErrorKind
from_crypto Crypto.custom = custom
from_crypto Crypto.encryption = encryption
from_crypto Crypto.exceeded_buffer = unexpected
from_crypto Crypto.unexpected = unexpected
from_crypto Crypto.invalid = input
from_crypto Crypto.invalid_key_data = input
from_crypto Crypto.invalid_nonce = input
from_crypto Crypto.missing_secret_key = input
from_crypto Crypto.usage = input
from_crypto Crypto.unsupported = unsupported
