-- ===== src/Wire/Errors.antt =====
-- The decoding errors (internal/wire/errors.go, and ErrFlowHeader of dgram.go).
use rendr.Common.{Result}

pub data Error : Type 0 where
  err_short err_trailing err_magic err_major err_feature err_malformed err_crc : Error
  err_type err_flags err_handle err_length err_reserved err_value err_flow_header : Error

-- Go's `(value, error)` pair, in which an error comes with the zero value.
abbrev pub Decoded {ℓ} : Type ℓ → Type ℓ
Decoded A = Result Error A
