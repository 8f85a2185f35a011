-- ===== src/Tests/ApperrorRuns.antt =====
-- core/internal/apperror on concrete errors.
use id_core.Prelude.{some, ◌≡◌, refl}
use id_core.Go.Bytes.{bytes}
use id_core.Apperror.{CodedError, new, wrap, error_text}

abbrev refused_request : CodedError
refused_request = new (bytes "INVALID_REQUEST") (bytes "bad")

cause_in_text :
    error_text (wrap refused_request (some (bytes "eof"))) ≡ bytes "INVALID_REQUEST: bad: eof"
unfolding error_text wrap new
cause_in_text = refl
