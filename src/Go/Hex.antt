-- ===== src/Go/Hex.antt =====
-- hex.EncodeToString.
use id_core.Prelude.{◌/◌, ◌%◌, [], ◌∷◌}
use id_core.Go.Bytes.{Bytes}
use id_core.Go.Strconv.{hex_digit}

unfoldable pub hex_encode : Bytes → Bytes
hex_encode [] = []
hex_encode (b ∷ s) = hex_digit (b / 16) ∷ hex_digit (b % 16) ∷ hex_encode s
