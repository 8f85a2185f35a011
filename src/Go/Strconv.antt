-- ===== src/Go/Strconv.antt =====
-- strconv.ParseInt in base 10 (Atoi is ParseInt at 64 bits), and the verbs %d, %x and %04x of fmt.
pub mod Laws
use id_core.Prelude.{
  ℕ, zero, suc, ◌+◌, ◌-◌, ◌*◌, ◌/◌, ◌%◌, ◌^◌, List, [], ◌∷◌, ◌++◌, Bool, true, false, not, ◌&&◌,
  ◌||◌, ltb, leb, ◌==◌, if◌then◌else◌, Result, ok, err, ◌>>=◌, length,
}
use id_core.Prelude.Int.{ℤ, pos, negsuc}
use id_core.Go.Bytes.{Bytes}

-- strconv.ErrSyntax and strconv.ErrRange.
pub data NumError : Type 0 where
  syntax range : NumError

abbrev pub is_digit : ℕ → Bool
is_digit c = leb b'0' c && leb c b'9'

-- The loop of ParseUint: the check against the cutoff stands before the multiplication.
unfoldable pub parse_digits : ℕ → ℕ → Bytes → Result NumError ℕ
parse_digits max n [] = ok n
parse_digits max n (c ∷ s) =
    if not (is_digit c)
    then err syntax
    else if leb (18446744073709551615 / 10 + 1) n
    then err range
    else if ltb max (n * 10 + (c - b'0'))
    then err range
    else parse_digits max (n * 10 + (c - b'0')) s

unfoldable pub parse_uint : ℕ → Bytes → Result NumError ℕ
unfolding parse_digits
parse_uint max [] = err syntax
parse_uint max (c ∷ s) = parse_digits max 0 (c ∷ s)

-- The signed value of a magnitude; `half` is 2^(bits - 1).
abbrev pub signed : ℕ → Bool → ℕ → Result NumError ℤ
signed half false n = if leb half n then err range else ok (pos n)
signed half true zero = ok (pos 0)
signed half true (suc n) = if ltb half (suc n) then err range else ok (negsuc n)

-- ParseInt after the sign has been read.
unfoldable pub parse_magnitude : ℕ → Bool → Bytes → Result NumError ℤ
parse_magnitude half neg s = parse_uint (2 * half - 1) s >>= signed half neg

unfoldable pub parse_int : ℕ → Bytes → Result NumError ℤ
parse_int half [] = err syntax
parse_int half (c ∷ s) =
    if c == b'+'
    then parse_magnitude half false s
    else if c == b'-'
    then parse_magnitude half true s
    else parse_magnitude half false (c ∷ s)

abbrev pub int64_half : ℕ
int64_half = 2 ^ 63

abbrev pub int32_half : ℕ
int32_half = 2 ^ 31

unfoldable pub atoi : Bytes → Result NumError ℤ
atoi s = parse_int int64_half s

-- The digits of a number in a base, with fuel for the number of digits.
unfoldable pub print_digits : (ℕ → ℕ) → ℕ → ℕ → ℕ → Bytes
print_digits digit base zero n = []
print_digits digit base (suc fuel) n =
    let rest = print_digits digit base fuel (n / base) ++ digit (n % base) ∷ [] in
    if ltb n base then digit n ∷ [] else rest

abbrev pub decimal_digit : ℕ → ℕ
decimal_digit d = b'0' + d

abbrev pub hex_digit : ℕ → ℕ
hex_digit d = if ltb d 10 then b'0' + d else b'a' + (d - 10)

-- %d of a number that is not negative; a number has no more digits than its successor counts.
unfoldable pub decimal : ℕ → Bytes
unfolding print_digits
decimal n = print_digits decimal_digit 10 (suc n) n

-- %x of a 32-bit number: eight digits are enough.
unfoldable pub hex : ℕ → Bytes
unfolding print_digits
hex n = print_digits hex_digit 16 8 n

abbrev pub zeros : ℕ → Bytes
zeros zero = []
zeros (suc n) = b'0' ∷ zeros n

-- %04x.
unfoldable pub hex_four : ℕ → Bytes
unfolding hex
hex_four n = zeros (4 - length (hex n)) ++ hex n
