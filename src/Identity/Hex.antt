-- ===== src/Identity/Hex.antt =====
-- `hex.DecodeString` as the commands use it, against `hex.EncodeToString`.
use pelagos.Base.{
  ℕ, ◌+◌, ◌-◌, ◌*◌, ◌/◌, ◌%◌, ◌<◌, ◌≡◌, refl, List, [], ◌∷◌, ◌&&◌, leb, Option, none, some,
  if◌then◌else◌, All, arith,
}
use pelagos.Base.Bytes.{IsByte}
use pelagos.Identity.Format.{hex_digit, hex_encode}

-- The value of a digit of either case.
unfoldable pub hex_value : ℕ → Option ℕ
hex_value ch =
    if leb b'0' ch && leb ch b'9'
    then some (ch - b'0')
    else if leb b'a' ch && leb ch b'f'
    then some (ch - b'a' + 10)
    else if leb b'A' ch && leb ch b'F'
    then some (ch - b'A' + 10)
    else none

abbrev pub hex_pair : Option ℕ → Option ℕ → Option (List ℕ) → Option (List ℕ)
hex_pair none lo rest = none
hex_pair (some hi) none rest = none
hex_pair (some hi) (some lo) none = none
hex_pair (some hi) (some lo) (some rest) = some ((hi * 16 + lo) ∷ rest)

-- An odd number of characters is refused, and so is one that is no digit.
unfoldable pub hex_decode : List ℕ → Option (List ℕ)
unfolding hex_value
hex_decode [] = some []
hex_decode (x ∷ []) = none
hex_decode (x ∷ y ∷ xs) = hex_pair (hex_value x) (hex_value y) (hex_decode xs)

hex_value-hex_digit : (d : ℕ) → d < 16 → hex_value (hex_digit d) ≡ some d
unfolding hex_value hex_digit
hex_value-hex_digit d h = ground arith

-- Bytes that are written in hexadecimal are read back.
pub hex_decode-hex_encode : (b : List ℕ) → All IsByte b → hex_decode (hex_encode b) ≡ some b
unfolding hex_decode hex_encode
hex_decode-hex_encode [] h = refl
hex_decode-hex_encode (x ∷ xs) (h, k) =
    let joined : x / 16 * 16 + x % 16 ≡ x = omega arith in
    rw (
      hex_value-hex_digit (x / 16) (omega arith),
      hex_value-hex_digit (x % 16) (omega arith),
      hex_decode-hex_encode xs k,
      joined,
    )
