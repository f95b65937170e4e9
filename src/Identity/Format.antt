-- ===== src/Identity/Format.antt =====
-- `FormattedFingerprint` of identity.go: upper-case hexadecimal digits in pairs, joined by colons.
use pelagos.Base.{
  ℕ, ◌+◌, ◌-◌, ◌*◌, ◌/◌, ◌%◌, ◌<◌, ◌≡◌, refl, ap, ap₂, List, [], ◌∷◌, ◌++◌, ltb, leb, ◌&&◌,
  if◌then◌else◌, length, All, arith,
}
use pelagos.Base.Bytes.{IsByte}

-- A digit of `hex.EncodeToString`.
unfoldable pub hex_digit : ℕ → ℕ
hex_digit d = if ltb d 10 then d + b'0' else d - 10 + b'a'

-- `hex.EncodeToString`.
unfoldable pub hex_encode : List ℕ → List ℕ
unfolding hex_digit
hex_encode [] = []
hex_encode (x ∷ xs) = hex_digit (x / 16) ∷ hex_digit (x % 16) ∷ hex_encode xs

-- `strings.ToUpper`, on ASCII.
unfoldable pub upper : ℕ → ℕ
upper ch = if leb b'a' ch && leb ch b'z' then ch - 32 else ch

unfoldable pub to_upper : List ℕ → List ℕ
unfolding upper
to_upper [] = []
to_upper (x ∷ xs) = upper x ∷ to_upper xs

-- The loop over the string by two: `hexStr[i:i+2]`. An odd string would end the loop by a panic; the
-- digits of bytes are even in number.
unfoldable pub split_pairs : List ℕ → List (List ℕ)
split_pairs [] = []
split_pairs (x ∷ []) = []
split_pairs (x ∷ y ∷ xs) = (x ∷ y ∷ []) ∷ split_pairs xs

-- `strings.Join(parts, ":")`.
unfoldable pub join_colon : List (List ℕ) → List ℕ
join_colon [] = []
join_colon (p ∷ []) = p
join_colon (p ∷ q ∷ ps) = p ++ (b':' ∷ join_colon (q ∷ ps))

unfoldable pub format_fingerprint : List ℕ → List ℕ
unfolding hex_encode to_upper split_pairs join_colon
format_fingerprint fp = join_colon (split_pairs (to_upper (hex_encode fp)))

-- The two digits of one byte, as they are shown.
shown : ℕ → ℕ
unfolding upper hex_digit
shown d = upper (hex_digit d)

shown-injective : (d e : ℕ) → d < 16 → e < 16 → shown d ≡ shown e → d ≡ e
unfolding shown
shown-injective d e h k eq = ground arith

byte_of_shown :
    (x y : ℕ)
    → x < 256
    → y < 256
    → shown (x / 16) ≡ shown (y / 16)
    → shown (x % 16) ≡ shown (y % 16)
    → x ≡ y
byte_of_shown x y h k e f = omega (
  arith,
  shown-injective (x / 16) (y / 16) (omega arith) (omega arith) e,
  shown-injective (x % 16) (y % 16) (omega arith) (omega arith) f,
)

format_cons :
    (x y : ℕ) (xs : List ℕ)
    → format_fingerprint (x ∷ y ∷ xs)
      ≡ shown (x / 16) ∷ shown (x % 16) ∷ b':' ∷ format_fingerprint (y ∷ xs)
unfolding format_fingerprint shown
format_cons x y xs = refl

format_one : (x : ℕ) → format_fingerprint (x ∷ []) ≡ shown (x / 16) ∷ shown (x % 16) ∷ []
unfolding format_fingerprint shown
format_one x = refl

-- A fingerprint of n bytes is shown in 3n - 1 characters: 95 for 32 bytes.
pub length-format_fingerprint :
    (x : ℕ) (xs : List ℕ) → length (format_fingerprint (x ∷ xs)) ≡ 3 * length xs + 2
length-format_fingerprint x [] = ap length (format_one x)
length-format_fingerprint x (y ∷ xs) =
    omega (arith, ap (length {A = ℕ}) (format_cons x y xs), length-format_fingerprint y xs)

-- Fingerprints that look the same to a user are the same: the shown text determines the bytes.
pub format_fingerprint-injective :
    (xs ys : List ℕ)
    → All IsByte xs
    → All IsByte ys
    → format_fingerprint xs ≡ format_fingerprint ys
    → xs ≡ ys
format_fingerprint-injective [] [] h k e = refl
format_fingerprint-injective [] (y ∷ ys) h k e =
    absurd (omega (arith, ap (length {A = ℕ}) e, length-format_fingerprint y ys, nil_length))
  where
    nil_length : length (format_fingerprint []) ≡ 0
    nil_length = unfold format_fingerprint in refl
format_fingerprint-injective (x ∷ xs) [] h k e =
    absurd (omega (arith, ap (length {A = ℕ}) e, length-format_fingerprint x xs, nil_length))
  where
    nil_length : length (format_fingerprint []) ≡ 0
    nil_length = unfold format_fingerprint in refl
format_fingerprint-injective (x ∷ []) (y ∷ []) h k e =
    let same : shown (x / 16) ∷ shown (x % 16) ∷ [] ≡ shown (y / 16) ∷ shown (y % 16) ∷ [] =
      cc (e, format_one x, format_one y) in
    ap (λ (b : ℕ). b ∷ []) (byte_of_shown x y h.0 k.0 (cc same) (cc same))
format_fingerprint-injective (x ∷ []) (y ∷ y' ∷ ys) h k e = absurd (
    omega (
      arith,
      ap (length {A = ℕ}) e,
      length-format_fingerprint x [],
      length-format_fingerprint y (y' ∷ ys),
    ))
format_fingerprint-injective (x ∷ x' ∷ xs) (y ∷ []) h k e = absurd (
    omega (
      arith,
      ap (length {A = ℕ}) e,
      length-format_fingerprint y [],
      length-format_fingerprint x (x' ∷ xs),
    ))
format_fingerprint-injective (x ∷ x' ∷ xs) (y ∷ y' ∷ ys) h k e =
    let same : shown (x / 16) ∷ shown (x % 16) ∷ b':' ∷ format_fingerprint (x' ∷ xs)
        ≡ shown (y / 16) ∷ shown (y % 16) ∷ b':' ∷ format_fingerprint (y' ∷ ys) =
      cc (e, format_cons x x' xs, format_cons y y' ys) in
    ap₂ ◌∷◌ (byte_of_shown x y h.0 k.0 (cc same) (cc same))
      (format_fingerprint-injective (x' ∷ xs) (y' ∷ ys) h.1 k.1 (cc same))
