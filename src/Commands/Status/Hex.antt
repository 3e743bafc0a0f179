-- ===== src/Commands/Status/Hex.antt =====
-- The hash as src/commands/status.rs prints it, and its bytes.
use schelk.Base.{
  ℕ, ◌+◌, ◌*◌, ◌-◌, ◌/◌, ◌%◌, ◌<◌, ◌≡◌, refl, ap, ◌∙◌, List, [], ◌∷◌, ◌++◌, All, leb, if◌then◌else◌,
  arith,
}
use schelk.Base.Text.{◌<>◌, codes}
use schelk.Base.Text.Decimal.{codes-append, Below, below_elem}
use schelk.Commands.Status.{hex_digit, hex_encode}

-- The value of a digit.
abbrev pub hex_value : ℕ → ℕ
hex_value c = if leb c b'9' then c - b'0' else c - b'a' + 10

-- Two digits to a byte.
abbrev pub hex_decode : List ℕ → List ℕ
hex_decode [] = []
hex_decode (c ∷ []) = []
hex_decode (c ∷ d ∷ cs) = (hex_value c * 16 + hex_value d) ∷ hex_decode cs

-- A digit is one character, of its value.
record IsPrinted (n : ℕ) : Type 0 where
  char : ℕ
  printed : codes (hex_digit n) ≡ char ∷ []
  value : hex_value char ≡ n

hex_digits : Below IsPrinted 16
unfolding hex_digit
hex_digits = (
  (
    (
      (
        (
          (
            (
              (
                (
                  (
                    (
                      (
                        (
                          (
                            (
                              (tt, record { char = b'0'; printed = refl; value = refl }),
                              record { char = b'1'; printed = refl; value = refl },
                            ),
                            record { char = b'2'; printed = refl; value = refl },
                          ),
                          record { char = b'3'; printed = refl; value = refl },
                        ),
                        record { char = b'4'; printed = refl; value = refl },
                      ),
                      record { char = b'5'; printed = refl; value = refl },
                    ),
                    record { char = b'6'; printed = refl; value = refl },
                  ),
                  record { char = b'7'; printed = refl; value = refl },
                ),
                record { char = b'8'; printed = refl; value = refl },
              ),
              record { char = b'9'; printed = refl; value = refl },
            ),
            record { char = b'a'; printed = refl; value = refl },
          ),
          record { char = b'b'; printed = refl; value = refl },
        ),
        record { char = b'c'; printed = refl; value = refl },
      ),
      record { char = b'd'; printed = refl; value = refl },
    ),
    record { char = b'e'; printed = refl; value = refl },
  ),
  record { char = b'f'; printed = refl; value = refl },
)

hex_digit-IsPrinted : (n : ℕ) → n < 16 → IsPrinted n
hex_digit-IsPrinted n h = below_elem IsPrinted 16 n hex_digits h

-- The hash as `status` prints it, two lowercase hexadecimal digits to a byte, gives the bytes back.
pub hex_decode-hex_encode :
    (bytes : List ℕ) → All (λ b. b < 256) bytes → hex_decode (codes (hex_encode bytes)) ≡ bytes
unfolding hex_encode
hex_decode-hex_encode [] h = refl
hex_decode-hex_encode (b ∷ bytes) (small, rest) =
    let high = hex_digit-IsPrinted (b / 16) (omega arith) in
    let low = hex_digit-IsPrinted (b % 16) (omega arith) in
    let tail = hex_encode bytes in
    let two =
      codes-append (hex_digit (b / 16)) (hex_digit (b % 16) <> tail)
      ∙ ap (λ cs. cs ++ codes (hex_digit (b % 16) <> tail)) high.printed
      ∙ ap (λ cs. high.char ∷ cs)
          (codes-append (hex_digit (b % 16)) tail ∙ ap (λ cs. cs ++ codes tail) low.printed) in
    let byte : hex_value high.char * 16 + hex_value low.char ≡ b =
      omega (arith, high.value, low.value) in
    ap hex_decode two
    ∙ ap (λ v. v ∷ hex_decode (codes tail)) byte
    ∙ ap (λ bs. b ∷ bs) (hex_decode-hex_encode bytes rest)
