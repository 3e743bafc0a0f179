-- ===== src/Base/Text/Decimal.antt =====
-- Numbers in decimal: `decimal` prints them, `parse_unsigned` reads them.
use Prim.Native.Char.{code}
use Prim.Native.String.append
use schelk.Base.{
  ℕ, zero, suc, ◌+◌, ◌*◌, ◌/◌, ◌%◌, ◌<◌, ◌^◌, ◌≡◌, refl, sym, ap, ◌∙◌, List, [], ◌∷◌, ◌++◌, true,
  ltb, ltb→lt, ◌==◌, ==_iff, Bool-cases, inl, inr, subst, arith, some,
}
use schelk.Base.Text.{
  String, ◌<>◌, codes, is_digit, digit_text, decimal_loop, decimal, parse_digits, parse_unsigned,
}

pub codes-append : (s t : String) → codes (s <> t) ≡ codes s ++ codes t
codes-append String.[] t = ap codes (append.nil t)
codes-append (String.◌∷◌ c s) t =
    ap codes (append.cons c s t) ∙ ap (λ cs. code c ∷ cs) (codes-append s t)

-- It holds of every number below the bound.
abbrev pub Below : (ℕ → Type 0) → ℕ → Type 0
Below P zero = Unit {0}
Below P (suc k) = Below P k × P k

pub below_elem : (P : ℕ → Type 0) (k n : ℕ) → Below P k → n < k → P n
below_elem P zero n h lt = absurd (omega (arith, lt))
below_elem P (suc k) n h lt = elim (Bool-cases (n == k)) [
  | inl e ↦ subst P (sym ((==_iff n k).0 e)) h.1
  | inr e ↦ below_elem P k n h.0 (ground arith)
]

-- A digit is one character.
abbrev IsDigitText : ℕ → Type 0
IsDigitText d = codes (digit_text d) ≡ (b'0' + d) ∷ []

digit_texts : Below IsDigitText 10
digit_texts = (((((((((((tt, refl), refl), refl), refl), refl), refl), refl), refl), refl), refl))

codes-digit_text :
    (d : ℕ) (rest : String) → d < 10 → codes (digit_text d <> rest) ≡ (b'0' + d) ∷ codes rest
codes-digit_text d rest h =
    codes-append (digit_text d) rest
    ∙ ap (λ cs. cs ++ codes rest) (below_elem IsDigitText 10 d digit_texts h)

-- One more digit is read.
parse_digits-digit :
    (bound acc d : ℕ) (cs : List ℕ)
    → d < 10
    → acc * 10 + d < bound
    → parse_digits bound acc ((b'0' + d) ∷ cs) ≡ parse_digits bound (acc * 10 + d) cs
unfolding parse_digits
parse_digits-digit bound acc d cs h fits = ground arith

-- The digits that the loop puts in front of a text are read as the number.
parse-decimal_loop :
    (fuel bound n : ℕ) (rest : String)
    → n < bound
    → n < 10 ^ fuel
    → parse_digits bound 0 (codes (decimal_loop fuel n rest)) ≡ parse_digits bound n (codes rest)
unfolding decimal_loop
parse-decimal_loop zero bound n rest h small =
    ap (λ k. parse_digits bound k (codes rest)) (omega arith)
parse-decimal_loop (suc fuel) bound n rest h small = elim (Bool-cases (ltb n 10)) [
  | inl one ↦
      let lt = ltb→lt n 10 one in
      rw (decimal_loop, one)
        (ap (parse_digits bound 0) (codes-digit_text n rest lt)
          ∙ parse_digits-digit bound 0 n (codes rest) lt (omega arith)
          ∙ ap (λ k. parse_digits bound k (codes rest)) (omega arith))
  | inr more ↦
      let next = digit_text (n % 10) <> rest in
      let whole : n / 10 * 10 + n % 10 ≡ n = omega arith in
      rw (decimal_loop, more)
        (parse-decimal_loop fuel bound (n / 10) next (omega arith) (omega arith)
          ∙ ap (parse_digits bound (n / 10)) (codes-digit_text (n % 10) rest (omega arith))
          ∙ parse_digits-digit bound (n / 10) (n % 10) (codes rest) (omega arith) (omega arith)
          ∙ ap (λ k. parse_digits bound k (codes rest)) whole)
]

-- The text is not empty, and begins with a digit.
record Begins (text : String) : Type 0 where
  first : ℕ
  others : List ℕ
  printed : codes text ≡ first ∷ others
  digit : is_digit first ≡ true

digit_text-Begins : (d : ℕ) (rest : String) → d < 10 → Begins (digit_text d <> rest)
digit_text-Begins d rest h = record {
  first = b'0' + d;
  others = codes rest;
  printed = codes-digit_text d rest h;
  digit = ground arith;
}

decimal_loop-Begins : (fuel n : ℕ) (rest : String) → Begins rest → Begins (decimal_loop fuel n rest)
unfolding decimal_loop
decimal_loop-Begins zero n rest b = b
decimal_loop-Begins (suc fuel) n rest b = elim (Bool-cases (ltb n 10)) [
  | inl one ↦ rw (decimal_loop, one) (digit_text-Begins n rest (ltb→lt n 10 one))
  | inr more ↦
      rw (decimal_loop, more)
        (decimal_loop-Begins fuel (n / 10) (digit_text (n % 10) <> rest)
          (digit_text-Begins (n % 10) rest (omega arith)))
]

decimal-Begins : (n : ℕ) → Begins (decimal n)
unfolding decimal decimal_loop
decimal-Begins n = elim (Bool-cases (ltb n 10)) [
  | inl one ↦ rw (decimal, decimal_loop, one) (digit_text-Begins n "" (ltb→lt n 10 one))
  | inr more ↦
      rw (decimal, decimal_loop, more)
        (decimal_loop-Begins 19 (n / 10) (digit_text (n % 10) <> "")
          (digit_text-Begins (n % 10) "" (omega arith)))
]

parse_unsigned-digit :
    (bound c : ℕ) (cs : List ℕ)
    → is_digit c ≡ true
    → parse_unsigned bound (c ∷ cs) ≡ parse_digits bound 0 (c ∷ cs)
unfolding parse_unsigned
parse_unsigned-digit bound c [] h = refl
parse_unsigned-digit bound c (d ∷ cs) h = ground arith

-- A number below the bound, and below the bound of a u64, that is printed is parsed as itself.
pub parse_unsigned-decimal :
    (bound n : ℕ) → n < bound → n < 2 ^ 64 → parse_unsigned bound (codes (decimal n)) ≡ some n
unfolding decimal parse_digits
parse_unsigned-decimal bound n h small =
    let b = decimal-Begins n in
    ap (parse_unsigned bound) b.printed
    ∙ parse_unsigned-digit bound b.first b.others b.digit
    ∙ sym (ap (parse_digits bound 0) b.printed)
    ∙ parse-decimal_loop 20 bound n "" h (omega arith)
