-- ===== src/Decimal/Printed.antt =====
-- The parser on texts of digits, as amounts are printed.
use rule_arena.Common.{
  ℕ, zero, suc, ◌+◌, ◌-◌, ◌*◌, ◌/◌, ◌%◌, ◌<◌, ◌≡◌, refl, ap, ◌∙◌, true, false, Bool-cases, inl, inr,
  some, List, [], ◌∷◌, ◌++◌, All, All-append, ltb, ltb→lt, ltb→le, ◌==◌, String, arith,
}
use rule_arena.Common.Int.{negsuc, ◌-ℤ◌}
use rule_arena.Common.Text.{codes, join, digit_text, show_digits, show_nat}
use Prim.Native.Char.{code}
use mathlib.Core.List.{append_assoc}
use text.Mathlib.TextLemmas.{nil-append, cons-append}
use rule_arena.Decimal.{
  parse_decimal, is_space, is_digit, is_blank, strip, strip_front, strip_back, without_underscores,
  take_sign, take_digits, take_fraction, take_exponent, finish_decimal,
}

codes-join : (s t : String) → codes (join s t) ≡ codes s ++ codes t
codes-join String.[] t = ap codes (nil-append t)
codes-join (String.◌∷◌ c s) t = ap codes (cons-append c s t) ∙ ap (λ l. code c ∷ l) (codes-join s t)

codes-digit_text : (n : ℕ) → n < 10 → codes (digit_text n) ≡ (n + 48) ∷ []
unfolding digit_text
codes-digit_text zero h = refl
codes-digit_text (suc zero) h = refl
codes-digit_text (suc (suc zero)) h = refl
codes-digit_text (suc (suc (suc zero))) h = refl
codes-digit_text (suc (suc (suc (suc zero)))) h = refl
codes-digit_text (suc (suc (suc (suc (suc zero))))) h = refl
codes-digit_text (suc (suc (suc (suc (suc (suc zero)))))) h = refl
codes-digit_text (suc (suc (suc (suc (suc (suc (suc zero))))))) h = refl
codes-digit_text (suc (suc (suc (suc (suc (suc (suc (suc zero)))))))) h = refl
codes-digit_text (suc (suc (suc (suc (suc (suc (suc (suc (suc zero))))))))) h = refl
codes-digit_text (suc (suc (suc (suc (suc (suc (suc (suc (suc (suc n)))))))))) h =
    absurd (omega (arith, h))

-- Characters that are neither white space nor an underscore nor a sign.
record IsPlain (c : ℕ) : Type 0 where
  no_space : is_space c ≡ false
  no_underscore : (c == 95) ≡ false
  no_minus : (c == 45) ≡ false
  no_plus : (c == 43) ≡ false

digit-IsPlain : (n : ℕ) → n < 10 → IsPlain (n + 48)
unfolding is_space
digit-IsPlain n h = record {
  no_space = ground arith;
  no_underscore = ground arith;
  no_minus = ground arith;
  no_plus = ground arith;
}

digit_text-IsPlain : (n : ℕ) → n < 10 → All IsPlain (codes (digit_text n))
digit_text-IsPlain n h = rw (codes-digit_text n h) (digit-IsPlain n h, tt)

take_digits-digit :
    (acc k n m : ℕ) (rest : List ℕ)
    → n < 10
    → acc * 10 + n ≡ m
    → take_digits acc k ((n + 48) ∷ rest) ≡ take_digits m (k + 1) rest
unfolding take_digits is_digit
take_digits-digit acc k n m rest h e =
    let digit : is_digit (n + 48) ≡ true = ground arith in
    let back : acc * 10 + ((n + 48) - 48) ≡ m = omega (arith, e) in rw (digit, back)

-- The digits of a number are read back in front of whatever follows.
take_digits-show_digits :
    (f n : ℕ) (rest : List ℕ)
    → n < f
    → (k : ℕ) × (take_digits 0 0 (codes (show_digits f n) ++ rest) ≡ take_digits n (k + 1) rest)
unfolding show_digits
take_digits-show_digits zero n rest h = absurd (omega (arith, h))
take_digits-show_digits (suc f) n rest h = elim (Bool-cases (ltb n 10)) [
  | inl e ↦
      let small = ltb→lt n 10 e in
      (0, rw (e, codes-digit_text n small) (take_digits-digit 0 0 n n rest small (omega arith)))
  | inr e ↦
      let low : n % 10 < 10 = omega arith in
      let shorter : n / 10 < f = omega (arith, h, ltb→le n 10 e) in
      let (k, before) = take_digits-show_digits f (n / 10) ((n % 10 + 48) ∷ rest) shorter in
      let whole : n / 10 * 10 + n % 10 ≡ n = omega arith in
      (
        k + 1,
        rw e (
            ap (λ front. take_digits 0 0 (front ++ rest))
              (codes-join (show_digits f (n / 10)) (digit_text (n % 10))
                ∙ ap (λ d. codes (show_digits f (n / 10)) ++ d) (codes-digit_text (n % 10) low))
            ∙ ap (take_digits 0 0)
                (append_assoc (codes (show_digits f (n / 10))) ((n % 10 + 48) ∷ []) rest)
            ∙ before
            ∙ take_digits-digit (n / 10) (k + 1) (n % 10) n rest low whole),
      )
]

show_digits-IsPlain : (f n : ℕ) → n < f → All IsPlain (codes (show_digits f n))
unfolding show_digits
show_digits-IsPlain zero n h = absurd (omega (arith, h))
show_digits-IsPlain (suc f) n h = elim (Bool-cases (ltb n 10)) [
  | inl e ↦ rw e (digit_text-IsPlain n (ltb→lt n 10 e))
  | inr e ↦ rw e (
      rw (codes-join (show_digits f (n / 10)) (digit_text (n % 10))) (
        All-append IsPlain (codes (show_digits f (n / 10))) (codes (digit_text (n % 10)))
          (show_digits-IsPlain f (n / 10) (omega (arith, h, ltb→le n 10 e)))
          (digit_text-IsPlain (n % 10) (omega arith))))
]

strip_front-IsPlain : (cs : List ℕ) → All IsPlain cs → strip_front cs ≡ cs
unfolding strip_front
strip_front-IsPlain [] h = refl
strip_front-IsPlain (c ∷ cs) (p, h) = rw p.no_space

strip_back-IsPlain : (cs : List ℕ) → All IsPlain cs → strip_back cs ≡ cs
unfolding strip_back is_blank
strip_back-IsPlain [] h = refl
strip_back-IsPlain (c ∷ cs) (p, h) = rw (p.no_space, strip_back-IsPlain cs h)

strip-IsPlain : (cs : List ℕ) → All IsPlain cs → strip cs ≡ cs
unfolding strip
strip-IsPlain cs h = rw (strip_front-IsPlain cs h, strip_back-IsPlain cs h)

without_underscores-IsPlain : (cs : List ℕ) → All IsPlain cs → without_underscores cs ≡ cs
unfolding without_underscores
without_underscores-IsPlain [] h = refl
without_underscores-IsPlain (c ∷ cs) (p, h) = rw (p.no_underscore, without_underscores-IsPlain cs h)

take_sign-IsPlain : (cs : List ℕ) → All IsPlain cs → take_sign cs ≡ (false, cs)
unfolding take_sign
take_sign-IsPlain [] h = refl
take_sign-IsPlain (c ∷ cs) (p, h) = rw (p.no_minus, p.no_plus)

point-IsPlain : IsPlain 46
unfolding is_space
point-IsPlain = record { no_space = refl; no_underscore = refl; no_minus = refl; no_plus = refl }

take_fraction-point :
    (acc b c : ℕ)
    → b < 10
    → c < 10
    → take_fraction acc (46 ∷ (b + 48) ∷ (c + 48) ∷ []) ≡ ((acc * 10 + b) * 10 + c, 2, [])
unfolding take_fraction take_digits
take_fraction-point acc b c hb hc =
    take_digits-digit acc 0 b (acc * 10 + b) ((c + 48) ∷ []) hb refl
    ∙ take_digits-digit (acc * 10 + b) 1 c ((acc * 10 + b) * 10 + c) [] hc refl

module _ (a b c : ℕ) (hb : b < 10) (hc : c < 10) where
  printed : List ℕ
  printed = codes (show_nat a) ++ 46 ∷ (b + 48) ∷ (c + 48) ∷ []

  codes-printed :
      codes (join (show_nat a) (join "." (join (digit_text b) (digit_text c)))) ≡ printed
  unfolding printed
  codes-printed =
      codes-join (show_nat a) (join "." (join (digit_text b) (digit_text c)))
      ∙ ap (λ l. codes (show_nat a) ++ l)
          (codes-join "." (join (digit_text b) (digit_text c))
            ∙ ap (λ l. 46 ∷ l)
                (codes-join (digit_text b) (digit_text c)
                  ∙ rw (codes-digit_text b hb, codes-digit_text c hc)))

  printed-IsPlain : All IsPlain printed
  unfolding printed show_nat
  printed-IsPlain =
      All-append IsPlain (codes (show_nat a)) (46 ∷ (b + 48) ∷ (c + 48) ∷ [])
        (show_digits-IsPlain (suc a) a (omega arith))
        (point-IsPlain, (digit-IsPlain b hb, (digit-IsPlain c hc, tt)))

  take_digits-printed :
      (k : ℕ) × (take_digits 0 0 printed ≡ (a, k + 1, 46 ∷ (b + 48) ∷ (c + 48) ∷ []))
  unfolding printed show_nat take_digits is_digit
  take_digits-printed =
      let (k, read) =
        take_digits-show_digits (suc a) a (46 ∷ (b + 48) ∷ (c + 48) ∷ []) (omega arith) in
      (k, read)

  -- A number with two decimal places is read back as it was printed.
  pub parse_decimal-two_places :
      parse_decimal (codes (join (show_nat a) (join "." (join (digit_text b) (digit_text c)))))
      ≡ some (record { negative = false; coefficient = (a * 10 + b) * 10 + c; exponent = negsuc 1 })
  unfolding parse_decimal take_exponent finish_decimal ◌-ℤ◌
  parse_decimal-two_places =
      let (k, digits) = take_digits-printed in
      let some_digits : (k + 1 + 2 == 0) ≡ false = ground arith in
      rw (
        codes-printed,
        strip-IsPlain printed printed-IsPlain,
        without_underscores-IsPlain printed printed-IsPlain,
        take_sign-IsPlain printed printed-IsPlain,
        digits,
        take_fraction-point a b c hb hc,
        some_digits,
      )
