-- ===== src/SecureSocket/Decimal.antt =====
-- Python's str and int of a length, as bytes of ASCII. Of the forms that `int` takes, the ones with
-- digits only, which `str` writes.
use lnst.Prelude.{
  ℕ, zero, suc, ◌+◌, ◌-◌, ◌*◌, ◌/◌, ◌%◌, ◌<◌, ◌≡◌, ◌≢◌, refl, ap, ◌∙◌, List, [], ◌∷◌, ◌++◌, Bool,
  false, ◌&&◌, arith, ltb, leb, nat_beq, All, All-append, Bool-cases, inl, inr, if◌then◌else◌,
}
use lnst.Prelude.Exc.{Result, ok, err, value_error}

digits : ℕ → ℕ → List ℕ
digits zero n = []
digits (suc fuel) n =
    let rest = digits fuel (n / 10) in
    if ltb n 10 then (48 + n) ∷ [] else rest ++ ((48 + n % 10) ∷ [])

-- str(n), which has at most n + 1 digits
unfoldable pub decimal : ℕ → List ℕ
unfolding digits
decimal n = digits (suc n) n

abbrev is_digit : ℕ → Bool
is_digit c = leb 48 c && leb c 57

value_from : ℕ → List ℕ → Result ℕ
value_from acc [] = ok acc
value_from acc (c ∷ cs) =
    let rest = value_from (acc * 10 + (c - 48)) cs in if is_digit c then rest else err value_error

unfoldable pub to_int : List ℕ → Result ℕ
unfolding value_from
to_int [] = err value_error
to_int (c ∷ cs) = value_from 0 (c ∷ cs)

value_from-append :
    (xs : List ℕ) (acc v d : ℕ)
    → value_from acc xs ≡ ok v
    → d < 10
    → value_from acc (xs ++ ((48 + d) ∷ [])) ≡ ok (v * 10 + d)
unfolding value_from
value_from-append [] acc v d h less = ground (arith, h, less)
value_from-append (c ∷ xs) acc v d h less = elim (Bool-cases (is_digit c)) [
  | inl digit ↦
      rw (value_from, digit)
        (value_from-append xs (acc * 10 + (c - 48)) v d (rw (value_from, digit) at h) less)
  | inr letter ↦ absurd (cc (rw (value_from, letter) at h))
]

value_from-digits : (fuel n : ℕ) → n < fuel → value_from 0 (digits fuel n) ≡ ok n
unfolding value_from digits
value_from-digits zero n h = absurd (omega (arith, h))
value_from-digits (suc fuel) n h = elim (Bool-cases (ltb n 10)) [
  | inl one ↦ rw (digits, one) (ground (arith, one))
  | inr more ↦
      rw (digits, more)
        (value_from-append (digits fuel (n / 10)) 0 (n / 10) (n % 10)
            (value_from-digits fuel (n / 10) (ground (arith, h, more))) (omega arith)
          ∙ ap ok (omega arith))
]

to_int_nonempty : (xs : List ℕ) (n : ℕ) → xs ≢ [] → value_from 0 xs ≡ ok n → to_int xs ≡ ok n
unfolding to_int
to_int_nonempty [] n some_digit h = absurd (some_digit refl)
to_int_nonempty (c ∷ cs) n some_digit h = h

digits-ne-nil : (fuel n : ℕ) → digits (suc fuel) n ≢ []
unfolding digits
digits-ne-nil fuel n e = elim (Bool-cases (ltb n 10)) [
  | inl one ↦ cc (rw (digits, one) at e)
  | inr more ↦ ends (digits fuel (n / 10)) (48 + n % 10) (rw (digits, more) at e)
]
  where
    ends : (xs : List ℕ) (d : ℕ) → xs ++ (d ∷ []) ≡ [] → ⊥
    ends [] d e = cc
    ends (x ∷ xs) d e = cc

pub to_int-decimal : (n : ℕ) → to_int (decimal n) ≡ ok n
unfolding decimal
to_int-decimal n =
    to_int_nonempty (digits (suc n) n) n (digits-ne-nil n n)
      (value_from-digits (suc n) n (omega arith))

-- A digit is no space.
abbrev pub IsInk : ℕ → Type 0
IsInk c = nat_beq c 32 ≡ false

digits-IsInk : (fuel n : ℕ) → All IsInk (digits fuel n)
unfolding digits
digits-IsInk zero n = tt
digits-IsInk (suc fuel) n = elim (Bool-cases (ltb n 10)) [
  | inl one ↦ rw (digits, one) (ground arith, tt)
  | inr more ↦
      rw (digits, more)
        (All-append IsInk (digits fuel (n / 10)) ((48 + n % 10) ∷ []) (digits-IsInk fuel (n / 10))
          (ground arith, tt))
]

pub decimal-IsInk : (n : ℕ) → All IsInk (decimal n)
unfolding decimal
decimal-IsInk n = digits-IsInk (suc n) n
