-- ===== src/Utils/RoundTrip.antt =====
-- `Atoi` reads back what `Itoa` prints: a page token stands for the offset that it was made from.
use Prim.Native.Char.{code}
use huaweicloud_csi_driver.Prelude.{
  ℕ, zero, suc, ◌+◌, ◌*◌, ◌/◌, ◌%◌, ◌≤◌, ◌<◌, ◌≡◌, refl, String, some, List, ◌∷◌, arith, ltb,
  ltb→lt, ap, ◌∙◌, Bool-cases, inl, inr, ℤ, pos, negsuc, InInt64,
}
use huaweicloud_csi_driver.Utils.Decimal.{codes, scan, unsigned, atoi, digit, emit, itoa}

code-digit : (d : ℕ) → d < 10 → code (digit d) ≡ b'0' + d
unfolding digit
code-digit zero h = refl
code-digit (suc zero) h = refl
code-digit (suc (suc zero)) h = refl
code-digit (suc (suc (suc zero))) h = refl
code-digit (suc (suc (suc (suc zero)))) h = refl
code-digit (suc (suc (suc (suc (suc zero))))) h = refl
code-digit (suc (suc (suc (suc (suc (suc zero)))))) h = refl
code-digit (suc (suc (suc (suc (suc (suc (suc zero))))))) h = refl
code-digit (suc (suc (suc (suc (suc (suc (suc (suc zero)))))))) h = refl
code-digit (suc (suc (suc (suc (suc (suc (suc (suc (suc zero))))))))) h = refl
code-digit (suc (suc (suc (suc (suc (suc (suc (suc (suc (suc d)))))))))) h = absurd (omega arith)

-- One digit in front is read before the rest.
scan-digit :
    (d n : ℕ) (rest : List ℕ) → d < 10 → scan (code (digit d) ∷ rest) n ≡ scan rest (n * 10 + d)
unfolding scan
scan-digit d n rest h = ground (arith, code-digit d h)

scan-emit :
    (rounds n : ℕ) (out : String)
    → n < rounds
    → scan (codes (emit rounds n out)) 0 ≡ scan (codes out) n
unfolding emit
scan-emit zero n out h = absurd (omega arith)
scan-emit (suc rounds) n out h = elim (Bool-cases (ltb n 10)) [
  | inl small ↦
      rw small
        (scan-digit n 0 (codes out) (ltb→lt n 10 small) ∙ ap (scan (codes out)) (omega arith))
  | inr large ↦ rw large (
      scan-emit rounds (n / 10) (String.◌∷◌ (digit (n % 10)) out) (ground arith)
      ∙ (scan-digit (n % 10) (n / 10) (codes out) (omega arith)
          ∙ ap (scan (codes out)) (omega arith)))
]

-- The print begins with a digit.
codes-emit :
    (rounds n : ℕ) (out : String)
    → n < rounds
    → (c : ℕ) × (rest : List ℕ) × (codes (emit rounds n out) ≡ c ∷ rest) × (b'0' ≤ c) × (c ≤ b'9')
unfolding emit
codes-emit zero n out h = absurd (omega arith)
codes-emit (suc rounds) n out h = elim (Bool-cases (ltb n 10)) [
  | inl small ↦ rw small (
    code (digit n),
    codes out,
    refl,
    omega (arith, code-digit n (ltb→lt n 10 small)),
    omega (arith, code-digit n (ltb→lt n 10 small), ltb→lt n 10 small),
  )
  | inr large ↦ rw large (codes-emit rounds (n / 10) _ (ground arith))
]

unsigned-emit : (rounds n : ℕ) → n < rounds → unsigned (codes (emit rounds n "")) ≡ some n
unfolding unsigned
unsigned-emit rounds n h =
    let (c, rest, e, low, high) = codes-emit rounds n "" h in
    rw e (rw e at (scan-emit rounds n "" h))

-- Reading the print of an int64 gives the integer.
pub atoi-itoa : (z : ℤ) → InInt64 z → atoi (itoa z) ≡ some z
unfolding atoi itoa
atoi-itoa (pos n) h =
    let (c, rest, e, low, high) = codes-emit (suc n) n "" (omega arith) in
    rw e (ground (arith, rw e at (unsigned-emit (suc n) n (omega arith))))
atoi-itoa (negsuc n) h = rw (unsigned-emit (suc (suc n)) (suc n) (omega arith)) (ground arith)
