-- ===== src/Pay/Cashier/Compare/Equality.antt =====
-- `hmacEqual` against equality.
use feedsystem_video_go_medi.Prelude.{
  ℕ, zero, suc, ◌*◌, ◌/◌, ◌<◌, ◌≡◌, refl, ◌↔◌, true, false, List, [], ◌∷◌, if◌then◌else◌, ◌==◌,
  ==→eq, ==-refl, length, All, arith, subst, Bool-cases, inl, inr, not,
}
use feedsystem_video_go_medi.Pay.Cashier.Compare.{xor_bits, or_bits, differences, hmac_equal}

abbrev pow_two : ℕ → ℕ
pow_two zero = 1
pow_two (suc n) = 2 * pow_two n

xor_bits_bound : (n a b : ℕ) → xor_bits n a b < pow_two n
unfolding xor_bits
xor_bits_bound zero a b = ground arith
xor_bits_bound (suc n) a b = ground (arith, xor_bits_bound n (a / 2) (b / 2))

or_bits_bound : (n a b : ℕ) → or_bits n a b < pow_two n
unfolding or_bits
or_bits_bound zero a b = ground arith
or_bits_bound (suc n) a b = ground (arith, or_bits_bound n (a / 2) (b / 2))

xor_bits_self : (n a : ℕ) → xor_bits n a a ≡ 0
unfolding xor_bits
xor_bits_self zero a = refl
xor_bits_self (suc n) a = ground (arith, xor_bits_self n (a / 2))

xor_bits_zero : (n a b : ℕ) → a < pow_two n → b < pow_two n → xor_bits n a b ≡ 0 → a ≡ b
unfolding xor_bits
xor_bits_zero zero a b ha hb h = ground arith
xor_bits_zero (suc n) a b ha hb h =
    let rest : a / 2 ≡ b / 2 =
      xor_bits_zero n (a / 2) (b / 2) (omega arith) (omega arith) (ground arith) in
    ground arith

or_bits_zero : (n a b : ℕ) → a < pow_two n → b < pow_two n → or_bits n a b ≡ 0 → (a ≡ 0) × (b ≡ 0)
unfolding or_bits
or_bits_zero zero a b ha hb h = (ground arith, ground arith)
or_bits_zero (suc n) a b ha hb h =
    let rest = or_bits_zero n (a / 2) (b / 2) (omega arith) (omega arith) (ground arith) in
    (ground (arith, rest), ground (arith, rest))

or_bits_none : (n : ℕ) → or_bits n 0 0 ≡ 0
unfolding or_bits
or_bits_none zero = refl
or_bits_none (suc n) = ground (arith, or_bits_none n)

abbrev pub AreBytes : List ℕ → Type 0
AreBytes xs = All (λ x. x < 256) xs

differences_self : (xs : List ℕ) → differences 0 xs xs ≡ 0
unfolding differences
differences_self [] = refl
differences_self (x ∷ xs) = rw (xor_bits_self 8 x, or_bits_none 8) (differences_self xs)

differences_zero :
    (d : ℕ) (xs ys : List ℕ)
    → d < 256
    → AreBytes xs
    → AreBytes ys
    → length xs ≡ length ys
    → differences d xs ys ≡ 0
    → (d ≡ 0) × (xs ≡ ys)
unfolding differences
differences_zero d [] [] hd hx hy len h = (h, refl)
differences_zero d [] (y ∷ ys) hd hx hy len h = absurd (omega arith)
differences_zero d (x ∷ xs) [] hd hx hy len h = absurd (omega arith)
differences_zero d (x ∷ xs) (y ∷ ys) hd hx hy len h =
    let (none, same) =
      differences_zero (or_bits 8 d (xor_bits 8 x y)) xs ys (or_bits_bound 8 d _) hx.1 hy.1
        (omega arith) h in
    let (d_none, x_none) = or_bits_zero 8 d (xor_bits 8 x y) hd (xor_bits_bound 8 x y) none in
    let here : x ≡ y = xor_bits_zero 8 x y hx.0 hy.0 x_none in (d_none, rw (here, same))

-- The comparison of two texts byte by byte, without an early end, says that they are equal just where
-- they are, for texts whose bytes are below 256.
pub hmac_equal-eq : (a b : List ℕ) → AreBytes a → AreBytes b → (hmac_equal a b ≡ true) ↔ (a ≡ b)
unfolding hmac_equal
hmac_equal-eq a b ha hb = (
  λ h. elim (Bool-cases (length a == length b)) [
    | inl same ↦
        (differences_zero 0 a b (omega arith) ha hb (==→eq _ _ same) (==→eq _ _ (rw same at h))).1
    | inr other ↦ let bad : false ≡ true = rw other at h in cc
  ],
  λ e.
      subst (λ x. (if not (length a == length x) then false else differences 0 a x == 0) ≡ true) e
        (rw (==-refl (length a), differences_self a)),
)
