-- ===== src/Prelude/Text.antt =====
-- The order of texts by code points, Go's `<` on strings, and its laws.
use Prim.Native.Nat.{ℕ, Ordering}
use Prim.Native.Nat.{compare as compare_ℕ}
use Prim.Native.Char.{code}
use Prim.Native.String.compare
use Prim.Native.String.{String, [], ◌∷◌, compare, then}
use mathlib.Core.Path.{◌≡◌, refl, sym, ◌∙◌, ap, ap₂}
use mathlib.Core.Bool.{Bool, true, false}
use mathlib.Core.Logic.{inl, inr}
use native.Mathlib.Omega.{arith}
use text.Mathlib.Text.{is_lt}
use text.Mathlib.TextEquality.{path_by_compare}
use text.Mathlib.TextPositions.{compare_refl}
use rocm_llamacpp_envoy_ai_g.Prelude.Tests.{Bool-cases}

-- s < t
abbrev pub str_ltb : String → String → Bool
str_ltb s t = is_lt (compare s t)

-- The comparison of the other way round.
abbrev flip : Ordering → Ordering
flip Ordering.lt = Ordering.gt
flip Ordering.eq = Ordering.eq
flip Ordering.gt = Ordering.lt

flip-then : (o r : Ordering) → then (flip o) (flip r) ≡ flip (then o r)
flip-then Ordering.lt r = refl
flip-then Ordering.eq r = refl
flip-then Ordering.gt r = refl

flip-compare_ℕ : (m n : ℕ) → compare_ℕ n m ≡ flip (compare_ℕ m n)
flip-compare_ℕ m n = ground arith

flip-compare : (s t : String) → compare t s ≡ flip (compare s t)
flip-compare [] [] = refl
flip-compare [] (d ∷ t) = compare.cons-nil d t ∙ ap flip (sym (compare.nil-cons d t))
flip-compare (c ∷ s) [] = compare.nil-cons c s ∙ ap flip (sym (compare.cons-nil c s))
flip-compare (c ∷ s) (d ∷ t) =
    compare.cons-cons d c t s
    ∙ ap₂ then (flip-compare_ℕ (code c) (code d)) (flip-compare s t)
    ∙ flip-then (compare_ℕ (code c) (code d)) (compare s t)
    ∙ ap flip (sym (compare.cons-cons c d s t))

-- Of two different texts the one or the other is smaller.
pub str_lt_connex : (s t : String) → str_ltb s t ≡ false → str_ltb t s ≡ false → s ≡ t
str_lt_connex s t h k =
    path_by_compare s t (both_not_lt (compare s t) h (rw (flip-compare s t) at k))
  where
    both_not_lt : (o : Ordering) → is_lt o ≡ false → is_lt (flip o) ≡ false → o ≡ Ordering.eq
    both_not_lt Ordering.lt h k = cc
    both_not_lt Ordering.eq h k = refl
    both_not_lt Ordering.gt h k = cc

pub str_lt_irrefl : (s : String) → str_ltb s s ≡ false
str_lt_irrefl s = ap is_lt (compare_refl s)

pub str_lt_asymm : (s t : String) → str_ltb s t ≡ true → str_ltb t s ≡ false
str_lt_asymm s t h = rw (flip-compare s t) (flip_lt (compare s t) h)
  where
    flip_lt : (o : Ordering) → is_lt o ≡ true → is_lt (flip o) ≡ false
    flip_lt Ordering.lt h = refl
    flip_lt Ordering.eq h = refl
    flip_lt Ordering.gt h = cc

-- What a comparison of three numbers and the rests of three texts leaves to show.
then_trans :
    (a b c : ℕ) (o p q : Ordering)
    → (is_lt o ≡ true → is_lt p ≡ true → is_lt q ≡ true)
    → is_lt (then (compare_ℕ a b) o) ≡ true
    → is_lt (then (compare_ℕ b c) p) ≡ true
    → is_lt (then (compare_ℕ a c) q) ≡ true
then_trans a b c o p q ih h k = ground arith

pub str_lt_trans : (s t u : String) → str_ltb s t ≡ true → str_ltb t u ≡ true → str_ltb s u ≡ true
str_lt_trans [] [] u h k = k
str_lt_trans [] (d ∷ t) [] h k = cc (ap is_lt (compare.cons-nil d t))
str_lt_trans [] (d ∷ t) (e ∷ u) h k = ap is_lt (compare.nil-cons e u)
str_lt_trans (c ∷ s) [] u h k = cc (ap is_lt (compare.cons-nil c s))
str_lt_trans (c ∷ s) (d ∷ t) [] h k = cc (ap is_lt (compare.cons-nil d t))
str_lt_trans (c ∷ s) (d ∷ t) (e ∷ u) h k =
    ap is_lt (compare.cons-cons c e s u)
    ∙ then_trans (code c) (code d) (code e) (compare s t) (compare t u) (compare s u)
        (str_lt_trans s t u) (sym (ap is_lt (compare.cons-cons c d s t)) ∙ h)
        (sym (ap is_lt (compare.cons-cons d e t u)) ∙ k)

-- s ≤ t
abbrev pub StrLe : String → String → Type 0
StrLe s t = str_ltb t s ≡ false

pub StrLe-refl : (s : String) → StrLe s s
StrLe-refl s = str_lt_irrefl s

pub StrLe-trans : (s t u : String) → StrLe s t → StrLe t u → StrLe s u
StrLe-trans s t u h k = elim (Bool-cases (str_ltb u s)) [
  | inr le ↦ le
  | inl lt ↦ elim (Bool-cases (str_ltb s t)) [
    | inl lt' ↦ cc (k, str_lt_trans u s t lt lt')
    | inr ge ↦ cc (k, str_lt_connex s t ge h)
  ]
]

pub StrLe-antisymm : (s t : String) → StrLe s t → StrLe t s → s ≡ t
StrLe-antisymm s t h k = str_lt_connex s t k h
