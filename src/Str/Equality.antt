-- ===== src/Str/Equality.antt =====
-- str_eq of str.h is an equivalence of texts. It is equality where no text holds a NUL byte: behind
-- a NUL byte `strncmp` compares nothing.
use plmuggin.Base.{ℕ, suc, zero, ◌≡◌, refl, true, [], ◌∷◌, arith, Bytes, length, Lacks}
use plmuggin.Str.{strncmp_eq, str_eq}

strncmp_eq_refl : (a : Bytes) → strncmp_eq (length a) a a ≡ true
unfolding strncmp_eq
strncmp_eq_refl [] = refl
strncmp_eq_refl (x ∷ a) = ground (arith, strncmp_eq_refl a)

strncmp_eq_symm : (n : ℕ) (a b : Bytes) → strncmp_eq n a b ≡ true → strncmp_eq n b a ≡ true
unfolding strncmp_eq
strncmp_eq_symm zero a b h = refl
strncmp_eq_symm (suc n) [] b h = cc
strncmp_eq_symm (suc n) (x ∷ a) [] h = cc
strncmp_eq_symm (suc n) (x ∷ a) (y ∷ b) h = ground (arith, strncmp_eq_symm n a b)

strncmp_eq_trans :
    (n : ℕ) (a b c : Bytes)
    → strncmp_eq n a b ≡ true
    → strncmp_eq n b c ≡ true
    → strncmp_eq n a c ≡ true
unfolding strncmp_eq
strncmp_eq_trans zero a b c h k = refl
strncmp_eq_trans (suc n) [] b c h k = cc
strncmp_eq_trans (suc n) (x ∷ a) [] c h k = cc
strncmp_eq_trans (suc n) (x ∷ a) (y ∷ b) [] h k = cc
strncmp_eq_trans (suc n) (x ∷ a) (y ∷ b) (z ∷ c) h k = ground (arith, strncmp_eq_trans n a b c)

pub str_eq_refl : (a : Bytes) → str_eq a a ≡ true
unfolding str_eq
str_eq_refl a = ground (arith, strncmp_eq_refl a)

pub length_of_str_eq : (a b : Bytes) → str_eq a b ≡ true → length a ≡ length b
unfolding str_eq
length_of_str_eq a b h = ground arith

pub str_eq_symm : (a b : Bytes) → str_eq a b ≡ true → str_eq b a ≡ true
unfolding str_eq
str_eq_symm a b h = ground (arith, strncmp_eq_symm (length a) a b)

pub str_eq_trans : (a b c : Bytes) → str_eq a b ≡ true → str_eq b c ≡ true → str_eq a c ≡ true
unfolding str_eq
str_eq_trans a b c h k = ground (arith, strncmp_eq_trans (length a) a b c)

strncmp_eq→eq :
    (n : ℕ) (a b : Bytes)
    → length a ≡ n
    → length b ≡ n
    → Lacks 0 a
    → strncmp_eq n a b ≡ true
    → a ≡ b
unfolding strncmp_eq
strncmp_eq→eq n [] [] ha hb l h = refl
strncmp_eq→eq n [] (y ∷ b) ha hb l h = absurd (omega arith)
strncmp_eq→eq n (x ∷ a) [] ha hb l h = absurd (omega arith)
strncmp_eq→eq zero (x ∷ a) (y ∷ b) ha hb l h = absurd (omega arith)
strncmp_eq→eq (suc n) (x ∷ a) (y ∷ b) ha hb (l, ls) h =
    ground (arith, strncmp_eq→eq n a b (omega arith) (omega arith) ls)

-- Two texts that `str_eq` takes for equal are equal, if the first holds no NUL byte.
pub str_eq→eq : (a b : Bytes) → Lacks 0 a → str_eq a b ≡ true → a ≡ b
unfolding str_eq
str_eq→eq a b l h = ground (arith, strncmp_eq→eq (length a) a b refl)
