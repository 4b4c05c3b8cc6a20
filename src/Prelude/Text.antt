-- ===== src/Prelude/Text.antt =====
-- Texts as the bytes that C strings hold, without the closing 0: comparison, search and decimal
-- printing.
use Prim.Native.Char.{code}
use Prim.Native.String.{String}
use resfit.Prelude.{
  ℕ, zero, suc, ◌+◌, ◌/◌, ◌%◌, ◌≤◌, ◌≡◌, ◌↔◌, refl, Bool, true, false, ◌&&◌, ◌||◌, [], ◌∷◌, ◌++◌,
  arith, ◌==◌, ltb, if◌then◌else◌, length, length-append, ◌≢◌, Bool-cases, inl, inr,
}
use resfit.Prelude.Memory.{Bytes}

-- The bytes of an ASCII text.
abbrev pub codes : String → Bytes
codes String.[] = []
codes (String.◌∷◌ c s) = code c ∷ codes s

-- `!strcmp (x, y)`
unfoldable pub str_eq : Bytes → Bytes → Bool
str_eq [] [] = true
str_eq [] (y ∷ ys) = false
str_eq (x ∷ xs) [] = false
str_eq (x ∷ xs) (y ∷ ys) = x == y && str_eq xs ys

pub str_eq_iff : (x y : Bytes) → (str_eq x y ≡ true) ↔ (x ≡ y)
unfolding str_eq
str_eq_iff [] [] = (λ h. refl, λ h. refl)
str_eq_iff [] (y ∷ ys) = (λ h. cc, λ h. cc)
str_eq_iff (x ∷ xs) [] = (λ h. cc, λ h. cc)
str_eq_iff (x ∷ xs) (y ∷ ys) = ground (arith, str_eq_iff xs ys)

pub str_eq_self : (x : Bytes) → str_eq x x ≡ true
str_eq_self x = (str_eq_iff x x).1 refl

-- `strncmp (s, p, strlen (p)) == 0`
unfoldable pub starts_with : Bytes → Bytes → Bool
starts_with [] s = true
starts_with (p ∷ ps) [] = false
starts_with (p ∷ ps) (c ∷ s) = p == c && starts_with ps s

-- `strstr (s, p) != NULL`
unfoldable pub occurs_in : Bytes → Bytes → Bool
unfolding starts_with
occurs_in p [] = starts_with p []
occurs_in p (c ∷ s) = starts_with p (c ∷ s) || occurs_in p s

pub starts_with-append : (p s : Bytes) → starts_with p (p ++ s) ≡ true
unfolding starts_with
starts_with-append [] s = refl
starts_with-append (x ∷ p) s = ground (arith, starts_with-append p s)

pub occurs_in-append : (p pre post : Bytes) → occurs_in p (pre ++ (p ++ post)) ≡ true
unfolding occurs_in
occurs_in-append [] [] [] = unfold starts_with in refl
occurs_in-append [] [] (x ∷ s) = unfold starts_with in refl
occurs_in-append (y ∷ p) [] post = ground (arith, starts_with-append (y ∷ p) post)
occurs_in-append p (x ∷ pre) post = ground (arith, occurs_in-append p pre post)

-- `sprintf ("%u", n)` of a number below 10 ^ fuel.
unfoldable pub decimal : ℕ → ℕ → Bytes
decimal zero n = []
decimal (suc fuel) n =
    let front = decimal fuel (n / 10) in
    if ltb n 10 then (48 + n) ∷ [] else front ++ (48 + n % 10) ∷ []

-- `sprintf ("%lu", n)`: a 64-bit number has twenty digits at most.
abbrev pub print_u : ℕ → Bytes
print_u n = decimal 20 n

pub length-decimal : (fuel n : ℕ) → length (decimal fuel n) ≤ fuel
unfolding decimal
length-decimal zero n = omega arith
length-decimal (suc fuel) n = ground (
  arith,
  length-decimal fuel (n / 10),
  length-append (decimal fuel (n / 10)) ((48 + n % 10) ∷ []),
)

pub text_differs : (x y : Bytes) → x ≢ y → str_eq x y ≡ false
text_differs x y ne = elim (Bool-cases (str_eq x y)) [
  | inl e ↦ absurd (ne ((str_eq_iff x y).0 e))
  | inr e ↦ e
]
