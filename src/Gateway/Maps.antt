-- ===== src/Gateway/Maps.antt =====
-- `std::unordered_map` from texts, as an association list in which a key occurs once at most.
use resfit.Prelude.{
  ◌≡◌, refl, sym, ap, ◌∙◌, true, false, Option, none, some, List, [], ◌∷◌, if◌then◌else◌,
  Bool-cases, inl, inr, arith, cond_true,
}
use resfit.Prelude.Memory.{Bytes}
use resfit.Prelude.Text.{str_eq, str_eq_iff, str_eq_self}

abbrev pub Dict {ℓ} : Type ℓ → Type ℓ
Dict V = List (Bytes × V)

module _ {ℓ} {V : Type ℓ} where
  -- `find`
  unfoldable pub find : Bytes → Dict V → Option V
  find key [] = none
  find key ((k, v) ∷ m) = if str_eq k key then some v else find key m

  -- `m[key] = value`
  unfoldable pub store : Bytes → V → Dict V → Dict V
  store key value [] = (key, value) ∷ []
  store key value ((k, v) ∷ m) = if str_eq k key then (k, value) ∷ m else (k, v) ∷ store key value m

  unfoldable pub erase : Bytes → Dict V → Dict V
  erase key [] = []
  erase key ((k, v) ∷ m) = if str_eq k key then erase key m else (k, v) ∷ erase key m

  -- `value` becomes that of each key.
  unfoldable pub for_each {κ} : {W : Type κ} → (V → W) → Dict V → Dict W
  for_each f [] = []
  for_each f ((k, v) ∷ m) = (k, f v) ∷ for_each f m

-- A text equal to one of two different texts differs from the other.
str_eq_apart : (l k j : Bytes) → str_eq l k ≡ false → str_eq l j ≡ true → str_eq k j ≡ false
str_eq_apart l k j e h = elim (Bool-cases (str_eq k j)) [
  | inl g ↦ absurd (cc (e, (str_eq_iff l k).1 ((str_eq_iff l j).0 h ∙ sym ((str_eq_iff k j).0 g))))
  | inr g ↦ g
]

module _ {ℓ} {V : Type ℓ} where
  pub find-store :
      (j k : Bytes) (v : V) (m : Dict V)
      → find j (store k v m) ≡ (if str_eq k j then some v else find j m)
  unfolding find store
  find-store j k v [] = refl
  find-store j k v ((l, w) ∷ m) = elim (Bool-cases (str_eq l k)) [
    | inl e ↦
        let same : l ≡ k = (str_eq_iff l k).0 e in
        let key : str_eq l j ≡ str_eq k j = ap (λ x. str_eq x j) same in ground (arith, e, key)
    | inr e ↦ ground (arith, e, find-store j k v m, str_eq_apart l k j e)
  ]

  pub find-stored : (k : Bytes) (v : V) (m : Dict V) → find k (store k v m) ≡ some v
  find-stored k v m = find-store k k v m ∙ cond_true _ _ (str_eq_self k)

  pub find-erase :
      (j k : Bytes) (m : Dict V) → find j (erase k m) ≡ (if str_eq k j then none else find j m)
  unfolding find erase
  find-erase j k [] = ground arith
  find-erase j k ((l, w) ∷ m) = elim (Bool-cases (str_eq l k)) [
    | inl e ↦
        let same : l ≡ k = (str_eq_iff l k).0 e in
        let key : str_eq l j ≡ str_eq k j = ap (λ x. str_eq x j) same in
        ground (arith, e, key, find-erase j k m)
    | inr e ↦ ground (arith, e, find-erase j k m, str_eq_apart l k j e)
  ]

  pub find-for_each {κ} :
      {W : Type κ} (f : V → W) (j : Bytes) (m : Dict V)
      → find j (for_each f m) ≡ elim (find j m) [ none ↦ none | some v ↦ some (f v) ]
  unfolding find for_each
  find-for_each f j [] = refl
  find-for_each f j ((l, w) ∷ m) = elim (Bool-cases (str_eq l j)) [
    | inl e ↦ rw e
    | inr e ↦ rw e (find-for_each f j m)
  ]
