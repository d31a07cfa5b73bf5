-- ===== src/Base/Maps.antt =====
-- Go's maps whose keys are byte arrays: an association list, with one entry for a key.
use Prim.Native.Nat.{suc, ◌≤◌}
use mathlib.Core.Path.{◌≡◌, refl, sym, ap, subst, ◌∙◌}
use mathlib.Core.Bool.{Bool, true, false}
use mathlib.Core.Option.{Option, none, some}
use mathlib.Core.List.{List, [], ◌∷◌}
use native.Mathlib.Omega.{arith}
use anti_nat_agent.Base.Tests.{if◌then◌else◌, Bool-cases}
use anti_nat_agent.Base.Lists.{length, All}
use anti_nat_agent.Base.ByteStrings.{Bytes, bytes_eq, bytes_eq→eq, bytes_eq_refl}
use mathlib.Core.Logic.{inl, inr}

abbrev pub Map {ℓ} : Type ℓ → Type ℓ
Map A = List (Bytes × A)

abbrev pub find {ℓ} : {A : Type ℓ} → Bytes → Map A → Option A
find k [] = none
find k ((j, a) ∷ m) = let rest = find k m in if bytes_eq k j then some a else rest

-- delete(m, k)
abbrev pub remove {ℓ} : {A : Type ℓ} → Bytes → Map A → Map A
remove k [] = []
remove k ((j, a) ∷ m) = let rest = remove k m in if bytes_eq k j then rest else (j, a) ∷ rest

-- m[k] = a
abbrev pub put {ℓ} : {A : Type ℓ} → Bytes → A → Map A → Map A
put k a m = (k, a) ∷ remove k m

-- A range over the map that deletes the entries that do not pass the test.
abbrev pub retain {ℓ} : {A : Type ℓ} → (A → Bool) → Map A → Map A
retain t [] = []
retain t ((j, a) ∷ m) = let rest = retain t m in if t a then (j, a) ∷ rest else rest

abbrev pub HasUniqueKeys {ℓ} : {A : Type ℓ} → Map A → Type ℓ
HasUniqueKeys [] = Unit
HasUniqueKeys ((k, a) ∷ m) = (find k m ≡ none) × HasUniqueKeys m

abbrev pub filtered {ℓ} : {A : Type ℓ} → (A → Bool) → Option A → Option A
filtered t none = none
filtered t (some a) = if t a then some a else none

bytes_eq_sym_false : (j k : Bytes) → bytes_eq j k ≡ false → bytes_eq k j ≡ false
bytes_eq_sym_false j k h = elim (Bool-cases (bytes_eq k j)) [
  | inl e ↦
      absurd (true≢false (sym (bytes_eq_refl j) ∙ ap (bytes_eq j) (sym (bytes_eq→eq k j e)) ∙ h))
  | inr e ↦ e
]
  where
    true≢false : true ≡ false → ⊥
    true≢false e = cc

module _ {ℓ} {A : Type ℓ} where
  pub find-put : (k : Bytes) (a : A) (m : Map A) → find k (put k a m) ≡ some a
  find-put k a m = rw (bytes_eq_refl k) refl

  pub find-remove_self : (k : Bytes) (m : Map A) → find k (remove k m) ≡ none
  find-remove_self k [] = refl
  find-remove_self k ((j, a) ∷ m) = elim (Bool-cases (bytes_eq k j)) [
    | inl e ↦ rw e (find-remove_self k m)
    | inr e ↦ rw e (rw e (find-remove_self k m))
  ]

  pub find-remove_other :
      (j k : Bytes) (m : Map A) → bytes_eq j k ≡ false → find j (remove k m) ≡ find j m
  find-remove_other j k [] h = refl
  find-remove_other j k ((i, a) ∷ m) h = elim (Bool-cases (bytes_eq k i)) [
    | inl e ↦
        let f : bytes_eq j i ≡ false = ap (bytes_eq j) (sym (bytes_eq→eq k i e)) ∙ h in
        rw (e, f) (find-remove_other j k m h)
    | inr e ↦ rw (e, find-remove_other j k m h) refl
  ]

  pub find-put_other :
      (j k : Bytes) (a : A) (m : Map A) → bytes_eq j k ≡ false → find j (put k a m) ≡ find j m
  find-put_other j k a m h = rw h (find-remove_other j k m h)

  remove-none : (j k : Bytes) (m : Map A) → find j m ≡ none → find j (remove k m) ≡ none
  remove-none j k m h = elim (Bool-cases (bytes_eq j k)) [
    | inl e ↦ rw (bytes_eq→eq j k e) (find-remove_self k m)
    | inr e ↦ find-remove_other j k m e ∙ h
  ]

  pub remove-HasUniqueKeys : (k : Bytes) (m : Map A) → HasUniqueKeys m → HasUniqueKeys (remove k m)
  remove-HasUniqueKeys k [] h = tt
  remove-HasUniqueKeys k ((j, a) ∷ m) h = elim (Bool-cases (bytes_eq k j)) [
    | inl e ↦ rw e (remove-HasUniqueKeys k m h.1)
    | inr e ↦ rw e (remove-none j k m h.0, remove-HasUniqueKeys k m h.1)
  ]

  pub put-HasUniqueKeys :
      (k : Bytes) (a : A) (m : Map A) → HasUniqueKeys m → HasUniqueKeys (put k a m)
  put-HasUniqueKeys k a m h = (find-remove_self k m, remove-HasUniqueKeys k m h)

  retain-none :
      (j : Bytes) (t : A → Bool) (m : Map A) → find j m ≡ none → find j (retain t m) ≡ none
  retain-none j t [] h = refl
  retain-none j t ((i, a) ∷ m) h = elim (Bool-cases (bytes_eq j i)) [
    | inl e ↦ let s : find j ((i, a) ∷ m) ≡ some a = rw e refl in cc
    | inr e ↦
        let r : find j m ≡ none = sym (rw e refl) ∙ h in
        elim (Bool-cases (t a)) [
          | inl f ↦ rw f (rw e (retain-none j t m r))
          | inr f ↦ rw f (retain-none j t m r)
        ]
  ]

  pub find-retain :
      (k : Bytes) (t : A → Bool) (m : Map A)
      → HasUniqueKeys m
      → find k (retain t m) ≡ filtered t (find k m)
  find-retain k t [] h = refl
  find-retain k t ((j, a) ∷ m) h = elim (Bool-cases (bytes_eq k j)) [
    | inl e ↦ elim (Bool-cases (t a)) [
      | inl f ↦ rw (e, f) (rw e refl)
      | inr f ↦ rw (e, f) (retain-none k t m (ap (λ x. find x m) (bytes_eq→eq k j e) ∙ h.0))
    ]
    | inr e ↦ elim (Bool-cases (t a)) [
      | inl f ↦ rw (e, f) (rw e (find-retain k t m h.1))
      | inr f ↦ rw (e, f) (find-retain k t m h.1)
    ]
  ]

  pub retain-HasUniqueKeys :
      (t : A → Bool) (m : Map A) → HasUniqueKeys m → HasUniqueKeys (retain t m)
  retain-HasUniqueKeys t [] h = tt
  retain-HasUniqueKeys t ((j, a) ∷ m) h = elim (Bool-cases (t a)) [
    | inl f ↦ rw f (retain-none j t m h.0, retain-HasUniqueKeys t m h.1)
    | inr f ↦ rw f (retain-HasUniqueKeys t m h.1)
  ]

  pub length-retain : (t : A → Bool) (m : Map A) → length (retain t m) ≤ length m
  length-retain t [] = omega arith
  length-retain t ((j, a) ∷ m) =
      let ih : length (retain t m) ≤ length m = length-retain t m in
      elim (Bool-cases (t a)) [ inl f ↦ rw f (omega arith) | inr f ↦ rw f (omega arith) ]

  length-remove_le : (k : Bytes) (m : Map A) → length (remove k m) ≤ length m
  length-remove_le k [] = omega arith
  length-remove_le k ((j, a) ∷ m) =
      let ih : length (remove k m) ≤ length m = length-remove_le k m in
      elim (Bool-cases (bytes_eq k j)) [ inl f ↦ rw f (omega arith) | inr f ↦ rw f (omega arith) ]

  pub length-put : (k : Bytes) (a : A) (m : Map A) → length (put k a m) ≤ suc (length m)
  length-put k a m = omega (arith, length-remove_le k m)

  -- An entry that is there is replaced.
  pub length-put_found :
      (k : Bytes) (a b : A) (m : Map A) → find k m ≡ some b → length (put k a m) ≤ length m
  length-put_found k a b [] h = cc
  length-put_found k a b ((j, c) ∷ m) h = elim (Bool-cases (bytes_eq k j)) [
    | inl f ↦ rw f (omega (arith, length-remove_le k m))
    | inr f ↦
        let r : find k m ≡ some b = sym (rw f refl) ∙ h in
        rw f (omega (arith, length-put_found k a b m r))
  ]

  pub All-remove {κ} :
      (P : Bytes × A → Type κ) (k : Bytes) (m : Map A) → All P m → All P (remove k m)
  All-remove P k [] h = tt
  All-remove P k ((j, a) ∷ m) h = elim (Bool-cases (bytes_eq k j)) [
    | inl f ↦ rw f (All-remove P k m h.1)
    | inr f ↦ rw f (h.0, All-remove P k m h.1)
  ]

  pub All-retain {κ} :
      (P : Bytes × A → Type κ) (t : A → Bool) (m : Map A) → All P m → All P (retain t m)
  All-retain P t [] h = tt
  All-retain P t ((j, a) ∷ m) h = elim (Bool-cases (t a)) [
    | inl f ↦ rw f (h.0, All-retain P t m h.1)
    | inr f ↦ rw f (All-retain P t m h.1)
  ]

  pub find-All {κ} :
      (P : Bytes × A → Type κ) (k : Bytes) (a : A) (m : Map A)
      → find k m ≡ some a
      → All P m
      → P (k, a)
  find-All P k a [] h v = cc
  find-All P k a ((j, b) ∷ m) h v = elim (Bool-cases (bytes_eq k j)) [
    | inl f ↦
        let r : some b ≡ some a = sym (rw f refl) ∙ h in
        let s : b ≡ a = cc in
        subst (λ x. P (x, a)) (sym (bytes_eq→eq k j f)) (subst (λ x. P (j, x)) s v.0)
    | inr f ↦ let r : find k m ≡ some a = sym (rw f refl) ∙ h in find-All P k a m r v.1
  ]
