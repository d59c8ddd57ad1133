-- ===== src/Prelude/Sublists.antt =====
-- Lists that are another with some elements left out: what an element at the end does to them.
use mathlib.Core.Path.{◌≡◌, refl, ap}
use mathlib.Core.Bool.{Bool, true, false}
use mathlib.Core.List.{List, [], ◌∷◌, ◌++◌, Sublistᴰ}
use mathlib.Core.List.Sublistᴰ.{slnil, cons, cons-cons}
use pdf_generator.Prelude.Tests.{if◌then◌else◌}
use pdf_generator.Prelude.Lists.{keep_if}

module _ {ℓ} {A : Type ℓ} where
  pub Sublistᴰ-later : (x : A) {xs ys : List A} → Sublistᴰ xs ys → Sublistᴰ xs (ys ++ x ∷ [])
  Sublistᴰ-later x slnil = cons slnil
  Sublistᴰ-later x (cons s) = cons (Sublistᴰ-later x s)
  Sublistᴰ-later x (cons-cons e s) = cons-cons e (Sublistᴰ-later x s)

  pub Sublistᴰ-both :
      (x : A) {xs ys : List A} → Sublistᴰ xs ys → Sublistᴰ (xs ++ x ∷ []) (ys ++ x ∷ [])
  Sublistᴰ-both x slnil = cons-cons refl slnil
  Sublistᴰ-both x (cons s) = cons (Sublistᴰ-both x s)
  Sublistᴰ-both x (cons-cons e s) = cons-cons e (Sublistᴰ-both x s)

  pub keep_if-append :
      (p : A → Bool) (xs ys : List A) → keep_if p (xs ++ ys) ≡ keep_if p xs ++ keep_if p ys
  keep_if-append p [] ys = refl
  keep_if-append p (x ∷ xs) ys = by_test (p x) (keep_if-append p xs ys)
    where
      by_test :
          (b : Bool)
          → keep_if p (xs ++ ys) ≡ keep_if p xs ++ keep_if p ys
          → (if b then x ∷ keep_if p (xs ++ ys) else keep_if p (xs ++ ys))
            ≡ (if b then x ∷ keep_if p xs else keep_if p xs) ++ keep_if p ys
      by_test true h = ap (λ zs. x ∷ zs) h
      by_test false h = h

  -- An element at the end of a list that is sieved.
  pub Sublistᴰ-keep_later :
      (p : A → Bool) (x : A) {xs : List A} (ys : List A)
      → Sublistᴰ xs (keep_if p ys)
      → Sublistᴰ xs (keep_if p (ys ++ x ∷ []))
  Sublistᴰ-keep_later p x {xs} ys s = rw (keep_if-append p ys (x ∷ [])) (by_test (p x))
    where
      by_test : (b : Bool) → Sublistᴰ xs (keep_if p ys ++ (if b then x ∷ [] else []))
      by_test true = Sublistᴰ-later x s
      by_test false = rw (mathlib.Core.List.append-nil (keep_if p ys)) s

  pub Sublistᴰ-keep_both :
      (p : A → Bool) (x : A) {xs : List A} (ys : List A)
      → p x ≡ true
      → Sublistᴰ xs (keep_if p ys)
      → Sublistᴰ (xs ++ x ∷ []) (keep_if p (ys ++ x ∷ []))
  Sublistᴰ-keep_both p x ys h s = rw (keep_if-append p ys (x ∷ []), h) (Sublistᴰ-both x s)

  pub Sublistᴰ-nil : (ys : List A) → Sublistᴰ [] ys
  Sublistᴰ-nil [] = slnil
  Sublistᴰ-nil (y ∷ ys) = cons (Sublistᴰ-nil ys)
