-- ===== src/Common/Bag.antt =====
-- Bags of addresses: lists of which only the numbers of occurrences are seen.
use mathlib.Core.Quot
use mathlib.Core.Quot.{Quot, Quot-set}
use native.Mathlib.Nat.{ℕ_set}
use tiny_coro_build_your_own.Common.{
  count-append, ℕ, ◌+◌, ◌≡◌, refl, ◌∙◌, List, [], ◌∷◌, arith, count,
}

abbrev pub SameCounts : List ℕ → List ℕ → Type 0
SameCounts xs ys = (a : ℕ) → count a xs ≡ count a ys

abbrev pub Bag : Type 0
Bag = Quot SameCounts

abbrev pub bag : List ℕ → Bag
bag xs = Quot.mk xs

unfoldable pub occurrences : ℕ → Bag → ℕ
occurrences a = Quot.lift ℕ_set (count a) (λ xs ys same. same a)

unfoldable pub put : ℕ → Bag → Bag
put x =
    Quot.lift Quot-set (λ xs. bag (x ∷ xs)) (λ xs ys same. Quot.sound (λ a. omega (arith, same a)))

unfoldable pub put_all : List ℕ → Bag → Bag
put_all [] b = b
put_all (x ∷ xs) b = put x (put_all xs b)

pub same_bag : {xs ys : List ℕ} → SameCounts xs ys → bag xs ≡ bag ys
same_bag counts = Quot.sound counts

pub bag-put : {xs : List ℕ} (x : ℕ) (ys : List ℕ) → SameCounts xs (x ∷ ys) → bag xs ≡ put x (bag ys)
unfolding put
bag-put x ys same = Quot.sound same

occurrences-put : (a x : ℕ) (b : Bag) → occurrences a (put x b) ≡ count a (x ∷ []) + occurrences a b
unfolding put occurrences
occurrences-put a x =
    let more = λ (ys : List ℕ). count-append a (x ∷ []) ys in
    Quot.ind (λ b. ℕ_set (occurrences a (put x b)) (count a (x ∷ []) + occurrences a b)) more

pub occurrences-put_all :
    (a : ℕ) (xs : List ℕ) (b : Bag) → occurrences a (put_all xs b) ≡ count a xs + occurrences a b
unfolding put_all
occurrences-put_all a [] b = omega arith
occurrences-put_all a (x ∷ xs) b =
    occurrences-put a x (put_all xs b) ∙ ground (arith, occurrences-put_all a xs b)

pub occurrences-bag : (a : ℕ) (xs : List ℕ) → occurrences a (bag xs) ≡ count a xs
unfolding occurrences
occurrences-bag a xs = refl
