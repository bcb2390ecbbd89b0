-- ===== src/Prelude/Lists.antt =====
-- Lists measured and indexed by native numbers, under the library's names.
use Prim.Native.Nat.{ℕ, zero, suc, ◌+◌, ◌≤◌, ◌<◌, min}
use mathlib.Core.Path.{◌≡◌, refl, ap, subst}
use mathlib.Core.List.{List, [], ◌∷◌, ◌++◌, append-nil}
use mathlib.Core.Option.{Option, none, some, some-injective}
use native.Mathlib.Numerals.{add-one}
use native.Mathlib.Nat.{add-zero}
use native.Mathlib.Omega.{arith}

module _ {ℓ} {A : Type ℓ} where
  abbrev pub length : List A → ℕ
  length [] = 0
  length (x ∷ xs) = suc (length xs)

  abbrev pub get_elem? : List A → ℕ → Option A
  get_elem? [] i = none
  get_elem? (x ∷ xs) zero = some x
  get_elem? (x ∷ xs) (suc i) = get_elem? xs i

  abbrev pub take : ℕ → List A → List A
  take zero xs = []
  take (suc n) [] = []
  take (suc n) (x ∷ xs) = x ∷ take n xs

  abbrev pub drop : ℕ → List A → List A
  drop zero xs = xs
  drop (suc n) [] = []
  drop (suc n) (x ∷ xs) = drop n xs

  -- The list `ys` stands in `xs` from position `i` on.
  abbrev pub HasAt : List A → ℕ → List A → Type ℓ
  HasAt xs i [] = Unit {ℓ}
  HasAt xs i (y ∷ ys) = (get_elem? xs i ≡ some y) × HasAt xs (i + 1) ys

  abbrev pub All {κ} : (A → Type κ) → List A → Type κ
  All P [] = Unit {κ}
  All P (x ∷ xs) = P x × All P xs

module _ {ℓ} {A : Type ℓ} where
  pub length-append : (xs ys : List A) → length (xs ++ ys) ≡ length xs + length ys
  length-append [] ys = omega arith
  length-append (x ∷ xs) ys = omega (arith, length-append xs ys)

  pub get_elem?-lt : (xs : List A) (i : ℕ) {x : A} → get_elem? xs i ≡ some x → i < length xs
  get_elem?-lt [] i h = cc
  get_elem?-lt (x ∷ xs) zero h = omega arith
  get_elem?-lt (x ∷ xs) (suc i) h = omega (arith, get_elem?-lt xs i h)

  pub get_elem?-append_left :
      (xs ys : List A) (i : ℕ) → i < length xs → get_elem? (xs ++ ys) i ≡ get_elem? xs i
  get_elem?-append_left [] ys i h = elim h [ ]
  get_elem?-append_left (x ∷ xs) ys zero h = refl
  get_elem?-append_left (x ∷ xs) ys (suc i) h = get_elem?-append_left xs ys i (omega arith)

  -- The element behind a prefix.
  pub get_elem?-at :
      (xs : List A) (y : A) (ys : List A) → get_elem? (xs ++ (y ∷ ys)) (length xs) ≡ some y
  get_elem?-at [] y ys = refl
  get_elem?-at (x ∷ xs) y ys = get_elem?-at xs y ys

  HasAt-cons :
      (x : A) (xs : List A) (i : ℕ) (ys : List A) → HasAt xs i ys → HasAt (x ∷ xs) (i + 1) ys
  HasAt-cons x xs i [] h = tt
  HasAt-cons x xs i (y ∷ ys) (here, there) = (rw add-one here, HasAt-cons x xs (i + 1) ys there)

  HasAt-start : (xs ys : List A) → HasAt (xs ++ ys) 0 xs
  HasAt-start [] ys = tt
  HasAt-start (x ∷ xs) ys = (refl, HasAt-cons x (xs ++ ys) 0 xs (HasAt-start xs ys))

  pub HasAt-middle : (zs xs ys : List A) → HasAt (zs ++ (xs ++ ys)) (length zs) xs
  HasAt-middle [] xs ys = HasAt-start xs ys
  HasAt-middle (z ∷ zs) xs ys =
      rw (← add-one) (HasAt-cons z (zs ++ (xs ++ ys)) (length zs) xs (HasAt-middle zs xs ys))

  pub HasAt-end : (zs xs : List A) → HasAt (zs ++ xs) (length zs) xs
  HasAt-end zs xs =
      subst (λ t. HasAt (zs ++ t) (length zs) xs) (append-nil xs) (HasAt-middle zs xs [])

  pub HasAt-append :
      (xs : List A) (i : ℕ) (ys zs : List A)
      → HasAt xs i (ys ++ zs)
      → HasAt xs i ys × HasAt xs (i + length ys) zs
  HasAt-append xs i [] zs h = (tt, rw add-zero h)
  HasAt-append xs i (y ∷ ys) zs (here, there) =
      let (left, right) = HasAt-append xs (i + 1) ys zs there in
      let e : i + length (y ∷ ys) ≡ i + 1 + length ys = omega arith in ((here, left), rw e right)

  HasAt-tail :
      (x : A) (xs : List A) (i : ℕ) (ys : List A) → HasAt (x ∷ xs) (suc i) ys → HasAt xs i ys
  HasAt-tail x xs i [] h = tt
  HasAt-tail x xs i (y ∷ ys) (here, there) =
      (here, rw add-one (HasAt-tail x xs (suc i) ys (rw add-one at there)))

  -- The window of a list that stands there is that list.
  pub HasAt-window :
      (xs : List A) (i : ℕ) (ys : List A) → HasAt xs i ys → take (length ys) (drop i xs) ≡ ys
  HasAt-window xs i [] h = refl
  HasAt-window [] zero (y ∷ ys) (here, there) = cc
  HasAt-window [] (suc i) (y ∷ ys) (here, there) = cc
  HasAt-window (x ∷ xs) zero (y ∷ ys) (here, there) =
      let tail = HasAt-window xs zero ys (HasAt-tail x xs zero ys there) in
      rw tail (ap (λ a. a ∷ ys) (some-injective x y here))
  HasAt-window (x ∷ xs) (suc i) (y ∷ ys) h =
      HasAt-window xs i (y ∷ ys) (HasAt-tail x xs i (y ∷ ys) h)

  pub get_elem?-none : (xs : List A) (i : ℕ) → get_elem? xs i ≡ none → length xs ≤ i
  get_elem?-none [] i h = omega arith
  get_elem?-none (x ∷ xs) zero h = cc
  get_elem?-none (x ∷ xs) (suc i) h = omega (arith, get_elem?-none xs i h)

  pub get_elem?-past : (xs : List A) (i : ℕ) → length xs ≤ i → get_elem? xs i ≡ none
  get_elem?-past [] i h = refl
  get_elem?-past (x ∷ xs) zero h = absurd (omega arith)
  get_elem?-past (x ∷ xs) (suc i) h = get_elem?-past xs i (omega arith)

  pub take-length : (xs ys : List A) → take (length xs) (xs ++ ys) ≡ xs
  take-length [] ys = refl
  take-length (x ∷ xs) ys = ap (◌∷◌ x) (take-length xs ys)

  pub drop-length : (xs ys : List A) → drop (length xs) (xs ++ ys) ≡ ys
  drop-length [] ys = refl
  drop-length (x ∷ xs) ys = drop-length xs ys

  -- A window that lies within the first list does not see the second.
  pub take-append_left : (xs ys : List A) (n : ℕ) → n ≤ length xs → take n (xs ++ ys) ≡ take n xs
  take-append_left xs ys zero h = refl
  take-append_left [] ys (suc n) h = elim h [ ]
  take-append_left (x ∷ xs) ys (suc n) h = ap (◌∷◌ x) (take-append_left xs ys n (omega arith))

  pub window-append_left :
      (xs ys : List A) (i n : ℕ)
      → i + n ≤ length xs
      → take n (drop i (xs ++ ys)) ≡ take n (drop i xs)
  window-append_left xs ys zero n h = take-append_left xs ys n (omega arith)
  window-append_left [] ys (suc i) zero h = refl
  window-append_left [] ys (suc i) (suc n) h = absurd (omega arith)
  window-append_left (x ∷ xs) ys (suc i) n h = window-append_left xs ys i n (omega arith)

  pub length-take : (n : ℕ) (xs : List A) → length (take n xs) ≡ min n (length xs)
  length-take zero xs = omega arith
  length-take (suc n) [] = omega arith
  length-take (suc n) (x ∷ xs) = omega (arith, length-take n xs)
