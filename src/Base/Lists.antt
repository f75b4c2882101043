-- ===== src/Base/Lists.antt =====
-- Lists measured and indexed by native numbers, under the library's names.
use Prim.Native.Nat.{ℕ, zero, suc, ◌+◌, ◌-◌, ◌≤◌, ◌<◌, min}
use mathlib.Core.Path.{◌≡◌, refl, ap, ap₂, ◌∙◌}
use mathlib.Core.Logic.{◌≢◌}
use mathlib.Core.List.{List, [], ◌∷◌, ◌++◌, map}
use mathlib.Core.Option.{Option, none, some}
use native.Mathlib.Omega.{arith}

module _ {ℓ} {A : Type ℓ} where
  abbrev pub length : List A → ℕ
  length [] = 0
  length (x ∷ xs) = suc (length xs)

  abbrev pub get_elem? : List A → ℕ → Option A
  get_elem? [] i = none
  get_elem? (x ∷ xs) zero = some x
  get_elem? (x ∷ xs) (suc i) = get_elem? xs i

  -- A write out of bounds changes nothing.
  abbrev pub set : List A → ℕ → A → List A
  set [] i v = []
  set (x ∷ xs) zero v = v ∷ xs
  set (x ∷ xs) (suc i) v = x ∷ set xs i v

  pub length-append : (xs ys : List A) → length (xs ++ ys) ≡ length xs + length ys
  length-append [] ys = omega arith
  length-append (x ∷ xs) ys = omega (arith, length-append xs ys)

module _ {ℓ} {A : Type ℓ} where
  pub length-set : (xs : List A) (i : ℕ) (v : A) → length (set xs i v) ≡ length xs
  length-set [] i v = refl
  length-set (x ∷ xs) zero v = refl
  length-set (x ∷ xs) (suc i) v = ap suc (length-set xs i v)

  pub get_elem?-set_self :
      (xs : List A) (i : ℕ) (v : A) → i < length xs → get_elem? (set xs i v) i ≡ some v
  get_elem?-set_self [] i v h = elim h [ ]
  get_elem?-set_self (x ∷ xs) zero v h = refl
  get_elem?-set_self (x ∷ xs) (suc i) v h = get_elem?-set_self xs i v (omega arith)

  pub get_elem?-set_ne :
      (xs : List A) {i j : ℕ} (v : A) → i ≢ j → get_elem? (set xs i v) j ≡ get_elem? xs j
  get_elem?-set_ne [] v h = refl
  get_elem?-set_ne (x ∷ xs) {i = zero} {j = zero} v h = absurd (h refl)
  get_elem?-set_ne (x ∷ xs) {i = zero} {j = suc j} v h = refl
  get_elem?-set_ne (x ∷ xs) {i = suc i} {j = zero} v h = refl
  get_elem?-set_ne (x ∷ xs) {i = suc i} {j = suc j} v h = get_elem?-set_ne xs v (λ e. h (ap suc e))

module _ {ℓ} {A : Type ℓ} where
  abbrev pub get_or : List A → ℕ → A → A
  get_or [] i d = d
  get_or (x ∷ xs) zero d = x
  get_or (x ∷ xs) (suc i) d = get_or xs i d

  abbrev pub take : ℕ → List A → List A
  take zero xs = []
  take (suc n) [] = []
  take (suc n) (x ∷ xs) = x ∷ take n xs

  abbrev pub drop : ℕ → List A → List A
  drop zero xs = xs
  drop (suc n) [] = []
  drop (suc n) (x ∷ xs) = drop n xs

  abbrev pub replicate : ℕ → A → List A
  replicate zero a = []
  replicate (suc n) a = a ∷ replicate n a

  pub take-append-drop : (n : ℕ) (xs : List A) → take n xs ++ drop n xs ≡ xs
  take-append-drop zero xs = refl
  take-append-drop (suc n) [] = refl
  take-append-drop (suc n) (x ∷ xs) = rw (take-append-drop n xs)

  pub length-take : (n : ℕ) (xs : List A) → length (take n xs) ≡ min n (length xs)
  length-take zero xs = omega arith
  length-take (suc n) [] = omega arith
  length-take (suc n) (x ∷ xs) = omega (arith, length-take n xs)

  pub length-drop : (n : ℕ) (xs : List A) → length (drop n xs) ≡ length xs - n
  length-drop zero xs = omega arith
  length-drop (suc n) [] = omega arith
  length-drop (suc n) (x ∷ xs) = omega (arith, length-drop n xs)

  pub length-replicate : (n : ℕ) (a : A) → length (replicate n a) ≡ n
  length-replicate zero a = refl
  length-replicate (suc n) a = ap suc (length-replicate n a)

  pub length-map {κ} : {B : Type κ} (xs : List A) (f : A → B) → length (map f xs) ≡ length xs
  length-map [] f = refl
  length-map (x ∷ xs) f = ap suc (length-map xs f)

-- Every element satisfies `P`, as nested pairs.
abbrev pub All {ℓ κ} : {A : Type ℓ} → (A → Type κ) → List A → Type κ
All P [] = Unit
All P (x ∷ xs) = P x × All P xs

module _ {ℓ} {A : Type ℓ} where
  pub All-map {κ μ} :
      {P : A → Type κ} {Q : A → Type μ} (xs : List A) → ((x : A) → P x → Q x) → All P xs → All Q xs
  All-map [] f h = tt
  All-map (x ∷ xs) f (p, h) = (f x p, All-map xs f h)

  pub take-append_left : (n : ℕ) (xs ys : List A) → length xs ≡ n → take n (xs ++ ys) ≡ xs
  take-append_left zero [] ys e = refl
  take-append_left zero (x ∷ xs) ys e = absurd (omega arith)
  take-append_left (suc n) [] ys e = absurd (omega arith)
  take-append_left (suc n) (x ∷ xs) ys e = ap (λ r. x ∷ r) (take-append_left n xs ys (omega arith))

  pub drop-append_left : (n : ℕ) (xs ys : List A) → length xs ≡ n → drop n (xs ++ ys) ≡ ys
  drop-append_left zero [] ys e = refl
  drop-append_left zero (x ∷ xs) ys e = absurd (omega arith)
  drop-append_left (suc n) [] ys e = absurd (omega arith)
  drop-append_left (suc n) (x ∷ xs) ys e = drop-append_left n xs ys (omega arith)

  pub drop-drop_append :
      (n k : ℕ) (xs ys : List A) → length xs ≡ n → drop (n + k) (xs ++ ys) ≡ drop k ys
  drop-drop_append zero k [] ys e =
      let same : 0 + k ≡ k = omega arith in ap (λ (i : ℕ). drop i ys) same
  drop-drop_append zero k (x ∷ xs) ys e = absurd (omega arith)
  drop-drop_append (suc n) k [] ys e = absurd (omega arith)
  drop-drop_append (suc n) k (x ∷ xs) ys e =
      let next : suc n + k ≡ suc (n + k) = omega arith in
      ap (λ (i : ℕ). drop i (x ∷ (xs ++ ys))) next ∙ drop-drop_append n k xs ys (omega arith)

pub map-take-drop {ℓ κ} :
    {A : Type ℓ} {B : Type κ} (f : A → B) (n : ℕ) (xs : List A)
    → map f (take n xs) ++ map f (drop n xs) ≡ map f xs
map-take-drop f zero xs = refl
map-take-drop f (suc n) [] = refl
map-take-drop f (suc n) (x ∷ xs) = ap (λ r. f x ∷ r) (map-take-drop f n xs)

-- Two lists of one length whose elements are related place by place.
abbrev pub All₂ : {A B : Type 0} → (A → B → Type 0) → List A → List B → Type 0
All₂ R [] [] = Unit {0}
All₂ R [] (y ∷ ys) = ⊥
All₂ R (x ∷ xs) [] = ⊥
All₂ R (x ∷ xs) (y ∷ ys) = R x y × All₂ R xs ys

-- `f i`, `f (i + 1)`, …, for `k` values.
abbrev pub tabulate {ℓ} : {A : Type ℓ} → (ℕ → A) → ℕ → ℕ → List A
tabulate f i zero = []
tabulate f i (suc k) = f i ∷ tabulate f (suc i) k

pub length-tabulate {ℓ} : {A : Type ℓ} (f : ℕ → A) (i k : ℕ) → length (tabulate f i k) ≡ k
length-tabulate f i zero = refl
length-tabulate f i (suc k) = ap suc (length-tabulate f (suc i) k)

pub map-tabulate {ℓ κ} :
    {A : Type ℓ} {B : Type κ} (g : A → B) (f : ℕ → A) (i k : ℕ)
    → map g (tabulate f i k) ≡ tabulate (λ j. g (f j)) i k
map-tabulate g f i zero = refl
map-tabulate g f i (suc k) = ap (λ xs. g (f i) ∷ xs) (map-tabulate g f (suc i) k)

pub All-tabulate {ℓ κ} :
    {A : Type ℓ} (P : A → Type κ) (f : ℕ → A) (i k : ℕ)
    → ((j : ℕ) → i ≤ j → j < i + k → P (f j))
    → All P (tabulate f i k)
All-tabulate P f i zero h = tt
All-tabulate P f i (suc k) h = (
  h i (omega arith) (omega arith),
  All-tabulate P f (suc i) k (λ j lo hi. h j (omega arith) (omega arith)),
)

pub get_or-tabulate {ℓ} :
    {A : Type ℓ} (f : ℕ → A) (i k j : ℕ) (d : A) → j < k → get_or (tabulate f i k) j d ≡ f (i + j)
get_or-tabulate f i zero j d lt = absurd (omega arith)
get_or-tabulate f i (suc k) zero d lt = ap f (omega arith)
get_or-tabulate f i (suc k) (suc j) d lt =
    get_or-tabulate f (suc i) k j d (omega arith) ∙ ap f (omega arith)

pub All₂-tabulate :
    {A : Type 0} {B : Type 0} (R : A → B → Type 0) (f : ℕ → A) (g : ℕ → B) (i k : ℕ)
    → ((j : ℕ) → R (f j) (g j))
    → All₂ R (tabulate f i k) (tabulate g i k)
All₂-tabulate R f g i zero h = tt
All₂-tabulate R f g i (suc k) h = (h i, All₂-tabulate R f g (suc i) k h)

pub All₂-length :
    {A B : Type 0} (R : A → B → Type 0) (xs : List A) (ys : List B)
    → All₂ R xs ys
    → length xs ≡ length ys
All₂-length R [] [] h = refl
All₂-length R [] (y ∷ ys) h = elim h [ ]
All₂-length R (x ∷ xs) [] h = elim h [ ]
All₂-length R (x ∷ xs) (y ∷ ys) (_, h) = ap suc (All₂-length R xs ys h)

pub All₂-get_or :
    {A B : Type 0} (R : A → B → Type 0) (xs : List A) (ys : List B) (i : ℕ) (d : A) (e : B)
    → All₂ R xs ys
    → i < length xs
    → R (get_or xs i d) (get_or ys i e)
All₂-get_or R [] ys i d e h lt = absurd (omega arith)
All₂-get_or R (x ∷ xs) [] i d e h lt = elim h [ ]
All₂-get_or R (x ∷ xs) (y ∷ ys) zero d e (h, _) lt = h
All₂-get_or R (x ∷ xs) (y ∷ ys) (suc i) d e (_, h) lt = All₂-get_or R xs ys i d e h (omega arith)

pub get_or-append_left {ℓ} :
    {A : Type ℓ} (xs ys : List A) (i : ℕ) (d : A)
    → i < length xs
    → get_or (xs ++ ys) i d ≡ get_or xs i d
get_or-append_left [] ys i d lt = absurd (omega arith)
get_or-append_left (x ∷ xs) ys zero d lt = refl
get_or-append_left (x ∷ xs) ys (suc i) d lt = get_or-append_left xs ys i d (omega arith)

pub tabulate_snoc {ℓ} :
    {A : Type ℓ} (f : ℕ → A) (i k : ℕ) → tabulate f i (suc k) ≡ tabulate f i k ++ (f (i + k) ∷ [])
tabulate_snoc f i zero = ap (λ j. f j ∷ []) (omega arith)
tabulate_snoc f i (suc k) =
    let at : suc i + k ≡ i + suc k = omega arith in
    ap (λ xs. f i ∷ xs) (tabulate_snoc f (suc i) k)
    ∙ ap (λ j. f i ∷ (tabulate f (suc i) k ++ (f j ∷ []))) at

-- Two tables that agree on the range.
pub tabulate-same {ℓ} :
    {A : Type ℓ} (f g : ℕ → A) (i k : ℕ)
    → ((j : ℕ) → i ≤ j → j < i + k → f j ≡ g j)
    → tabulate f i k ≡ tabulate g i k
tabulate-same f g i zero h = refl
tabulate-same f g i (suc k) h =
    ap₂ (λ x xs. x ∷ xs) (h i (omega arith) (omega arith))
      (tabulate-same f g (suc i) k (λ j lo hi. h j (omega arith) (omega arith)))

pub get_or-beyond {ℓ} :
    {A : Type ℓ} (xs : List A) (i : ℕ) (d : A) → length xs ≤ i → get_or xs i d ≡ d
get_or-beyond [] i d le = refl
get_or-beyond (x ∷ xs) zero d le = absurd (omega arith)
get_or-beyond (x ∷ xs) (suc i) d le = get_or-beyond xs i d (omega arith)

-- Two equal results hold equal values.
pub some_inj {ℓ} : {A : Type ℓ} (a b : A) → some a ≡ some b → a ≡ b
some_inj a b e = ap (λ o. elim o [ none ↦ a | some x ↦ x ]) e
