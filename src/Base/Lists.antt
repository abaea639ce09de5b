-- ===== src/Base/Lists.antt =====
-- Lists as the program uses them: lengths and slices over the native numbers, queries with a
-- `where` clause (`filter`), the first row that fits (`find?`), and updates of matching rows.
use Prim.Native.Nat.{ℕ, zero, suc, ◌+◌, ◌-◌, ◌≤◌, min}
use mathlib.Core.Path.{◌≡◌, refl, ap, sym, ◌∙◌}
use mathlib.Core.Bool.{Bool, true, false, ◌||◌, ◌&&◌, not, false≢true}
use mathlib.Core.Option.{Option, none, some}
use mathlib.Core.List.{List, [], ◌∷◌, ◌++◌, map}
use native.Mathlib.Omega.{arith}
use enterprise_document_inte.Base.Tests.{◌==◌, if◌then◌else◌}

abbrev both {ℓ} : {A : Type ℓ} → Option A → Option (List A) → Option (List A)
both none rest = none
both (some x) none = none
both (some x) (some xs) = some (x ∷ xs)

module _ {ℓ} {A : Type ℓ} where
  abbrev pub length : List A → ℕ
  length [] = 0
  length (x ∷ xs) = suc (length xs)

  abbrev pub take : ℕ → List A → List A
  take zero xs = []
  take (suc n) [] = []
  take (suc n) (x ∷ xs) = x ∷ take n xs

  abbrev pub drop : ℕ → List A → List A
  drop zero xs = xs
  drop (suc n) [] = []
  drop (suc n) (x ∷ xs) = drop n xs

  abbrev pub get_elem? : List A → ℕ → Option A
  get_elem? [] i = none
  get_elem? (x ∷ xs) zero = some x
  get_elem? (x ∷ xs) (suc i) = get_elem? xs i

  -- The rows of a table that meet a `where` clause.
  abbrev pub filter : (A → Bool) → List A → List A
  filter p [] = []
  filter p (x ∷ xs) = if p x then x ∷ filter p xs else filter p xs

  -- `SELECT COUNT(*) ... WHERE p`.
  abbrev pub count : (A → Bool) → List A → ℕ
  count p [] = 0
  count p (x ∷ xs) = (if p x then 1 else 0) + count p xs

  -- `session.scalar(select(...).where(p))`: the first row, or `None`.
  abbrev pub find? : (A → Bool) → List A → Option A
  find? p [] = none
  find? p (x ∷ xs) = if p x then some x else find? p xs

  abbrev pub any : (A → Bool) → List A → Bool
  any p [] = false
  any p (x ∷ xs) = p x || any p xs

  -- `[f(x) for x in xs]`, where `f` may raise.
  abbrev pub traverse {κ} : {B : Type κ} → (A → Option B) → List A → Option (List B)
  traverse f [] = some []
  traverse f (x ∷ xs) = both (f x) (traverse f xs)

  -- Every row that meets `p` is written anew by `f`.
  abbrev pub update : (A → Bool) → (A → A) → List A → List A
  update p f [] = []
  update p f (x ∷ xs) = (if p x then f x else x) ∷ update p f xs

  -- A predicate at every entry.
  abbrev pub All {κ} : (A → Type κ) → List A → Type κ
  All P [] = Unit
  All P (x ∷ xs) = P x × All P xs

module _ {ℓ} {A : Type ℓ} where
  pub length-append : (xs ys : List A) → length (xs ++ ys) ≡ length xs + length ys
  length-append [] ys = omega arith
  length-append (x ∷ xs) ys = omega (arith, length-append xs ys)

  pub length-take : (n : ℕ) (xs : List A) → length (take n xs) ≡ min n (length xs)
  length-take zero xs = omega arith
  length-take (suc n) [] = omega arith
  length-take (suc n) (x ∷ xs) = omega (arith, length-take n xs)

  pub any-append : (p : A → Bool) (xs ys : List A) → any p (xs ++ ys) ≡ (any p xs || any p ys)
  any-append p [] ys = refl
  any-append p (x ∷ xs) ys = ground (arith, any-append p xs ys)

  pub count-append : (p : A → Bool) (xs ys : List A) → count p (xs ++ ys) ≡ count p xs + count p ys
  count-append p [] ys = omega arith
  count-append p (x ∷ xs) ys = ground (arith, count-append p xs ys)

  pub any-filter : (p q : A → Bool) (xs : List A) → any p (filter q xs) ≡ any (λ x. q x && p x) xs
  any-filter p q [] = refl
  any-filter p q (x ∷ xs) = ground (arith, any-filter p q xs)

  -- A row that is not there is found where it is appended.
  pub find?-append_none :
      (p : A → Bool) (xs ys : List A) → find? p xs ≡ none → find? p (xs ++ ys) ≡ find? p ys
  find?-append_none p [] ys h = refl
  find?-append_none p (x ∷ xs) ys h = ground (arith, find?-append_none p xs ys)

  pub find?-append_some :
      (p : A → Bool) (xs ys : List A) {a : A} → find? p xs ≡ some a → find? p (xs ++ ys) ≡ some a
  find?-append_some p [] ys h = ground arith
  find?-append_some p (x ∷ xs) ys {a} h = ground (arith, find?-append_some p xs ys {a = a})

  -- An update that keeps what the query reads changes the row found, and no other answer.
  pub find?-update :
      (p q : A → Bool) (f : A → A) (xs : List A)
      → ((x : A) → p (f x) ≡ p x)
      → (a : A) → find? p xs ≡ some a
      → q a ≡ true
      → find? p (update q f xs) ≡ some (f a)
  find?-update p q f [] keep a h hq = ground arith
  find?-update p q f (x ∷ xs) keep a h hq = ground (arith, keep x, find?-update p q f xs keep a)

  pub find?-update_absent :
      (p q : A → Bool) (f : A → A) (xs : List A)
      → ((x : A) → p (f x) ≡ p x)
      → find? p xs ≡ none
      → find? p (update q f xs) ≡ none
  find?-update_absent p q f [] keep h = refl
  find?-update_absent p q f (x ∷ xs) keep h =
      ground (arith, keep x, find?-update_absent p q f xs keep)

  -- An update that leaves the rows of a query alone leaves its answer alone.
  pub find?-update_other :
      (p q : A → Bool) (f : A → A) (xs : List A)
      → ((x : A) → p (f x) ≡ p x)
      → All (λ x. q x ≡ true → p x ≡ false) xs
      → find? p (update q f xs) ≡ find? p xs
  find?-update_other p q f [] keep h = refl
  find?-update_other p q f (x ∷ xs) keep h =
      ground (arith, keep x, h.0, find?-update_other p q f xs keep h.1)

  pub update_twice :
      (q : A → Bool) (f : A → A) (xs : List A)
      → ((x : A) → q (f x) ≡ q x)
      → ((x : A) → f (f x) ≡ f x)
      → update q f (update q f xs) ≡ update q f xs
  update_twice q f [] keep same = refl
  update_twice q f (x ∷ xs) keep same =
      ground (arith, keep x, same x, update_twice q f xs keep same)

  pub update_none : (q : A → Bool) (f : A → A) (xs : List A) → any q xs ≡ false → update q f xs ≡ xs
  update_none q f [] h = refl
  update_none q f (x ∷ xs) h = ground (arith, update_none q f xs)

  pub update-append :
      (q : A → Bool) (f : A → A) (xs ys : List A)
      → update q f (xs ++ ys) ≡ update q f xs ++ update q f ys
  update-append q f [] ys = refl
  update-append q f (x ∷ xs) ys = ap (λ l. (if q x then f x else x) ∷ l) (update-append q f xs ys)

  pub count-update_le :
      (p q : A → Bool) (f : A → A) (xs : List A)
      → ((x : A) → q x ≡ true → p (f x) ≡ true → p x ≡ true)
      → count p (update q f xs) ≤ count p xs
  count-update_le p q f [] keep = omega arith
  count-update_le p q f (x ∷ xs) keep = ground (arith, keep x, count-update_le p q f xs keep)

  -- Of the rows that a count reads, an update that takes one away leaves at least one less.
  pub count-update_lt :
      (p q : A → Bool) (f : A → A) (xs : List A)
      → ((x : A) → q x ≡ true → p (f x) ≡ false)
      → any (λ x. p x && q x) xs ≡ true
      → count p (update q f xs) + 1 ≤ count p xs
  count-update_lt p q f [] gone h = ground arith
  count-update_lt p q f (x ∷ xs) gone h = ground (
    arith,
    gone x,
    count-update_lt p q f xs gone,
    count-update_le p q f xs (λ y hy k. absurd (false≢true (sym (gone y hy) ∙ k))),
  )

  pub count-update_ge :
      (p q : A → Bool) (f : A → A) (xs : List A)
      → ((x : A) → q x ≡ true → p x ≡ true → p (f x) ≡ true)
      → count p xs ≤ count p (update q f xs)
  count-update_ge p q f [] keep = omega arith
  count-update_ge p q f (x ∷ xs) keep = ground (arith, keep x, count-update_ge p q f xs keep)

  -- An update that brings a row into a count leaves at least one more.
  pub count-update_gt :
      (p q : A → Bool) (f : A → A) (xs : List A)
      → ((x : A) → q x ≡ true → p x ≡ true → p (f x) ≡ true)
      → any (λ x. q x && (not (p x) && p (f x))) xs ≡ true
      → count p xs + 1 ≤ count p (update q f xs)
  count-update_gt p q f [] keep h = ground arith
  count-update_gt p q f (x ∷ xs) keep h =
      ground (arith, keep x, count-update_gt p q f xs keep, count-update_ge p q f xs keep)

  pub any_of_find? :
      (r p : A → Bool) (xs : List A) (a : A) → find? r xs ≡ some a → p a ≡ true → any p xs ≡ true
  any_of_find? r p [] a h k = ground arith
  any_of_find? r p (x ∷ xs) a h k = ground (arith, any_of_find? r p xs a)

  pub find?-holds : (p : A → Bool) (xs : List A) (a : A) → find? p xs ≡ some a → p a ≡ true
  find?-holds p (x ∷ xs) a h = ground (arith, find?-holds p xs a)
  find?-holds p [] a h = ground arith

  pub filter-append :
      (p : A → Bool) (xs ys : List A) → filter p (xs ++ ys) ≡ filter p xs ++ filter p ys
  filter-append p [] ys = refl
  filter-append p (x ∷ xs) ys = ground (arith, filter-append p xs ys)

  pub filter_kept : (p : A → Bool) (xs : List A) → All (λ x. p x ≡ true) xs → filter p xs ≡ xs
  filter_kept p [] h = refl
  filter_kept p (x ∷ xs) h = ground (arith, h.0, filter_kept p xs h.1)

  pub take-append-drop : (n : ℕ) (xs : List A) → take n xs ++ drop n xs ≡ xs
  take-append-drop zero xs = refl
  take-append-drop (suc n) [] = refl
  take-append-drop (suc n) (x ∷ xs) = ap (λ l. x ∷ l) (take-append-drop n xs)

  pub take-length-append : (xs ys : List A) → take (length xs) (xs ++ ys) ≡ xs
  take-length-append [] ys = refl
  take-length-append (x ∷ xs) ys = ap (λ l. x ∷ l) (take-length-append xs ys)

  pub drop-length-append : (xs ys : List A) → drop (length xs) (xs ++ ys) ≡ ys
  drop-length-append [] ys = refl
  drop-length-append (x ∷ xs) ys = drop-length-append xs ys

  pub length-drop : (n : ℕ) (xs : List A) → length (drop n xs) ≡ length xs - n
  length-drop zero xs = omega arith
  length-drop (suc n) [] = omega arith
  length-drop (suc n) (x ∷ xs) = omega (arith, length-drop n xs)

  pub take_all : (n : ℕ) (xs : List A) → length xs ≤ n → take n xs ≡ xs
  take_all zero [] h = refl
  take_all zero (x ∷ xs) h = absurd (omega arith)
  take_all (suc n) [] h = refl
  take_all (suc n) (x ∷ xs) h = ap (λ l. x ∷ l) (take_all n xs (omega arith))

  pub All-drop {κ} : (P : A → Type κ) (n : ℕ) (xs : List A) → All P xs → All P (drop n xs)
  All-drop P zero xs h = h
  All-drop P (suc n) [] h = tt
  All-drop P (suc n) (x ∷ xs) h = All-drop P n xs h.1

  pub All-filter {κ} :
      {P : A → Type κ} (q : A → Bool) (xs : List A)
      → ((x : A) → q x ≡ true → P x)
      → All P (filter q xs)
  All-filter q [] h = tt
  All-filter q (x ∷ xs) h = ground (arith, h x, All-filter q xs h)

  pub All-take {κ} : (P : A → Type κ) (n : ℕ) (xs : List A) → All P xs → All P (take n xs)
  All-take P zero xs h = tt
  All-take P (suc n) [] h = tt
  All-take P (suc n) (x ∷ xs) h = (h.0, All-take P n xs h.1)

  pub All-append {κ} : (P : A → Type κ) (xs ys : List A) → All P xs → All P ys → All P (xs ++ ys)
  All-append P [] ys h k = k
  All-append P (x ∷ xs) ys h k = (h.0, All-append P xs ys h.1 k)

-- An update that keeps a key leaves the keys of the rows as they are.
pub map-update {ℓ κ} :
    {A : Type ℓ} {B : Type κ} (key : A → B) (q : A → Bool) (f : A → A) (xs : List A)
    → ((x : A) → key (f x) ≡ key x)
    → map key (update q f xs) ≡ map key xs
map-update key q f [] keep = refl
map-update {A = A} key q f (x ∷ xs) keep = λ i. at_test (q x) i ∷ map-update key q f xs keep i
  where
    at_test : (b : Bool) → key (if b then f x else x) ≡ key x
    at_test true = keep x
    at_test false = refl

-- `x in xs`, of a list or a set of ids.
abbrev pub contains : ℕ → List ℕ → Bool
contains a xs = any (λ x. x == a) xs

pub any-map {ℓ κ} :
    {A : Type ℓ} {B : Type κ} (p : B → Bool) (f : A → B) (xs : List A)
    → any p (map f xs) ≡ any (λ x. p (f x)) xs
any-map p f [] = refl
any-map p f (x ∷ xs) = ap (λ b. p (f x) || b) (any-map p f xs)
