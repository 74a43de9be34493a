-- ===== src/Shell/Bytes.antt =====
-- The functions of Go's `bytes` that internal/remote/shell.go uses.
use xrunner.Base.{
  All, Bool, Bool-cases, List, Option, Option-cases, [], arith, drop, eqb, false, false≢true,
  if◌then◌else◌, inl, inr, length, none, some, suc, true, ℕ, ◌&&◌, ◌++◌, ◌+◌, ◌<◌, ◌∷◌, ◌≡◌, ◌≢◌,
  ◌≤◌,
}

abbrev pub starts_with : List ℕ → List ℕ → Bool
starts_with xs [] = true
starts_with [] (p ∷ ps) = false
starts_with (x ∷ xs) (p ∷ ps) = eqb x p && starts_with xs ps

abbrev pub one_on : Option ℕ → Option ℕ
one_on none = none
one_on (some j) = some (suc j)

-- bytes.Index
unfoldable pub index : List ℕ → List ℕ → Option ℕ
index [] sep = if starts_with [] sep then some 0 else none
index (x ∷ xs) sep =
    let later = index xs sep in if starts_with (x ∷ xs) sep then some 0 else one_on later

abbrev pub or_here : Option ℕ → Bool → Option ℕ
or_here (some j) here = some (suc j)
or_here none true = some 0
or_here none false = none

-- bytes.LastIndex
unfoldable pub last_index : List ℕ → List ℕ → Option ℕ
last_index [] sep = if starts_with [] sep then some 0 else none
last_index (x ∷ xs) sep = or_here (last_index xs sep) (starts_with (x ∷ xs) sep)

-- bytes.IndexByte
unfoldable pub index_byte : List ℕ → ℕ → Option ℕ
index_byte [] c = none
index_byte (x ∷ xs) c = let later = index_byte xs c in if eqb x c then some 0 else one_on later

abbrev pub head_on : ℕ → List (List ℕ) → List (List ℕ)
head_on x [] = (x ∷ []) ∷ []
head_on x (part ∷ parts) = (x ∷ part) ∷ parts

-- bytes.Split with a separator of one byte
unfoldable pub split : List ℕ → ℕ → List (List ℕ)
split [] sep = [] ∷ []
split (x ∷ xs) sep = let rest = split xs sep in if eqb x sep then [] ∷ rest else head_on x rest

-- bytes.Join with a separator of one byte
unfoldable pub join : List (List ℕ) → ℕ → List ℕ
join [] sep = []
join (part ∷ []) sep = part
join (part ∷ (next ∷ parts)) sep = part ++ sep ∷ join (next ∷ parts) sep

pub starts_with-length : (xs sep : List ℕ) → starts_with xs sep ≡ true → length sep ≤ length xs
starts_with-length xs [] h = omega arith
starts_with-length [] (p ∷ ps) h = absurd (false≢true h)
starts_with-length (x ∷ xs) (p ∷ ps) h = ground (arith, starts_with-length xs ps)

-- What an index that was found says.
abbrev pub Found : List ℕ → List ℕ → ℕ → Type 0
Found xs sep j = (starts_with (drop j xs) sep ≡ true) × (j + length sep ≤ length xs)

Found-here : (xs sep : List ℕ) → starts_with xs sep ≡ true → Found xs sep 0
Found-here xs sep h = (h, omega (arith, starts_with-length xs sep h))

Found-later : (x : ℕ) (xs sep : List ℕ) (j : ℕ) → Found xs sep j → Found (x ∷ xs) sep (suc j)
Found-later x xs sep j h = (h.0, omega (arith, h.1))

pub index-Found : (xs sep : List ℕ) (j : ℕ) → index xs sep ≡ some j → Found xs sep j
unfolding index
index-Found [] sep j h = ground (arith, Found-here [] sep)
index-Found (x ∷ xs) sep j h = elim (Bool-cases (starts_with (x ∷ xs) sep)) [
  | inl here ↦ ground (arith, here, h, Found-here (x ∷ xs) sep here)
  | inr e ↦ elim (Option-cases (index xs sep)) [
    | inl q ↦ ground (arith, e, q, h)
    | inr (i, q) ↦ ground (arith, e, q, h, Found-later x xs sep i (index-Found xs sep i q))
  ]
]

pub last_index-Found : (xs sep : List ℕ) (j : ℕ) → last_index xs sep ≡ some j → Found xs sep j
unfolding last_index
last_index-Found [] sep j h = ground (arith, Found-here [] sep)
last_index-Found (x ∷ xs) sep j h = elim (Option-cases (last_index xs sep)) [
  | inr (i, q) ↦ ground (arith, q, h, Found-later x xs sep i (last_index-Found xs sep i q))
  | inl q ↦ elim (Bool-cases (starts_with (x ∷ xs) sep)) [
    | inl here ↦ ground (arith, q, here, h, Found-here (x ∷ xs) sep here)
    | inr e ↦ ground (arith, e, q, h)
  ]
]

pub index_byte-bound : (xs : List ℕ) (c j : ℕ) → index_byte xs c ≡ some j → j < length xs
unfolding index_byte
index_byte-bound [] c j h = ground (arith, h)
index_byte-bound (x ∷ xs) c j h = elim (Bool-cases (eqb x c)) [
  | inl here ↦ ground (arith, here, h)
  | inr e ↦ elim (Option-cases (index_byte xs c)) [
    | inl q ↦ ground (arith, e, q, h)
    | inr (i, q) ↦ ground (arith, e, q, h, index_byte-bound xs c i q)
  ]
]

-- A byte that does not occur before is found where it stands.
pub index_byte-append :
    (xs ys : List ℕ) (c : ℕ) → All (λ x. x ≢ c) xs → index_byte (xs ++ c ∷ ys) c ≡ some (length xs)
unfolding index_byte
index_byte-append [] ys c h = ground arith
index_byte-append (x ∷ xs) ys c h = ground (arith, index_byte-append xs ys c h.1)

-- A separator is found behind a text without the separator's first byte.
pub index-append :
    (xs ys : List ℕ) (c : ℕ) (sep : List ℕ)
    → All (λ x. x ≢ c) xs
    → starts_with ys (c ∷ sep) ≡ true
    → index (xs ++ ys) (c ∷ sep) ≡ some (length xs)
unfolding index
index-append [] [] c sep h s = absurd (false≢true s)
index-append [] (y ∷ ys) c sep h s = rw s
index-append (x ∷ xs) ys c sep h s = ground (arith, index-append xs ys c sep h.1 s)
