-- ===== src/Agent/Last.antt =====
-- The last elements of a list.
use xrunner.Base.{
  List, [], arith, drop, drop-drop, length, length-append, length-drop, refl, suc, zero, ℕ, ◌++◌,
  ◌+◌, ◌-◌, ◌∷◌, ◌≡◌, ◌≤◌,
}

-- The last `k` of a list.
abbrev pub last {ℓ} : {A : Type ℓ} → ℕ → List A → List A
last k l = drop (length l - k) l

pub drop-append-above :
    {A : Type 0} (k : ℕ) (xs ys : List A) → k ≤ length xs → drop k (xs ++ ys) ≡ drop k xs ++ ys
drop-append-above zero xs ys h = refl
drop-append-above (suc k) [] ys h = absurd (omega arith)
drop-append-above (suc k) (x ∷ xs) ys h = drop-append-above k xs ys (omega arith)

pub length-last : {A : Type 0} (k : ℕ) (l : List A) → length (last k l) ≤ k
length-last k l = omega (arith, length-drop (length l - k) l)

pub last-append_last :
    {A : Type 0} (k : ℕ) (xs ys : List A) → last k (last k xs ++ ys) ≡ last k (xs ++ ys)
last-append_last k xs ys =
    let cut = length xs - k in
    let a = length-drop cut xs in
    let b = length-append (drop cut xs) ys in
    let c = length-append xs ys in
    let z : length (xs ++ ys) - k ≡ cut + (length (drop cut xs ++ ys) - k) =
      omega (arith, a, b, c) in
    rw
      (
        z,
        drop-drop cut (length (drop cut xs ++ ys) - k) (xs ++ ys),
        drop-append-above cut xs ys (omega arith),
      )
      refl
