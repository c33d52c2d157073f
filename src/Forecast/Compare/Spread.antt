-- ===== src/Forecast/Compare/Spread.antt =====
-- The even choice among too many windows.
use native.Mathlib.Nat.{
  le-div_iff_mul-le, div-mul-le_self, div-le_of_le-mul, mul-div_right, mul-le-mul_right, zero-div,
}
use keda_replica_sense.Prelude.{
  ℕ, zero, suc, ◌+◌, ◌-◌, ◌*◌, ◌/◌, ◌≤◌, ◌<◌, ltb, ◌==◌, List, [], ◌∷◌, map, length, get_or, false,
  ok, ◌≡◌, ◌⊎◌, refl, sym, ap, ◌∙◌, arith, Bool-cases, inl, inr, ok_injective, Every, Every-mono,
  err-ne-ok, length-map,
}
use keda_replica_sense.Forecast.Compare.{count_from, spread, selected_windows}

-- Every item is above the ones before it, and the first is `b` or more.
abbrev pub Ascending : ℕ → List ℕ → Type 0
Ascending b [] = Unit
Ascending b (x ∷ xs) = (b ≤ x) × Ascending (suc x) xs

Ascending-weaken : (a b : ℕ) (xs : List ℕ) → a ≤ b → Ascending b xs → Ascending a xs
Ascending-weaken a b [] le h = tt
Ascending-weaken a b (x ∷ xs) le h = (omega (arith, le, h.0), h.1)

division_step : (k a c : ℕ) → 1 ≤ c → c ≤ a → k * a / c < suc k * a / c
division_step k a c one_le le =
    (le-div_iff_mul-le one_le).1 (omega (arith, div-mul-le_self (k * a) c))

division_bound : (i n m : ℕ) → 1 ≤ m → i ≤ m → i * n / m ≤ n
division_bound i n m one_le le = div-le_of_le-mul m (mul-le-mul_right n le)

length-count_from : (start n : ℕ) → length (count_from start n) ≡ n
length-count_from start zero = refl
length-count_from start (suc n) = ap suc (length-count_from (suc start) n)

get_or-map :
    (f : ℕ → ℕ) (xs : List ℕ) (i : ℕ) → i < length xs → get_or (map f xs) i 0 ≡ f (get_or xs i 0)
get_or-map f [] i h = elim h [ ]
get_or-map f (x ∷ xs) zero h = refl
get_or-map f (x ∷ xs) (suc i) h = get_or-map f xs i (omega arith)

get_or-count_from : (start n i : ℕ) → i < n → get_or (count_from start n) i 0 ≡ start + i
get_or-count_from start zero i h = elim h [ ]
get_or-count_from start (suc n) zero h = omega arith
get_or-count_from start (suc n) (suc i) h =
    omega (arith, get_or-count_from (suc start) n i (omega arith))

-- The positions, from place `k` on.
abbrev pub positions : ℕ → ℕ → ℕ → ℕ → List ℕ
positions a c k left = map (λ i. i * a / c) (count_from k left)

positions-Ascending :
    (a c k left : ℕ) → 1 ≤ c → c ≤ a → Ascending (k * a / c) (positions a c k left)
positions-Ascending a c k zero one_le le = tt
positions-Ascending a c k (suc left) one_le le = (
  omega arith,
  Ascending-weaken (suc (k * a / c)) (suc k * a / c) (positions a c (suc k) left)
      (division_step k a c one_le le) (positions-Ascending a c (suc k) left one_le le),
)

positions-Every :
    (a c k left : ℕ) → 1 ≤ c → k + left ≤ suc c → Every (λ i. i ≤ a) (positions a c k left)
positions-Every a c k zero one_le le = tt
positions-Every a c k (suc left) one_le le = (
  division_bound k a c one_le (omega arith),
  positions-Every a c (suc k) left one_le (omega arith),
)

abbrev pub IsChoice : List ℕ → ℕ → List ℕ → Type 0
IsChoice indexes most chosen =
    ((length indexes ≤ most) × (chosen ≡ indexes))
    ⊎ ((places : List ℕ) × (chosen ≡ map (λ i. get_or indexes i 0) places)
        × Ascending 0 places
        × Every (λ i. i < length indexes) places
        × (length places ≡ most)
        × (get_or places 0 0 ≡ 0)
        × (suc (get_or places (most - 1) 0) ≡ length indexes))

map-compose : (g f : ℕ → ℕ) (xs : List ℕ) → map (λ i. g (f i)) xs ≡ map g (map f xs)
map-compose g f [] = refl
map-compose g f (x ∷ xs) = ap (λ ys. g (f x) ∷ ys) (map-compose g f xs)

last_place : (n m : ℕ) → 2 ≤ m → get_or (positions n (m - 1) 0 m) (m - 1) 0 ≡ n
last_place n m two =
    get_or-map (λ i. i * n / (m - 1)) (count_from 0 m) (m - 1)
      (omega (arith, length-count_from 0 m))
    ∙ ap (λ i. i * n / (m - 1)) (omega (arith, get_or-count_from 0 m (m - 1) (omega (arith, two))))
    ∙ mul-div_right n (omega (arith, two))

no_places : (n : ℕ) → (0 + 0) * n ≡ 0
no_places n = omega arith

first_place : (n m : ℕ) → 2 ≤ m → get_or (positions n (m - 1) 0 m) 0 0 ≡ 0
first_place n m two =
    get_or-map (λ i. i * n / (m - 1)) (count_from 0 m) 0 (omega (arith, length-count_from 0 m))
    ∙ ap (λ i. i * n / (m - 1)) (get_or-count_from 0 m 0 (omega (arith, two)))
    ∙ ap (λ z. z / (m - 1)) (no_places n)
    ∙ zero-div (m - 1)

one_off : (m : ℕ) → 2 ≤ m → (m == 1) ≡ false
one_off m two = ground arith

spread-IsChoice :
    (indexes : List ℕ) (most : ℕ)
    → 2 ≤ most
    → most < length indexes
    → IsChoice indexes most (spread indexes most)
unfolding spread
spread-IsChoice indexes most two fewer =
    let n = length indexes - 1 in
    inr (
      positions n (most - 1) 0 most,
      map-compose (λ i. get_or indexes i 0) (λ i. i * n / (most - 1)) (count_from 0 most),
      Ascending-weaken 0 (0 * n / (most - 1)) (positions n (most - 1) 0 most) (omega arith)
          (positions-Ascending n (most - 1) 0 most (omega arith) (omega arith)),
      Every-mono (positions n (most - 1) 0 most) (λ i le. omega arith)
          (positions-Every n (most - 1) 0 most (omega arith) (omega arith)),
      length-map (count_from 0 most) _ ∙ length-count_from 0 most,
      first_place n most two,
      omega (arith, last_place n most two),
    )

-- Among too many windows the choice takes places that rise from the first window to the last, as
-- many as are allowed; few enough windows are all taken, and with two or more allowed none of it fails.
pub selected_windows-IsChoice :
    (indexes : List ℕ) (most : ℕ)
    → 2 ≤ most
    → (chosen : List ℕ) × (selected_windows indexes most ≡ ok chosen) × IsChoice indexes most chosen
unfolding selected_windows
selected_windows-IsChoice indexes most two = elim (Bool-cases (ltb most (length indexes))) [
  | inl e ↦ (
    spread indexes most,
    rw (e, one_off most two) refl,
    spread-IsChoice indexes most two (ground arith),
  )
  | inr e ↦ (indexes, rw e refl, inl (ground arith, refl))
]

Every-get_or :
    (P : ℕ → Type 0) (xs : List ℕ) (i : ℕ) → i < length xs → Every P xs → P (get_or xs i 0)
Every-get_or P [] i h all = elim h [ ]
Every-get_or P (x ∷ xs) zero h all = all.0
Every-get_or P (x ∷ xs) (suc i) h all = Every-get_or P xs i (omega arith) all.1

Every-map :
    (P : ℕ → Type 0) (xs places : List ℕ)
    → Every P xs
    → Every (λ i. i < length xs) places
    → Every P (map (λ i. get_or xs i 0) places)
Every-map P xs [] all h = tt
Every-map P xs (i ∷ is) all h = (Every-get_or P xs i h.0 all, Every-map P xs is all h.1)

IsChoice-Every :
    (P : ℕ → Type 0) (indexes : List ℕ) (most : ℕ) (chosen : List ℕ)
    → IsChoice indexes most chosen
    → Every P indexes
    → Every P chosen
IsChoice-Every P indexes most chosen (inl (few, same)) all = rw same all
IsChoice-Every P indexes most chosen (inr (places, same, rising, inside, count, first, last)) all =
    rw same (Every-map P indexes places all inside)

-- What holds of every window holds of the chosen ones.
pub selected_windows-Every :
    (P : ℕ → Type 0) (indexes : List ℕ) (most : ℕ) (chosen : List ℕ)
    → selected_windows indexes most ≡ ok chosen
    → Every P indexes
    → Every P chosen
unfolding selected_windows spread
selected_windows-Every P indexes zero chosen h all = elim (Bool-cases (ltb 0 (length indexes))) [
  | inl e ↦ rw (sym (ok_injective (rw e at h))) tt
  | inr e ↦ rw (sym (ok_injective (rw e at h))) all
]
selected_windows-Every P indexes (suc zero) chosen h all =
    elim (Bool-cases (ltb 1 (length indexes))) [
      | inl e ↦ absurd (err-ne-ok (rw e at h))
      | inr e ↦ rw (sym (ok_injective (rw e at h))) all
    ]
selected_windows-Every P indexes (suc (suc m)) chosen h all =
    let (picked, same, choice) = selected_windows-IsChoice indexes (suc (suc m)) (omega arith) in
    let e : picked ≡ chosen = ok_injective (sym same ∙ h) in
    rw (sym e) (IsChoice-Every P indexes (suc (suc m)) picked choice all)
