-- ===== src/Result.antt =====
-- What a computation of the compiler ends in (compiler/dmc.cpp throws two kinds of exception).
use demonic_c.Base.{◌≡◌, refl}
use demonic_c.Text.{Bytes}

-- `std::runtime_error`, which the parser catches, and `std::out_of_range`, which only `main` does.
pub data Error : Type 0 where
  runtime_error : Bytes → Error
  out_of_range : Error

-- `out_of_fuel` has no counterpart in the program.
pub data Result {ℓ} (A : Type ℓ) : Type ℓ where
  ok : A → Result A
  throws : Error → Result A
  out_of_fuel : Result A

abbrev pub map_ok {ℓ κ} : {A : Type ℓ} {B : Type κ} → (A → B) → Result A → Result B
map_ok f (ok a) = ok (f a)
map_ok f (throws e) = throws e
map_ok f out_of_fuel = out_of_fuel

pub map_ok-eq-ok {ℓ κ} :
    {A : Type ℓ} {B : Type κ} (f : A → B) (r : Result A) {b : B}
    → map_ok f r ≡ ok b
    → (a : A) × (r ≡ ok a) × (f a ≡ b)
map_ok-eq-ok f (ok a) e = (a, refl, cc)
map_ok-eq-ok f (throws x) e = cc
map_ok-eq-ok f out_of_fuel e = cc
