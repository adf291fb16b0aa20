-- ===== src/Emitted/Isr.antt =====
-- The table of handlers of the emitted C, `isr_set` to `isr_call` in `emit_runtime` of compiler/dmc.cpp.
use demonic_c.Base.{
  ℕ, ◌-◌, ◌^◌, ◌<◌, ◌≡◌, refl, ◌||◌, List, Option, none, some, if◌then◌else◌, leb, length,
  get_elem?, get_elem?-set_elem, set_elem, arith, false,
}
use demonic_c.Emitted.Handles.{Effect, returns, undefined}

-- `_dmc_isr`, of 256 numbers.
abbrev Handlers : Type 0
Handlers = List ℕ

-- `vec < 0 || vec >= 256` is one test on the number of the 64 bits.
abbrev minus_one_long : ℕ
minus_one_long = 2 ^ 64 - 1

unfoldable isr_set : ℕ → ℕ → Handlers → Effect Handlers ℕ
unfolding set_elem
isr_set vec handler t =
    if leb (2 ^ 63) vec || leb 256 vec
    then returns minus_one_long t
    else returns 0 (set_elem t vec handler)

abbrev handler_or_undefined : Option ℕ → Handlers → Effect Handlers ℕ
handler_or_undefined none t = undefined
handler_or_undefined (some handler) t = returns handler t

unfoldable isr_get : ℕ → Handlers → Effect Handlers ℕ
isr_get vec t =
    if leb (2 ^ 63) vec || leb 256 vec
    then returns minus_one_long t
    else handler_or_undefined (get_elem? t vec) t

-- The handler is not called, and `arg` is not looked at.
unfoldable isr_call : ℕ → ℕ → Handlers → Effect Handlers ℕ
isr_call vec arg t =
    if leb (2 ^ 63) vec || leb 256 vec
    then returns minus_one_long t
    else handler_or_undefined (get_elem? t vec) t

-- In a table of 256 handlers, `isr_set` of a vector below 256 returns 0, and `isr_call` of the vector
-- then returns what it has put there, whatever the argument.
isr_call-isr_set :
    (vec handler arg : ℕ) (t : Handlers)
    → vec < 256
    → length t ≡ 256
    → (t' : Handlers) × (isr_set vec handler t ≡ returns 0 t')
      × (isr_call vec arg t' ≡ returns handler t')
unfolding isr_set isr_call
isr_call-isr_set vec handler arg t inside whole =
    let low : (leb (2 ^ 63) vec || leb 256 vec) ≡ false = ground (arith, inside) in
    let there : vec < length t = omega (arith, inside, whole) in
    (set_elem t vec handler, rw low refl, rw (low, get_elem?-set_elem t vec handler there) refl)
