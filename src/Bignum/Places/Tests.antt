-- ===== src/Bignum/Places/Tests.antt =====
-- Operations whose result is one of their arguments.
use tyto_h.Base.{ℕ, ◌≡◌, ◌||◌, arith, ◌==◌, if◌then◌else◌, length}
use tyto_h.Bignum.{array_size, init}
use tyto_h.Bignum.Arith.{from_int, add, sub, and, or, xor}
use tyto_h.Bignum.Arith.Order.{val-from_int}
use tyto_h.Bignum.Mul.{mul}
use tyto_h.Bignum.Places.{Objects, write, add_at, sub_at, and_at, or_at, xor_at, mul_at}
use tyto_h.Bignum.Places.Aliases.{in_place}
use tyto_h.Bignum.Places.Products.{mul_in_place}

-- Every pointer is to 2^32 + 9.
abbrev objects : Objects
objects p = from_int 0x1_0000_0009

objects_size : (p : ℕ) → length (objects p) ≡ array_size
objects_size p = (val-from_int 0x1_0000_0009 (omega arith)).0.size

in_place_example :
    (add_at 1 1 1 objects 1 ≡ write objects 1 (add (objects 1) (objects 1)) 1)
    × ((sub_at 1 1 1 objects 1 ≡ write objects 1 (sub (objects 1) (objects 1)) 1)
        × ((and_at 1 1 1 objects 1 ≡ write objects 1 (and (objects 1) (objects 1)) 1)
            × ((or_at 1 1 1 objects 1 ≡ write objects 1 (or (objects 1) (objects 1)) 1)
                × (xor_at 1 1 1 objects 1 ≡ write objects 1 (xor (objects 1) (objects 1)) 1))))
in_place_example = in_place 1 1 1 objects (objects_size 1) (objects_size 1) (objects_size 1) 1

mul_in_place_example :
    mul_at 1 2 1 3 objects 1
    ≡ write objects 1 (if 1 == 1 || 2 == 1 then init else mul (objects 1) (objects 2)) 1
mul_in_place_example =
    mul_in_place 1 2 1 3 objects 1 (λ e. absurd (omega arith)) (λ e. absurd (omega arith))
      (λ e. absurd (omega arith)) (val-from_int 0x1_0000_0009 (omega arith)).0
      (val-from_int 0x1_0000_0009 (omega arith)).0 (λ e. absurd (omega arith))
