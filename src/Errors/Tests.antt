-- ===== src/Errors/Tests.antt =====
-- Runs of the error values of includes/ty_err.h.
use tyto_h.Base.{◌≡◌, refl, true, false, arith, pos}
use tyto_h.Errors.{err, is_err, err_code, try_or, errptr_max, err_code-err}

err_code-err_example :
    (err_code (err (pos 12)) ≡ pos 12)
    × ((is_err (err (pos 12)) ≡ true)
        × (err (err_code 0xffff_ffff_ffff_fff3) ≡ 0xffff_ffff_ffff_fff3))
err_code-err_example =
    err_code-err (pos 12) 0xffff_ffff_ffff_fff3 (omega arith) (omega arith)
      (λ e. absurd (omega arith))

-- The null pointer is no error.
null_is_ok : try_or 0 false true ≡ true
unfolding try_or is_err errptr_max
null_is_ok = refl
