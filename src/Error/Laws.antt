-- ===== src/Error/Laws.antt =====
-- The return-code conventions of src/error.rs.
use liburing_rs.Base.{
  ℕ, suc, ◌+◌, ◌-◌, ◌^◌, ◌≡◌, refl, true, false, inl, inr, Bool-cases, arith, ◌==◌,
}
use liburing_rs.Base.Int.{ℤ, pos, negsuc, is_neg, int_eq, neg_i32, IsI32}
use liburing_rs.Base.Outcome.{StdResult, ok, err}
use liburing_rs.Error.{IoError, raw_os_error, from_ret_code, check_ret}

-- The code is read back from the result: a code that is not negative is the value, and the OS error
-- of a negative one is its negation, which is above 0 but for the least value.
abbrev pub Reads : ℤ → StdResult ℤ IoError → Type 0
Reads ret (ok value) = (is_neg ret ≡ false) × (value ≡ ret)
Reads ret (err e) =
    (is_neg ret ≡ true)
    × (neg_i32 (raw_os_error e) ≡ ret)
    × (int_eq ret (negsuc (2 ^ 31 - 1)) ≡ false → is_neg (raw_os_error e) ≡ false)

-- `check_ret` keeps a 32-bit return code that is not negative as its value, and makes of each
-- negative one an OS error whose number is the negation of the code: the code can be read back as the
-- negation of that number, and the number is positive, except for the code -2 ^ 31, which is its own
-- negation.
pub check_ret-Reads : (ret : ℤ) → IsI32 ret → Reads ret (check_ret ret)
unfolding check_ret from_ret_code
check_ret-Reads (pos n) small = (refl, refl)
check_ret-Reads (negsuc n) small = elim (Bool-cases (n == 2 ^ 31 - 1)) [
  | inl least ↦ rw least (refl, rw least refl, λ h. cc)
  | inr more ↦ rw more (refl, back n, λ h. refl)
]
  where
    back : (n : ℕ) → neg_i32 (pos (n + 1)) ≡ negsuc n
    back n = let next : n + 1 ≡ suc n = omega arith in rw next refl
