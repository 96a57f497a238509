-- ===== src/Errno.antt =====
-- include/eaf/utils/errno.h: the results of the API, and eaf_strerror over its table.
use eaf.Prelude.{Option, none, some, List, [], ◌∷◌, Bool, false, ◌==◌, if◌then◌else◌}
use eaf.Prelude.Int.{ℤ, pos, negsuc}
use Prim.Native.String.{String}

abbrev pub success : ℤ
success = pos 0

abbrev pub unknown : ℤ
unknown = negsuc 0

abbrev pub duplicate : ℤ
duplicate = negsuc 1

abbrev pub memory : ℤ
memory = negsuc 2

abbrev pub state : ℤ
state = negsuc 3

abbrev pub notfound : ℤ
notfound = negsuc 4

abbrev pub overflow : ℤ
overflow = negsuc 5

abbrev pub timeout : ℤ
timeout = negsuc 6

abbrev pub invalid : ℤ
invalid = negsuc 7

abbrev pub transfer : ℤ
transfer = negsuc 8

abbrev pub eq_int : ℤ → ℤ → Bool
eq_int (pos a) (pos b) = a == b
eq_int (negsuc a) (negsuc b) = a == b
eq_int _ _ = false

-- The table of src/utils/errno.h, in its order.
abbrev err_table : List (ℤ × String)
err_table =
    (success, "success")
    ∷ (unknown, "unknown or system error")
    ∷ (duplicate, "duplicated operation or request")
    ∷ (memory, "memory lack")
    ∷ (state, "wrong state")
    ∷ (notfound, "not found")
    ∷ (overflow, "overflow")
    ∷ (timeout, "timeout")
    ∷ (invalid, "invalid parameters")
    ∷ (transfer, "transmission protocol error")
    ∷ []

abbrev strerror_in : List (ℤ × String) → ℤ → Option String
strerror_in [] err = none
strerror_in ((e, str) ∷ rest) err = if eq_int err e then some str else strerror_in rest err

-- eaf_strerror
unfoldable pub strerror : ℤ → Option String
strerror err = strerror_in err_table err
