-- ===== src/Tests.antt =====
-- The helpers of internal/utils at concrete inputs.
use benzene.Prelude.{ℕ, ◌*◌, ◌≤◌, ◌≡◌, List, [], ◌∷◌, ◌++◌, arith, length}
use benzene.Bytes.{count_one_bits, total_ones, count_one_bits-total_ones}
use benzene.Timeout.{Timeout, inactive, start, check_expire, check_all, any_late, check_all-start}

abbrev mask : List ℕ
mask = 255 ∷ 16 ∷ 3 ∷ []

count_one_bits-total_ones_example :
    (count_one_bits mask ≡ total_ones mask) × (count_one_bits mask ≤ 8 * length mask)
count_one_bits-total_ones_example =
    count_one_bits-total_ones mask (omega arith, (omega arith, (omega arith, tt)))

abbrev timer : Timeout
timer = record { state = inactive; d = 10; start_time = 0 }

check_all-start_example :
    (check_expire 115 (check_all (104 ∷ 112 ∷ []) (start 100 timer))).1
    ≡ any_late 100 10 ((104 ∷ 112 ∷ []) ++ 115 ∷ [])
check_all-start_example = check_all-start 100 115 (104 ∷ 112 ∷ []) timer
