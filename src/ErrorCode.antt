-- ===== src/ErrorCode.antt =====
-- enum ErrorCode of ErrorCode.h, with the Linux values of errno.
use tools_on_linux.Prelude.{◌-◌, ◌^◌, Bool, true, not, ◌&&◌, List, [], ◌∷◌, ◌≡◌, refl}
use tools_on_linux.Prelude.Int.{ℤ, pos, negsuc, leb_ℤ}

abbrev pub no_error : ℤ
no_error = pos 0

-- INT32_MIN
abbrev pub error_unknown : ℤ
error_unknown = negsuc (2 ^ 31 - 1)

abbrev pub error_no_memory : ℤ
error_no_memory = negsuc 11

abbrev pub error_invalid_operation : ℤ
error_invalid_operation = negsuc 37

abbrev pub error_bad_value : ℤ
error_bad_value = negsuc 21

abbrev pub error_would_block : ℤ
error_would_block = negsuc 10

abbrev pub error_bad_type : ℤ
error_bad_type = negsuc (2 ^ 31 - 2)

abbrev pub error_not_found : ℤ
error_not_found = negsuc 1

abbrev pub error_permission_denied : ℤ
error_permission_denied = negsuc 0

abbrev pub error_no_init : ℤ
error_no_init = negsuc 18

abbrev pub error_already_exists : ℤ
error_already_exists = negsuc 16

abbrev pub error_dead_object : ℤ
error_dead_object = negsuc 31

abbrev pub error_failed_transaction : ℤ
error_failed_transaction = negsuc (2 ^ 31 - 3)

abbrev pub error_bad_index : ℤ
error_bad_index = negsuc 74

abbrev pub error_not_enough_data : ℤ
error_not_enough_data = negsuc 60

abbrev pub error_timed_out : ℤ
error_timed_out = negsuc 109

abbrev pub error_unknown_transaction : ℤ
error_unknown_transaction = negsuc 73

abbrev pub error_fds_not_allowed : ℤ
error_fds_not_allowed = negsuc (2 ^ 31 - 8)

abbrev pub error_unexpected_null : ℤ
error_unexpected_null = negsuc (2 ^ 31 - 9)

abbrev pub error_open_fail : ℤ
error_open_fail = negsuc (2 ^ 31 - 10)

abbrev pub error_param_null : ℤ
error_param_null = negsuc (2 ^ 31 - 11)

abbrev pub error_destroy_fail : ℤ
error_destroy_fail = negsuc (2 ^ 31 - 12)

abbrev pub error_ioctl_fail : ℤ
error_ioctl_fail = negsuc (2 ^ 31 - 13)

-- All of them; OK is NO_ERROR.
abbrev pub all_codes : List ℤ
all_codes =
    no_error ∷ error_unknown ∷ error_no_memory ∷ error_invalid_operation ∷ error_bad_value
    ∷ error_would_block ∷ error_bad_type ∷ error_not_found ∷ error_permission_denied ∷ error_no_init
    ∷ error_already_exists ∷ error_dead_object ∷ error_failed_transaction ∷ error_bad_index
    ∷ error_not_enough_data ∷ error_timed_out ∷ error_unknown_transaction ∷ error_fds_not_allowed
    ∷ error_unexpected_null ∷ error_open_fail ∷ error_param_null ∷ error_destroy_fail
    ∷ error_ioctl_fail ∷ []

abbrev same_code : ℤ → ℤ → Bool
same_code a b = leb_ℤ a b && leb_ℤ b a

differs : ℤ → List ℤ → Bool
differs a [] = true
differs a (b ∷ bs) = not (same_code a b) && differs a bs

all_differ : List ℤ → Bool
all_differ [] = true
all_differ (a ∷ rest) = differs a rest && all_differ rest

-- No two names stand for one code.
codes_differ : all_differ all_codes ≡ true
unfolding all_differ differs
codes_differ = refl

-- Each is 0 or negative, and fits an int.
in_range : List ℤ → Bool
in_range [] = true
in_range (a ∷ rest) = leb_ℤ a (pos 0) && leb_ℤ error_unknown a && in_range rest

codes_in_range : in_range all_codes ≡ true
unfolding in_range
codes_in_range = refl
