-- ===== src/Utils/Tests.antt =====
-- The codec on concrete buffers.
use tools_on_linux.Utils.Rounding.{
  round_up_n, round_up_16, round_n-IsRound, round_down_n, IsRoundUp, IsRoundDown,
}
use tools_on_linux.Utils.Codec.{put_u32, get_u32-put_u32, get_u32, IsBytes, Buffer}
use tools_on_linux.Prelude.{refl, ◌≡◌, arith}

-- Every byte is 7.
abbrev buffer : Buffer
buffer i = 7

buffer-IsBytes : IsBytes buffer
buffer-IsBytes i = omega arith

get_u32-put_u32_example : get_u32 (put_u32 buffer 0xDEADBEEF).1 ≡ 0xDEADBEEF
get_u32-put_u32_example = get_u32-put_u32 buffer 0xDEADBEEF buffer-IsBytes (omega arith)

round_n-IsRound_example : IsRoundUp 8 13 (round_up_n 13 8) × IsRoundDown 8 13 (round_down_n 13 8)
round_n-IsRound_example = round_n-IsRound 13 3 (omega arith) (omega arith)

-- 77 rounded by hand.
round_up_16-77 : round_up_16 77 ≡ 80
unfolding round_up_16
round_up_16-77 = refl
