-- ===== src/Patch/Codes.antt =====
-- msgpackpatch/codes.go: what the first byte of an encoding says.
use hydraide.Base.{ℕ, Bool, ◌==◌, ◌||◌, ◌&&◌, leb}

is_fix_map : ℕ → Bool
is_fix_map c = leb 0x80 c && leb c 0x8f

is_fix_array : ℕ → Bool
is_fix_array c = leb 0x90 c && leb c 0x9f

is_fix_str : ℕ → Bool
is_fix_str c = leb 0xa0 c && leb c 0xbf

abbrev pub is_positive_fix : ℕ → Bool
is_positive_fix c = leb c 0x7f

abbrev pub is_negative_fix : ℕ → Bool
is_negative_fix c = leb 0xe0 c

abbrev pub code_float32 : ℕ
code_float32 = 0xca

abbrev pub code_float64 : ℕ
code_float64 = 0xcb

abbrev pub code_uint8 : ℕ
code_uint8 = 0xcc

abbrev pub code_uint16 : ℕ
code_uint16 = 0xcd

abbrev pub code_uint32 : ℕ
code_uint32 = 0xce

abbrev pub code_uint64 : ℕ
code_uint64 = 0xcf

abbrev pub code_int8 : ℕ
code_int8 = 0xd0

abbrev pub code_int16 : ℕ
code_int16 = 0xd1

abbrev pub code_int32 : ℕ
code_int32 = 0xd2

abbrev pub code_int64 : ℕ
code_int64 = 0xd3

unfoldable pub is_map_code : ℕ → Bool
unfolding is_fix_map
is_map_code c = is_fix_map c || c == 0xde || c == 0xdf

unfoldable pub is_array_code : ℕ → Bool
unfolding is_fix_array
is_array_code c = is_fix_array c || c == 0xdc || c == 0xdd

unfoldable pub is_string_code : ℕ → Bool
unfolding is_fix_str
is_string_code c = is_fix_str c || c == 0xd9 || c == 0xda || c == 0xdb

unfoldable pub is_float_code : ℕ → Bool
is_float_code c = c == code_float32 || c == code_float64
