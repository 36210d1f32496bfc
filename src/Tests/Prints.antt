-- ===== src/Tests/Prints.antt =====
-- Formatted printing.
use e_os_aarch64_hal.Base.{◌≡◌, ◌≢◌, ◌≤◌, ◌<◌, ◌⊎◌, refl, [], ◌∷◌, ◌^◌, ◌-◌, ◌+◌, ◌%◌, some, length}
use e_os_aarch64_hal.Base.Run.{ok, fault, hang}
use e_os_aarch64_hal.Hal.Uart.{put_dec}
use e_os_aarch64_hal.Print.Format.Ends.{vsprintf-ne-hang}
use e_os_aarch64_hal.Print.Format.Plain.{printf-plain, vsprintf-unknown}
use e_os_aarch64_hal.Print.Format.Decimal.{vsprintf-put_dec}
use e_os_aarch64_hal.Print.{codes, strnlen, skip_atoi}
use e_os_aarch64_hal.Print.Number.{
  replicate, take, put_digits, digits_of, sign_of, prefix_of, put_padded, number,
}
use e_os_aarch64_hal.Print.Format.{
  print_buffer_size, word, text, parse_flags, parse_width, parse_precision, parse_qualifier,
  int_arg, put_number, put_int, put_char, put_text, put_pointer, convert, directive, print_loop,
  vsprintf, printf,
}

printed_line :
    printf
      (codes "[%15s:%-6d] %#06x|%+d|%.3u%%")
      (text (some (codes "task.c")) ∷ word (2 ^ 32 - 42) ∷ word 0xbeef ∷ word 7 ∷ word 5 ∷ [])
    ≡ ok (codes "[         task.c:-42   ] 0xbeef|+7|005%")
unfolding printf vsprintf print_loop directive convert put_pointer put_text put_char put_int
    put_number int_arg parse_qualifier parse_precision parse_width parse_flags number put_padded
    prefix_of sign_of digits_of put_digits take replicate strnlen skip_atoi
printed_line = refl

vsprintf-ne-hang_example : vsprintf (codes "%5d%%s%") (word 3 ∷ []) ≢ hang
vsprintf-ne-hang_example = vsprintf-ne-hang (codes "%5d%%s%") (word 3 ∷ [])

printf-plain_example :
    ((length (codes "starting") < print_buffer_size)
      × (printf (codes "starting") [] ≡ ok (codes "starting")))
    ⊎ ((print_buffer_size ≤ length (codes "starting")) × (printf (codes "starting") [] ≡ fault))
printf-plain_example = printf-plain (codes "starting") [] refl

vsprintf-unknown_example :
    vsprintf (codes "%zu") (word 4096 ∷ [])
    ≡ ok (record { out = codes "%zu"; stores = []; args = word 4096 ∷ [] })
vsprintf-unknown_example = vsprintf-unknown b'z' (codes "u") (word 4096 ∷ []) refl refl

vsprintf-put_dec_example :
    vsprintf (codes "%u") (word (2 ^ 32 + 42) ∷ [])
    ≡ ok (record { out = put_dec ((2 ^ 32 + 42) % 2 ^ 32); stores = []; args = [] })
vsprintf-put_dec_example = vsprintf-put_dec (2 ^ 32 + 42)
