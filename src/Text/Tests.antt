-- ===== src/Text/Tests.antt =====
-- Small texts.
use zns_emulation_bench.Prelude.{◌≡◌, refl, ◌-◌, ◌+◌}
use zns_emulation_bench.Text.{int_zero, codes, to_string, sscanf_d}

printed : to_string 1203 ≡ codes "1203"
unfolding to_string
printed = refl

-- `%d` into an `int`: a sign, and only the lower 32 bits.
negative_number : sscanf_d (codes "-0000000012") 7 ≡ int_zero - 12
unfolding sscanf_d
negative_number = refl

wide_number : sscanf_d (codes "4294967297") 7 ≡ int_zero + 1
unfolding sscanf_d
wide_number = refl
