-- ===== src/UrlValidation/Tests.antt =====
-- The validation on concrete addresses.
use gpg_signing_service.Common.{
  ℕ, ◌+◌, ◌*◌, ◌≤◌, Char, String, ◌≡◌, refl, arith, Bool, map, split, not, inl, inr, ◌==◌,
}
use gpg_signing_service.Common.Result.{is_returned}
use gpg_signing_service.UrlValidation.{validate_ipv4, to_number, check_ipv6}
use gpg_signing_service.UrlValidation.Ipv4.{accepts, is_forbidden, validate_ipv4-accepts}
use gpg_signing_service.UrlValidation.Ipv6.{group_value, is_forbidden_group, check_ipv6-blocks}
use gpg_signing_service.UrlValidation.Mapped.{check_ipv6-mapped, check_ipv6-compatible, loopback}

validate_ipv4-accepts_example :
    is_returned (validate_ipv4 "172.20.0.1") ≡ accepts (map to_number (split b'.' "172.20.0.1"))
validate_ipv4-accepts_example = validate_ipv4-accepts "172.20.0.1"

check_ipv6-blocks_example :
    is_returned (check_ipv6 "fd12:0000:0000:0000:0000:0000:0000:0001")
    ≡ not (is_forbidden_group (group_value 15 13 1 2))
check_ipv6-blocks_example =
    check_ipv6-blocks "f" "d" "1" "2" 15 13 1 2 ":0000:0000:0000:0000:0000:0000:0001"
      (inr (omega arith, omega arith, refl)) (inr (omega arith, omega arith, refl))
      (inl (omega arith, refl)) (inl (omega arith, refl)) (λ e. omega arith)

-- ::ffff:127.0.0.1
check_ipv6-mapped_example :
    is_returned (check_ipv6 "0000:0000:0000:0000:0000:ffff:7f00:0001")
    ≡ not (is_forbidden (group_value 7 15 0 0 * 65536 + group_value 0 0 0 1))
unfolding gpg_signing_service.Common.starts_with gpg_signing_service.Common.skip
check_ipv6-mapped_example =
    check_ipv6-mapped "7" "f" "0" "0" ":" "0" "0" "0" "1" 7 15 0 0 0 0 0 1
      "0000:0000:0000:0000:0000:ffff:7f00:0001" refl refl (inl (omega arith, refl))
      (inr (omega arith, omega arith, refl)) (inl (omega arith, refl)) (inl (omega arith, refl))
      (inl (omega arith, refl)) (inl (omega arith, refl)) (inl (omega arith, refl))
      (inl (omega arith, refl))

-- ::127.0.0.1
check_ipv6-compatible_example :
    is_returned (check_ipv6 "0000:0000:0000:0000:0000:0000:7f00:0001")
    ≡ not ("0000:0000:0000:0000:0000:0000:7f00:0001" == loopback)
unfolding gpg_signing_service.Common.starts_with
check_ipv6-compatible_example = check_ipv6-compatible "0000:0000:0000:0000:0000:0000:7f00:0001" refl
