-- ===== src/Api/Probe/Tests.antt =====
-- The probes of internal/api/heartbeat_linux.go on small texts.
use routestack_agent.Base.{
  pos, negsuc, ◌∷◌, ◌++◌, some, codes, ◌≡◌, refl, scan_lines, fields, parse_int, bytes, has_prefix,
  trim_prefix, digits_from,
}
use routestack_agent.Api.Probe.{read_os_release, chars_to_string, used_memory, proc_meminfo_field}

pretty_name_test :
    read_os_release (some (codes "ID=debian\nPRETTY_NAME=\"Debian 12\"\nPRETTY_NAME=x\n"))
    ≡ codes "Debian 12"
unfolding read_os_release scan_lines bytes has_prefix trim_prefix
pretty_name_test = refl

chars_to_string_test : chars_to_string (codes "x86" ++ 0 ∷ codes "_") ≡ codes "x86"
unfolding chars_to_string
chars_to_string_test = refl

used_memory_test :
    let text = some (codes "MemTotal:  4096 kB\nMemFree: 1 kB\nMemAvailable:\t1024 kB\n") in
    used_memory text text ≡ pos 3
unfolding used_memory scan_lines bytes fields parse_int has_prefix digits_from
used_memory_test = refl

-- More is available than there is.
negative_memory_test :
    let text = some (codes "MemTotal: 1 kB\nMemAvailable: 4096 kB\n") in
    used_memory text text ≡ negsuc 2
unfolding used_memory scan_lines bytes fields parse_int has_prefix digits_from
negative_memory_test = refl

missing_field_test : proc_meminfo_field (codes "MemTotal") (some (codes "MemTotal:\n")) ≡ pos 0
unfolding proc_meminfo_field scan_lines bytes fields has_prefix
missing_field_test = refl
