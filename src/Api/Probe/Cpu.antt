-- ===== src/Api/Probe/Cpu.antt =====
-- What readCPUStat of internal/api/heartbeat_linux.go reads of /proc/stat.
use routestack_agent.Base.{
  ℕ, suc, ◌+◌, ◌%◌, ◌^◌, ◌≤◌, ◌<◌, Text, List, [], ◌∷◌, ◌++◌, map, some, codes, ◌≡◌, refl, ◌∙◌, ap,
  arith, All, length, bytes, decimal, is_space, fields, starts_field, ◌==◌, ltb, false,
  text_eq_refl,
}
use routestack_agent.Base.LineLaws.{
  IsWord, spaced, parse_uint-decimal, decimal-IsWord, fields-spaced, IsLine, words-IsLine,
  scan_lines-line,
}
use routestack_agent.World.{ok}
use routestack_agent.Api.Probe.{CpuStat, add_fields, cpu_line, read_cpu_stat}

abbrev pub total_of : List ℕ → ℕ
total_of [] = 0
total_of (v ∷ vs) = v + total_of vs

-- The first line of /proc/stat, as the kernel prints it: two spaces after "cpu".
abbrev pub stat_line : List ℕ → Text
stat_line vs = codes "cpu" ++ 32 ∷ spaced (map decimal vs)

IsWords : (vs : List ℕ) → All IsWord (map decimal vs)
IsWords [] = tt
IsWords (v ∷ vs) = (decimal-IsWord v, IsWords vs)

stat : ℕ → ℕ → CpuStat
stat idle total = record { total = total; idle = idle }

mod-plus : (a b c : ℕ) → ((a + b) % 2 ^ 64 + c) % 2 ^ 64 ≡ (a + (b + c)) % 2 ^ 64
mod-plus a b c = omega arith

-- The values after the fourth.
add_fields-later :
    (i : ℕ) (vs : List ℕ) (s : CpuStat)
    → 4 ≤ i
    → All (λ v. v < 2 ^ 64) vs
    → s.total < 2 ^ 64
    → add_fields i (map decimal vs) s
      ≡ record { total = (s.total + total_of vs) % 2 ^ 64; idle = s.idle }
unfolding add_fields stat
add_fields-later i [] s late small bound = ap (stat s.idle) (omega arith)
add_fields-later i (v ∷ vs) s late (h, hs) bound =
    let later : (i == 3) ≡ false = ground arith in
    rw (add_fields, parse_uint-decimal v h, later)
      (add_fields-later (suc i) vs (stat s.idle ((s.total + v) % 2 ^ 64)) (omega arith) hs
          (omega arith)
        ∙ ap (stat s.idle) (mod-plus s.total v (total_of vs)))

not-below : (n : ℕ) → ltb (suc (suc (suc (suc (suc n))))) 5 ≡ false
not-below n = ground arith

-- All the values.
add_fields-four :
    (user nice system idle : ℕ) (more : List ℕ)
    → All (λ v. v < 2 ^ 64) (user ∷ nice ∷ system ∷ idle ∷ more)
    → add_fields 0 (map decimal (user ∷ nice ∷ system ∷ idle ∷ more)) (stat 0 0)
      ≡ stat idle (total_of (user ∷ nice ∷ system ∷ idle ∷ more) % 2 ^ 64)
unfolding add_fields stat
add_fields-four user nice system idle more (hu, (hn, (hs, (hi, hm)))) =
    rw
      (
        add_fields,
        parse_uint-decimal user hu,
        parse_uint-decimal nice hn,
        parse_uint-decimal system hs,
        parse_uint-decimal idle hi,
      )
      (add_fields-later 4 more
          (stat idle (((((0 + user) % 2 ^ 64 + nice) % 2 ^ 64 + system) % 2 ^ 64 + idle) % 2 ^ 64))
          (omega arith) hm (omega arith)
        ∙ ap (stat idle) (omega arith))

cpu_spaced-IsLine :
    (ws : List Text) → All IsWord (codes "cpu" ∷ ws) → IsLine (codes "cpu" ++ 32 ∷ spaced ws)
cpu_spaced-IsLine ws h =
    let line = words-IsLine (codes "cpu") ws h in
    (line.0, (line.1.0, (line.1.1.0, ((refl, refl), line.1.1.1))))

fields-stat_line :
    (ws : List Text)
    → All IsWord (codes "cpu" ∷ ws)
    → fields (codes "cpu" ++ 32 ∷ spaced ws) ≡ codes "cpu" ∷ ws
unfolding fields starts_field is_space
fields-stat_line ws (h, hs) = ap (λ l. codes "cpu" ∷ l) (fields-spaced ws hs)

-- If the first line of /proc/stat has "cpu", two spaces and at least four values below 2^64 in decimal
-- with a space between them, and fits the scanner's buffer: readCPUStat gives the fourth as the idle
-- time, and the sum of all modulo 2^64 as the total, whatever the rest of the file.
pub read_cpu_stat-stat_line :
    (user nice system idle : ℕ) (more : List ℕ) (rest : Text)
    → let vs = user ∷ nice ∷ system ∷ idle ∷ more in
      All (λ v. v < 2 ^ 64) vs
      → length (bytes (stat_line vs)) < 65536
      → read_cpu_stat (some (stat_line vs ++ 10 ∷ rest))
        ≡ ok (record { total = total_of vs % 2 ^ 64; idle = idle })
unfolding read_cpu_stat cpu_line is_space stat
read_cpu_stat-stat_line user nice system idle more rest small fits =
    let vs = user ∷ nice ∷ system ∷ idle ∷ more in
    let words : All IsWord (codes "cpu" ∷ map decimal vs) =
      (((refl, (refl, (refl, tt))), IsWords vs)) in
    let enough : ltb (length (codes "cpu" ∷ map decimal vs)) 5 ≡ false =
      not-below (length (map decimal more)) in
    rw
      (
        read_cpu_stat,
        scan_lines-line (stat_line vs) rest (cpu_spaced-IsLine (map decimal vs) words) fits,
        fields-stat_line (map decimal vs) words,
      )
      (rw (cpu_line, text_eq_refl (codes "cpu"), enough)
        (ap ok (add_fields-four user nice system idle more small)))
