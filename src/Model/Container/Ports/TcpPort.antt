-- ===== src/Model/Container/Ports/TcpPort.antt =====
-- What getTCPPort takes for a port.
use kubedock.Base.{
  ℕ, ℤ, ◌+◌, ◌-◌, ◌*◌, ◌≡◌, ◌↔◌, ◌⊎◌, inl, inr, refl, true, List, [], ◌∷◌, ◌++◌, none, some,
  Option-cases, all_of, ok, arith, Str, str_eq_iff,
}
use kubedock.Base.Text.{codes, split, parse_int64, parse_digits, scan_digits}
use kubedock.Base.Text.Split.{lacks, split-lacks, split-append, split_one, split_two}
use kubedock.Model.Container.Ports.{get_tcp_port}

scan_lacks : (n : ℕ) (s : Str) (m : ℕ) → scan_digits n s ≡ some m → lacks b'/' s ≡ true
unfolding scan_digits all_of
scan_lacks n [] m h = refl
scan_lacks n (c ∷ s) m h = ground (arith, scan_lacks (n * 10 + (c - b'0')) s m)

digits_lacks : (s : Str) (m : ℕ) → parse_digits s ≡ some m → lacks b'/' s ≡ true
unfolding parse_digits
digits_lacks [] m h = cc
digits_lacks (c ∷ s) m h = scan_lacks 0 (c ∷ s) m h

digits_or_none : (s : Str) → (parse_digits s ≡ none) ⊎ (lacks b'/' s ≡ true)
digits_or_none s = elim (Option-cases (parse_digits s)) [
  | inl e ↦ inl e
  | inr (m, e) ↦ inr (digits_lacks s m e)
]

-- A number holds no slash.
pub parse_int64-lacks : (s : Str) (n : ℤ) → parse_int64 s ≡ some n → lacks b'/' s ≡ true
unfolding parse_int64 all_of
parse_int64-lacks [] n h = cc
parse_int64-lacks (c ∷ s) n h = ground (arith, digits_or_none s, digits_or_none (c ∷ s))

-- The two ways to write a port.
abbrev pub IsTcpPort : Str → ℤ → Type 0
IsTcpPort p n =
    (parse_int64 p ≡ some n) ⊎ ((a : Str) × (p ≡ a ++ codes "/tcp") × (parse_int64 a ≡ some n))

sound :
    (p : Str) (n : ℤ) (ps : List Str) → get_tcp_port p ≡ ok n → split b'/' p ≡ ps → IsTcpPort p n
unfolding get_tcp_port codes
sound p n [] h e = absurd (ground arith)
sound p n (a ∷ []) h e = inl (ground (arith, split_one b'/' p a e))
sound p n (a ∷ proto ∷ []) h e = inr (
  a,
  ground (arith, split_two b'/' p a proto e, str_eq_iff proto (codes "tcp")),
  ground (arith, str_eq_iff proto (codes "tcp")),
)
sound p n (a ∷ b ∷ c ∷ ps) h e = absurd (ground arith)

complete : (p : Str) (n : ℤ) → IsTcpPort p n → get_tcp_port p ≡ ok n
unfolding get_tcp_port codes
complete p n (inl h) = ground (arith, split-lacks b'/' p (parse_int64-lacks p n h))
complete p n (inr (a, e, h)) = rw e (
    ground (
      arith,
      split-append b'/' a (codes "tcp") (parse_int64-lacks a n h),
      split-lacks b'/' (codes "tcp") (unfold all_of in refl),
      str_eq_iff (codes "tcp") (codes "tcp"),
    ))

-- getTCPPort takes exactly the decimal numbers of 64 bits, alone or with "/tcp" behind them, and
-- returns their value.
pub get_tcp_port_iff : (p : Str) (n : ℤ) → (get_tcp_port p ≡ ok n) ↔ IsTcpPort p n
get_tcp_port_iff p n = (λ h. sound p n (split b'/' p) h refl, complete p n)
