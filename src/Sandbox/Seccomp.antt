-- ===== src/Sandbox/Seccomp.antt =====
-- The network filter of mcp_server/_seccomp.py: its program, and the policy that its layout comment
-- states. `exec` is what the kernel documents of the four instructions.
use openstudio_mcp.Base.{
  ℕ, zero, suc, ◌+◌, ◌/◌, ◌%◌, ◌^◌, String, Bool, Option, none, some, List, [], ◌∷◌, ◌≡◌, refl, inl,
  inr, if◌then◌else◌, ◌==◌, ℕ_eq, string_eq, get_elem?, Bool-cases, ◌||◌, ◌&&◌, not,
}

pub data Insn : Type 0 where
  load : ℕ → Insn
  jeq jset : ℕ → ℕ → ℕ → Insn
  ret : ℕ → Insn

-- Of the system call: its number, the architecture, and the first argument (64 bits).
pub record Call : Type 0 where
  pub nr : ℕ
  pub arch : ℕ
  pub arg0 : ℕ

-- The constants of one machine.
pub record Machine : Type 0 where
  pub audit_arch : ℕ
  pub nr_socket : ℕ
  pub nr_io_uring : ℕ

abbrev pub x86_64 : Machine
x86_64 = record { audit_arch = 3221225534; nr_socket = 41; nr_io_uring = 425 }

abbrev pub aarch64 : Machine
aarch64 = record { audit_arch = 3221225655; nr_socket = 198; nr_io_uring = 425 }

-- `_AUDIT_ARCH`, `_NR_SOCKET` and `_NR_IO_URING_SETUP`
unfoldable pub machine : String → Option Machine
machine mach =
    if mach == "x86_64" then some x86_64 else if mach == "aarch64" then some aarch64 else none

abbrev pub ret_allow : ℕ
ret_allow = 2147418112

abbrev pub ret_errno : ℕ
ret_errno = 327680

abbrev pub ret_kill : ℕ
ret_kill = 2147483648

abbrev pub x32_bit : ℕ
x32_bit = 1073741824

-- `_SECCOMP_RET_ERRNO | (errno & 0xFFFF)`: the two have no bit in common.
abbrev pub deny_with : ℕ → ℕ
deny_with errno = ret_errno + errno % 2 ^ 16

-- EAFNOSUPPORT and ENOSYS
abbrev pub deny_net : ℕ
deny_net = deny_with 97

abbrev pub deny_enosys : ℕ
deny_enosys = deny_with 38

abbrev pub off_nr : ℕ
off_nr = 0

abbrev pub off_arch : ℕ
off_arch = 4

abbrev pub off_arg0 : ℕ
off_arg0 = 16

unfoldable pub program : Machine → List Insn
program m =
    load off_arch
    ∷ jeq m.audit_arch 0 7
    ∷ load off_nr
    ∷ jset x32_bit 5 0
    ∷ jeq m.nr_io_uring 5 0
    ∷ jeq m.nr_socket 0 6
    ∷ load off_arg0
    ∷ jeq 2 3 0
    ∷ jeq 10 2 3
    ∷ ret ret_kill
    ∷ ret deny_enosys
    ∷ ret deny_net
    ∷ ret ret_allow
    ∷ []

-- The word of the call at an offset: the low half of the argument at 16.
pub word : Call → ℕ → ℕ
word c offset =
    if offset == off_nr then c.nr else if offset == off_arch then c.arch else c.arg0 % 2 ^ 32

-- `acc & k`, for a `k` of one bit.
pub has_bit : ℕ → ℕ → Bool
has_bit acc k = (acc / k) % 2 == 1

-- One instruction at `pc`: the verdict, or the next place and accumulator.
pub data Next : Type 0 where
  verdict : ℕ → Next
  goto : ℕ → ℕ → Next

pub perform : Call → ℕ → ℕ → Insn → Next
unfolding word has_bit
perform c pc acc (load offset) = goto (pc + 1) (word c offset)
perform c pc acc (jeq k jt jf) = goto (pc + 1 + (if acc == k then jt else jf)) acc
perform c pc acc (jset k jt jf) = goto (pc + 1 + (if has_bit acc k then jt else jf)) acc
perform c pc acc (ret k) = verdict k

pub continue : (ℕ → ℕ → Option ℕ) → Next → Option ℕ
continue rest (verdict k) = some k
continue rest (goto pc acc) = rest pc acc

pub fetch : Call → ℕ → ℕ → Option Insn → Next
unfolding perform
fetch c pc acc none = goto pc acc
fetch c pc acc (some i) = perform c pc acc i

-- A jump goes forward, so that a program ends within as many steps as it has instructions.
unfoldable pub exec : ℕ → List Insn → Call → ℕ → ℕ → Option ℕ
unfolding fetch continue
exec zero prog c pc acc = none
exec (suc fuel) prog c pc acc =
    continue (λ pc' acc'. exec fuel prog c pc' acc') (fetch c pc acc (get_elem? prog pc))

-- The policy that the comment lays out: another architecture or the x32 interface is killed,
-- io_uring is unavailable, an IPv4 or IPv6 socket is refused, and all else is allowed.
pub policy : Machine → Call → ℕ
policy m c =
    if not (c.arch == m.audit_arch) || has_bit c.nr x32_bit
    then ret_kill
    else if c.nr == m.nr_io_uring
    then deny_enosys
    else if c.nr == m.nr_socket && (c.arg0 % 2 ^ 32 == 2 || c.arg0 % 2 ^ 32 == 10)
    then deny_net
    else ret_allow

-- On every machine and for every call, the program comes to a verdict within its 13 steps, and it
-- is the one of the policy.
pub exec-program : (m : Machine) (c : Call) → exec 13 (program m) c 0 0 ≡ some (policy m c)
unfolding exec program policy fetch continue perform word
exec-program m c = elim (Bool-cases (c.arch == m.audit_arch)) [
  | inr foreign ↦ rw foreign refl
  | inl ours ↦ elim (Bool-cases (has_bit c.nr x32_bit)) [
    | inl x32 ↦ rw (ours, x32) refl
    | inr plain ↦ elim (Bool-cases (c.nr == m.nr_io_uring)) [
      | inl ring ↦ rw (ours, plain, ring) refl
      | inr other ↦ elim (Bool-cases (c.nr == m.nr_socket)) [
        | inr call ↦ rw (ours, plain, other, call) refl
        | inl socket ↦ elim (Bool-cases (c.arg0 % 2 ^ 32 == 2)) [
          | inl inet ↦ rw (ours, plain, other, socket, inet) refl
          | inr not4 ↦ elim (Bool-cases (c.arg0 % 2 ^ 32 == 10)) [
            | inl inet6 ↦ rw (ours, plain, other, socket, not4, inet6) refl
            | inr local ↦ rw (ours, plain, other, socket, not4, local) refl
          ]
        ]
      ]
    ]
  ]
]
