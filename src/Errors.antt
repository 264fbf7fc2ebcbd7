-- ===== src/Errors.antt =====
-- include/slerr.h and the system's error numbers: a C `int` result that is an index or zero, or a
-- negated error number.
use slash.Prelude.{ℕ, ◌+◌}

pub data Rc : Type 0 where
  done : ℕ → Rc
  fail : ℕ → Rc

-- errno.h
abbrev pub enoent : ℕ
enoent = 2

abbrev pub ebadf : ℕ
ebadf = 9

abbrev pub eagain : ℕ
eagain = 11

abbrev pub enomem : ℕ
enomem = 12

abbrev pub einval : ℕ
einval = 22

abbrev pub enospc : ℕ
enospc = 28

abbrev pub eopnotsupp : ℕ
eopnotsupp = 95

abbrev slerr_start : ℕ
slerr_start = 1000

abbrev pub slerr_repl_already_act : ℕ
slerr_repl_already_act = slerr_start + 0

abbrev pub slerr_repl_not_act : ℕ
slerr_repl_not_act = slerr_start + 1

abbrev pub slerr_bmap_invalid : ℕ
slerr_bmap_invalid = slerr_start + 4

abbrev pub slerr_bmap_diowait : ℕ
slerr_bmap_diowait = slerr_start + 5

abbrev pub slerr_bmap_zero : ℕ
slerr_bmap_zero = slerr_start + 6

abbrev pub slerr_ion_offline : ℕ
slerr_ion_offline = slerr_start + 10

abbrev pub slerr_lastrepl : ℕ
slerr_lastrepl = slerr_start + 11

abbrev pub slerr_bmap_in_ptrunc : ℕ
slerr_bmap_in_ptrunc = slerr_start + 23

abbrev pub slerr_res_badtype : ℕ
slerr_res_badtype = slerr_start + 30

abbrev pub slerr_gen_old : ℕ
slerr_gen_old = slerr_start + 20

abbrev pub slerr_gen_invalid : ℕ
slerr_gen_invalid = slerr_start + 21
