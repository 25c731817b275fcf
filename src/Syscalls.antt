-- ===== src/Syscalls.antt =====
-- recorder/SyscallInterface.h: every call of the server and the recorder that leaves the process.
-- The kernel is a parameter: a function from the history of calls and the call made now to the
-- reply, so that any behaviour, failures included, is some `Kernel`. `Sys` threads the history.
pub mod Trace
use test_runner.Prelude.{ℕ, List, [], ◌∷◌, Option, Bytes}
use test_runner.Prelude.Int.{ℤ}
use test_runner.Linux.{InputEvent, UinputSetup, UiBit, AbsInfo, Dirent}

pub data Call : Type 0 where
  open_file : Bytes → ℕ → Call
  close : ℤ → Call
  opendir : Bytes → Call
  closedir : Call
  -- ioctl with a pointer, one constructor for each request that the code makes
  ui_dev_setup : ℤ → UinputSetup → Call
  ui_abs_setup : ℤ → ℕ → ℕ → ℕ → Call
  ui_dev_create ui_dev_destroy : ℤ → Call
  eviocgname : ℤ → ℕ → Call
  eviocgbit : ℤ → ℕ → ℕ → Call
  eviocgabs : ℤ → ℕ → AbsInfo → Call
  -- ioctl with an integer
  ioctl_int : ℤ → UiBit → ℕ → Call
  read : ℤ → Call
  write : ℤ → InputEvent → Call
  select : ℕ → List ℤ → Call
  usleep : ℕ → Call

-- What a call hands back: its return value, and the buffer that its pointer argument names, as the
-- call leaves it. The entries of a directory stand for the successive results of `readdir`.
abbrev pub Reply : Call → Type 0
Reply (opendir p) = Option (List Dirent)
Reply (eviocgname fd n) = ℤ × Bytes
Reply (eviocgbit fd e n) = ℤ × Bytes
Reply (eviocgabs fd a old) = ℤ × AbsInfo
Reply (read fd) = ℤ × InputEvent
Reply (select n fds) = ℤ × List ℤ
Reply closedir = Unit {0}
Reply (usleep n) = Unit {0}
Reply _ = ℤ

-- The calls made so far, the latest first.
abbrev pub Log : Type 0
Log = List Call

abbrev pub Kernel : Type 0
Kernel = Log → (c : Call) → Reply c

abbrev pub Sys : Type 0 → Type 0
Sys A = Kernel → Log → A × Log

infixl 5 ◌>>=◌ ◌>>◌
abbrev pub ◌>>=◌ : {A B : Type 0} → Sys A → (A → Sys B) → Sys B
◌>>=◌ m f k log = let r = m k log in f r.0 k r.1

abbrev pub ◌>>◌ : {B : Type 0} → Sys (Unit {0}) → Sys B → Sys B
m >> n = m >>= λ _. n

abbrev pub return : {A : Type 0} → A → Sys A
return a k log = (a, log)

abbrev pub call : (c : Call) → Sys (Reply c)
call c k log = (k log c, c ∷ log)

-- The history after `cs`, given oldest first.
abbrev pub logged : Log → List Call → Log
logged log [] = log
logged log (c ∷ cs) = logged (c ∷ log) cs
