-- ===== src/Programs.antt =====
-- server/main.cpp and recorder/recorder.cpp: the two programs, from their options to their exit.
-- getopt_long is a parameter: a program is given its successive results, up to the first that is not
-- positive. A result of getopt_long is the option's character with optarg, and `?` is an error.
pub mod Winding
pub mod Released
pub mod Described
pub mod Server
pub mod Recorder
use test_runner.Prelude.{ℕ, Option, none, some, Bytes}

-- One result of getopt_long; `none` is a null pointer.
pub record GivenOption : Type 0 where
  pub ch : ℕ
  pub optarg : Option Bytes

-- How a program ends. `null_pointer` is the use of a null optarg as a string, which C++ leaves
-- undefined; `stuck` is a join whose thread is not done under the given schedule, or a call that ends
-- the process.
pub data Ending : Type 0 where
  exit_success exit_failure null_pointer stuck : Ending

-- What the loop over the options comes to.
pub data Parsed (A : Type 0) : Type 0 where
  parsed : A → Parsed A
  ends : Ending → Parsed A

-- An option that reads optarg as a string.
abbrev pub with_argument : {A : Type 0} → Option Bytes → (Bytes → A) → Parsed A
with_argument none f = ends null_pointer
with_argument (some a) f = parsed (f a)
