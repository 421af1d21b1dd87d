-- ===== src/Util/Process.antt =====
-- clia/src/util/process.cc. What `::strerror_r` writes into the array that it is handed is an argument:
-- the POSIX one writes the text of the code; the GNU one, which g++ selects, answers a pointer instead
-- and may write nothing, which is `none`.
pub mod Errors
mod Tests
use clia.Prelude.{ℕ, zero, Bool, true, false, List, [], Option, none, some, ◌==◌, if◌then◌else◌}
use clia.Util.StrFunc.{Integer, pos, negsuc}

-- The variables: `kThreadId`, `kProcessId`, `kErrno`, and the text in `kErrnoStrBuf`.
pub record Process : Type 0 where
  pub thread_id : ℕ
  pub process_id : ℕ
  pub last_errno : Integer
  pub errno_str_buf : List ℕ

-- They are set from `gettid` and `getpid` when thread and process start.
abbrev pub create : ℕ → ℕ → Process
create tid pid = record {
  thread_id = tid;
  process_id = pid;
  last_errno = pos zero;
  errno_str_buf = [];
}

abbrev pub same : Integer → Integer → Bool
same (pos a) (pos b) = a == b
same (pos a) (negsuc b) = false
same (negsuc a) (pos b) = false
same (negsuc a) (negsuc b) = a == b

abbrev pub written_over : List ℕ → Option (List ℕ) → List ℕ
written_over buf none = buf
written_over buf (some text) = text

-- The answer is the text that is in the array afterwards.
unfoldable pub strerror : (Integer → Option (List ℕ)) → Process → Integer → Process
strerror strerror_r s ec =
    if same ec s.last_errno
    then s
    else record s { last_errno = ec; errno_str_buf = written_over s.errno_str_buf (strerror_r ec) }

abbrev pub get_pid : Process → ℕ
get_pid s = s.process_id

abbrev pub get_tid : Process → ℕ
get_tid s = s.thread_id
