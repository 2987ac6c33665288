-- ===== src/Emulation/GpuRenderer/Sandbox.antt =====
-- internal/sandbox.py: the system calls that the renderer may make, the wrapper of a command, and what
-- `enter_sandbox` makes of what the system answers. No filter is installed: `apply_seccomp_filter` does
-- nothing, and nothing calls it.
use linblock.Prelude.{
  ℕ, ◌*◌, String, Bool, true, false, ◌&&◌, List, [], ◌∷◌, ◌++◌, map, nat_beq, if◌then◌else◌,
}

pub data SyscallNumber : Type 0 where
  read write open_file close stat fstat lstat poll lseek mmap mprotect munmap brk ioctl pread64 :
      SyscallNumber
  pwrite64 readv writev access sched_yield mremap msync mincore madvise shm_open shmat shmctl :
      SyscallNumber
  shmdt shmget mlock munlock mlockall munlockall socket connect accept sendto recvfrom sendmsg :
      SyscallNumber
  recvmsg shutdown bind listen getsockname getpeername socketpair setsockopt getsockopt :
      SyscallNumber
  clock_gettime clock_getres clock_nanosleep nanosleep gettimeofday times getpid getuid getgid :
      SyscallNumber
  geteuid getegid rt_sigaction rt_sigprocmask rt_sigreturn sigaltstack exit exit_group futex :
      SyscallNumber
  set_robust_list get_robust_list getrandom memfd_create clone clone3 set_tid_address :
      SyscallNumber
  arch_prctl : SyscallNumber

number : SyscallNumber → ℕ
number read = 0
number write = 1
number open_file = 2
number close = 3
number stat = 4
number fstat = 5
number lstat = 6
number poll = 7
number lseek = 8
number mmap = 9
number mprotect = 10
number munmap = 11
number brk = 12
number ioctl = 16
number pread64 = 17
number pwrite64 = 18
number readv = 19
number writev = 20
number access = 21
number sched_yield = 24
number mremap = 25
number msync = 26
number mincore = 27
number madvise = 28
number shm_open = 268
number shmat = 30
number shmctl = 31
number shmdt = 67
number shmget = 29
number mlock = 149
number munlock = 150
number mlockall = 151
number munlockall = 152
number socket = 41
number connect = 42
number accept = 43
number sendto = 44
number recvfrom = 45
number sendmsg = 46
number recvmsg = 47
number shutdown = 48
number bind = 49
number listen = 50
number getsockname = 51
number getpeername = 52
number socketpair = 53
number setsockopt = 54
number getsockopt = 55
number clock_gettime = 228
number clock_getres = 229
number clock_nanosleep = 230
number nanosleep = 35
number gettimeofday = 96
number times = 100
number getpid = 39
number getuid = 102
number getgid = 104
number geteuid = 107
number getegid = 108
number rt_sigaction = 13
number rt_sigprocmask = 14
number rt_sigreturn = 15
number sigaltstack = 131
number exit = 60
number exit_group = 231
number futex = 202
number set_robust_list = 273
number get_robust_list = 274
number getrandom = 318
number memfd_create = 319
number clone = 56
number clone3 = 435
number set_tid_address = 218
number arch_prctl = 158

-- `get_gpu_renderer_syscalls`, in the order of the source.
abbrev pub gpu_renderer_syscalls : List SyscallNumber
gpu_renderer_syscalls =
    mmap ∷ munmap ∷ mprotect ∷ brk ∷ mremap ∷ madvise ∷ read ∷ write ∷ open_file ∷ close ∷ fstat
    ∷ lseek ∷ access ∷ pread64 ∷ pwrite64 ∷ readv ∷ writev ∷ socket ∷ connect ∷ sendto ∷ recvfrom
    ∷ sendmsg ∷ recvmsg ∷ shutdown ∷ getsockname ∷ setsockopt ∷ getsockopt ∷ clock_gettime
    ∷ nanosleep ∷ gettimeofday ∷ getpid ∷ getuid ∷ geteuid ∷ rt_sigaction ∷ rt_sigprocmask
    ∷ rt_sigreturn ∷ exit ∷ exit_group ∷ futex ∷ clone ∷ set_tid_address ∷ set_robust_list
    ∷ arch_prctl ∷ poll ∷ ioctl ∷ getrandom ∷ []

pub record SandboxConfig : Type 0 where
  pub allowed_syscalls : List ℕ
  pub max_memory_bytes : ℕ
  pub max_open_files : ℕ
  pub max_processes : ℕ
  pub use_network_namespace : Bool
  pub use_mount_namespace : Bool
  pub use_pid_namespace : Bool
  pub drop_all_caps : Bool

-- `SandboxConfig()`
default_config : SandboxConfig
unfolding number
default_config = record {
  allowed_syscalls = map number gpu_renderer_syscalls;
  max_memory_bytes = 512 * 1024 * 1024;
  max_open_files = 64;
  max_processes = 1;
  use_network_namespace = true;
  use_mount_namespace = true;
  use_pid_namespace = true;
  drop_all_caps = true;
}

-- A limit that the system takes, or refuses without an effect.
pub record Limits : Type 0 where
  pub address_space : ℕ
  pub open_files : ℕ
  pub processes : ℕ

abbrev limit : Bool → ℕ → ℕ → ℕ
limit accepted new old = if accepted then new else old

set_resource_limits : Bool → Bool → Bool → SandboxConfig → Limits → Limits
set_resource_limits memory files processes config l = record {
  address_space = limit memory config.max_memory_bytes l.address_space;
  open_files = limit files config.max_open_files l.open_files;
  processes = limit processes config.max_processes l.processes;
}

-- `prctl` answers zero, or another number, or cannot be called.
abbrev set_no_new_privs : Bool → ℕ → Bool
set_no_new_privs callable result = callable && nat_beq result 0

-- What becomes of the limits, and whether the sandbox was entered: a limit that is refused is none of it.
enter_sandbox : Bool → ℕ → Bool → Bool → Bool → SandboxConfig → Limits → Bool × Limits
unfolding set_resource_limits
enter_sandbox callable result memory files processes config l =
    (set_no_new_privs callable result, set_resource_limits memory files processes config l)

abbrev option : Bool → List String → List String
option true words = words
option false words = []

abbrev unshare : SandboxConfig → List String
unshare config =
    "/usr/bin/unshare"
    ∷ (option config.use_network_namespace ("--net" ∷ [])
        ++ (option config.use_mount_namespace ("--mount" ∷ [])
            ++ (option config.use_pid_namespace ("--pid" ∷ "--fork" ∷ []) ++ "--" ∷ [])))

abbrev firejail : SandboxConfig → List String
firejail config =
    "/usr/bin/firejail"
    ∷ "--quiet"
    ∷ (option config.use_network_namespace ("--net=none" ∷ [])
        ++ (option config.drop_all_caps ("--caps.drop=all" ∷ []) ++ "--" ∷ []))

get_sandbox_command : (exists : String → Bool) → List String → SandboxConfig → List String
get_sandbox_command exists command config =
    if exists "/usr/bin/unshare"
    then unshare config ++ command
    else if exists "/usr/bin/firejail"
    then firejail config ++ command
    else command

pub record Available : Type 0 where
  pub unshare_tool : Bool
  pub firejail_tool : Bool
  pub user_namespaces : Bool
  pub seccomp : Bool

check_sandbox_available : (exists : String → Bool) → Available
check_sandbox_available exists = record {
  unshare_tool = exists "/usr/bin/unshare";
  firejail_tool = exists "/usr/bin/firejail";
  user_namespaces = exists "/proc/sys/kernel/unprivileged_userns_clone";
  seccomp = exists "/proc/sys/kernel/seccomp";
}
