-- ===== src/Emulation/Qemu/Config.antt =====
-- `QEMUConfig`, and the texts of numbers.
use Prim.Native.String.{◌++◌}
use linblock.Prelude.{
  ℕ, zero, suc, ◌/◌, ◌%◌, String, Bool, true, Option, none, List, [], ltb, if◌then◌else◌, ℤ, pos,
  negsuc,
}

pub record QemuConfig : Type 0 where
  pub system_image : String
  pub memory_mb : ℕ
  pub cpu_cores : ℕ
  pub use_kvm : Bool
  pub screen_width : ℕ
  pub screen_height : ℕ
  pub vnc_port : ℕ
  pub adb_port : ℕ
  pub gpu_mode : String
  pub kernel : Option String
  pub initrd : Option String
  pub boot_image : Option String
  pub kernel_cmdline : String
  pub cdrom_image : Option String
  pub userdata_image : Option String
  pub cache_image : Option String
  pub data_image : Option String
  pub gpu_pipe_socket : Option String
  pub log_dir : Option String
  pub serial_log : Option String
  pub extra_args : List String

-- The defaults of the class.
abbrev pub default_config : QemuConfig
default_config = record {
  system_image = "";
  memory_mb = 4096;
  cpu_cores = 4;
  use_kvm = true;
  screen_width = 1080;
  screen_height = 1920;
  vnc_port = 5900;
  adb_port = 5555;
  gpu_mode = "host";
  kernel = none;
  initrd = none;
  boot_image = none;
  kernel_cmdline = "";
  cdrom_image = none;
  userdata_image = none;
  cache_image = none;
  data_image = none;
  gpu_pipe_socket = none;
  log_dir = none;
  serial_log = none;
  extra_args = [];
}

digit : ℕ → String
digit zero = "0"
digit (suc zero) = "1"
digit (suc (suc zero)) = "2"
digit (suc (suc (suc zero))) = "3"
digit (suc (suc (suc (suc zero)))) = "4"
digit (suc (suc (suc (suc (suc zero))))) = "5"
digit (suc (suc (suc (suc (suc (suc zero)))))) = "6"
digit (suc (suc (suc (suc (suc (suc (suc zero))))))) = "7"
digit (suc (suc (suc (suc (suc (suc (suc (suc zero)))))))) = "8"
digit (suc (suc (suc (suc (suc (suc (suc (suc (suc n))))))))) = "9"

-- The digits of `n` in front of `text`; a number has no more digits than its value and one.
decimal_onto : ℕ → ℕ → String → String
unfolding digit
decimal_onto zero n text = text
decimal_onto (suc fuel) n text =
    let more = decimal_onto fuel (n / 10) (digit (n % 10) ++ text) in
    if ltb n 10 then digit n ++ text else more

-- str(n)
pub decimal : ℕ → String
unfolding decimal_onto
decimal n = decimal_onto (suc n) n ""

pub decimal_int : ℤ → String
unfolding decimal
decimal_int (pos n) = decimal n
decimal_int (negsuc n) = "-" ++ decimal (suc n)
