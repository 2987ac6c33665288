-- ===== src/Emulation/Qemu/Command.antt =====
-- `_build_command`, by its blocks. `kvm` is what `_check_kvm_available` finds.
use Prim.Native.String.{◌++◌ as ◌<>◌}
use Prim.Native.String.append
use Prim.Native.Char.{Char}
use text.Mathlib.Text.{starts_with}
use linblock.Prelude.{
  String, string_eq, ◌==◌, Bool, false, ◌&&◌, ◌||◌, not, Option, none, some, List, [], ◌∷◌, ◌++◌,
  if◌then◌else◌, sub_ℕ,
}
use linblock.Emulation.Qemu.Config.{QemuConfig, decimal, decimal_int}

-- An optional text that is set and not empty.
abbrev present : Option String → Bool
present none = false
present (some s) = not (s == "")

-- The block `if value: cmd.extend(...)`.
given : Option String → (String → List String) → List String
given none f = []
given (some s) f = if s == "" then [] else f s

-- `"console=" in kernel_cmdline`
pub occurs : String → String → Bool
occurs part String.[] = starts_with "" part
occurs part (String.◌∷◌ c s) = starts_with (String.◌∷◌ c s) part || occurs part s

-- The command line of the guest's kernel: the default one, or the configured one with a serial
-- console.
kernel_line : QemuConfig → String
kernel_line c =
    if c.kernel_cmdline == ""
    then "root=/dev/ram0 "
      <> ("console=ttyS0 "
          <> ("androidboot.hardware=ranchu androidboot.serialno=EMULATOR androidboot.console=ttyS0 "
              <> ("androidboot.selinux=permissive video="
                  <> (decimal c.screen_width <> ("x" <> (decimal c.screen_height <> " "))))))
    else if occurs "console=" c.kernel_cmdline
    then c.kernel_cmdline
    else "console=ttyS0 " <> c.kernel_cmdline

machine_args : Bool → QemuConfig → List String
machine_args kvm c =
    let accelerated = "-enable-kvm" ∷ "-cpu" ∷ "host" ∷ [] in
    let emulated = "-cpu" ∷ "qemu64" ∷ [] in
    let sizes = "-smp" ∷ decimal c.cpu_cores ∷ "-m" ∷ (decimal c.memory_mb <> "M") ∷ [] in
    "-machine"
    ∷ (if kvm then "pc,accel=kvm" else "pc")
    ∷ ((if c.use_kvm && kvm then accelerated else emulated) ++ sizes)

kernel_args : QemuConfig → List String
unfolding given kernel_line
kernel_args c =
    let line = "-append" ∷ kernel_line c ∷ [] in
    let initrd = given c.initrd (λ path. "-initrd" ∷ path ∷ []) in
    given c.kernel (λ path. "-kernel" ∷ path ∷ (initrd ++ line))

drive : Option String → String → List String
unfolding given
drive image options = given image (λ path. "-drive" ∷ ("file=" <> (path <> options)) ∷ [])

drive_args : QemuConfig → List String
unfolding drive
drive_args c =
    drive (some c.system_image) ",format=raw,if=ide,index=0"
    ++ (drive c.userdata_image ",format=qcow2,if=ide,index=1"
        ++ drive c.data_image ",format=qcow2,if=ide,index=2")

-- QEMU counts its displays from port 5900; a lower port gives a negative number.
vnc_args : QemuConfig → List String
vnc_args c = "-vnc" ∷ (":" <> decimal_int (sub_ℕ c.vnc_port 5900)) ∷ []

abbrev or_stdio : Option String → String
or_stdio none = "stdio"
or_stdio (some path) = if path == "" then "stdio" else "file:" <> path

serial_args : QemuConfig → List String
serial_args c = "-serial" ∷ or_stdio c.serial_log ∷ []

gpu_args : QemuConfig → List String
gpu_args c =
    let device =
      if c.gpu_mode == "host"
      then "-device" ∷ "virtio-gpu-pci" ∷ []
      else if c.gpu_mode == "virgl"
      then "-device" ∷ "virtio-gpu-pci,virgl=on" ∷ []
      else "-vga" ∷ "std" ∷ [] in
    device ++ "-global" ∷ "VGA.vgamem_mb=64" ∷ []

pipe_args : QemuConfig → List String
unfolding given
pipe_args c = given c.gpu_pipe_socket λ path.
    "-device"
    ∷ "virtio-serial"
    ∷ "-chardev"
    ∷ ("socket,path=" <> (path <> ",server=on,wait=off,id=gpu_chardev"))
    ∷ "-device"
    ∷ "virtserialport,chardev=gpu_chardev,name=gpu_pipe"
    ∷ []

network_args : QemuConfig → List String
network_args c =
    "-netdev"
    ∷ ("user,id=net0,hostfwd=tcp::" <> (decimal c.adb_port <> "-:5555"))
    ∷ "-device"
    ∷ "e1000,netdev=net0,romfile="
    ∷ []

input_args : List String
input_args = "-usb" ∷ "-device" ∷ "usb-tablet" ∷ "-device" ∷ "virtio-rng-pci" ∷ []

boot_args : QemuConfig → List String
unfolding given
boot_args c =
    let order =
      if present c.kernel
      then "order=c,strict=on"
      else if present c.cdrom_image
      then "order=d,menu=on"
      else "order=cd,menu=on" in
    given c.cdrom_image (λ path. "-cdrom" ∷ path ∷ []) ++ "-boot" ∷ order ∷ []

pub build_command : Bool → QemuConfig → List String
unfolding machine_args kernel_args drive_args vnc_args serial_args gpu_args pipe_args network_args
    input_args boot_args
build_command kvm c =
    "qemu-system-x86_64"
    ∷ (machine_args kvm c
        ++ (kernel_args c
            ++ (drive_args c
                ++ (vnc_args c
                    ++ (serial_args c
                        ++ (gpu_args c
                            ++ (pipe_args c
                                ++ (network_args c
                                    ++ (input_args ++ (boot_args c ++ c.extra_args))))))))))
