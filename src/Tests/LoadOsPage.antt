-- ===== src/Tests/LoadOsPage.antt =====
-- A page for a direct boot, on a host with three files.
use linblock.Prelude.{String, string_eq, ◌==◌, Bool, true, ◌||◌, some, [], ◌∷◌, refl}
use Prim.Native.String.{◌++◌ as ◌<>◌}
use linblock.LoadOsPage.{Files, LoadOsPage, validate_boot_config, check_path, check_iso, boot_of}
use linblock.LoadOsPage.Saved.{IsBootable, boot_of-IsBootable}

abbrev present : String → Bool
present path =
    (path == "/images/boot/kernel")
    || ((path == "/images/boot/initrd.img") || (path == "/images/a.iso"))

abbrev host : Files
host = record {
  is_file = present;
  is_dir = λ path. path == "/images";
  names = λ path. "a.iso" ∷ [];
  is_iso = λ name. name == "a.iso";
  join = λ folder name. folder <> ("/" <> name);
  dirname = λ path. "/images";
  strip = λ text. text;
}

abbrev direct : LoadOsPage
direct = record {
  kernel_boot = true;
  iso = "/images/a.iso";
  kernel = "/images/boot/kernel";
  initrd = "/images/boot/initrd.img";
  cmdline = "console=ttyS0";
  current_image_path = some "/images";
}

boot_of-IsBootable_example : IsBootable host true (boot_of host direct)
boot_of-IsBootable_example =
    boot_of-IsBootable host direct (unfold validate_boot_config check_path check_iso in refl)
