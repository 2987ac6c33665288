-- ===== src/LoadOsPage.antt =====
-- src/pages/load_os_page.py: the boot configuration of `LoadOSPage`, that is its four entries, the
-- mode, and the folder of the chosen image. `Files` is what the operating system and the text
-- functions of Python answer. A profile of this page is its section `boot`.
use linblock.Prelude.{
  String, string_eq, ◌==◌, Bool, true, false, ◌&&◌, not, Option, none, some, List, [], ◌∷◌, ◌++◌,
  map, keep, if◌then◌else◌,
}
use Prim.Native.String.{◌++◌ as ◌<>◌}
pub mod Saved

pub record Files : Type 0 where
  pub is_file : String → Bool
  pub is_dir : String → Bool
  pub names : String → List String
  pub is_iso : String → Bool
  pub join : String → String → String
  pub dirname : String → String
  pub strip : String → String

pub record LoadOsPage : Type 0 where
  pub kernel_boot : Bool
  pub iso : String
  pub kernel : String
  pub initrd : String
  pub cmdline : String
  pub current_image_path : Option String

-- BootConfig
pub record BootConfig : Type 0 where
  pub kernel : String
  pub initrd : String
  pub system_image : String
  pub kernel_cmdline : String
  pub cdrom_image : String

pub data Issue : Type 0 where
  kernel_required : Issue
  kernel_not_found : String → Issue
  initrd_required : Issue
  initrd_not_found : String → Issue
  system_files_required : Issue
  iso_required : Issue
  iso_not_found : String → Issue

pub data Status : Type 0 where
  ready_kernel : Status
  extract_kernel : Status
  ready_cdrom : Status
  select_iso : Status
  issues : List String → Status

abbrev pub given : String → Bool
given s = not (s == "")

unfoldable pub path_or_empty : Option String → String
path_or_empty none = ""
path_or_empty (some s) = s

-- Two of the tests of `_validate_boot_config`: `required` when there is no path, `not_found` when
-- there is no file at it.
unfoldable pub check_path : Files → String → Issue → Issue → List Issue
check_path files path required not_found =
    if not (given path)
    then required ∷ []
    else if not (files.is_file path)
    then not_found ∷ []
    else []

unfoldable pub check_iso : Files → String → Option String → List Issue
check_iso files iso image =
    if not (given iso) && not (given (path_or_empty image))
    then system_files_required ∷ []
    else if given iso && not (files.is_file iso)
    then iso_not_found iso ∷ []
    else []

unfoldable pub validate_boot_config : Files → LoadOsPage → List Issue
validate_boot_config files page =
    let iso = files.strip page.iso in
    let kernel = files.strip page.kernel in
    let initrd = files.strip page.initrd in
    if page.kernel_boot
    then check_path files kernel kernel_required (kernel_not_found kernel)
      ++ (check_path files initrd initrd_required (initrd_not_found initrd)
          ++ check_iso files iso page.current_image_path)
    else check_path files iso iso_required (iso_not_found iso)

unfoldable pub missing : Files → String → String → List String
missing files path text = if given path && not (files.is_file path) then text ∷ [] else []

abbrev no_text : List String → Bool
no_text [] = true
no_text (x ∷ xs) = false

unfoldable pub kernel_issues : Files → String → String → String → List String
unfolding missing
kernel_issues files iso kernel initrd =
    (if not (given iso) && not (given kernel && given initrd)
      then "Select ISO or provide kernel/initrd" ∷ []
      else [])
    ++ (missing files kernel "Kernel file not found"
        ++ (missing files initrd "Initrd file not found" ++ missing files iso "ISO file not found"))

unfoldable pub kernel_status : List String → String → String → String → Status
kernel_status found iso kernel initrd =
    if no_text found && given kernel && given initrd
    then ready_kernel
    else if no_text found && given iso
    then extract_kernel
    else issues found

-- `_update_boot_status`, as what the label shows.
unfoldable pub boot_status : Files → LoadOsPage → Status
unfolding kernel_issues kernel_status
boot_status files page =
    let iso = files.strip page.iso in
    let kernel = files.strip page.kernel in
    let initrd = files.strip page.initrd in
    if page.kernel_boot
    then kernel_status (kernel_issues files iso kernel initrd) iso kernel initrd
    else if given iso && files.is_file iso
    then ready_cdrom
    else select_iso

-- The loops that stop at the first path with a file.
unfoldable pub first_file : Files → List String → Option String
first_file files [] = none
first_file files (path ∷ paths) =
    let rest = first_file files paths in if files.is_file path then some path else rest

unfoldable pub no_boot_files : BootConfig
no_boot_files = record {
  kernel = "";
  initrd = "";
  system_image = "";
  kernel_cmdline = "";
  cdrom_image = "";
}

abbrev default_cmdline : String
default_cmdline =
    "root=/dev/ram0 console=ttyS0 androidboot.hardware=ranchu androidboot.selinux=permissive SRC=/ DATA= buildvariant=userdebug"

-- `_detect_boot_files` where the folder exists; its result has no cdrom_image.
unfoldable pub boot_files_in : Files → String → BootConfig
boot_files_in files path =
    let boot = files.join path "boot" in
    let kernel = path_or_empty (
      first_file files (
        files.join boot "kernel"
        ∷ files.join path "kernel"
        ∷ files.join boot "vmlinuz"
        ∷ files.join path "vmlinuz"
        ∷ [])) in
    let initrd = path_or_empty (
      first_file files (
        files.join boot "initrd.img"
        ∷ files.join path "initrd.img"
        ∷ files.join boot "ramdisk.img"
        ∷ files.join path "ramdisk.img"
        ∷ [])) in
    let system_image =
      path_or_empty
        (first_file files (files.join path "system.img" ∷ files.join path "system.sfs" ∷ [])) in
    record {
      kernel = kernel;
      initrd = initrd;
      system_image = system_image;
      kernel_cmdline = (if given kernel then default_cmdline else "");
      cdrom_image = "";
    }

unfoldable pub detect_boot_files : Files → String → BootConfig
detect_boot_files files path =
    if given path && files.is_dir path then boot_files_in files path else no_boot_files

unfoldable pub or_kept : Option String → String → String
or_kept none kept = kept
or_kept (some path) kept = path

-- `_auto_detect_boot_files_from_iso`, without the label.
pub auto_detect_boot_files_from_iso : Files → String → LoadOsPage → LoadOsPage
unfolding first_file or_kept
auto_detect_boot_files_from_iso files iso page =
    let folder = files.dirname iso in
    let boot = files.join folder "boot" in
    record page {
      kernel =
          or_kept (first_file files (files.join boot "kernel" ∷ files.join folder "kernel" ∷ []))
            page.kernel;
      initrd =
          or_kept
            (first_file files (files.join boot "initrd.img" ∷ files.join folder "initrd.img" ∷ []))
            page.initrd;
    }

-- The branches of `_auto_populate_boot_config`: with the ISO files found in the folder.
populate : Files → String → List String → LoadOsPage → LoadOsPage
unfolding auto_detect_boot_files_from_iso
populate files path [] page =
    let found = boot_files_in files path in
    record page {
      kernel = (if given found.kernel then found.kernel else page.kernel);
      initrd = (if given found.initrd then found.initrd else page.initrd);
    }
populate files path (iso ∷ isos) page =
    auto_detect_boot_files_from_iso files iso (record page { iso = iso })

pub auto_populate_boot_config : Files → String → LoadOsPage → LoadOsPage
unfolding populate
auto_populate_boot_config files path page =
    if given path && files.is_dir path
    then populate files path (map (files.join path) (keep files.is_iso (files.names path))) page
    else page

-- The section `boot` that `_create_profile_from_form` makes.
unfoldable pub boot_of : Files → LoadOsPage → BootConfig
boot_of files page =
    let iso = files.strip page.iso in
    let kernel = files.strip page.kernel in
    let initrd = files.strip page.initrd in
    if page.kernel_boot && given kernel && given initrd
    then record {
      kernel = kernel;
      initrd = initrd;
      system_image = "";
      kernel_cmdline = files.strip page.cmdline;
      cdrom_image = iso;
    }
    else if given iso
    then record no_boot_files { cdrom_image = iso }
    else detect_boot_files files (path_or_empty page.current_image_path)
