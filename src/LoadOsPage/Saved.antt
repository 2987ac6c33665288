-- ===== src/LoadOsPage/Saved.antt =====
-- What a page that passes `_validate_boot_config` is saved as.
use linblock.Prelude.{
  String, string_eq, ◌==◌, ==_iff, Bool, true, false, Bool-cases, Option, List, [], ◌∷◌, ◌++◌, ◌≡◌,
  ◌⊎◌, inl, inr, refl, sym, arith,
}
use mathlib.Core.Path.{subst}
use linblock.LoadOsPage.{
  Files, LoadOsPage, BootConfig, Issue, given, check_path, check_iso, validate_boot_config, boot_of,
  kernel_required, kernel_not_found, initrd_required, initrd_not_found, iso_required, iso_not_found,
  no_boot_files, boot_status, kernel_status, kernel_issues, missing, path_or_empty, ready_kernel,
  ready_cdrom,
}

-- What the emulator needs: with a kernel, the files of the direct boot, and without, the disc.
pub IsBootable : Files → Bool → BootConfig → Type 0
IsBootable files true b =
    (files.is_file b.kernel ≡ true)
    × (files.is_file b.initrd ≡ true)
    × ((b.cdrom_image ≡ "") ⊎ (files.is_file b.cdrom_image ≡ true))
IsBootable files false b = (b.kernel ≡ "") × (b.initrd ≡ "") × (files.is_file b.cdrom_image ≡ true)

check_path-nil :
    (files : Files) (path : String) (required not_found : Issue)
    → check_path files path required not_found ≡ []
    → (given path ≡ true) × (files.is_file path ≡ true)
unfolding check_path
check_path-nil files path required not_found h = (ground arith, ground arith)

check_iso-nil :
    (files : Files) (iso : String) (image : Option String)
    → check_iso files iso image ≡ []
    → (iso ≡ "") ⊎ (files.is_file iso ≡ true)
unfolding check_iso
check_iso-nil files iso image h = elim (Bool-cases (iso == "")) [
  | inl e ↦ inl ((==_iff iso "").0 e)
  | inr e ↦ inr (ground arith)
]

append-nil_lem : (xs ys : List Issue) → xs ++ ys ≡ [] → (xs ≡ []) × (ys ≡ [])
append-nil_lem [] ys h = (refl, h)
append-nil_lem (x ∷ xs) ys h = ground arith

direct-IsBootable :
    (files : Files) (page : LoadOsPage)
    → page.kernel_boot ≡ true
    → validate_boot_config files page ≡ []
    → IsBootable files true (boot_of files page)
unfolding validate_boot_config boot_of IsBootable
direct-IsBootable files page mode h =
    let kernel = files.strip page.kernel in
    let initrd = files.strip page.initrd in
    let (k, rest) =
      append-nil_lem (check_path files kernel kernel_required (kernel_not_found kernel))
        (check_path files initrd initrd_required (initrd_not_found initrd)
          ++ check_iso files (files.strip page.iso) page.current_image_path)
        (ground arith) in
    let (i, d) =
      append-nil_lem (check_path files initrd initrd_required (initrd_not_found initrd))
        (check_iso files (files.strip page.iso) page.current_image_path) rest in
    let (k_given, k_file) =
      check_path-nil files kernel kernel_required (kernel_not_found kernel) k in
    let (i_given, i_file) =
      check_path-nil files initrd initrd_required (initrd_not_found initrd) i in
    let disc = check_iso-nil files (files.strip page.iso) page.current_image_path d in
    (ground arith, ground arith, ground arith)

disc-IsBootable :
    (files : Files) (page : LoadOsPage)
    → page.kernel_boot ≡ false
    → validate_boot_config files page ≡ []
    → IsBootable files false (boot_of files page)
unfolding validate_boot_config boot_of IsBootable no_boot_files
disc-IsBootable files page mode h =
    let iso = files.strip page.iso in
    let (iso_given, iso_file) =
      check_path-nil files iso iso_required (iso_not_found iso) (ground arith) in
    (ground arith, ground arith, ground arith)

-- When the validation of a page finds no issue, the profile that is made of it can be booted in the
-- mode of the page: for the direct boot its kernel and its initrd are files and its disc is a file
-- or not given, and for the disc its image is a file and it names no kernel and no initrd.
pub boot_of-IsBootable :
    (files : Files) (page : LoadOsPage)
    → validate_boot_config files page ≡ []
    → IsBootable files page.kernel_boot (boot_of files page)
boot_of-IsBootable files page h = elim (Bool-cases page.kernel_boot) [
  | inl e ↦
      subst (λ b. IsBootable files b (boot_of files page)) (sym e)
        (direct-IsBootable files page e h)
  | inr e ↦
      subst (λ b. IsBootable files b (boot_of files page)) (sym e) (disc-IsBootable files page e h)
]

-- A page of which the label says that it is ready passes the validation, if it has a disc or an image
-- for the system's files: the label asks for neither of them.
boot_status-validate :
    (files : Files) (page : LoadOsPage)
    → (given (files.strip page.iso) ≡ true) ⊎ (given (path_or_empty page.current_image_path) ≡ true)
    → (boot_status files page ≡ ready_kernel) ⊎ (boot_status files page ≡ ready_cdrom)
    → validate_boot_config files page ≡ []
unfolding validate_boot_config boot_status check_path check_iso kernel_status kernel_issues missing
boot_status-validate files page source ready = ground arith
