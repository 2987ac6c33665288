-- ===== src/Profile/RoundTrip.antt =====
-- A profile that was saved is loaded as it was.
use linblock.Prelude.{string_eq, List, ◌≡◌, refl, ap, ◌∙◌, some, [], ◌∷◌, arith, length}
use linblock.Infrastructure.ConfigManager.Sorted.{sorted, sorted_value, insert, IsDict, AreDicts}
use linblock.Infrastructure.ConfigManager.Tree.{leaf, node, get_field}
use linblock.Profile.{
  Scalar, Tree, Instance, asdict, known, values_of, construct, section, boot_config,
  graphics_config, adb_config, sensor_config, device_config, storage_config, network_config,
  input_config, camera_media_config, performance_config, google_services_config, OsProfile, to_dict,
  device_dict, without, sensors_of, device_of, defaults, of_fields, of_document, save, load,
}
use linblock.Profile.Sections.{
  Any, leaves, IsSection, asdict-AreDicts, section-AreDicts, construct-sorted,
}

-- The device with four values, and its four sensors.
device_of-four :
    (a b c d : Scalar) (sensors : List Scalar) (before : Instance)
    → length (leaves sensors) ≡ length sensor_config
    → device_of
        (some (
          node (sorted (device_dict device_config (leaves (a ∷ b ∷ c ∷ d ∷ [])) (leaves sensors)))))
        before
      ≡ some (leaves (a ∷ b ∷ c ∷ d ∷ []), leaves sensors)
unfolding device_of device_dict asdict sorted insert without sensors_of construct known values_of
    get_field
device_of-four a b c d [] before e = absurd (omega arith)
device_of-four a b c d (k ∷ []) before e = absurd (omega arith)
device_of-four a b c d (k ∷ l ∷ []) before e = absurd (omega arith)
device_of-four a b c d (k ∷ l ∷ m ∷ []) before e = absurd (omega arith)
device_of-four a b c d (k ∷ l ∷ m ∷ n ∷ []) before e = refl
device_of-four a b c d (k ∷ l ∷ m ∷ n ∷ o ∷ more) before e = absurd (omega arith)

device_of-leaves :
    (xs sensors : List Scalar) (before : Instance)
    → length (leaves xs) ≡ length device_config
    → length (leaves sensors) ≡ length sensor_config
    → device_of
        (some (node (sorted (device_dict device_config (leaves xs) (leaves sensors)))))
        before
      ≡ some (leaves xs, leaves sensors)
device_of-leaves [] sensors before e e' = absurd (omega arith)
device_of-leaves (a ∷ []) sensors before e e' = absurd (omega arith)
device_of-leaves (a ∷ b ∷ []) sensors before e e' = absurd (omega arith)
device_of-leaves (a ∷ b ∷ c ∷ []) sensors before e e' = absurd (omega arith)
device_of-leaves (a ∷ b ∷ c ∷ d ∷ []) sensors before e e' = device_of-four a b c d sensors before e'
device_of-leaves (a ∷ b ∷ c ∷ d ∷ x ∷ more) sensors before e e' = absurd (omega arith)

device-AreDicts :
    (xs sensors : List Scalar)
    → length (leaves xs) ≡ length device_config
    → AreDicts Any (asdict sensor_config (leaves sensors))
    → AreDicts Any (device_dict device_config (leaves xs) (leaves sensors))
unfolding device_dict get_field
device-AreDicts [] sensors e d = absurd (omega arith)
device-AreDicts (a ∷ []) sensors e d = absurd (omega arith)
device-AreDicts (a ∷ b ∷ []) sensors e d = absurd (omega arith)
device-AreDicts (a ∷ b ∷ c ∷ []) sensors e d = absurd (omega arith)
device-AreDicts (a ∷ b ∷ c ∷ e' ∷ []) sensors e d =
    (refl, tt, (refl, tt, (refl, tt, (refl, tt, (refl, d, tt)))))
device-AreDicts (a ∷ b ∷ c ∷ e' ∷ x ∷ more) sensors e d = absurd (omega arith)

-- A value that is no dict.
abbrev pub IsScalar : Tree → Type 0
IsScalar v = (a : Scalar) × (v ≡ leaf a)

scalar-IsDict : (v : Tree) → IsScalar v → IsDict Any v
scalar-IsDict v (a, e) = rw e tt

sorted_scalar : (v : Tree) → IsScalar v → sorted_value v ≡ v
unfolding sorted_value
sorted_scalar v (a, e) = rw e refl

-- A profile as the classes describe it: every section has a value for each field, and no value is a dict.
pub record IsProfile (p : OsProfile) : Type 0 where
  pub name : IsScalar p.name
  pub image_path : IsScalar p.image_path
  pub created : IsScalar p.created
  pub modified : IsScalar p.modified
  pub boot : IsSection boot_config p.boot
  pub graphics : IsSection graphics_config p.graphics
  pub adb : IsSection adb_config p.adb
  pub device : IsSection device_config p.device
  pub sensors : IsSection sensor_config p.sensors
  pub storage : IsSection storage_config p.storage
  pub network : IsSection network_config p.network
  pub input : IsSection input_config p.input
  pub camera_media : IsSection camera_media_config p.camera_media
  pub performance : IsSection performance_config p.performance
  pub google_services : IsSection google_services_config p.google_services

to_dict-AreDicts : (p : OsProfile) → IsProfile p → AreDicts Any (to_dict p)
unfolding to_dict get_field
to_dict-AreDicts p h =
    let device : AreDicts Any (device_dict device_config p.device p.sensors) =
      rw (h.device.are_leaves, h.sensors.are_leaves)
        (device-AreDicts h.device.scalars h.sensors.scalars h.device.count
          (asdict-AreDicts sensor_config h.sensors.scalars refl)) in
    (
      refl,
      scalar-IsDict p.name h.name,
      (
        refl,
        scalar-IsDict p.image_path h.image_path,
        (
          refl,
          scalar-IsDict p.created h.created,
          (
            refl,
            scalar-IsDict p.modified h.modified,
            (
              refl,
              section-AreDicts boot_config p.boot refl h.boot,
              (
                refl,
                section-AreDicts graphics_config p.graphics refl h.graphics,
                (
                  refl,
                  section-AreDicts adb_config p.adb refl h.adb,
                  (
                    refl,
                    device,
                    (
                      refl,
                      section-AreDicts storage_config p.storage refl h.storage,
                      (
                        refl,
                        section-AreDicts network_config p.network refl h.network,
                        (
                          refl,
                          section-AreDicts input_config p.input refl h.input,
                          (
                            refl,
                            section-AreDicts camera_media_config p.camera_media refl h.camera_media,
                            (
                              refl,
                              section-AreDicts performance_config p.performance refl h.performance,
                              (
                                refl,
                                section-AreDicts google_services_config p.google_services refl
                                    h.google_services,
                                tt,
                              ),
                            ),
                          ),
                        ),
                      ),
                    ),
                  ),
                ),
              ),
            ),
          ),
        ),
      ),
    )

device_of-sorted :
    (p : OsProfile) (before : Instance)
    → IsProfile p
    → device_of (some (node (sorted (device_dict device_config p.device p.sensors)))) before
      ≡ some (p.device, p.sensors)
device_of-sorted p before h =
    rw (h.device.are_leaves, h.sensors.are_leaves)
      (device_of-leaves h.device.scalars h.sensors.scalars before h.device.count h.sensors.count)

of_fields-to_dict : (p : OsProfile) → IsProfile p → of_fields (sorted (to_dict p)) ≡ some p
unfolding of_fields to_dict section get_field sorted_value insert
of_fields-to_dict p h =
    simp
      (
        sorted_scalar p.name h.name,
        sorted_scalar p.image_path h.image_path,
        sorted_scalar p.created h.created,
        sorted_scalar p.modified h.modified,
        construct-sorted boot_config p.boot refl h.boot,
        construct-sorted graphics_config p.graphics refl h.graphics,
        construct-sorted adb_config p.adb refl h.adb,
        device_of-sorted p (defaults device_config) h,
        construct-sorted storage_config p.storage refl h.storage,
        construct-sorted network_config p.network refl h.network,
        construct-sorted input_config p.input refl h.input,
        construct-sorted camera_media_config p.camera_media refl h.camera_media,
        construct-sorted performance_config p.performance refl h.performance,
        construct-sorted google_services_config p.google_services refl h.google_services,
      )
      refl

-- A profile that has been saved is loaded as it was, if it is as the classes describe it and the YAML library
-- sorts the keys of what it dumps and reads it back so.
pub load-save :
    (Document : Type 0) (dump : Tree → Document) (safe_load : Document → Tree) (p : OsProfile)
    → ((t : Tree) → IsDict Any t → safe_load (dump t) ≡ sorted_value t)
    → IsProfile p
    → load safe_load (save dump p) ≡ some p
unfolding load save of_document sorted_value
load-save Document dump safe_load p reads h =
    ap of_document (reads (node (to_dict p)) (to_dict-AreDicts p h)) ∙ of_fields-to_dict p h
