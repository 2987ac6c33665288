-- ===== src/Emulation/StorageManager/Images.antt =====
-- What `get_image_info` answers.
use linblock.Prelude.{
  String, string_eq, ◌==◌, ◌≡◌, refl, false, List, [], ◌∷◌, ok, if◌then◌else◌, arith, Option-cases,
  inl, inr,
}
use linblock.Dict
use linblock.Dict.{
  get-put, get-remove, get-empty, put-AllItems, remove-AllItems, get-AllItems, AllItems,
}
use linblock.Emulation.StorageManager.{
  DiskImage, StorageManager, init, attach_image, detach_image, get_image_info, create_overlay,
  overlay_of, cleanup,
}

pub data Event : Type 0 where
  attach : DiskImage → Event
  detach : String → Event
  overlay : (base_path overlay_path : String) → Event
  clean : Event

unfoldable pub handle : StorageManager → Event → StorageManager
handle m (attach image) = (attach_image image m).1
handle m (detach path) = (detach_image path m).1
handle m (overlay base_path overlay_path) = (create_overlay base_path overlay_path m).1
handle m clean = cleanup m

unfoldable pub run : StorageManager → List Event → StorageManager
run m [] = m
run m (event ∷ events) = run (handle m event) events

abbrev IsFiled : String × DiskImage → Type 0
IsFiled (path, image) = image.path ≡ path

abbrev IsValid : StorageManager → Type 0
IsValid m = AllItems IsFiled m.images

handle-IsValid : (m : StorageManager) (event : Event) → IsValid m → IsValid (handle m event)
unfolding handle attach_image detach_image create_overlay cleanup
handle-IsValid m (attach image) v = elim (Option-cases (Dict.get m.images image.path)) [
  | inl gone ↦ simp (gone, handle) (put-AllItems IsFiled m.images image.path image v refl)
  | inr (old, held) ↦ simp (held, handle) v
]
handle-IsValid m (detach path) v = elim (Option-cases (Dict.get m.images path)) [
  | inl gone ↦ simp (gone, handle) v
  | inr (old, held) ↦ simp (held, handle) (remove-AllItems IsFiled m.images path v)
]
handle-IsValid m (overlay base_path overlay_path) v =
    elim (Option-cases (Dict.get m.images base_path)) [
      | inl gone ↦ simp (gone, handle) v
      | inr (base, held) ↦ simp (held, handle) (put-AllItems IsFiled m.images overlay_path _ v refl)
    ]
handle-IsValid m clean v = tt

run-IsValid : (m : StorageManager) (events : List Event) → IsValid m → IsValid (run m events)
unfolding run
run-IsValid m [] v = v
run-IsValid m (event ∷ events) v = run-IsValid (handle m event) events (handle-IsValid m event v)

-- After any calls on a new manager, an image that `get_image_info` returns has the path that was
-- asked for.
pub get_image_info-path :
    (events : List Event) (path : String) (image : DiskImage)
    → (get_image_info path (run init events)).0 ≡ ok image
    → image.path ≡ path
unfolding get_image_info
get_image_info-path events path image h =
    get-AllItems IsFiled (run init events).images path image
      (run-IsValid init events (unfold init in tt)) (ground arith)

-- An overlay on an attached image is then attached under its path, in the format qcow2, with the size
-- of the base and not read-only, and every other image is as before.
pub get_image_info-create_overlay :
    (m : StorageManager) (base_path overlay_path : String) (base : DiskImage) (path : String)
    → (get_image_info base_path m).0 ≡ ok base
    → (get_image_info path (create_overlay base_path overlay_path m).1).0 ≡ (
        if overlay_path == path
        then ok (record {
          path = overlay_path;
          format = "qcow2";
          size_mb = base.size_mb;
          readonly = false;
        })
        else (get_image_info path m).0)
unfolding get_image_info create_overlay
get_image_info-create_overlay m base_path overlay_path base path h =
    elim (Option-cases (Dict.get m.images base_path)) [
      | inl gone ↦ absurd (ground arith)
      | inr (image, held) ↦
          rw (held, create_overlay)
            (ground (arith, get-put m.images overlay_path path (overlay_of image overlay_path)))
    ]
