-- ===== src/Examples/Disks.antt =====
-- Atomic writes on a disk with one file.
use routestack_agent.Base.{List, [], ◌∷◌, true, none, some, ◌≡◌, refl, codes, text_eq}
use routestack_agent.Base.Assoc.{lookup}
use routestack_agent.World.{ok, err}
use routestack_agent.Files.{Disk, Os, save, write_file_atomic}
use routestack_agent.Files.Atomic.{
  IsAtomic, save-IsAtomic, rename_fails, write_file_atomic-rename_fails,
}

abbrev disk : Disk
disk = (codes "/state", codes "old") ∷ []

-- The write fails half way.
abbrev full_disk : Os
full_disk = record {
  temp = codes "/t.tmp";
  create_error = none;
  write_error = some (codes "ne", codes "no space");
  chmod_error = none;
  close_error = none;
  rename_error = none;
  removes = true;
}

abbrev sound : Os
sound = record full_disk { write_error = none }

save-IsAtomic_example :
    IsAtomic
      (codes "/state")
      (codes "new")
      (lookup (codes "/state") disk)
      (save full_disk (codes "/state") (ok (codes "new")) disk)
unfolding text_eq
save-IsAtomic_example = save-IsAtomic full_disk (codes "/state") (codes "new") disk refl

write_file_atomic-rename_fails_example :
    (last : Disk) × (ds : List Disk) × (write_file_atomic
        (rename_fails (codes "/t.tmp") (codes "busy") true)
        (codes "/state")
        (codes "new")
        disk
      ≡ (err (codes "busy"), last ∷ ds))
    × (lookup (codes "/t.tmp") last ≡ some (codes "new"))
write_file_atomic-rename_fails_example =
    write_file_atomic-rename_fails (codes "/t.tmp") (codes "busy") (codes "/state") (codes "new")
      true disk
