-- ===== src/Files.antt =====
-- Atomic writes: Save of internal/state/state.go and writeFileAtomic of internal/api/enroll.go. A
-- disk is the contents of its files; permissions are left out.
pub mod Atomic
pub mod Frame
use routestack_agent.Base.{
  Text, Bool, List, [], ◌∷◌, ◌++◌, Option, none, some, codes, text_eq, is_empty, if◌then◌else◌,
}
use routestack_agent.Base.Assoc.{lookup, insert}
use routestack_agent.World.{Result, ok, err}

abbrev pub Disk : Type 0
Disk = List (Text × Text)

unfoldable pub remove_file : Text → Disk → Disk
remove_file path [] = []
remove_file path ((p, c) ∷ d) =
    let rest = remove_file path d in if text_eq p path then rest else (p, c) ∷ rest

-- rename(2): the file takes the place of the one at the target.
unfoldable pub rename_file : Text → Text → Disk → Disk
rename_file from target d = elim (lookup from d) [
  | none ↦ d
  | some c ↦ insert target c (remove_file from d)
]

-- How the operating system answers one atomic write: the name that os.CreateTemp chooses, and the
-- error of each call, with what a failed write leaves in the file.
pub record Os : Type 0 where
  pub temp : Text
  pub create_error : Option Text
  pub write_error : Option (Text × Text)
  pub chmod_error : Option Text
  pub close_error : Option Text
  pub rename_error : Option Text
  pub removes : Bool

-- The result of a write, and all the disks on the way, the last one first.
abbrev pub Written : Type 0
Written = Result (Unit {0}) × List Disk

-- The start of the errors of Save.
abbrev save_label : Text → Text
save_label step = codes "state: " ++ step ++ codes " temp: "

module _ (os : Os) where
  -- os.Remove(tmpPath), whose error is ignored.
  unfoldable pub clean_up : Disk → Disk
  clean_up d = if os.removes then remove_file os.temp d else d

  -- The temporary file is left behind as it is, or removed.
  unfoldable pub give_up : Text → Disk → List Disk → Written
  give_up e d before = (err e, clean_up d ∷ d ∷ before)

  -- What follows the chmod and the closing, by their errors.
  unfoldable pub closed :
      (Text → Text)
      → (Disk → List Disk → Written)
      → Option Text
      → Option Text
      → Disk
      → List Disk
      → Written
  closed label rest (some e) closing d before = give_up (label (codes "chmod") ++ e) d before
  closed label rest none (some e) d before = give_up (label (codes "close") ++ e) d before
  closed label rest none none d before = rest d before

  -- What follows the write, by its error.
  unfoldable pub filled :
      (Text → Text)
      → Text
      → (Disk → List Disk → Written)
      → Option (Text × Text)
      → Disk
      → List Disk
      → Written
  filled label contents rest (some (part, e)) d before =
      give_up (label (codes "write") ++ e) (insert os.temp part d) (d ∷ before)
  filled label contents rest none d before =
      closed label rest os.chmod_error os.close_error (insert os.temp contents d) (d ∷ before)

  -- What follows the creation of the temporary file, by its error.
  unfoldable pub created :
      (Text → Text) → Text → (Disk → List Disk → Written) → Option Text → Disk → Written
  created label contents rest (some e) d = (err (label (codes "create") ++ e), d ∷ [])
  created label contents rest none d =
      filled label contents rest os.write_error (insert os.temp [] d) (d ∷ [])

  -- What follows the rename of Save, by its error: the temporary file is removed when it fails.
  unfoldable pub replaced : Text → Option Text → Disk → List Disk → Written
  replaced path (some e) d before =
      give_up (codes "state: rename temp → " ++ path ++ codes ": " ++ e) d before
  replaced path none d before = (ok tt, rename_file os.temp path d ∷ d ∷ before)

  -- Save, given what json.MarshalIndent makes of the state.
  unfoldable pub save : Text → Result Text → Disk → Written
  save path (err e) d =
      if is_empty path
      then (err (codes "state: no path set — was LoadState called?"), d ∷ [])
      else (err (codes "state: marshal: " ++ e), d ∷ [])
  save path (ok text) d =
      if is_empty path
      then (err (codes "state: no path set — was LoadState called?"), d ∷ [])
      else created save_label text (replaced path os.rename_error) os.create_error d

  -- What follows the rename of writeFileAtomic: the temporary file is left when it fails.
  unfoldable pub replaced_only : Text → Option Text → Disk → List Disk → Written
  replaced_only path (some e) d before = (err e, d ∷ before)
  replaced_only path none d before = (ok tt, rename_file os.temp path d ∷ d ∷ before)

  -- writeFileAtomic
  unfoldable pub write_file_atomic : Text → Text → Disk → Written
  write_file_atomic path text =
      created (λ step. []) text (replaced_only path os.rename_error) os.create_error
