-- ===== src/Files/Atomic.antt =====
-- No reader finds a file half written (Save of internal/state/state.go and writeFileAtomic of
-- internal/api/enroll.go).
use routestack_agent.Base.{
  Text, Bool, false, List, [], ◌∷◌, Option, none, some, ◌≡◌, ◌⊎◌, inl, inr, refl, arith, text_eq,
  text_eq_iff, text_eq_refl, is_empty, All, Bool-cases,
}
use routestack_agent.Base.Assoc.{lookup, insert, lookup-insert}
use routestack_agent.World.{ok, err}
use routestack_agent.Files.{
  Disk, Os, Written, remove_file, rename_file, clean_up, give_up, closed, filled, created, replaced,
  save, replaced_only, write_file_atomic,
}

pub lookup-remove_file :
    (from path : Text) (d : Disk)
    → text_eq from path ≡ false
    → lookup path (remove_file from d) ≡ lookup path d
unfolding remove_file lookup
lookup-remove_file from path [] h = refl
lookup-remove_file from path ((p, c) ∷ d) h = ground (
  arith,
  text_eq_iff p from,
  text_eq_iff p path,
  text_eq_iff from path,
  lookup-remove_file from path d h,
)

-- The contents of the file before a write that ends in the one disk that differs, if it succeeds; a
-- write that fails leaves the contents alone.
abbrev pub IsAtomic : Text → Text → Option Text → Written → Type 0
IsAtomic path text old written =
    ((d : Disk) × (ds : List Disk) × (written ≡ (ok tt, d ∷ ds))
      × (lookup path d ≡ some text)
      × All (λ d'. lookup path d' ≡ old) ds)
    ⊎ ((e : Text) × (ds : List Disk) × (written ≡ (err e, ds))
        × All (λ d'. lookup path d' ≡ old) ds)

module _ (os : Os) (path text : Text) (old : Option Text)
    (other : text_eq os.temp path ≡ false) where
  abbrev IsOld : Disk → Type 0
  IsOld d = lookup path d ≡ old

  clean_up-IsOld : (d : Disk) → IsOld d → IsOld (clean_up os d)
  unfolding clean_up
  clean_up-IsOld d h = ground (arith, lookup-remove_file os.temp path d other)

  give_up-IsAtomic :
      (e : Text) (d : Disk) (before : List Disk)
      → IsOld d
      → All IsOld before
      → IsAtomic path text old (give_up os e d before)
  unfolding give_up
  give_up-IsAtomic e d before h hs =
      inr (e, clean_up os d ∷ d ∷ before, refl, (clean_up-IsOld d h, (h, hs)))

  insert-IsOld : (c : Text) (d : Disk) → IsOld d → IsOld (insert os.temp c d)
  insert-IsOld c d h = rw (lookup-insert os.temp path c d, other) h

  rename-lookup :
      (d : Disk)
      → lookup os.temp d ≡ some text
      → lookup path (rename_file os.temp path d) ≡ some text
  unfolding rename_file
  rename-lookup d h =
      rw (rename_file, h, lookup-insert path path text (remove_file os.temp d), text_eq_refl path)
        refl

  -- What ends a write, given the disk on which the temporary file has the whole text.
  abbrev Ends : (Disk → List Disk → Written) → Type 0
  Ends rest =
      (d : Disk) (before : List Disk)
      → lookup os.temp d ≡ some text
      → IsOld d
      → All IsOld before
      → IsAtomic path text old (rest d before)

  replaced-Ends : (o : Option Text) → Ends (replaced os path o)
  unfolding replaced
  replaced-Ends (some e) d before whole h hs = give_up-IsAtomic _ d before h hs
  replaced-Ends none d before whole h hs =
      inl (rename_file os.temp path d, d ∷ before, refl, rename-lookup d whole, (h, hs))

  replaced_only-Ends : (o : Option Text) → Ends (replaced_only os path o)
  unfolding replaced_only
  replaced_only-Ends (some e) d before whole h hs = inr (e, d ∷ before, refl, (h, hs))
  replaced_only-Ends none d before whole h hs =
      inl (rename_file os.temp path d, d ∷ before, refl, rename-lookup d whole, (h, hs))

  module _ (label : Text → Text) (rest : Disk → List Disk → Written) (ends : Ends rest) where
    closed-Ends : (chmod closing : Option Text) → Ends (closed os label rest chmod closing)
    unfolding closed
    closed-Ends (some e) closing d before whole h hs = give_up-IsAtomic _ d before h hs
    closed-Ends none (some e) d before whole h hs = give_up-IsAtomic _ d before h hs
    closed-Ends none none d before whole h hs = ends d before whole h hs

    filled-IsAtomic :
        (o : Option (Text × Text)) (d : Disk) (before : List Disk)
        → IsOld d
        → All IsOld before
        → IsAtomic path text old (filled os label text rest o d before)
    unfolding filled
    filled-IsAtomic (some (part, e)) d before h hs =
        give_up-IsAtomic _ (insert os.temp part d) (d ∷ before) (insert-IsOld part d h) (h, hs)
    filled-IsAtomic none d before h hs =
        let whole : lookup os.temp (insert os.temp text d) ≡ some text =
          rw (lookup-insert os.temp os.temp text d, text_eq_refl os.temp) refl in
        closed-Ends os.chmod_error os.close_error (insert os.temp text d) (d ∷ before) whole
          (insert-IsOld text d h) (h, hs)

    created-IsAtomic :
        (o : Option Text) (d : Disk)
        → IsOld d
        → IsAtomic path text old (created os label text rest o d)
    unfolding created
    created-IsAtomic (some e) d h = inr (_, d ∷ [], refl, (h, tt))
    created-IsAtomic none d h =
        filled-IsAtomic os.write_error (insert os.temp [] d) (d ∷ []) (insert-IsOld [] d h) (h, tt)

-- If the temporary file is not the state file, then whichever calls fail in a Save: on every disk on
-- the way the state file has its old contents, or is missing as before, except that a Save which
-- succeeds ends with a disk on which it has the whole new text; a Save that fails leaves it as it was.
pub save-IsAtomic :
    (os : Os) (path text : Text) (d : Disk)
    → text_eq os.temp path ≡ false
    → IsAtomic path text (lookup path d) (save os path (ok text) d)
unfolding save
save-IsAtomic os path text d other = elim (Bool-cases (is_empty path)) [
  | inl e ↦ rw e (inr (_, d ∷ [], refl, (refl, tt)))
  | inr e ↦ rw e (
      created-IsAtomic os path text (lookup path d) other _ (replaced os path os.rename_error)
        (replaced-Ends os path text (lookup path d) other os.rename_error) os.create_error d refl)
]

-- The same of writeFileAtomic, for any file: only a write that succeeds changes it, in one step.
pub write_file_atomic-IsAtomic :
    (os : Os) (path text : Text) (d : Disk)
    → text_eq os.temp path ≡ false
    → IsAtomic path text (lookup path d) (write_file_atomic os path text d)
unfolding write_file_atomic
write_file_atomic-IsAtomic os path text d other =
    created-IsAtomic os path text (lookup path d) other _ (replaced_only os path os.rename_error)
      (replaced_only-Ends os path text (lookup path d) other os.rename_error) os.create_error d refl

-- An operating system on which only the rename fails.
abbrev pub rename_fails : Text → Text → Bool → Os
rename_fails temp e removes = record {
  temp = temp;
  create_error = none;
  write_error = none;
  chmod_error = none;
  close_error = none;
  rename_error = some e;
  removes = removes;
}

-- When only its rename fails, writeFileAtomic leaves the whole new text in the temporary file.
pub write_file_atomic-rename_fails :
    (temp e path text : Text) (removes : Bool) (d : Disk)
    → (last : Disk) × (ds : List Disk) × (write_file_atomic
          (rename_fails temp e removes)
          path
          text
          d
        ≡ (err e, last ∷ ds))
      × (lookup temp last ≡ some text)
unfolding write_file_atomic created filled closed replaced_only
write_file_atomic-rename_fails temp e path text removes d =
    let full = insert temp text (insert temp [] d) in
    let whole : lookup temp full ≡ some text =
      rw (lookup-insert temp temp text (insert temp [] d), text_eq_refl temp) refl in
    (full, insert temp [] d ∷ d ∷ [], refl, whole)
