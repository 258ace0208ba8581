-- ===== src/Files/Frame.antt =====
-- What an atomic write leaves alone (Save of internal/state/state.go and writeFileAtomic of
-- internal/api/enroll.go).
use routestack_agent.Base.{
  Text, false, List, [], ◌∷◌, Option, none, some, ◌≡◌, arith, text_eq, is_empty, All, Bool-cases,
  Option-cases, inl, inr,
}
use routestack_agent.Base.Assoc.{lookup, insert, lookup-insert}
use routestack_agent.World.{ok}
use routestack_agent.Files.{
  Disk, Os, Written, remove_file, rename_file, clean_up, give_up, closed, filled, created, replaced,
  save, replaced_only, write_file_atomic,
}
use routestack_agent.Files.Atomic.{lookup-remove_file}

module _ (os : Os) (q path : Text) (old : Option Text) (not_temp : text_eq os.temp q ≡ false)
    (not_path : text_eq path q ≡ false) where
  abbrev IsOld : Disk → Type 0
  IsOld d = lookup q d ≡ old

  abbrev Keeps : Written → Type 0
  Keeps w = All IsOld w.1

  -- What ends a write.
  abbrev Ends : (Disk → List Disk → Written) → Type 0
  Ends rest = (d : Disk) (before : List Disk) → IsOld d → All IsOld before → Keeps (rest d before)

  give_up-Keeps : (e : Text) → Ends (give_up os e)
  unfolding give_up clean_up
  give_up-Keeps e d before h hs = (ground (arith, lookup-remove_file os.temp q d not_temp), (h, hs))

  insert-IsOld : (c : Text) (d : Disk) → IsOld d → IsOld (insert os.temp c d)
  insert-IsOld c d h = rw (lookup-insert os.temp q c d, not_temp) h

  rename-IsOld : (d : Disk) → IsOld d → IsOld (rename_file os.temp path d)
  unfolding rename_file
  rename-IsOld d h = elim (Option-cases (lookup os.temp d)) [
    | inl e ↦ rw (rename_file, e) h
    | inr (c, e) ↦
        rw
          (
            rename_file,
            e,
            lookup-insert path q c (remove_file os.temp d),
            not_path,
            lookup-remove_file os.temp q d not_temp,
          )
          h
  ]

  replaced-Ends : (o : Option Text) → Ends (replaced os path o)
  unfolding replaced
  replaced-Ends (some e) d before h hs = give_up-Keeps _ d before h hs
  replaced-Ends none d before h hs = (rename-IsOld d h, (h, hs))

  replaced_only-Ends : (o : Option Text) → Ends (replaced_only os path o)
  unfolding replaced_only
  replaced_only-Ends (some e) d before h hs = (h, hs)
  replaced_only-Ends none d before h hs = (rename-IsOld d h, (h, hs))

  module _ (label : Text → Text) (text : Text) (rest : Disk → List Disk → Written)
      (ends : Ends rest) where
    closed-Ends : (chmod closing : Option Text) → Ends (closed os label rest chmod closing)
    unfolding closed
    closed-Ends (some e) closing d before h hs = give_up-Keeps _ d before h hs
    closed-Ends none (some e) d before h hs = give_up-Keeps _ d before h hs
    closed-Ends none none d before h hs = ends d before h hs

    filled-Ends : (o : Option (Text × Text)) → Ends (filled os label text rest o)
    unfolding filled
    filled-Ends (some (part, e)) d before h hs =
        give_up-Keeps _ (insert os.temp part d) (d ∷ before) (insert-IsOld part d h) (h, hs)
    filled-Ends none d before h hs =
        closed-Ends os.chmod_error os.close_error (insert os.temp text d) (d ∷ before)
          (insert-IsOld text d h) (h, hs)

    created-Keeps : (o : Option Text) (d : Disk) → IsOld d → Keeps (created os label text rest o d)
    unfolding created
    created-Keeps (some e) d h = (h, tt)
    created-Keeps none d h =
        filled-Ends os.write_error (insert os.temp [] d) (d ∷ []) (insert-IsOld [] d h) (h, tt)

  pub save-Keeps : (text : Text) (d : Disk) → IsOld d → Keeps (save os path (ok text) d)
  unfolding save
  save-Keeps text d h = elim (Bool-cases (is_empty path)) [
    | inl e ↦ rw e (h, tt)
    | inr e ↦ rw e (created-Keeps _ text _ (replaced-Ends os.rename_error) os.create_error d h)
  ]

  pub write_file_atomic-Keeps :
      (text : Text) (d : Disk) → IsOld d → Keeps (write_file_atomic os path text d)
  unfolding write_file_atomic
  write_file_atomic-Keeps text d h =
      created-Keeps _ text _ (replaced_only-Ends os.rename_error) os.create_error d h
