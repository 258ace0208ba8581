-- ===== src/State/Restore.antt =====
-- A saved state is loaded as it was (internal/state/state.go).
use routestack_agent.Base.{
  ℤ, Text, true, false, List, [], ◌∷◌, ◌++◌, none, some, ◌≡◌, refl, ◌∙◌, ap, inl, inr, text_eq,
  append_assoc, append-nil,
}
use routestack_agent.Base.Assoc.{lookup, IsMap, insert-fresh}
use routestack_agent.Json.{Json, fold_fields, unmarshal, names_match, set_text, set_int, set_struct}
use routestack_agent.World.{World, ok}
use routestack_agent.Files.{Disk, Os, save}
use routestack_agent.Files.Atomic.{save-IsAtomic}
use routestack_agent.State.{
  AgentState, fresh_state, revision_entry, saved_setter, revision_fields, state_json, parse_state,
  load_state,
}

fold-revision_fields :
    (seen m : List (Text × ℤ))
    → IsMap seen m
    → fold_fields revision_entry (revision_fields m) (record { value = seen; well_typed = true })
      ≡ record { value = seen ++ m; well_typed = true }
unfolding fold_fields revision_entry set_int
fold-revision_fields seen [] h = rw (append-nil seen) refl
fold-revision_fields seen ((k, n) ∷ m) (new, rest) =
    ap
      (λ r.
        fold_fields revision_entry (revision_fields m) (record { value = r; well_typed = true }))
      (insert-fresh k n seen new)
    ∙ fold-revision_fields (seen ++ (k, n) ∷ []) m rest
    ∙ ap (λ r. record { value = r; well_typed = true }) (append_assoc seen ((k, n) ∷ []) m)

unmarshal-state_json :
    (s : AgentState)
    → IsMap [] s.last_known_revisions
    → unmarshal saved_setter fresh_state (state_json s) ≡ record { value = s; well_typed = true }
unfolding unmarshal saved_setter names_match set_text set_struct
unmarshal-state_json s h = rw (fold-revision_fields [] s.last_known_revisions h) refl

-- What a Save that succeeds leaves in the state file.
lookup-saved :
    (os : Os) (path text : Text) (d d' : Disk) (ds : List Disk)
    → text_eq os.temp path ≡ false
    → save os path (ok text) d ≡ (ok tt, d' ∷ ds)
    → lookup path d' ≡ some text
lookup-saved os path text d d' ds other saved = elim (save-IsAtomic os path text d other) [
  | inl (d1, ds1, e, whole, _) ↦ cc
  | inr (m, ds1, e, _) ↦ absurd cc
]

-- If encoding/json reads back the text that it printed for a state, the map of revisions has no key
-- twice and the temporary file is not the state file: after a Save that succeeds, LoadState gives
-- exactly the state that was saved.
pub load_state-save :
    (W : World) (os : Os) (path : Text) (print : Json → Text) (s : AgentState) (d d' : Disk)
    (ds : List Disk)
    → W.parse (print (state_json s)) ≡ ok (state_json s)
    → IsMap [] s.last_known_revisions
    → text_eq os.temp path ≡ false
    → save os path (ok (print (state_json s))) d ≡ (ok tt, d' ∷ ds)
    → load_state W none path d' ≡ ok s
unfolding load_state parse_state
load_state-save W os path print s d d' ds parses unique other saved =
    rw
      (
        load_state,
        lookup-saved os path (print (state_json s)) d d' ds other saved,
        parse_state,
        parses,
        unmarshal-state_json s unique,
      )
      refl
