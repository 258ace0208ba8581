-- ===== src/Enroll/Order.antt =====
-- The order in which an enrolment replaces the key and the certificate (Enroll of
-- internal/api/enroll.go).
use routestack_agent.Base.{
  Text, false, List, [], ◌∷◌, ◌++◌, some, Option, codes, ◌≡◌, refl, ◌⊎◌, inl, inr, text_eq, All,
  All-append,
}
use routestack_agent.Base.Assoc.{lookup}
use routestack_agent.World.{Result, Result-cases, ok, err}
use routestack_agent.Files.{Disk, Written, write_file_atomic}
use routestack_agent.Files.Atomic.{write_file_atomic-IsAtomic}
use routestack_agent.Files.Frame.{write_file_atomic-Keeps}
use routestack_agent.Api.Calls.{EnrollRequest, EnrollResponse}
use routestack_agent.Enroll.{
  Outside, latest, key_path, cert_path, generate_key_and_csr, load_ca_pool, key_pem,
  certificate_saved, key_saved, save_credentials, enroll_node,
}

All-map {ℓ} :
    {A : Type ℓ} {P Q : A → Type 0} → ((x : A) → P x → Q x) → (xs : List A) → All P xs → All Q xs
All-map f [] h = tt
All-map f (x ∷ xs) (p, h) = (f x p, All-map f xs h)

-- The temporary files are neither the key nor the certificate.
abbrev pub HasOwnNames : Outside → Type 0
HasOwnNames O =
    (text_eq O.key_os.temp key_path ≡ false)
    × (text_eq O.key_os.temp cert_path ≡ false)
    × (text_eq O.cert_os.temp key_path ≡ false)
    × (text_eq O.cert_os.temp cert_path ≡ false)

-- The certificate is the old one, or the key is the new one.
abbrev pub InOrder : Option Text → Text → Disk → Type 0
InOrder old key d = (lookup cert_path d ≡ old) ⊎ (lookup key_path d ≡ some key)

-- All disks are in order; the last one has the new key and the certificate of the response, or there
-- is an error and no disk has another certificate than the old one.
abbrev pub IsSaved :
    Option Text → Text → EnrollResponse → Result EnrollResponse × List Disk → Type 0
IsSaved old key resp w =
    All (InOrder old key) w.1
    × (((last : Disk) × (ds : List Disk) × (w ≡ (ok resp, last ∷ ds))
          × (lookup key_path last ≡ some key)
          × (lookup cert_path last ≡ some resp.certificate))
        ⊎ ((e : Text) × (ds : List Disk) × (w ≡ (err e, ds))
            × All (λ d'. lookup cert_path d' ≡ old) ds))

-- All disks are in order; and either the controller granted the request and the last disk has the new
-- key and the certificate of its answer, or there is an error and no disk has another certificate than
-- the old one.
abbrev pub IsOrdered :
    Option Text → Text → Result EnrollResponse → Result EnrollResponse × List Disk → Type 0
IsOrdered old key answer w =
    All (InOrder old key) w.1
    × (((resp : EnrollResponse) × (answer ≡ ok resp)
          × (last : Disk) × (ds : List Disk) × (w ≡ (ok resp, last ∷ ds))
          × (lookup key_path last ≡ some key)
          × (lookup cert_path last ≡ some resp.certificate))
        ⊎ ((e : Text) × (ds : List Disk) × (w ≡ (err e, ds))
            × All (λ d'. lookup cert_path d' ≡ old) ds))

IsSaved-IsOrdered :
    (old : Option Text) (key : Text) (answer : Result EnrollResponse) (resp : EnrollResponse)
    (w : Result EnrollResponse × List Disk)
    → answer ≡ ok resp
    → IsSaved old key resp w
    → IsOrdered old key answer w
IsSaved-IsOrdered old key answer resp w granted (all, inl (last, ds, e, k, c)) =
    (all, inl (resp, granted, last, ds, e, k, c))
IsSaved-IsOrdered old key answer resp w granted (all, inr failed) = (all, inr failed)

-- A failure that leaves the certificate alone.
failed-IsSaved :
    (old : Option Text) (key e : Text) (resp : EnrollResponse) (ds : List Disk)
    → All (λ d'. lookup cert_path d' ≡ old) ds
    → IsSaved old key resp (err e, ds)
failed-IsSaved old key e resp ds h = (All-map (λ d k. inl k) ds h, inr (e, ds, refl, h))

module _ (O : Outside) (own : HasOwnNames O) (key : Text) (resp : EnrollResponse)
    (old : Option Text) where
  -- What follows the write of the key.
  certificate-IsSaved :
      (d : Disk) (ds : List Disk) (before : Disk)
      → write_file_atomic O.key_os key_path key before ≡ (ok tt, d ∷ ds)
      → lookup key_path d ≡ some key
      → All (λ d'. lookup cert_path d' ≡ old) (d ∷ ds)
      → IsSaved old key resp (save_credentials O key resp before)
  unfolding save_credentials key_saved certificate_saved text_eq
  certificate-IsSaved d ds before saved new kept =
      let keeps =
        write_file_atomic-Keeps O.cert_os key_path cert_path (some key) own.2 refl resp.certificate
          d new in
      elim (write_file_atomic-IsAtomic O.cert_os cert_path resp.certificate d own.3) [
        | inr (e, ds2, eq, same) ↦
            rw (save_credentials, saved, key_saved, eq)
              (failed-IsSaved old key (codes "save cert: " ++ e) resp (ds2 ++ d ∷ ds)
                (All-append _ ds2 (d ∷ ds) (rw kept.0 at same) kept))
        | inl (d2, ds2, eq, whole, same) ↦
            rw (save_credentials, saved, key_saved, eq)
              (let after : All (λ d'. lookup key_path d' ≡ some key) (d2 ∷ ds2) = rw eq at keeps in
                (
                  All-append (InOrder old key) (d2 ∷ ds2) (d ∷ ds)
                      (All-map (λ d k. inr k) (d2 ∷ ds2) after)
                      (All-map (λ d k. inl k) (d ∷ ds) kept),
                  inl (d2, ds2 ++ d ∷ ds, refl, after.0, whole),
                ))
      ]

  pub save_credentials-IsSaved :
      (d : Disk) → lookup cert_path d ≡ old → IsSaved old key resp (save_credentials O key resp d)
  unfolding save_credentials key_saved certificate_saved text_eq
  save_credentials-IsSaved d h =
      let keeps = write_file_atomic-Keeps O.key_os cert_path key_path old own.1 refl key d h in
      elim (write_file_atomic-IsAtomic O.key_os key_path key d own.0) [
        | inr (e, ds, eq, _) ↦
            rw (save_credentials, eq)
              (failed-IsSaved old key (codes "save key: " ++ e) resp ds (rw eq at keeps))
        | inl (d1, ds1, eq, whole, _) ↦ certificate-IsSaved d1 ds1 d eq whole (rw eq at keeps)
      ]

-- A file that is neither the key nor the certificate nor a temporary file keeps its contents.
module _ (O : Outside) (key : Text) (resp : EnrollResponse) (q : Text) (found : Option Text)
    (not_temp : text_eq O.key_os.temp q ≡ false) (not_temp' : text_eq O.cert_os.temp q ≡ false)
    (not_key : text_eq key_path q ≡ false) (not_cert : text_eq cert_path q ≡ false) where
  abbrev IsFound : Disk → Type 0
  IsFound d = lookup q d ≡ found

  latest-IsFound : (d : Disk) (ds : List Disk) → IsFound d → All IsFound ds → IsFound (latest d ds)
  latest-IsFound d [] h hs = h
  latest-IsFound d (d' ∷ ds) h hs = hs.0

  certificate_saved-IsFound :
      (before : List Disk) (w : Written)
      → All IsFound before
      → All IsFound w.1
      → All IsFound (certificate_saved O resp before w).1
  unfolding certificate_saved
  certificate_saved-IsFound before (err e, ds) h hs = All-append IsFound ds before hs h
  certificate_saved-IsFound before (ok _, ds) h hs = All-append IsFound ds before hs h

  key_saved-IsFound :
      (d : Disk) (w : Written) → IsFound d → All IsFound w.1 → All IsFound (key_saved O resp d w).1
  unfolding key_saved
  key_saved-IsFound d (err e, ds) h hs = hs
  key_saved-IsFound d (ok _, ds) h hs = certificate_saved-IsFound ds _ hs (
      write_file_atomic-Keeps O.cert_os q cert_path found not_temp' not_cert resp.certificate
        (latest d ds) (latest-IsFound d ds h hs))

  pub save_credentials-IsFound :
      (d : Disk) → IsFound d → All IsFound (save_credentials O key resp d).1
  unfolding save_credentials
  save_credentials-IsFound d h =
      key_saved-IsFound d _ h
        (write_file_atomic-Keeps O.key_os q key_path found not_temp not_key key d h)

-- An enrolment that fails before it writes.
early-IsOrdered :
    (key e : Text) (answer : Result EnrollResponse) (d : Disk)
    → IsOrdered (lookup cert_path d) key answer (err e, d ∷ [])
early-IsOrdered key e answer d = ((inl refl, tt), inr (e, d ∷ [], refl, (refl, tt)))

-- If the temporary files are neither the key nor the certificate and a key can be generated, then
-- whichever later call fails in an enrolment, on every disk on the way the certificate is the old one
-- or the key is already the new one. An enrolment that succeeds was granted by the controller, and
-- leaves the new key and the certificate of the controller's answer to the token and the request for
-- that key; one that fails never changes the certificate.
pub enroll_node-IsOrdered :
    (O : Outside) (send : EnrollRequest → Result EnrollResponse) (token ca key csr : Text)
    (d : Disk)
    → HasOwnNames O
    → generate_key_and_csr O [] ≡ ok (key, csr)
    → IsOrdered
        (lookup cert_path d)
        (key_pem O key)
        (send (record { enrollment_token = token; csr = csr; node_id = [] }))
        (enroll_node O send token ca d)
unfolding enroll_node
enroll_node-IsOrdered O send token ca key csr d own made =
    let request : EnrollRequest = record { enrollment_token = token; csr = csr; node_id = [] } in
    rw (enroll_node, made)
      (elim (Result-cases (load_ca_pool O ca d)) [
        | inr (e, bad) ↦ rw bad (early-IsOrdered _ _ _ d)
        | inl (_, good) ↦ rw good (elim (Result-cases (send request)) [
          | inr (e, refused) ↦ rw refused (early-IsOrdered _ _ _ d)
          | inl (resp, granted) ↦ rw granted (
              IsSaved-IsOrdered _ _ _ resp _ refl
                (save_credentials-IsSaved O own (key_pem O key) resp (lookup cert_path d) d refl))
        ])
      ])
