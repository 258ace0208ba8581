-- ===== src/Components/Install.antt =====
-- What an installation guarantees (Installer.Install of internal/installer/installer.go).
use routestack_agent.Base.{true, ◌≡◌, inl, inr, arith, Any, Bool-cases}
use routestack_agent.Base.TextLaws.{EndsWith}
use routestack_agent.World.{World, History, Result-cases, ok}
use routestack_agent.Docker.Types.{ImageInfo}
use routestack_agent.Docker.Client.{pull, inspect_image}
use routestack_agent.Components.{Component, validate, full_image, match_digest, install}
use routestack_agent.Components.Digest.{validate_digest_iff, match_digest_iff, IsDigest}

-- A valid component is pulled under its own image reference: no version is appended.
full_image-valid : (c : Component) → validate c ≡ ok tt → full_image c ≡ c.image
unfolding validate full_image
full_image-valid c h = ground arith

validate-IsDigest : (c : Component) → validate c ≡ ok tt → IsDigest c.expected_digest
unfolding validate
validate-IsDigest c h = (validate_digest_iff c.expected_digest).0 (ground arith)

-- The facts that a successful installation leaves behind.
pub record IsPinned (W : World) (c : Component) (h : History) : Type 0 where
  pub digest : IsDigest c.expected_digest
  pub pulled : (pull W c.image h).0 ≡ ok tt
  pub info : ImageInfo
  pub described : (inspect_image W c.image (pull W c.image h).1).0 ≡ ok info
  pub listed : Any (EndsWith c.expected_digest) info.repo_digests
  pub calls : (install W c h).1 ≡ (inspect_image W c.image (pull W c.image h).1).1

module _ (W : World) (c : Component) (h : History) (e : (install W c h).0 ≡ ok tt) where
  install-valid : validate c ≡ ok tt
  unfolding install
  install-valid = elim (Result-cases (validate c)) [
    | inl (tt, v) ↦ v
    | inr (m, v) ↦ absurd (ground arith)
  ]

  -- What is left to do for a valid component.
  after_pull :
      ((pull W c.image h).0 ≡ ok tt)
      × (info : ImageInfo) × ((inspect_image W c.image (pull W c.image h).1).0 ≡ ok info)
      × (match_digest c.expected_digest info.repo_digests ≡ true)
      × ((install W c h).1 ≡ (inspect_image W c.image (pull W c.image h).1).1)
  unfolding install
  after_pull =
      let v = install-valid in
      let same = full_image-valid c v in
      elim (Result-cases (pull W c.image h).0) [
        | inr (m, p) ↦ absurd (ground arith)
        | inl (tt, p) ↦ elim (Result-cases (inspect_image W c.image (pull W c.image h).1).0) [
          | inr (m, q) ↦ absurd (ground arith)
          | inl (info, q) ↦ elim (Bool-cases (match_digest c.expected_digest info.repo_digests)) [
            | inr bad ↦ absurd (ground arith)
            | inl good ↦ (p, info, q, good, ground arith)
          ]
        ]
      ]

-- An installation succeeds only if the component names a well-formed digest, its image was pulled by
-- exactly the reference that the component gives, the image that the daemon then describes under
-- that reference has a repository digest ending with the expected one, and nothing else was called.
pub install-IsPinned :
    (W : World) (c : Component) (h : History) → (install W c h).0 ≡ ok tt → IsPinned W c h
install-IsPinned W c h e =
    let (pulled, info, described, matched, calls) = after_pull W c h e in
    record {
      digest = validate-IsDigest c (install-valid W c h e);
      pulled = pulled;
      info = info;
      described = described;
      listed = (match_digest_iff c.expected_digest info.repo_digests).0 matched;
      calls = calls;
    }
