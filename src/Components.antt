-- ===== src/Components.antt =====
-- internal/components/spec.go and internal/installer/installer.go: component images and digests.
pub mod Digest
pub mod Install
use routestack_agent.Base.{
  ℕ, Text, Bool, true, false, List, [], ◌∷◌, ◌++◌, codes, is_blank, contains, has_prefix,
  has_suffix, trim_prefix, text_eq, bytes, length, ltb, leb, ◌==◌, not, ◌&&◌, ◌||◌, join,
  if◌then◌else◌,
}
use routestack_agent.World.{World, M, Result, ok, err, ◌>>=◌, ◌>>◌, pure, fail, lift, wrap}
use routestack_agent.Docker.Types.{ImageInfo}
use routestack_agent.Docker.Client.{pull, inspect_image}

pub record Component : Type 0 where
  pub name : Text
  pub version : Text
  pub image : Text
  pub expected_digest : Text

abbrev pub digest_prefix : Text
digest_prefix = codes "sha256:"

abbrev pub is_hex : ℕ → Bool
is_hex r = not ((ltb r b'0' || ltb b'9' r) && (ltb r b'a' || ltb b'f' r))

abbrev pub all_hex : Text → Bool
all_hex [] = true
all_hex (r ∷ hex) = is_hex r && all_hex hex

-- ValidateDigest
unfoldable pub validate_digest : Text → Result (Unit {0})
validate_digest s =
    if not (has_prefix s digest_prefix)
    then err (codes "expected digest must have sha256: prefix")
    else let hex = trim_prefix s digest_prefix in
      if not (length (bytes hex) == 64)
      then err (codes "expected digest must have 64 hex characters")
      else if not (all_hex hex)
      then err (codes "expected digest must be lowercase hex")
      else ok tt

-- Component.Validate
unfoldable pub validate : Component → Result (Unit {0})
validate c =
    if is_blank c.name
    then err (codes "component name is required")
    else if is_blank c.version
    then err (codes "component version is required")
    else if is_blank c.image
    then err (codes "component image is required")
    else if not (contains c.image (codes ":"))
    then err (codes "component image must include a tag or digest")
    else validate_digest c.expected_digest

-- Component.FullImage
unfoldable pub full_image : Component → Text
full_image c =
    if contains c.image (codes "@sha256:")
    then c.image
    else if contains c.image (codes ":")
    then c.image
    else c.image ++ codes ":" ++ c.version

-- MatchDigest
unfoldable pub match_digest : Text → List Text → Bool
match_digest expected [] = false
match_digest expected (rd ∷ rds) =
    (has_suffix rd expected || text_eq rd expected) || match_digest expected rds

-- %v of a []string
abbrev pub show_list : List Text → Text
show_list ts = codes "[" ++ join ts (codes " ") ++ codes "]"

-- Installer.Install. The client is the Docker client.
unfoldable pub install : World → Component → M (Unit {0})
install W c = do
  wrap (codes "invalid component: ") (lift (validate c))
  let image = full_image c
  wrap (codes "pull " ++ image ++ codes ": ") (pull W image)
  info ← wrap (codes "inspect " ++ image ++ codes ": ") (inspect_image W image)
  if match_digest c.expected_digest info.repo_digests
      then pure tt
      else fail (
          codes "digest mismatch for "
          ++ image
          ++ codes ": expected "
          ++ c.expected_digest
          ++ codes ", got "
          ++ show_list info.repo_digests)
