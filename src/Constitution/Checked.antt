-- ===== src/Constitution/Checked.antt =====
-- What the validators of fields of packages/application/src/constitution-authority.ts have checked.
use software_blueprint_hub.Shared.{String, ◌≡◌, true, ok, guard-eq-ok, >>=-eq-ok, arith}
use software_blueprint_hub.Shared.Text.{trim, is_semver, is_sha256}
use software_blueprint_hub.Constitution.Checks.{non_empty, semver, sha256_digest, to_lower}

pub non_empty-trim :
    (value label text : String) → non_empty value label ≡ ok text → trim value ≡ text
unfolding non_empty
non_empty-trim value label text h = ground arith

pub semver-is_semver :
    (value label version : String) → semver value label ≡ ok version → is_semver (trim value) ≡ true
unfolding semver
semver-is_semver value label version h =
    let (trimmed, e, h₁) = >>=-eq-ok (non_empty value label) _ h in
    let (exact, _) = guard-eq-ok (is_semver trimmed) _ _ h₁ in
    rw (non_empty-trim value label trimmed e) exact

pub sha256_digest-to_lower :
    (value digest : String)
    → sha256_digest value ≡ ok digest
    → (to_lower (trim value) ≡ digest) × (is_sha256 digest ≡ true)
unfolding sha256_digest
sha256_digest-to_lower value digest h =
    let (trimmed, e, h₁) = >>=-eq-ok (non_empty value "digest") _ h in
    let (exact, h₂) = guard-eq-ok (is_sha256 (to_lower trimmed)) _ _ h₁ in
    let same : to_lower trimmed ≡ digest = ground arith in
    (rw (non_empty-trim value "digest" trimmed e) same, rw (← same) exact)
