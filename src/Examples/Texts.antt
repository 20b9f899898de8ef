-- ===== src/Examples/Texts.antt =====
-- Tests of the checks on texts.
use software_blueprint_hub.Shared.{◌≡◌, refl, true, false}
use software_blueprint_hub.Shared.Text.{trim, is_semver}
use software_blueprint_hub.Shared.Timestamp.{is_iso_timestamp}
use software_blueprint_hub.Shared.Json.{quote}
use software_blueprint_hub.Shared.Decimal.{decimal}
use software_blueprint_hub.Constitution.Checks.{semver_greater}
use software_blueprint_hub.Execution.Texts.{valid_path, is_under}

leap_day : is_iso_timestamp "2024-02-29T00:00:00.000Z" ≡ true
unfolding is_iso_timestamp
leap_day = refl

no_leap_day : is_iso_timestamp "2026-02-29T00:00:00.000Z" ≡ false
unfolding is_iso_timestamp
no_leap_day = refl

last_instant : is_iso_timestamp "+275760-09-13T00:00:00.000Z" ≡ true
unfolding is_iso_timestamp
last_instant = refl

trim_test : trim "\t a b \n" ≡ "a b"
unfolding trim
trim_test = refl

quote_test : quote "a\"b\n" ≡ "\"a\\\"b\\n\""
unfolding quote
quote_test = refl

decimal_test : decimal 1203 ≡ "1203"
unfolding decimal
decimal_test = refl

semver_test : is_semver "1.4.0" ≡ true
unfolding is_semver
semver_test = refl

semver_greater_test : semver_greater "1.10.0" "1.9.3" ≡ true
unfolding semver_greater
semver_greater_test = refl

path_test : valid_path "docs/plan.md" ≡ true
unfolding valid_path
path_test = refl

parent_path_test : valid_path "docs/../secrets" ≡ false
unfolding valid_path
parent_path_test = refl

under_test : is_under "docs/plan.md" "docs" ≡ true
unfolding is_under
under_test = refl

prefix_test : is_under "docs2/plan.md" "docs" ≡ false
unfolding is_under
prefix_test = refl
