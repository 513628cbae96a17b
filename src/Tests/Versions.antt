-- ===== src/Tests/Versions.antt =====
-- The order of versions at concrete inputs.
use server_monitor.Common.{◌≡◌, refl, true, false, ℕ_discrete}
use server_monitor.Repository.Paths.{Name-discrete, codes}
use server_monitor.Version.{
  less, equal, greater, compare, is_newer, compare_core, core_loop, split, split_prerelease, cut,
  core_segment, atoi, compare_prerelease, prerelease_loop, compare_identifier, cmp_text,
}
use server_monitor.Version.Laws.{flip}
use server_monitor.Version.Order.{is_newer-order}

compare_releases : compare (codes "v0.10") (codes "0.9.9") ≡ greater
unfolding compare compare_core core_loop split split_prerelease cut core_segment atoi
    compare_prerelease Name-discrete ℕ_discrete prerelease_loop compare_identifier cmp_text
compare_releases = refl

compare_candidates : compare (codes "1.0.0-rc.2") (codes "1.0.0-rc.10+linux") ≡ less
unfolding compare compare_core core_loop split split_prerelease cut core_segment atoi
    compare_prerelease Name-discrete ℕ_discrete prerelease_loop compare_identifier cmp_text
compare_candidates = refl

compare_padded : compare (codes "1.0") (codes "v1") ≡ equal
unfolding compare compare_core core_loop split split_prerelease cut core_segment atoi
    compare_prerelease Name-discrete ℕ_discrete prerelease_loop compare_identifier cmp_text
compare_padded = refl

is_newer-order_example :
    (compare (codes "1.0.0-rc.1") (codes "1.0.0")
      ≡ flip (compare (codes "1.0.0") (codes "1.0.0-rc.1")))
    × (compare (codes "1.0.0") (codes "1.0.0-rc.1") ≡ equal
        → compare (codes "1.0.0") (codes "0.5.2") ≡ compare (codes "1.0.0-rc.1") (codes "0.5.2"))
    × (compare (codes "1.0.0") (codes "1.0.0-rc.1") ≡ less
        → compare (codes "1.0.0-rc.1") (codes "0.5.2") ≡ less
        → compare (codes "1.0.0") (codes "0.5.2") ≡ less)
    × (is_newer (codes "1.0.0") (codes "1.0.0-rc.1") ≡ true
        → is_newer (codes "1.0.0-rc.1") (codes "1.0.0") ≡ false)
    × (is_newer (codes "1.0.0") (codes "1.0.0-rc.1") ≡ true
        → is_newer (codes "1.0.0-rc.1") (codes "0.5.2") ≡ true
        → is_newer (codes "1.0.0") (codes "0.5.2") ≡ true)
is_newer-order_example = is_newer-order (codes "1.0.0") (codes "1.0.0-rc.1") (codes "0.5.2")
