-- ===== src/Updater/Order.antt =====
-- The order that the comparison of versions is, and what is read as a version.
use appcenter_agent.Common.{
  String, Bool, ◌≡◌, refl, true, false, not, ◌&&◌, Option, none, some, is_some, arith, eq_iff, ◌==◌,
  nat_eq, int_eq, string_eq, is_blank,
}
use appcenter_agent.Common.Text.{codes}
use appcenter_agent.Updater.Version.{Semver, extract_semver3, semver_gt, newer_of, is_newer_version}

semver_gt_irrefl : (a : Semver) → semver_gt a a ≡ false
semver_gt_irrefl a = ground arith

semver_gt_asymm : (a b : Semver) → semver_gt a b ≡ true → semver_gt b a ≡ false
semver_gt_asymm a b e = ground arith

semver_gt_trans :
    (a b c : Semver) → semver_gt a b ≡ true → semver_gt b c ≡ true → semver_gt a c ≡ true
semver_gt_trans a b c e e' = ground arith

newer_parsed :
    (s t : String) (a b : Semver)
    → extract_semver3 (codes s) ≡ some a
    → extract_semver3 (codes t) ≡ some b
    → is_newer_version s t ≡ semver_gt a b
unfolding is_newer_version
newer_parsed s t a b e e' = rw (e, e') refl

pub newer_irrefl : (s : String) → is_newer_version s s ≡ false
unfolding is_newer_version
newer_irrefl s = own (extract_semver3 (codes s))
  where
    same : s == s ≡ true
    same = (eq_iff s s).1 refl

    own : (v : Option Semver) → newer_of v v (not (is_blank s) && not (s == s)) ≡ false
    own none = rw same (ground arith)
    own (some a) = semver_gt_irrefl a

-- whether a version is found in a text
abbrev pub has_version : String → Bool
has_version s = is_some (extract_semver3 (codes s))

asymm_of :
    (v w : Option Semver) (a b : Bool)
    → (is_some v && is_some w && newer_of v w a && newer_of w v b) ≡ false
asymm_of none w a b = refl
asymm_of (some v) none a b = refl
asymm_of (some v) (some w) a b = ground (arith, semver_gt_asymm v w)

trans_of :
    (v w x : Option Semver) (a b c : Bool)
    → (is_some v
        && is_some w
        && is_some x
        && newer_of v w a
        && newer_of w x b
        && not (newer_of v x c))
      ≡ false
trans_of none w x a b c = refl
trans_of (some v) none x a b c = refl
trans_of (some v) (some w) none a b c = refl
trans_of (some v) (some w) (some x) a b c = ground (arith, semver_gt_trans v w x)

-- No text is a newer version than itself; no two texts in which a version is found are newer
-- than each other; and if of three such texts the first is newer than the second, and this newer
-- than the third, the first is newer than the third.
pub newer_order :
    (s t u : String)
    → (is_newer_version s s ≡ false)
      × ((has_version s && has_version t && is_newer_version s t && is_newer_version t s) ≡ false)
      × ((has_version s
            && has_version t
            && has_version u
            && is_newer_version s t
            && is_newer_version t u
            && not (is_newer_version s u))
          ≡ false)
unfolding is_newer_version
newer_order s t u =
    let v = extract_semver3 (codes s) in
    let w = extract_semver3 (codes t) in
    let x = extract_semver3 (codes u) in (newer_irrefl s, asymm_of v w _ _, trans_of v w x _ _ _)
