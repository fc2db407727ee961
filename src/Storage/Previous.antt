-- ===== src/Storage/Previous.antt =====
-- git-storage/src/refdb/write/previous.rs: what an update expects of the value before it.
use radicle_git.Base.{
  ◌≡◌, refl, ◌≢◌, ◌↔◌, Option, none, some, if◌then◌else◌, Result, ok, err, Str, str_eq, str_eq_iff,
  arith,
}

-- An `Oid`, as its bytes.
abbrev pub Oid : Type 0
Oid = Str

pub data Edit : Type 0 where
  any must_exist must_not_exist : Edit
  must_exist_and_match may_exist_and_match : Oid → Edit

pub data EditError : Type 0 where
  does_not_exist does_exist : EditError
  does_not_match : (given expected : Oid) → EditError

-- `Edit::guard`
unfoldable pub edit_guard : Edit → Option Oid → Result EditError (Unit {0})
edit_guard any given = ok tt
edit_guard must_exist none = err does_not_exist
edit_guard must_exist (some _) = ok tt
edit_guard must_not_exist none = ok tt
edit_guard must_not_exist (some _) = err does_exist
edit_guard (must_exist_and_match expected) none = err does_not_exist
edit_guard (must_exist_and_match expected) (some given) =
    if str_eq given expected then ok tt else err (does_not_match given expected)
edit_guard (may_exist_and_match expected) none = ok tt
edit_guard (may_exist_and_match expected) (some given) =
    if str_eq given expected then ok tt else err (does_not_match given expected)

pub data Remove : Type 0 where
  must_exist : Remove
  must_exist_and_match : Oid → Remove

pub data RemoveError : Type 0 where
  does_not_exist : RemoveError
  does_not_match : (given expected : Oid) → RemoveError

-- `Remove::guard`
unfoldable pub remove_guard : Remove → Option Oid → Result RemoveError (Unit {0})
remove_guard must_exist none = err does_not_exist
remove_guard must_exist (some _) = ok tt
remove_guard (must_exist_and_match expected) none = err does_not_exist
remove_guard (must_exist_and_match expected) (some given) =
    if str_eq given expected then ok tt else err (does_not_match given expected)

-- The words of the documentation: the value exists, and if so it is this one.
abbrev Exists : Option Oid → Type 0
Exists given = given ≢ none

abbrev Matches : Oid → Option Oid → Type 0
Matches expected given = (o : Oid) → given ≡ some o → o ≡ expected

-- What a policy on edits allows.
abbrev pub EditAllows : Edit → Option Oid → Type 0
EditAllows any given = Unit
EditAllows must_exist given = Exists given
EditAllows must_not_exist given = given ≡ none
EditAllows (must_exist_and_match expected) given = given ≡ some expected
EditAllows (may_exist_and_match expected) given = Matches expected given

-- What a policy on removals allows.
abbrev pub RemoveAllows : Remove → Option Oid → Type 0
RemoveAllows must_exist given = Exists given
RemoveAllows (must_exist_and_match expected) given = given ≡ some expected

-- `Edit::guard` succeeds exactly on the values that the policy allows.
pub edit_guard_iff :
    (p : Edit) (given : Option Oid) → (edit_guard p given ≡ ok tt) ↔ EditAllows p given
unfolding edit_guard
edit_guard_iff any given = ground arith
edit_guard_iff must_exist none = ground arith
edit_guard_iff must_exist (some x) = (λ _ e. cc, λ _. refl)
edit_guard_iff must_not_exist none = ground arith
edit_guard_iff must_not_exist (some x) = ground arith
edit_guard_iff (must_exist_and_match expected) none = ground arith
edit_guard_iff (must_exist_and_match expected) (some given) =
    ground (arith, str_eq_iff given expected)
edit_guard_iff (may_exist_and_match expected) none = (λ _ o e. absurd (cc), λ _. refl)
edit_guard_iff (may_exist_and_match expected) (some given) = (
  λ h o e.
      let same : given ≡ o = ground arith in
      rw (← same) (ground (arith, str_eq_iff given expected)),
  λ m. let same = m given refl in ground (arith, str_eq_iff given expected),
)

-- `Remove::guard` succeeds exactly on the values that the policy allows, and none of these is
-- missing.
pub remove_guard_iff :
    (p : Remove) (given : Option Oid)
    → ((remove_guard p given ≡ ok tt) ↔ RemoveAllows p given)
      × (RemoveAllows p given → given ≢ none)
unfolding remove_guard
remove_guard_iff must_exist none = (ground arith, λ h. h)
remove_guard_iff must_exist (some x) = ((λ _ e. cc, λ _. refl), λ h. h)
remove_guard_iff (must_exist_and_match expected) none = (ground arith, λ h e. cc)
remove_guard_iff (must_exist_and_match expected) (some given) =
    (ground (arith, str_eq_iff given expected), λ h e. cc)
