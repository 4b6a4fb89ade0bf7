-- ===== src/Dispatcher/Owners.antt =====
-- Directories are for their owners: the requests on one directory.
use tp.Common.{ℕ, ◌≡◌, refl, ◌∙◌, Bool, true, false, not, if◌then◌else◌, arith}
use mathlib.Core.Path.{subst}
use tp.Text.{Text, text_eq}
use tp.World.{Platform, World, M, done, pure, fail_if, ◌>>=◌}
use tp.World.Inversion.{binding, guarding, pure-done}
use tp.Db.Laws.{stored}
use tp.Data.Constants.{label_zero}
use tp.Data.Users
use tp.Data.Users.{UserInfo}
use tp.Data.Directories
use tp.Data.Directories.{DirInfo}
use tp.Data.Stored.{DirStored, UserStored}
use tp.Data.Stored.Readers.{get_directory_info-DirStored, get_user_info-UserStored}
use tp.Dispatcher.Sizes.{resolve_dir, get_root_dir_id}
use tp.Dispatcher.Listing
use tp.Dispatcher.Downloads
use tp.Dispatcher.Trash

pub data DirectoryRequest : Type 0 where
  view fetch erase : DirectoryRequest
  rename : Text → Text → Text → DirectoryRequest

module _ ⦃P : Platform⦄ where
  -- The requests, by the user, on the directory.
  unfoldable pub ask : DirectoryRequest → Text → Text → M Unit
  ask view user dir = Listing.get_directory_info user dir >>= λ _. pure tt
  ask fetch user dir = Downloads.get_dir_stream user dir >>= λ _. pure tt
  ask erase user dir = Trash.delete_directory user dir
  ask (rename name date tags) user dir = Listing.modify_directory_info user dir name date tags

  -- The directory that is meant: 0 is the root directory of the user.
  pub data Means (w : World) (user dir : Text) : Text → Type 0 where
    itself : text_eq dir label_zero ≡ false → Means w user dir dir
    root : (info : UserInfo) → UserStored (stored w) user info → Means w user dir info.dir_root

  get_root_dir_id-Means :
      (user dir real : Text) (w : World) {w' : World}
      → get_root_dir_id user w ≡ (done real, w')
      → (w' ≡ w) × Means w user dir real
  unfolding get_root_dir_id
  get_root_dir_id-Means user dir real w h =
      binding (Users.get_user_info user) _ w h λ info w1 e rest.
        let (same, s) = get_user_info-UserStored user info w e in
        let (is, end) = pure-done info.dir_root w1 rest in
        (end ∙ same, subst (Means w user dir) is (root info s))

  resolve_dir-Means :
      (user dir real : Text) (w : World) {w' : World}
      → resolve_dir user dir w ≡ (done real, w')
      → (w' ≡ w) × Means w user dir real
  resolve_dir-Means user dir real w h = go (text_eq dir label_zero) refl (unfold resolve_dir in h)
    where
      go :
          {w' : World} (b : Bool)
          → text_eq dir label_zero ≡ b
          → (if b then get_root_dir_id user else pure dir) w ≡ (done real, w')
          → (w' ≡ w) × Means w user dir real
      go true e h1 = get_root_dir_id-Means user dir real w h1
      go false e h1 =
          let (is, end) = pure-done dir w h1 in (end, subst (Means w user dir) is (itself e))

  -- A read of the information of a directory with the test for the owner behind it.
  owning :
      {B : Type 0} (user dir real : Text) (s : ℕ) (f : DirInfo → M B) (w v : World) {b : B}
      {w' : World}
      → v ≡ w
      → Means w user dir real
      → (Directories.get_directory_info real >>= λ info.
            fail_if (not (text_eq user info.owner)) s >>= λ _. f info)
          v
        ≡ (done b, w')
      → (real : Text) × (info : DirInfo) × Means w user dir real
        × DirStored (stored w) real info
        × (text_eq user info.owner ≡ true)
  owning user dir real s f w v at_w means h =
      binding (Directories.get_directory_info real) _ v h λ info w1 e rest.
        let (_, held) = get_directory_info-DirStored real info v e in
        guarding (not (text_eq user info.owner)) s _ w1 rest λ mine _.
          (real, info, means, subst (λ u. DirStored (stored u) real info) at_w held, ground arith)

  -- A request on a directory that succeeds is one by the owner of the directory that is meant, by
  -- what the database held before it.
  pub ask_owner :
      (r : DirectoryRequest) (user dir : Text) (w w' : World)
      → ask r user dir w ≡ (done tt, w')
      → (real : Text) × (info : DirInfo) × Means w user dir real
        × DirStored (stored w) real info
        × (text_eq user info.owner ≡ true)
  unfolding ask Listing.get_directory_info Listing.fill_directory_info Downloads.get_dir_stream
      Trash.delete_directory Listing.modify_directory_info
  ask_owner view user dir w w' h = binding _ _ w h λ _ _ h0 _. binding _ _ w h0 λ _ _ h1 _.
      binding (resolve_dir user dir) _ w h1 λ real v e rest.
        let (same, means) = resolve_dir-Means user dir real w e in
        owning user dir real _ _ w v same means rest
  ask_owner fetch user dir w w' h = binding _ _ w h λ _ _ h1 _.
      binding (resolve_dir user dir) _ w h1 λ real v e rest.
        let (same, means) = resolve_dir-Means user dir real w e in
        owning user dir real _ _ w v same means rest
  ask_owner erase user dir w w' h =
      guarding (text_eq dir label_zero) _ _ w h
        λ other rest. owning user dir dir _ _ w w refl (itself other) rest
  ask_owner (rename name date tags) user dir w w' h =
      guarding (text_eq dir label_zero) _ _ w h
        λ other rest. owning user dir dir _ _ w w refl (itself other) rest
