-- ===== src/Dispatcher/Guards.antt =====
-- Who may do what with a file: the requests on one file, and what each of them asks of the user.
use tp.Common.{ℕ, ◌≡◌, refl, Bool, true, false, not, List, if◌then◌else◌, ◌||◌, arith}
use tp.Text.{Text, text_eq}
use tp.Text.KeyList.{tokens, contains}
use tp.World.{Platform, World, M, done, failed, pure, fail_with, fail_if, ◌>>=◌, ◌>>◌}
use mathlib.Core.Path.{subst}
use tp.World.Inversion.{binding, guarding}
use tp.Data.Constants.{status_user_forbidden}
use tp.Db.Laws.{stored}
use tp.Data.Stored.{FileStored}
use tp.Data.Stored.Readers.{get_file_info-FileStored}
use tp.Data.Files
use tp.Data.Files.{FileInfo}
use tp.Dispatcher.Listing
use tp.Dispatcher.Listing.{is_authorized}
use tp.Dispatcher.Downloads
use tp.Dispatcher.Sharing
use tp.Dispatcher.Trash

pub data FileRequest : Type 0 where
  read : FileRequest
  download : Text → FileRequest
  change : Text → Text → Text → Text → FileRequest
  share unshare : Text → Text → FileRequest
  share_with : List Text → Text → FileRequest
  remove : FileRequest

-- Sharing is for the owner alone, the rest also for those the file is shared with.
abbrev pub allowed : FileRequest → Text → FileInfo → Bool
allowed (share _ _) user info = text_eq info.owner user
allowed (unshare _ _) user info = text_eq info.owner user
allowed (share_with _ _) user info = text_eq info.owner user
allowed _ user info = text_eq info.owner user || contains user (tokens info.users_shared)

module _ ⦃P : Platform⦄ where
  -- The requests, by the user, on the file.
  unfoldable pub act : FileRequest → Text → Text → M Unit
  act read user file = Listing.get_file_info user file >>= λ _. pure tt
  act (download revision) user file = Downloads.get_file_stream user file revision >>= λ _. pure tt
  act (change name extension date tags) user file =
      Listing.modify_file_info user file name extension date tags
  act (share with_user date) user file = Sharing.set_file_share user file with_user date
  act (unshare with_user date) user file = Sharing.unset_file_share user file with_user date
  act (share_with users date) user file =
      Sharing.overwrite_file_sharing_by_list user file users date
  act remove user file = Trash.delete_file user file

  -- A request on a file whose information can be read, by a user who is not allowed to make it, fails
  -- with the status USER_FORBIDDEN, and nothing else has changed.
  pub act_forbidden :
      (r : FileRequest) (user file : Text) (info : FileInfo) (w : World)
      → Files.get_file_info file w ≡ (done info, w)
      → allowed r user info ≡ false
      → act r user file w ≡ (failed, record w { status = status_user_forbidden })
  unfolding act ◌>>=◌ is_authorized Listing.get_file_info Downloads.get_file_stream
      Listing.modify_file_info Sharing.set_file_share Sharing.unset_file_share
      Sharing.overwrite_file_sharing_by_list Trash.delete_file
  act_forbidden read user file info w h denied = rw (h, denied)
  act_forbidden (download revision) user file info w h denied = rw (h, denied)
  act_forbidden (change name extension date tags) user file info w h denied = rw (h, denied)
  act_forbidden (share with_user date) user file info w h denied = rw (h, denied)
  act_forbidden (unshare with_user date) user file info w h denied = rw (h, denied)
  act_forbidden (share_with users date) user file info w h denied = rw (h, denied)
  act_forbidden remove user file info w h denied =
      let (owner, shared) : (text_eq info.owner user ≡ false)
          × (contains user (tokens info.users_shared) ≡ false) =
        (ground arith, ground arith) in
      rw (h, owner, shared)

  guarded :
      (c : Bool) (s : ℕ) (m : M Unit) (w : World) {w' : World}
      → (fail_if (not c) s >> m) w ≡ (done tt, w')
      → c ≡ true
  guarded c s m w h = guarding (not c) s (λ _. m) w h λ e rest. ground arith

  branching :
      (a b : Bool) (s : ℕ) (m n : M Unit) (w : World) {w' : World}
      → (if a then m else (if b then n else fail_with s)) w ≡ (done tt, w')
      → (a || b) ≡ true
  unfolding fail_with
  branching true b s m n w h = refl
  branching false true s m n w h = refl
  branching false false s m n w h = cc

  reading_file {ℓ} :
      {B : Type 0} {C : Type ℓ} (file : Text) (f : FileInfo → M B) (w : World) {b : B} {w' : World}
      → (Files.get_file_info file >>= f) w ≡ (done b, w')
      → ((info : FileInfo) → FileStored (stored w) file info → f info w ≡ (done b, w') → C)
      → C
  reading_file file f w {b = b} {w' = w'} h next =
      binding (Files.get_file_info file) f w h λ info w1 e rest.
        let (same, s) = get_file_info-FileStored file info w e in
        next info s (subst (λ v. f info v ≡ (done b, w')) same rest)

  -- A request that succeeds is one that the user may make, by what the database holds of the file
  -- before it.
  pub act-allowed :
      (r : FileRequest) (user file : Text) (w w' : World)
      → act r user file w ≡ (done tt, w')
      → (info : FileInfo) × FileStored (stored w) file info × (allowed r user info ≡ true)
  unfolding act is_authorized Listing.get_file_info Downloads.get_file_stream
      Listing.modify_file_info Sharing.set_file_share Sharing.unset_file_share
      Sharing.overwrite_file_sharing_by_list Trash.delete_file
  act-allowed read user file w w' h = binding _ _ w h λ _ _ h1 _.
      reading_file file _ w h1 λ info s rest. guarding _ _ _ w rest λ e _. (info, s, ground arith)
  act-allowed (download revision) user file w w' h = binding _ _ w h λ _ _ h1 _.
      reading_file file _ w h1 λ info s rest. guarding _ _ _ w rest λ e _. (info, s, ground arith)
  act-allowed (change name extension date tags) user file w w' h =
      reading_file file _ w h λ info s rest. (info, s, guarded _ _ _ w rest)
  act-allowed (share with_user date) user file w w' h =
      reading_file file _ w h λ info s rest. (info, s, guarded _ _ _ w rest)
  act-allowed (unshare with_user date) user file w w' h =
      reading_file file _ w h λ info s rest. (info, s, guarded _ _ _ w rest)
  act-allowed (share_with users date) user file w w' h =
      reading_file file _ w h λ info s rest. (info, s, guarded _ _ _ w rest)
  act-allowed remove user file w w' h = reading_file file _ w h λ info s rest. (
    info,
    s,
    branching (text_eq info.owner user) (contains user (tokens info.users_shared)) _ _ _ w rest,
  )
