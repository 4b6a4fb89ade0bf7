-- ===== src/Dispatcher/Quota.antt =====
-- The quota of a user bounds his uploads.
use tp.Common.{ℕ, ◌≡◌, ◌+◌, ◌%◌, true, ltb}
use tp.Text.{Text}
use tp.Text.Decimal.{stoul, value, word}
use tp.World.{Platform, World, done, failed, ◌>>=◌}
use tp.Data.Constants.{status_max_quota_exceeded}
use tp.Data.Users
use tp.Data.Users.{UserInfo}
use tp.Dispatcher.Records.{stoul_decimal}
use tp.Dispatcher.Sizes.{get_user_quota_used}
use tp.Dispatcher.Uploads

module _ ⦃P : Platform⦄ where
  -- An upload whose size and the used quota of the user are more than the quota of a user.
  pub new_file_over_quota :
      (user name extension date stream size parent : Text) (info : UserInfo) (used n : ℕ)
      (w : World)
      → Users.get_user_info user w ≡ (done info, w)
      → stoul info.user_quota_used ≡ value used
      → stoul size ≡ value n
      → ltb w.max_user_quota ((used + n) % word) ≡ true
      → Uploads.new_file user name extension date stream size parent w
        ≡ (failed, record w { status = status_max_quota_exceeded })
  unfolding Uploads.new_file Uploads.check_quota get_user_quota_used stoul_decimal ◌>>=◌
  new_file_over_quota user name extension date stream size parent info used n w read u s over =
      rw (read, u, s, over)
