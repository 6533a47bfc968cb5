-- ===== src/Store/Tables.antt =====
-- The tables of the database.
use feedsystem_video_go_medi.Prelude.{ℕ, List, [], Option, none}
use feedsystem_video_go_medi.Account.Entity.{Account}
use feedsystem_video_go_medi.Social.Entity.{Social}
use feedsystem_video_go_medi.Video.Entity.{Video, Like, Comment, FollowFeedInbox, FeedOutbox}
use feedsystem_video_go_medi.Pay.Entity.{
  Wallet, LedgerEntry, CoinPackage, PayOrder, PayCallbackLog, PlatformBook, FiatJournal,
  GiftCatalog, GiftOrder, VideoGiftStat, WithdrawOrder,
}

-- `next_id` is the value that the next auto-increment column takes; one counter serves all tables.
pub record Db : Type 0 where
  pub orders : List PayOrder
  pub wallets : List Wallet
  pub ledger : List LedgerEntry
  pub journal : List FiatJournal
  pub book : Option PlatformBook
  pub callbacks : List PayCallbackLog
  pub packages : List CoinPackage
  pub gifts : List GiftCatalog
  pub gift_orders : List GiftOrder
  pub gift_stats : List VideoGiftStat
  pub withdraws : List WithdrawOrder
  pub videos : List Video
  pub likes : List Like
  pub comments : List Comment
  pub inboxes : List FollowFeedInbox
  pub outboxes : List FeedOutbox
  pub socials : List Social
  pub accounts : List Account
  pub next_id : ℕ

-- A database with no rows.
abbrev pub empty_db : Db
empty_db = record {
  orders = [];
  wallets = [];
  ledger = [];
  journal = [];
  book = none;
  callbacks = [];
  packages = [];
  gifts = [];
  gift_orders = [];
  gift_stats = [];
  withdraws = [];
  videos = [];
  likes = [];
  comments = [];
  inboxes = [];
  outboxes = [];
  socials = [];
  accounts = [];
  next_id = 1;
}
