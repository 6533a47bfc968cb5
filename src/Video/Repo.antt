-- ===== src/Video/Repo.antt =====
-- The repositories of videos, likes and comments: video_repo.go, like_repo.go and comment_repo.go of
-- backend/internal/video. A table is the list of its rows, the newest first.
use feedsystem_video_go_medi.Prelude.{
  ℕ, suc, ℤ, pos, ◌+ℤ◌, pos_part, ltb, Bool, true, false, not, ◌&&◌, ◌||◌, Option, none, some, List,
  [], ◌∷◌, if◌then◌else◌, ◌==◌, find, any, filter, map, update_where, count_where,
}
use feedsystem_video_go_medi.Video.Entity.{Video, Like, Comment}
use feedsystem_video_go_medi.Store.{
  Db, Env, Result, Action, ⊤, ok, err, pure, raise, or_raise, query, execute, execute_unique,
  update_rows, attempt, is_dup_key, ◌>>=◌, record_not_found,
}

abbrev pub has_video_id : ℕ → Video → Bool
has_video_id id v = v.id == id

unfoldable pub find_video_row : ℕ → Db → Option Video
find_video_row id d = find (has_video_id id) d.videos

unfoldable pub update_videos : ℕ → (Video → Video) → Db → Db
update_videos id f d = record d { videos = update_where (has_video_id id) f d.videos }

-- `GREATEST(x + change, 0)`
unfoldable pub greatest_zero : ℤ → ℤ → ℤ
greatest_zero x change = pos (pos_part (x +ℤ change))

abbrev pub with_likes : ℤ → Video → Video
with_likes change v = record v { likes_count = greatest_zero v.likes_count change }

abbrev pub with_popularity : ℤ → Video → Video
with_popularity change v = record v { popularity = greatest_zero v.popularity change }

-- `WHERE video_id = ? AND account_id = ?`
abbrev pub is_like_of : ℕ → ℕ → Like → Bool
is_like_of video account l = (l.video_id == video) && (l.account_id == account)

unfoldable pub count_likes : ℕ → ℕ → Db → ℕ
count_likes video account d = count_where (is_like_of video account) d.likes

-- The unique index `idx_like_video_account`.
unfoldable pub like_taken : Like → Db → Bool
like_taken l d = any (is_like_of l.video_id l.account_id) d.likes

unfoldable pub add_like : Like → Db → Db
add_like l d = record d { likes = record l { id = d.next_id } ∷ d.likes; next_id = suc d.next_id }

unfoldable pub delete_likes : ℕ → ℕ → Db → Db
delete_likes video account d = record d {
  likes = filter (λ l. not (is_like_of video account l)) d.likes;
}

abbrev pub has_comment_id : ℕ → Comment → Bool
has_comment_id id c = c.id == id

unfoldable pub add_comment : Comment → Db → Db
add_comment c d = record d {
  comments = record c { id = d.next_id } ∷ d.comments;
  next_id = suc d.next_id;
}

unfoldable pub delete_comments : ℕ → Db → Db
delete_comments id d = record d { comments = filter (λ c. not (has_comment_id id c)) d.comments }

abbrev pub new_like : ℕ → ℕ → ℤ → Like
new_like video account t = record { id = 0; video_id = video; account_id = account; created_at = t }

-- A row that was looked for.
abbrev pub is_found {ℓ} : {A : Type ℓ} → Option A → Bool
is_found none = false
is_found (some _) = true

-- An `INSERT`, and whether it made a row: a duplicate key is no error.
abbrev pub created_unless_dup : Result ⊤ → Action Bool
created_unless_dup (ok _) = pure true
created_unless_dup (err e) = if is_dup_key e then pure false else raise e

module _ (env : Env) where
  unfoldable pub video_exists : ℕ → Action Bool
  video_exists id = do found ← query env (find_video_row id); pure (is_found found)

  unfoldable pub get_video : ℕ → Action Video
  get_video id = do found ← query env (find_video_row id); or_raise found record_not_found

  unfoldable pub change_likes_count : ℕ → ℤ → Action ⊤
  change_likes_count id change = execute env (update_videos id (with_likes change))

  unfoldable pub change_popularity : ℕ → ℤ → Action ⊤
  change_popularity id change = execute env (update_videos id (with_popularity change))

  unfoldable pub is_liked : ℕ → ℕ → Action Bool
  is_liked video account = do n ← query env (count_likes video account); pure (ltb 0 n)

  unfoldable pub like_ignore_duplicate : Like → Action Bool
  like_ignore_duplicate l = if (l.video_id == 0) || (l.account_id == 0) then pure false else do
    created ← attempt (execute_unique env (like_taken l) (add_like l))
    created_unless_dup created

  -- The rows deleted are counted, and no key stands in the way.
  unfoldable pub delete_by_video_and_account : ℕ → ℕ → Action Bool
  delete_by_video_and_account video account =
      if (video == 0) || (account == 0) then pure false else do
        n ← update_rows env (λ _. false) (count_likes video account) (delete_likes video account)
        pure (ltb 0 n)

  -- The videos among `ids` that the account likes.
  unfoldable pub batch_get_liked : List ℕ → ℕ → Action (List ℕ)
  batch_get_liked [] account = pure []
  batch_get_liked (id ∷ ids) account = if account == 0 then pure [] else do
    likes ← query env (λ d.
        filter (λ l. any (λ i. l.video_id == i) (id ∷ ids) && (l.account_id == account)) d.likes)
    pure (map (λ l. l.video_id) likes)

  unfoldable pub create_comment : Comment → Action ⊤
  create_comment c = execute env (add_comment c)

  unfoldable pub delete_comment : Comment → Action ⊤
  delete_comment c = execute env (delete_comments c.id)

  unfoldable pub get_all_comments : ℕ → Action (List Comment)
  get_all_comments video = query env (λ d. filter (λ c. c.video_id == video) d.comments)

  unfoldable pub get_comment : ℕ → Action (Option Comment)
  get_comment id = query env (λ d. find (has_comment_id id) d.comments)
