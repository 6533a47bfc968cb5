-- ===== src/Account/Service.antt =====
-- Accounts: service.go and repo.go of backend/internal/account. Hashing and comparing of passwords and
-- the signing of tokens belong to libraries; the cache is called and its outcome is not read.
use feedsystem_video_go_medi.Prelude.{
  ℕ, suc, Bool, not, ◌&&◌, Option, ◌∷◌, String, str_eq, if◌then◌else◌, ◌==◌, find, any,
  update_where, count_where,
}
use feedsystem_video_go_medi.Account.Entity.{Account}
use feedsystem_video_go_medi.Store.{
  Db, Env, Result, Action, ⊤, ok, err, pure, raise, or_raise, raise_if, query, execute,
  execute_unique, update_rows, attempt, transaction, contact, is_dup_key, ◌>>=◌, ◌>>◌,
  record_not_found, message,
}
use feedsystem_video_go_medi.Social.Follow.{has_account_id, find_account}

-- bcrypt and the tokens: a hash or no hash, whether a password fits a hash, and a token or none.
pub record Secrets : Type 0 where
  pub hash : String → Option String
  pub fits : String → String → Bool
  pub sign : ℕ → String → Option String

abbrev pub has_username : String → Account → Bool
has_username name a = str_eq a.username name

-- The unique index on `username`: another account has the name.
unfoldable pub name_taken : String → ℕ → Db → Bool
name_taken name id d = any (λ a. not (has_account_id id a) && has_username name a) d.accounts

-- The same index, for a row that is not there yet.
unfoldable pub any_name_taken : String → Db → Bool
any_name_taken name d = any (has_username name) d.accounts

unfoldable pub add_account : Account → Db → Db
add_account a d = record d {
  accounts = record a { id = d.next_id } ∷ d.accounts;
  next_id = suc d.next_id;
}

unfoldable pub update_accounts : ℕ → (Account → Account) → Db → Db
update_accounts id f d = record d { accounts = update_where (has_account_id id) f d.accounts }

abbrev pub with_name : String → Account → Account
with_name name a = record a { username = name }

abbrev pub with_token : String → Account → Account
with_token token a = record a { token = token }

abbrev pub with_password : String → Account → Account
with_password password a = record a { password = password }

-- The rows that `UPDATE … SET username` changes: one that has the name already does not count.
abbrev pub is_renamed : ℕ → String → Account → Bool
is_renamed id name a = has_account_id id a && not (has_username name a)

-- An error of the rename, where a name in use has its own message.
abbrev pub renamed_result : Result ⊤ → Action ⊤
renamed_result (ok _) = pure tt
renamed_result (err e) = if is_dup_key e then raise (message "username already exists") else raise e

module _ (env : Env) (s : Secrets) (has_cache : Bool) where
  unfoldable pub create_account : Account → Action ⊤
  create_account a = do
    hashed ← or_raise (s.hash a.password) (message "bcrypt")
    execute_unique env (any_name_taken a.username) (add_account (with_password hashed a))

  unfoldable pub rename_with_token : ℕ → String → String → Action ⊤
  rename_with_token id name token = transaction env (do
    n ←
        update_rows env (name_taken name id) (λ d. count_where (is_renamed id name) d.accounts)
          (update_accounts id (with_name name))
    raise_if (n == 0) record_not_found
    execute env (update_accounts id (with_token token)))

  abbrev pub tell_cache : Action ⊤
  tell_cache = if has_cache then contact else pure tt

  unfoldable pub rename : ℕ → String → Action String
  rename id name = do
    raise_if (str_eq name "") (message "new_username is required")
    token ← or_raise (s.sign id name) (message "token")
    outcome ← attempt (rename_with_token id name token)
    renamed_result outcome
    tell_cache
    pure token

  unfoldable pub find_by_username : String → Action Account
  find_by_username name = do
    found ← query env (λ d. find (has_username name) d.accounts)
    or_raise found record_not_found

  unfoldable pub logout : ℕ → Action ⊤
  logout id = do
    a ← find_account env id
    if str_eq a.token ""
        then pure tt
        else do tell_cache; execute env (update_accounts a.id (with_token ""))

  unfoldable pub change_password : String → String → String → Action ⊤
  change_password name old new = do
    a ← find_by_username name
    raise_if (not (s.fits a.password old)) (message "bcrypt")
    hashed ← or_raise (s.hash new) (message "bcrypt")
    execute env (update_accounts a.id (with_password hashed))
    logout a.id

  unfoldable pub login : String → String → Action String
  login name password = do
    a ← find_by_username name
    raise_if (not (s.fits a.password password)) (message "bcrypt")
    token ← or_raise (s.sign a.id a.username) (message "token")
    execute env (update_accounts a.id (with_token token))
    tell_cache
    pure token
