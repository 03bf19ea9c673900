-- ===== src/Store/Users.antt =====
-- The user table of src/store.rs.
use shardscape.Base.{
  ℕ, ℤ, Bytes, Option, none, some, Result, ok, or_err, bad_json, ◌>>=◌, list_eq, nat_eq,
}
use shardscape.Policy.{Policy}
use shardscape.Store.{Store, Crates, UserRow, user_put, now_micros}
use shardscape.Store.Objects.{append_fact_tx}
use shardscape.Table.{lookup}
use shardscape.Table.Lww.{put}

unfoldable pub put_user_row : {J : Type 0} → Store J → Bytes → Bytes → J → ℤ → Store J
put_user_row {J} s access_key secret_key policy_json ts = record s {
  users =
      put (λ (r : UserRow J). r.updated_at) access_key
        (record { secret_key = secret_key; policy = policy_json; updated_at = ts }) s.users;
}

module _ {V J : Type 0} (crates : Crates V J) where
  unfoldable pub create_user : Store J → ℕ → Bytes → Bytes → Policy → Store J
  create_user s system access_key secret_key policy =
      let ts = now_micros s system in
      let policy_value = crates.policy_to_value policy in
      let policy_json = crates.policy_to_string policy in
      let stored = put_user_row s access_key secret_key policy_json ts in
      append_fact_tx crates stored ts (user_put access_key secret_key policy_value)

  -- A row whose policy does not parse is an error.
  unfoldable pub user_of : Option (UserRow J) → Result (Option (Bytes × Policy))
  user_of none = ok none
  user_of (some row) = or_err (crates.policy_from_str row.policy) bad_json >>= λ policy.
      ok (some (row.secret_key, policy))

  unfoldable pub get_user : Store J → Bytes → Result (Option (Bytes × Policy))
  get_user s access_key = user_of (lookup access_key s.users)
