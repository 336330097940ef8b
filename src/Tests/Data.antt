-- ===== src/Tests/Data.antt =====
-- A small database for the runs: two users and a moderator.
use Prim.Native.String.{String}
use biexce_social_network.Prelude.{none, [], ◌∷◌, ℕ, false}
use biexce_social_network.Models.{Db, User, Role, Table}

abbrev pub plain_user : ℕ → String → Role → User
plain_user id name role = record {
  id = id;
  username = name;
  password_hash = "";
  role = role;
  banned_at = none;
  banned_until = none;
  ban_reason = none;
  banned_by = none;
  is_private = false;
  deactivated_at = none;
}

abbrev pub alice : User
alice = plain_user 1 "alice" Role.user

abbrev pub bob : User
bob = plain_user 2 "bob" Role.user

abbrev pub mia : User
mia = plain_user 3 "mia" Role.moderator

abbrev pub no_rows : {Row : Type 0} → Table Row
no_rows = record { rows = []; next_id = 1 }

abbrev pub fresh_db : Db
fresh_db = record {
  now = 100;
  users = alice ∷ bob ∷ mia ∷ [];
  follows = no_rows;
  activities = no_rows;
  preferences = [];
  reposts = no_rows;
  requests = no_rows;
  blocks = no_rows;
  posts = no_rows;
  likes = no_rows;
  mutes = no_rows;
  comments = no_rows;
  reports = no_rows;
  actions = no_rows;
  warnings = no_rows;
  saved = no_rows;
  sessions = [];
  tokens = no_rows;
}
