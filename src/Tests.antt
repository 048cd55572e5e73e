-- ===== src/Tests.antt =====
-- A small workspace, on which the theorems are applied and the definitions are run.
mod Workspaces
mod Users
mod Messages
mod Server
mod Start
use waypoint_be.Base.{◌-◌, refl, none, some, [], ◌∷◌, arith, any, count, all}
use waypoint_be.Store.{Store}
use waypoint_be.Session.{served, lost, closed_tx, Session, ◌>>=◌, ◌>>◌}
use waypoint_be.Membership.{IsValid}
use waypoint_be.Threads.{IsCounted}

-- Users 1, 2 and 3; workspace 7 with owner 1 and member 2; channel 20 with a thread of two rows.
abbrev pub team : Store
team = record {
  users =
      record { id = 1; email = "a@x"; user_name = "ann"; display_name = "Ann"; created_at = 0 }
      ∷ record { id = 2; email = "b@x"; user_name = "bob"; display_name = "Bob"; created_at = 0 }
      ∷ record { id = 3; email = "c@x"; user_name = "cyd"; display_name = "Cyd"; created_at = 0 }
      ∷ [];
  identities = record { id = 31; user_id = 1; issuer = "iss"; subject = "s1"; created_at = 0 } ∷ [];
  workspaces = record { id = 7; name = "Ops"; created_at = 1 } ∷ [];
  members =
      record { workspace_id = 7; user_id = 1; role = "owner"; joined_at = 1 }
      ∷ record { workspace_id = 7; user_id = 2; role = "member"; joined_at = 2 }
      ∷ [];
  channels = record { id = 20; workspace_id = 7; name = "general"; created_at = 2 } ∷ [];
  channel_members = [];
  channel_messages =
      record {
        id = 50;
        author_id = 1;
        channel_id = 20;
        created_at = 5;
        updated_at = 5;
        body = "hi";
        thread_root_id = none;
        reply_count = 1;
      }
      ∷ record {
        id = 51;
        author_id = 2;
        channel_id = 20;
        created_at = 6;
        updated_at = 6;
        body = "yo";
        thread_root_id = some 50;
        reply_count = 0;
      }
      ∷ [];
  direct_messages =
      record {
        id = 60;
        author_id = 1;
        recipient_id = 2;
        body = "a";
        created_at = 8;
        updated_at = 8;
      }
      ∷ record {
        id = 61;
        author_id = 2;
        recipient_id = 1;
        body = "b";
        created_at = 9;
        updated_at = 9;
      }
      ∷ [];
}

pub team-IsValid : IsValid team
unfolding any count
team-IsValid = record {
  one_owner = λ w h. ground arith;
  workspace_exists = λ w h. ground arith;
  user_exists = λ u h. ground arith;
  stands_once = λ w u. ground arith;
}

pub team-IsCounted : IsCounted team.channel_messages
unfolding any count all
team-IsCounted = record { anchored = refl; counted = refl }

-- A connection on which the commit's answer is lost.
abbrev pub losing : Session
losing = record {
  committed = team;
  current = team;
  status = closed_tx;
  faults = served ∷ served ∷ served ∷ served ∷ lost ∷ [];
}
