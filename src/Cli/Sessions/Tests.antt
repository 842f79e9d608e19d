-- ===== src/Cli/Sessions/Tests.antt =====
-- Runs of the session list, and the theorems about it at concrete inputs.
use keepty.Base.{◌≡◌, refl, List, [], ◌∷◌, some, none, true}
use keepty.Base.Text.{codes}
use keepty.Wire.{ErrorKind}
use keepty.Cli.Sessions.{
  socket_path, socket_dir, trim_slashes, socket_file, session, name_of, Entry, Sessions, list_entry,
  list_sessions,
}
use keepty.Cli.Sessions.Names.{name_of-socket_file}
use keepty.Cli.Sessions.Listed.{Lists, list_sessions-Lists}

in_runtime_dir :
    socket_path (some (codes "/run/user/1")) (codes "/tmp/") (codes "a")
    ≡ codes "/run/user/1/keepty/keepty-a.sock"
unfolding socket_path socket_dir
in_runtime_dir = refl

in_tmp : socket_path none (codes "/tmp//") (codes "a") ≡ codes "/tmp/keepty/keepty-a.sock"
unfolding socket_path socket_dir trim_slashes
in_tmp = refl

-- A session that runs, one that is gone, and a file of another program.
abbrev entries : List Entry
entries =
    record { name = socket_file (codes "a"); failure = none; is_socket = true }
    ∷ record {
      name = socket_file (codes "b");
      failure = some ErrorKind.connection_refused;
      is_socket = true;
    }
    ∷ record { name = codes "keepty-.soc"; failure = none; is_socket = true }
    ∷ []

lists :
    list_sessions entries
    ≡ some (record { found = (codes "a", true) ∷ []; removed = socket_file (codes "b") ∷ [] })
unfolding list_sessions name_of list_entry
lists = refl

list_sessions-Lists_example : (s : Sessions) × (list_sessions entries ≡ some s) × Lists entries s
list_sessions-Lists_example = list_sessions-Lists entries

name_of-socket_file_example : name_of (socket_file (codes ".sock")) ≡ session (codes ".sock")
name_of-socket_file_example = name_of-socket_file (codes ".sock")
