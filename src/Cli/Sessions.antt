-- ===== src/Cli/Sessions.antt =====
-- The names of sockets, `socket_dir` and `socket_path` of keepty-protocol/src/lib.rs, and how `cmd_list` of
-- keepty/src/main.rs reads them back.
pub mod Names
pub mod Listed
mod Tests
use keepty.Base.{
  ℕ, ◌-◌, Bool, true, false, ◌&&◌, List, [], ◌∷◌, ◌++◌, Option, none, some, length, take, drop, leb,
  ◌==◌, if◌then◌else◌,
}
use keepty.Base.Text.{codes, starts_with, ends_with}
use keepty.Broker.Args.{Text, is_empty}
use keepty.Wire.{ErrorKind}

-- `trim_end_matches('/')`
unfoldable pub trim_slashes : Text → Text
trim_slashes [] = []
trim_slashes (b ∷ text) =
    let rest = trim_slashes text in if is_empty rest && (b == b'/') then [] else b ∷ rest

-- `socket_dir`, by the variable XDG_RUNTIME_DIR and the directory for temporary files.
unfoldable pub socket_dir : Option Text → Text → Text
unfolding trim_slashes
socket_dir none tmp = trim_slashes tmp ++ codes "/keepty"
socket_dir (some xdg) tmp =
    if is_empty xdg then trim_slashes tmp ++ codes "/keepty" else xdg ++ codes "/keepty"

-- The last part of `socket_path`.
abbrev pub socket_file : Text → Text
socket_file id = codes "keepty-" ++ (id ++ codes ".sock")

unfoldable pub socket_path : Option Text → Text → Text → Text
unfolding socket_dir
socket_path xdg tmp id = socket_dir xdg tmp ++ (codes "/" ++ socket_file id)

-- What a name in the socket directory is.
pub data Name : Type 0 where
  other panics : Name
  session : Text → Name

-- The tests of a name, and the slice between its prefix and suffix, which panics if they overlap.
unfoldable pub name_of : Text → Name
name_of name =
    if starts_with (codes "keepty-") name && ends_with (codes ".sock") name
    then (if leb (length (codes "keepty-")) (length name - length (codes ".sock"))
        then session (
            take (length name - length (codes ".sock") - length (codes "keepty-"))
              (drop (length (codes "keepty-")) name))
        else panics)
    else other

-- An entry of the directory: the error of a connection to it, if any, and whether it is a socket.
pub record Entry : Type 0 where
  pub name : Text
  pub failure : Option ErrorKind
  pub is_socket : Bool

abbrev pub is_refused : ErrorKind → Bool
is_refused ErrorKind.connection_refused = true
is_refused _ = false

abbrev pub is_not_found : ErrorKind → Bool
is_not_found ErrorKind.not_found = true
is_not_found _ = false

-- The sessions to print, each with whether it runs, and the files that have been removed.
pub record Sessions : Type 0 where
  pub found : List (Text × Bool)
  pub removed : List Text

-- One entry that is named like a session, before those of the rest.
unfoldable pub list_entry : Entry → Text → Sessions → Sessions
list_entry e id rest = elim e.failure [
  | none ↦ record rest { found = (id, true) ∷ rest.found }
  | some kind ↦
      if is_refused kind
      then (if e.is_socket then record rest { removed = e.name ∷ rest.removed } else rest)
      else if is_not_found kind
      then rest
      else record rest { found = (id, false) ∷ rest.found }
]

-- The loop of `cmd_list`; `none` is a panic.
unfoldable pub list_sessions : List Entry → Option Sessions
unfolding name_of list_entry
list_sessions [] = some (record { found = []; removed = [] })
list_sessions (e ∷ es) =
    let rest = list_sessions es in
    elim (name_of e.name) [
      | other ↦ rest
      | panics ↦ none
      | session id ↦ elim rest [ none ↦ none | some s ↦ some (list_entry e id s) ]
    ]
