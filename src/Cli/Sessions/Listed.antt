-- ===== src/Cli/Sessions/Listed.antt =====
-- `cmd_list` of keepty/src/main.rs against the names that `socket_path` gives.
use keepty.Base.{
  ◌≡◌, ◌≢◌, refl, ap, true, false, List, [], ◌∷◌, Option, none, some, if◌then◌else◌, if-cases,
}
use keepty.Broker.Args.{Text}
use keepty.Wire.{ErrorKind}
use keepty.Cli.Sessions.{
  socket_file, Name, other, panics, session, name_of, Entry, is_refused, is_not_found, Sessions,
  list_entry, list_sessions,
}
use keepty.Cli.Sessions.Names.{Reads, as_session, as_other, name_of-Reads}

-- What an entry adds, by its session's id.
pub data Adds (e : Entry) (id : Text) (rest : Sessions) : Sessions → Type 0 where
  running : e.failure ≡ none → Adds e id rest (record rest { found = (id, true) ∷ rest.found })
  dead :
      (kind : ErrorKind)
      → e.failure ≡ some kind
      → is_refused kind ≡ true
      → e.is_socket ≡ true
      → Adds e id rest (record rest { removed = e.name ∷ rest.removed })
  no_socket :
      (kind : ErrorKind)
      → e.failure ≡ some kind
      → is_refused kind ≡ true
      → e.is_socket ≡ false
      → Adds e id rest rest
  vanished :
      (kind : ErrorKind) → e.failure ≡ some kind → is_not_found kind ≡ true → Adds e id rest rest
  stale :
      (kind : ErrorKind)
      → e.failure ≡ some kind
      → is_refused kind ≡ false
      → is_not_found kind ≡ false
      → Adds e id rest (record rest { found = (id, false) ∷ rest.found })

list_entry-Adds : (e : Entry) (id : Text) (rest : Sessions) → Adds e id rest (list_entry e id rest)
unfolding list_entry
list_entry-Adds e id rest = by_failure e.failure refl
  where
    by_failure :
        (f : Option ErrorKind)
        → e.failure ≡ f
        → Adds e id rest (elim f as (λ x. Sessions) [
          | none ↦ record rest { found = (id, true) ∷ rest.found }
          | some kind ↦
              if is_refused kind
              then (if e.is_socket then record rest { removed = e.name ∷ rest.removed } else rest)
              else if is_not_found kind
              then rest
              else record rest { found = (id, false) ∷ rest.found }
        ])
    by_failure none same = running same
    by_failure (some kind) same =
        if-cases (Adds e id rest) (is_refused kind)
          (if e.is_socket then record rest { removed = e.name ∷ rest.removed } else rest) _
          (λ refused.
            if-cases (Adds e id rest) e.is_socket (record rest { removed = e.name ∷ rest.removed })
              rest (λ yes_socket. dead kind same refused yes_socket)
              (λ not_socket. no_socket kind same refused not_socket))
          (λ kept.
            if-cases (Adds e id rest) (is_not_found kind) rest
              (record rest { found = (id, false) ∷ rest.found })
              (λ absent. vanished kind same absent) (λ there. stale kind same kept there))

-- What the loop comes to, entry by entry.
pub data Lists : List Entry → Sessions → Type 0 where
  nothing : Lists [] (record { found = []; removed = [] })
  foreign :
      {e : Entry} {es : List Entry} {s : Sessions}
      → ((id : Text) → e.name ≢ socket_file id)
      → Lists es s
      → Lists (e ∷ es) s
  session_file :
      {e : Entry} {es : List Entry} {s s' : Sessions} (id : Text)
      → e.name ≡ socket_file id
      → Adds e id s s'
      → Lists es s
      → Lists (e ∷ es) s'

-- `keepty list` does not panic, whatever names the directory holds. It passes over exactly the names
-- that are no session's file. A session whose socket answers is listed as running; a file is removed
-- only if it is a session's, a connection to it was refused and it is a socket; a session is listed
-- as stale on every other error but the file's absence; and nothing else is listed or removed.
pub list_sessions-Lists :
    (es : List Entry) → (s : Sessions) × (list_sessions es ≡ some s) × Lists es s
unfolding list_sessions
list_sessions-Lists [] = (_, refl, nothing)
list_sessions-Lists (e ∷ es) =
    let (s, rest, h) = list_sessions-Lists es in
    by_name s rest h (name_of e.name) (name_of-Reads e.name)
  where
    by_name :
        (s : Sessions)
        → list_sessions es ≡ some s
        → Lists es s
        → (n : Name) → Reads e.name n
        → (s' : Sessions) × ((elim n as (λ x. Option Sessions) [
          | other ↦ list_sessions es
          | panics ↦ none
          | session id ↦ elim (list_sessions es) as (λ x. Option Sessions) [
            | none ↦ none
            | some s ↦ some (list_entry e id s)
          ]
        ])
            ≡ some s')
          × Lists (e ∷ es) s'
    by_name s rest h _ (as_other unlike) = (s, rest, foreign unlike h)
    by_name s rest h _ (as_session id same) = (
      list_entry e id s,
      ap
          (λ (o : Option Sessions). elim o as (λ x. Option Sessions) [
            | none ↦ none
            | some s ↦ some (list_entry e id s)
          ])
          rest,
      session_file id same (list_entry-Adds e id s) h,
    )
