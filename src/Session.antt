-- ===== src/Session.antt =====
-- Who is signed in: infra/src/platform/path_service_unix.cpp (as built outside of macOS),
-- infra/src/token_storage.cpp and app/src/auth_presenter.cpp. The environment, what the file system
-- lets the program do, and Qt's `trimmed` are parameters. `none` stands for an exception.
pub mod Restart
mod Examples
use Prim.Native.Char.{code}
use stv_renew.Prelude.{
  Bool, true, false, ◌||◌, ◌==◌, String, List, [], ◌∷◌, ◌++◌, Option, none, some, str_eq, is_empty,
  concat, if◌then◌else◌,
}

-- `std::getenv`, and the home directory of `getpwuid`.
pub record Environment : Type 0 where
  pub getenv : String → Option String
  pub pw_dir : Option String

-- A variable that is set and not empty.
set_variable : Environment → String → Option String
set_variable env name = elim (env.getenv name) [
  | none ↦ none
  | some v ↦ if is_empty v then none else some v
]

unfoldable pub home_dir : Environment → Option String
unfolding set_variable
home_dir env = elim (set_variable env "HOME") [ some h ↦ some h | none ↦ env.pw_dir ]

below : Option String → String → Option String
below none path = none
below (some dir) path = some (concat (dir ∷ path ∷ []))

xdg_dir : Environment → (name fallback folder : String) → Option String
unfolding set_variable below home_dir
xdg_dir env name fallback folder = elim (set_variable env name) [
  | some dir ↦ some (concat (dir ∷ folder ∷ []))
  | none ↦ below (home_dir env) fallback
]

unfoldable pub config_dir : Environment → Option String
unfolding xdg_dir
config_dir env = xdg_dir env "XDG_CONFIG_HOME" "/.config/stv_renew" "/stv_renew"

unfoldable pub cache_dir : Environment → Option String
unfolding xdg_dir
cache_dir env = xdg_dir env "XDG_CACHE_HOME" "/.cache/stv_renew" "/stv_renew"

unfoldable pub data_dir : Environment → Option String
unfolding xdg_dir
data_dir env = xdg_dir env "XDG_DATA_HOME" "/.local/share/stv_renew" "/stv_renew"

unfoldable pub download_dir : Environment → Option String
unfolding below home_dir
download_dir env = below (home_dir env) "/Downloads"

abbrev pub Files : Type 0
Files = String → Option String

-- What the file system lets the program do with a file: make the directories above it, open it to
-- write, tell whether it exists, open it to read, remove it.
pub record Access : Type 0 where
  pub prepares : String → Bool
  pub opens : String → Bool
  pub examines : String → Bool
  pub reads : String → Bool
  pub removes : String → Bool

abbrev pub put_file : String → Option String → Files → Files
put_file path content files q = if str_eq path q then content else files q

ends_in_slash : String → Bool
ends_in_slash String.[] = false
ends_in_slash (String.◌∷◌ c s) =
    let rest = ends_in_slash s in if is_empty s then code c == 47 else rest

-- `operator/` with a relative name.
unfoldable pub append_path : String → String → String
unfolding ends_in_slash
append_path dir name =
    if is_empty dir || ends_in_slash dir
    then concat (dir ∷ name ∷ [])
    else concat (dir ∷ "/" ∷ name ∷ [])

unfoldable pub token_file_path : Environment → Option String
unfolding config_dir append_path
token_file_path env = elim (config_dir env) [
  | none ↦ none
  | some dir ↦ some (append_path dir "tokens.txt")
]

unfoldable pub save :
    Environment → Access → (access_token refresh_token : String) → Files → Option Files
unfolding token_file_path
save env access access_token refresh_token files = elim (token_file_path env) [
  | none ↦ none
  | some path ↦
      if access.prepares path
      then some (
          if access.opens path
          then put_file path (some (concat (access_token ∷ "\n" ∷ refresh_token ∷ "\n" ∷ []))) files
          else files)
      else none
]

-- The characters up to the next line end, and what comes after it.
unfoldable pub read_line : String → String × String
read_line String.[] = ("", "")
read_line (String.◌∷◌ c s) =
    let (line, rest) = read_line s in if code c == 10 then ("", s) else (String.◌∷◌ c line, rest)

-- `std::getline`: fails when nothing is left.
unfoldable pub getline : String → Option (String × String)
unfolding read_line
getline String.[] = none
getline (String.◌∷◌ c s) = some (read_line (String.◌∷◌ c s))

both : String → Option (String × String) → Option (String × String)
both access none = none
both access (some (refresh, _)) =
    if is_empty access || is_empty refresh then none else some (access, refresh)

two_lines : Option (String × String) → Option (String × String)
unfolding both getline
two_lines none = none
two_lines (some (access, rest)) = both access (getline rest)

-- The tokens, if any; `none` outside: it throws.
unfoldable pub load : Environment → Access → Files → Option (Option (String × String))
unfolding token_file_path two_lines getline
load env access files = elim (token_file_path env) [
  | none ↦ none
  | some path ↦
      if access.examines path
      then elim (files path) [
        | none ↦ some none
        | some text ↦ some (if access.reads path then two_lines (getline text) else none)
      ]
      else none
]

unfoldable pub clear : Environment → Access → Files → Option Files
unfolding token_file_path
clear env access files = elim (token_file_path env) [
  | none ↦ none
  | some path ↦ some (if access.removes path then put_file path none files else files)
]

pub data Signal : Type 0 where
  user_email_changed : Signal
  logged_in_changed : Signal
  last_error_changed : Signal

-- The members of `AuthPresenter`, with the files and the signals sent.
pub record Session : Type 0 where
  pub logged_in : Bool
  pub user_email : String
  pub last_error : String
  pub files : Files
  pub signals : List Signal

abbrev signed_out : Files → Session
signed_out files = record {
  logged_in = false;
  user_email = "";
  last_error = "";
  files = files;
  signals = [];
}

-- The constructor.
unfoldable pub create_session : Environment → Access → Files → Session
unfolding load
create_session env access files = elim (load env access files) [
  | none ↦ record (signed_out files) { last_error = "token storage init failed" }
  | some none ↦ signed_out files
  | some (some _) ↦ record (signed_out files) { logged_in = true; user_email = "restored@local" }
]

-- The session after the call, and whether an exception left it.
unfoldable pub login :
    (String → String) → Environment → Access → (email password : String) → Session → Session × Bool
unfolding save
login trimmed env access email password s =
    if is_empty (trimmed email) || is_empty password
    then (
      record s {
        last_error = "email/password required";
        signals = s.signals ++ last_error_changed ∷ [];
      },
      false,
    )
    else elim (save env access "access_token_placeholder" "refresh_token_placeholder" s.files) [
      | none ↦ (s, true)
      | some files ↦ (
        record s {
          user_email = trimmed email;
          logged_in = true;
          last_error = "";
          files = files;
          signals = s.signals ++ user_email_changed ∷ logged_in_changed ∷ last_error_changed ∷ [];
        },
        false,
      )
    ]

unfoldable pub logout : Environment → Access → Session → Session × Bool
unfolding clear
logout env access s =
    let s' = record s { logged_in = false; user_email = ""; last_error = "" } in
    elim (clear env access s.files) [
      | none ↦ (s', true)
      | some files ↦ (
        record s' {
          files = files;
          signals = s.signals ++ logged_in_changed ∷ user_email_changed ∷ last_error_changed ∷ [];
        },
        false,
      )
    ]

pub data Op : Type 0 where
  logs_in : (email password : String) → Op
  logs_out : Op

unfoldable pub run : (String → String) → Environment → Access → Session → List Op → Session
unfolding login logout
run trimmed env access s [] = s
run trimmed env access s (logs_in email password ∷ ops) =
    run trimmed env access (login trimmed env access email password s).0 ops
run trimmed env access s (logs_out ∷ ops) = run trimmed env access (logout env access s).0 ops
